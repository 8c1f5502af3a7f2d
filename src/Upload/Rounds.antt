-- ===== src/Upload/Rounds.antt =====
-- One round of the loop, by what happens to its chunk, and an independent look at the answers.
use axxx.Prelude.{
  ℕ, zero, suc, ◌+◌, ◌%◌, ◌^◌, ◌<◌, ◌≡◌, refl, ap, ◌∙◌, Bool, true, false, ◌||◌, not, List, [], ◌∷◌,
  ◌++◌, Option, none, some, take, nat_beq, if◌then◌else◌, arith, Bool-cases, inl, inr,
}
use axxx.Limiter.{add64}
use axxx.Writer.{Bytes}
use axxx.Download.Chunks.{lt64, adjusted_chunk_size, schedule_chunks, chunk_of}
use axxx.Upload.{
  Source, Answers, ChunkFunc, upload, fails, Sending, is_dummy_chunk_in_empty_file, prefetch,
  run_prologue, chunk_func, count_chunk_id, send_chunk, send_loop,
}

-- The ids before the first chunk with trouble, those from it on, and whether the trouble is a
-- failure to read.
abbrev pub before_trouble : Answers → List (ℕ × ℕ) → List (ℕ × ℕ)
before_trouble a [] = []
before_trouble a ((start, size) ∷ ids) =
    if a.was_canceled start || a.prefetch_fails start
    then []
    else (start, size) ∷ before_trouble a ids

abbrev pub from_trouble : Answers → List (ℕ × ℕ) → List (ℕ × ℕ)
from_trouble a [] = []
from_trouble a ((start, size) ∷ ids) =
    if a.was_canceled start || a.prefetch_fails start
    then (start, size) ∷ ids
    else from_trouble a ids

abbrev pub read_fails : Answers → List (ℕ × ℕ) → Bool
read_fails a [] = false
read_fails a ((start, size) ∷ ids) =
    if a.was_canceled start
    then false
    else if a.prefetch_fails start
    then true
    else read_fails a ids

-- The uploads of chunks from the number `i` on.
abbrev pub uploads : Source → ℕ → List (ℕ × ℕ) → List ChunkFunc
uploads src i [] = []
uploads src i (id ∷ ids) =
    upload id i (chunk_of src.content id).contents (nat_beq src.num_chunks 1)
    ∷ uploads src ((i + 1) % 2 ^ 32) ids

-- The rounds of the loop for chunks that are known.
unfoldable pub send_all : Source → Answers → List (ℕ × ℕ) → Sending → List ChunkFunc × Sending
send_all src a [] st = ([], st)
send_all src a (id ∷ ids) st =
    let sent = send_chunk src a id st in
    let rest = send_all src a ids sent.1 in (sent.0 ∷ rest.0, rest.1)

not_dummy :
    (start size : ℕ) (b : Bool) → 0 < size → (b || is_dummy_chunk_in_empty_file start size) ≡ b
unfolding is_dummy_chunk_in_empty_file
not_dummy start size b h = ground arith

some_inj : {A : Type 0} {x y : A} → some x ≡ some y → x ≡ y
some_inj e = cc

first_of :
    (id : ℕ × ℕ) (rest : Option (List (ℕ × ℕ))) (ids : List (ℕ × ℕ))
    → (elim rest [ none ↦ none | some later ↦ some (id ∷ later) ]) ≡ some ids
    → (later : List (ℕ × ℕ)) × (rest ≡ some later) × (id ∷ later ≡ ids)
first_of id none ids e = cc
first_of id (some later) ids e = (later, refl, cc)

pub send_loop-schedule_chunks :
    (src : Source) (a : Answers) (fuel start : ℕ) (st : Sending) (ids : List (ℕ × ℕ))
    → 0 < src.src_size
    → schedule_chunks fuel src.src_size src.chunk_size start ≡ some ids
    → send_loop src a fuel start st ≡ some (send_all src a ids st)
unfolding send_loop schedule_chunks send_all
send_loop-schedule_chunks src a zero start st ids h e = cc
send_loop-schedule_chunks src a (suc fuel) start st ids h e =
    elim (Bool-cases (lt64 start src.src_size)) [
      | inr past ↦
          let empty : [] ≡ ids = some_inj (rw past at e) in
          rw (not_dummy start src.src_size (lt64 start src.src_size) h, past)
            (ap (λ x. some (send_all src a x st)) empty)
      | inl inside ↦
          let id : ℕ × ℕ = (start, adjusted_chunk_size src.src_size src.chunk_size start) in
          let (later, made, same) =
            first_of id
              (schedule_chunks fuel src.src_size src.chunk_size (add64 start src.chunk_size)) ids
              (rw inside at e) in
          let rest =
            send_loop-schedule_chunks src a fuel (add64 start src.chunk_size)
              (send_chunk src a id st).1 later h made in
          rw (not_dummy start src.src_size (lt64 start src.src_size) h, inside, rest)
            (ap (λ x. some (send_all src a x st)) same)
    ]

pub when : {A : Type 0} {b : Bool} (x y : A) → b ≡ true → (if b then x else y) ≡ x
when x y e = rw e refl

pub unless : {A : Type 0} {b : Bool} (x y : A) → b ≡ false → (if b then x else y) ≡ y
unless x y e = rw e refl

-- The prologue changes nothing that the chunks and the hash depend on.
pub record Like (st st' : Sending) : Type 0 where
  pub err : st'.prefetch_err ≡ st.prefetch_err
  pub hashed : st'.hashed ≡ st.hashed
  pub safe : st'.safe_to_use_hash ≡ st.safe_to_use_hash
  pub number : st'.chunk_id_count ≡ st.chunk_id_count

pub run_prologue-Like : (a : Answers) (start : ℕ) (st : Sending) → Like st (run_prologue a start st)
unfolding run_prologue
run_prologue-Like a start st = elim (Bool-cases (nat_beq start 0)) [
  | inl first ↦ rw first (record { err = refl; hashed = refl; safe = refl; number = refl })
  | inr later ↦ rw later (record { err = refl; hashed = refl; safe = refl; number = refl })
]

-- What a round does with the chunk and with the variables of the loop.
pub record Round (src : Source) (a : Answers) (id : ℕ × ℕ) (st : Sending) (cf : ChunkFunc)
    (err : Bool) (hashed : Bytes) (safe : Bool) : Type 0 where
  pub func : (send_chunk src a id st).0 ≡ cf
  pub err_after : (send_chunk src a id st).1.prefetch_err ≡ err
  pub hashed_after : (send_chunk src a id st).1.hashed ≡ hashed
  pub safe_after : (send_chunk src a id st).1.safe_to_use_hash ≡ safe
  pub number_after : (send_chunk src a id st).1.chunk_id_count ≡ (st.chunk_id_count + 1) % 2 ^ 32

failing_chunk :
    (src : Source) (a : Answers) (start size : ℕ) (st : Sending) (hashed : Bytes) (safe : Bool)
    → src.is_local ≡ true
    → (prefetch src a (start, size) st).prefetch_err ≡ true
    → (prefetch src a (start, size) st).hashed ≡ hashed
    → (prefetch src a (start, size) st).safe_to_use_hash ≡ safe
    → (prefetch src a (start, size) st).chunk_id_count ≡ st.chunk_id_count
    → Round src a (start, size) st (fails (start, size)) true hashed safe
unfolding send_chunk chunk_func count_chunk_id
failing_chunk src a start size st hashed safe l e h s n =
    let like = run_prologue-Like a start (prefetch src a (start, size) st) in
    let failed = like.err ∙ e in
    record {
      func = unless _ _ (ap not l) ∙ when _ _ failed;
      err_after = failed;
      hashed_after = like.hashed ∙ h;
      safe_after = like.safe ∙ s;
      number_after = ap (λ m. (m + 1) % 2 ^ 32) (like.number ∙ n);
    }

pub canceled_chunk :
    (src : Source) (a : Answers) (start size : ℕ) (st : Sending)
    → src.is_local ≡ true
    → a.was_canceled start ≡ true
    → Round src a (start, size) st (fails (start, size)) true st.hashed st.safe_to_use_hash
unfolding prefetch
canceled_chunk src a start size st l c =
    failing_chunk src a start size st st.hashed st.safe_to_use_hash l (rw (l, c) refl)
      (rw (l, c) refl) (rw (l, c) refl) (rw (l, c) refl)

pub chunk_after_error :
    (src : Source) (a : Answers) (start size : ℕ) (st : Sending)
    → src.is_local ≡ true
    → st.prefetch_err ≡ true
    → Round src a (start, size) st (fails (start, size)) true st.hashed st.safe_to_use_hash
unfolding prefetch
chunk_after_error src a start size st l h = elim (Bool-cases (a.was_canceled start)) [
  | inl c ↦ canceled_chunk src a start size st l c
  | inr c ↦
      let same : prefetch src a (start, size) st ≡ st =
        unless _ _ (ap not l) ∙ unless _ _ c ∙ when _ _ h in
      failing_chunk src a start size st st.hashed st.safe_to_use_hash l
        (ap (λ (x : Sending). x.prefetch_err) same ∙ h) (ap (λ (x : Sending). x.hashed) same)
        (ap (λ (x : Sending). x.safe_to_use_hash) same)
        (ap (λ (x : Sending). x.chunk_id_count) same)
]

pub unread_chunk :
    (src : Source) (a : Answers) (start size : ℕ) (st : Sending)
    → src.is_local ≡ true
    → st.prefetch_err ≡ false
    → a.was_canceled start ≡ false
    → a.prefetch_fails start ≡ true
    → Round src a (start, size) st (fails (start, size)) true st.hashed false
unfolding prefetch
unread_chunk src a start size st l h c f =
    let after : prefetch src a (start, size) st
        ≡ record st { prefetch_err = true; safe_to_use_hash = false } =
      unless _ _ (ap not l) ∙ unless _ _ c ∙ unless _ _ h ∙ when _ _ f in
    failing_chunk src a start size st st.hashed false l (ap (λ (x : Sending). x.prefetch_err) after)
      (ap (λ (x : Sending). x.hashed) after) (ap (λ (x : Sending). x.safe_to_use_hash) after)
      (ap (λ (x : Sending). x.chunk_id_count) after)

pub uploaded_chunk :
    (src : Source) (a : Answers) (start size : ℕ) (st : Sending)
    → src.is_local ≡ true
    → src.put_md5 ≡ true
    → st.prefetch_err ≡ false
    → a.was_canceled start ≡ false
    → a.prefetch_fails start ≡ false
    → Round src a
        (start, size)
        st
        (upload
          (start, size)
          st.chunk_id_count
          (chunk_of src.content (start, size)).contents
          (nat_beq src.num_chunks 1))
        false
        (st.hashed ++ (chunk_of src.content (start, size)).contents)
        st.safe_to_use_hash
unfolding prefetch send_chunk chunk_func count_chunk_id
uploaded_chunk src a start size st l m h c f =
    let buffer = (chunk_of src.content (start, size)).contents in
    let after : prefetch src a (start, size) st
        ≡ record st { hashed = st.hashed ++ buffer; ps = take 512 buffer } =
      unless _ _ (ap not l)
      ∙ unless _ _ c
      ∙ unless _ _ h
      ∙ unless _ _ f
      ∙ ap (λ (x : Bytes). record st { hashed = x; ps = take 512 buffer }) (when _ _ m) in
    let like = run_prologue-Like a start (prefetch src a (start, size) st) in
    let fine = like.err ∙ ap (λ (x : Sending). x.prefetch_err) after ∙ h in
    let number = like.number ∙ ap (λ (x : Sending). x.chunk_id_count) after in
    record {
      func =
          unless _ _ (ap not l)
          ∙ unless _ _ fine
          ∙ ap (λ i. upload (start, size) i buffer (nat_beq src.num_chunks 1)) number;
      err_after = fine;
      hashed_after = like.hashed ∙ ap (λ (x : Sending). x.hashed) after;
      safe_after = like.safe ∙ ap (λ (x : Sending). x.safe_to_use_hash) after;
      number_after = ap (λ m'. (m' + 1) % 2 ^ 32) number;
    }
