-- ===== src/Upload/Laws.antt =====
-- What the loop schedules and hashes: chunks before the first trouble are uploaded, the others
-- fail.
use axxx.Prelude.{
  ℕ, ◌+◌, ◌%◌, ◌^◌, ◌<◌, ◌≡◌, refl, sym, ◌∙◌, true, false, List, [], ◌∷◌, ◌++◌, map, if◌then◌else◌,
  arith, length, Bool-cases, inl, inr, append_assoc, append-nil,
}
use axxx.Writer.Order.{contents_of}
use axxx.Download.Chunks.{chunk_of}
use axxx.Upload.{Source, Answers, fails, Sending, prefetch, count_chunk_id, send_chunk}
use axxx.Upload.Rounds.{
  before_trouble, from_trouble, read_fails, uploads, send_all, run_prologue-Like, canceled_chunk,
  chunk_after_error, unread_chunk, uploaded_chunk,
}

-- Once there is an error, every chunk fails, and nothing is hashed any more.
send_all-failed :
    (src : Source) (a : Answers) (ids : List (ℕ × ℕ)) (st : Sending)
    → src.is_local ≡ true
    → st.prefetch_err ≡ true
    → ((send_all src a ids st).0 ≡ map fails ids)
      × ((send_all src a ids st).1.hashed ≡ st.hashed)
      × ((send_all src a ids st).1.safe_to_use_hash ≡ st.safe_to_use_hash)
unfolding send_all
send_all-failed src a [] st l h = (refl, refl, refl)
send_all-failed src a ((start, size) ∷ ids) st l h =
    let r = chunk_after_error src a start size st l h in
    let (funcs, hashed, safe) =
      send_all-failed src a ids (send_chunk src a (start, size) st).1 l r.err_after in
    (rw (r.func, funcs) refl, hashed ∙ r.hashed_after, safe ∙ r.safe_after)

prefetch-number :
    (src : Source) (a : Answers) (id : ℕ × ℕ) (st : Sending)
    → (prefetch src a id st).chunk_id_count ≡ st.chunk_id_count
unfolding prefetch
prefetch-number src a (start, size) st = ground arith

pub send_all-number :
    (src : Source) (a : Answers) (ids : List (ℕ × ℕ)) (st : Sending)
    → st.chunk_id_count < 2 ^ 32
    → (send_all src a ids st).1.chunk_id_count ≡ (st.chunk_id_count + length ids) % 2 ^ 32
unfolding send_all send_chunk count_chunk_id
send_all-number src a [] st h = omega arith
send_all-number src a ((start, size) ∷ ids) st h =
    let like = run_prologue-Like a start (prefetch src a (start, size) st) in
    let number = like.number ∙ prefetch-number src a (start, size) st in
    let rest =
      send_all-number src a ids (send_chunk src a (start, size) st).1 (omega (arith, number)) in
    omega (arith, number, rest)

-- The reference: what is scheduled and hashed from a state without an error.
pub send_all-reference :
    (src : Source) (a : Answers) (ids : List (ℕ × ℕ)) (st : Sending)
    → src.is_local ≡ true
    → src.put_md5 ≡ true
    → st.prefetch_err ≡ false
    → ((send_all src a ids st).0
        ≡ uploads src st.chunk_id_count (before_trouble a ids) ++ map fails (from_trouble a ids))
      × ((send_all src a ids st).1.hashed
          ≡ st.hashed ++ contents_of (map (chunk_of src.content) (before_trouble a ids)))
      × ((send_all src a ids st).1.safe_to_use_hash
          ≡ (if read_fails a ids then false else st.safe_to_use_hash))
unfolding send_all
send_all-reference src a [] st l m h = (refl, sym (append-nil _), refl)
send_all-reference src a ((start, size) ∷ ids) st l m h =
    let after = send_chunk src a (start, size) st in
    elim (Bool-cases (a.was_canceled start)) [
      | inl c ↦
          let r = canceled_chunk src a start size st l c in
          let (funcs, hashed, safe) = send_all-failed src a ids after.1 l r.err_after in
          rw c (
            rw (r.func, funcs) refl,
            hashed ∙ r.hashed_after ∙ sym (append-nil _),
            safe ∙ r.safe_after,
          )
      | inr c ↦ elim (Bool-cases (a.prefetch_fails start)) [
        | inl f ↦
            let r = unread_chunk src a start size st l h c f in
            let (funcs, hashed, safe) = send_all-failed src a ids after.1 l r.err_after in
            rw (c, f)
              (
                rw (r.func, funcs) refl,
                hashed ∙ r.hashed_after ∙ sym (append-nil _),
                safe ∙ r.safe_after,
              )
        | inr f ↦
            let r = uploaded_chunk src a start size st l m h c f in
            let (funcs, hashed, safe) = send_all-reference src a ids after.1 l m r.err_after in
            rw (c, f)
              (
                rw (r.func, funcs, r.number_after) refl,
                rw (hashed, r.hashed_after, append_assoc) refl,
                rw (safe, r.safe_after) refl,
              )
      ]
    ]
