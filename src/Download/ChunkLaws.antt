-- ===== src/Download/ChunkLaws.antt =====
-- The chunks that are scheduled make up the file, and there are as many as were announced.
use axxx.Prelude.{
  ℕ, zero, suc, ◌+◌, ◌-◌, ◌*◌, ◌/◌, ◌%◌, ◌^◌, ◌<◌, ◌≤◌, ◌≡◌, refl, ap, sym, List, [], ◌∷◌, map,
  some, arith, nat_beq, length, take, drop, take-append-drop, Bool-cases, inl, inr, append-nil,
}
use axxx.Limiter.{add64}
use native.Mathlib.Nat.{zero-add, suc-add, mod-add-div', mod-lt}
use axxx.Writer.{Bytes}
use axxx.Writer.Order.{Contiguous, contents_of}
use axxx.Download.Chunks.{number_of_chunks, adjusted_chunk_size, schedule_chunks, rounds, chunk_of}

length-take : {A : Type 0} (n : ℕ) (xs : List A) → n ≤ length xs → length (take n xs) ≡ n
length-take zero xs h = refl
length-take (suc n) [] h = omega arith
length-take (suc n) (x ∷ xs) h = omega (arith, length-take n xs (omega arith))

length-drop : {A : Type 0} (n : ℕ) (xs : List A) → length (drop n xs) ≡ length xs - n
length-drop zero xs = omega arith
length-drop (suc n) [] = omega arith
length-drop (suc n) (x ∷ xs) = omega (arith, length-drop n xs)

drop_none : {A : Type 0} (n : ℕ) → drop {A = A} n [] ≡ []
drop_none zero = refl
drop_none (suc n) = refl

drop-drop : {A : Type 0} (m n : ℕ) (xs : List A) → drop n (drop m xs) ≡ drop (m + n) xs
drop-drop zero n xs = rw (zero-add n)
drop-drop (suc m) n [] = rw (drop_none n, drop_none (suc m + n))
drop-drop (suc m) n (x ∷ xs) = rw (suc-add m n) (drop-drop m n xs)

take_all : {A : Type 0} (n : ℕ) (xs : List A) → length xs ≤ n → take n xs ≡ xs
take_all zero [] h = refl
take_all (suc n) [] h = refl
take_all zero (x ∷ xs) h = ground arith
take_all (suc n) (x ∷ xs) h = rw (take_all n xs (omega arith))

drop_all : {A : Type 0} (n : ℕ) (xs : List A) → length xs ≤ n → drop n xs ≡ []
drop_all zero [] h = refl
drop_all (suc n) [] h = refl
drop_all zero (x ∷ xs) h = ground arith
drop_all (suc n) (x ∷ xs) h = drop_all n xs (omega arith)

module _ (chunk n : ℕ) (content : Bytes) (positive : 0 < chunk)
    (enough : length content ≤ chunk * n) (tight : chunk * n < length content + chunk)
    (small : length content + chunk < 2 ^ 63) where
  last_chunk :
      (start : ℕ)
      → start < length content
      → length content ≤ start + chunk
      → adjusted_chunk_size (length content) chunk start ≡ length content - start
  unfolding adjusted_chunk_size
  last_chunk start inside last = ground arith

  full_chunk :
      (start : ℕ)
      → start + chunk ≤ length content
      → adjusted_chunk_size (length content) chunk start ≡ chunk
  unfolding adjusted_chunk_size
  full_chunk start room = ground arith

  -- What the loop schedules from `start`, when `d` chunks are left.
  record Rest (fuel d start : ℕ) : Type 0 where
    ids : List (ℕ × ℕ)
    made : schedule_chunks fuel (length content) chunk start ≡ some ids
    count : length ids ≡ d
    contiguous : Contiguous start (map (chunk_of content) ids)
    whole : contents_of (map (chunk_of content) ids) ≡ drop start content

  nothing_left :
      (fuel start : ℕ)
      → length content ≤ start
      → start < 2 ^ 63
      → schedule_chunks (suc fuel) (length content) chunk start ≡ some []
  unfolding schedule_chunks
  nothing_left fuel start past in_range = ground arith

  no_chunk : (fuel start : ℕ) → length content ≤ start → start < 2 ^ 63 → Rest (suc fuel) 0 start
  no_chunk fuel start past in_range = record {
    ids = [];
    made = nothing_left fuel start past in_range;
    count = refl;
    contiguous = tt;
    whole = sym (drop_all start content past);
  }

  length-chunk :
      (start size : ℕ)
      → start + size ≤ length content
      → length (take size (drop start content)) ≡ size
  length-chunk start size room =
      length-take size (drop start content) (omega (arith, length-drop start content))

  -- One round of the loop, which schedules a chunk.
  schedule_one :
      (fuel start size : ℕ) (ids : List (ℕ × ℕ))
      → start < length content
      → adjusted_chunk_size (length content) chunk start ≡ size
      → schedule_chunks fuel (length content) chunk (start + chunk) ≡ some ids
      → schedule_chunks (suc fuel) (length content) chunk start ≡ some ((start, size) ∷ ids)
  unfolding schedule_chunks
  schedule_one fuel start size ids inside e made =
      let next : add64 start chunk ≡ start + chunk = omega arith in
      rw (next, made, e) (ground arith)

  full_chunk_first :
      (fuel d start : ℕ)
      → start + chunk ≤ length content
      → Rest fuel d (start + chunk)
      → Rest (suc fuel) (suc d) start
  full_chunk_first fuel d start room r = record {
    ids = (start, chunk) ∷ r.ids;
    made = schedule_one fuel start chunk r.ids (omega arith) (full_chunk start room) r.made;
    count = ap suc r.count;
    contiguous = (
      refl,
      omega (arith, length-chunk start chunk room),
      rw (length-chunk start chunk room) r.contiguous,
    );
    whole =
        rw (r.whole, ← drop-drop start chunk content) (take-append-drop chunk (drop start content));
  }

  last_chunk_only :
      (fuel start : ℕ)
      → start < length content
      → length content ≤ start + chunk
      → Rest (suc (suc fuel)) 1 start
  last_chunk_only fuel start inside last =
      let rest = length content - start in
      record {
        ids = (start, rest) ∷ [];
        made =
            schedule_one (suc fuel) start rest [] inside (last_chunk start inside last)
              (nothing_left fuel (start + chunk) last (omega arith));
        count = refl;
        contiguous = (refl, omega (arith, length-chunk start rest (omega arith)), tt);
        whole =
            simp append-nil
              (take_all rest (drop start content) (omega (arith, length-drop start content)));
      }

  -- With `d` chunks to go, the loop is behind the first `k`.
  schedules : (d fuel k start : ℕ) → start ≡ chunk * k → k + d ≡ n → d < fuel → Rest fuel d start
  schedules d zero k start e s h = ground arith
  schedules zero (suc fuel) k start e s h =
      no_chunk fuel start (omega (arith, e, rw (← s) at enough, rw (← s) at tight))
        (omega (arith, e, rw (← s) at enough, rw (← s) at tight))
  schedules (suc zero) (suc zero) k start e s h = ground arith
  schedules (suc zero) (suc (suc fuel)) k start e s h =
      last_chunk_only fuel start (omega (arith, e, rw (← s) at enough, rw (← s) at tight))
        (omega (arith, e, rw (← s) at enough, rw (← s) at tight))
  schedules (suc (suc d)) (suc fuel) k start e s h =
      full_chunk_first fuel (suc d) start (omega (arith, e, rw (← s) at enough, rw (← s) at tight))
        (schedules (suc d) fuel (suc k) (start + chunk) (omega (arith, e)) (omega arith)
          (omega arith))

-- A download of a source with this content, with chunks that are not empty, within int64: the loop
-- ends and schedules as many chunks as were computed beforehand, so that the sanity check behind it
-- passes, which is at most one more than the quotient of the sizes; they follow one another without
-- gap or overlap, and together they are the source.
pub schedule_chunks-whole :
    (chunk : ℕ) (content : Bytes)
    → 0 < chunk
    → length content + chunk < 2 ^ 63
    → (ids : List (ℕ × ℕ)) × (schedule_chunks
          (rounds (length content) chunk)
          (length content)
          chunk
          0
        ≡ some ids)
      × (length ids % 2 ^ 32 ≡ number_of_chunks (length content) chunk)
      × (length ids ≤ length content / chunk + 1)
      × Contiguous 0 (map (chunk_of content) ids)
      × (contents_of (map (chunk_of content) ids) ≡ content)
unfolding rounds number_of_chunks
schedule_chunks-whole chunk content positive small =
    let q = length content / chunk in
    let r = length content % chunk in
    let division : r + q * chunk ≡ length content = mod-add-div' (length content) chunk in
    let less : r < chunk = mod-lt (length content) positive in
    let result =
      λ (n : ℕ) (enough : length content ≤ chunk * n) (tight : chunk * n < length content + chunk)
          (few : n < suc (suc q)).
        schedules chunk n content positive enough tight small n (suc (suc q)) 0 0 (omega arith)
          (omega arith) few in
    elim (Bool-cases (nat_beq r 0)) [
      | inl exact ↦
          let s = result q (ground (arith, division)) (ground (arith, division)) (omega arith) in
          (s.ids, s.made, rw exact (rw s.count), omega (arith, s.count), s.contiguous, s.whole)
      | inr more ↦
          let s =
            result (suc q) (ground (arith, division, less)) (ground (arith, division, less))
              (omega arith) in
          (
            s.ids,
            s.made,
            rw more (rw s.count (omega arith)),
            omega (arith, s.count),
            s.contiguous,
            s.whole,
          )
    ]
