-- ===== src/ChunkStatus/Moves.antt =====
-- What one transition does to the counts.
use axxx.Prelude.{
  ℕ, zero, suc, ◌+◌, ◌^◌, ◌<◌, ◌≤◌, ◌≡◌, refl, ap, sym, ◌∙◌, false, ◌&&◌, List, [], ◌∷◌, some, ltb,
  nat_beq, if◌then◌else◌, length, length-replicate, get_elem?, set, arith, Bool-cases, Option-cases,
  inl, inr,
}
use axxx.Limiter.{add64, sub64}
use axxx.ChunkStatus.{
  WaitReason, num_wait_reasons, ChunkStatusLogger, new_chunk_status_logger, put_adjusted, adjust,
  leave, enter, count_state_transition,
}

some_inj : (m n : ℕ) → some m ≡ some n → m ≡ n
some_inj m n e = ground arith

pub few_states :
    (n : ℕ) → n < 2 ^ 63 → length (new_chunk_status_logger n).wait_reason_index < 2 ^ 63
unfolding new_chunk_status_logger
few_states n h = omega (arith, length-replicate {A = ℕ} n 0)

-- How many chunks have this index as their state.
abbrev pub in_state : ℕ → List ℕ → ℕ
in_state r [] = 0
in_state r (s ∷ states) = (if nat_beq s r then 1 else 0) + in_state r states

-- The state transitions of chunks, one after another.
abbrev pub transitions : List (ℕ × WaitReason) → ChunkStatusLogger → ChunkStatusLogger
transitions [] csl = csl
transitions ((c, reason) ∷ rest) csl = transitions rest (count_state_transition c reason csl)

pub in_state-set :
    (r old new c : ℕ) (states : List ℕ)
    → get_elem? states c ≡ some old
    → in_state r (set states c new) + (if nat_beq old r then 1 else 0)
      ≡ in_state r states + (if nat_beq new r then 1 else 0)
in_state-set r old new c [] h = cc
in_state-set r old new zero (s ∷ states) h =
    let same : s ≡ old = ground arith in rw same (omega arith)
in_state-set r old new (suc c) (s ∷ states) h = omega (arith, in_state-set r old new c states h)

pub in_state-le : (r : ℕ) (states : List ℕ) → in_state r states ≤ length states
in_state-le r [] = omega arith
in_state-le r (s ∷ states) = ground (arith, in_state-le r states)

get_elem?-set :
    (xs : List ℕ) (i j x : ℕ)
    → i < length xs
    → get_elem? (set xs i x) j ≡ (if nat_beq i j then some x else get_elem? xs j)
get_elem?-set [] i j x h = ground arith
get_elem?-set (y ∷ xs) zero zero x h = refl
get_elem?-set (y ∷ xs) zero (suc j) x h = ground arith
get_elem?-set (y ∷ xs) (suc i) zero x h = ground arith
get_elem?-set (y ∷ xs) (suc i) (suc j) x h = ground (arith, get_elem?-set xs i j x)

pub length-set : (xs : List ℕ) (i x : ℕ) → length (set xs i x) ≡ length xs
length-set [] i x = refl
length-set (y ∷ xs) zero x = refl
length-set (y ∷ xs) (suc i) x = ap suc (length-set xs i x)

get_elem?-some : (xs : List ℕ) (i : ℕ) → i < length xs → (x : ℕ) × (get_elem? xs i ≡ some x)
get_elem?-some [] i h = ground arith
get_elem?-some (x ∷ xs) zero h = (x, refl)
get_elem?-some (x ∷ xs) (suc i) h = get_elem?-some xs i (omega arith)

-- Each count but that of `Nothing` is the number of chunks in that state.
pub record Right (csl : ChunkStatusLogger) : Type 0 where
  pub size : length csl.counts ≡ num_wait_reasons
  pub right :
      (r : ℕ)
      → 0 < r
      → r < num_wait_reasons
      → get_elem? csl.counts r ≡ some (in_state r csl.wait_reason_index)

length-adjust : (f : ℕ → ℕ) (i : ℕ) (counts : List ℕ) → length (adjust f i counts) ≡ length counts
unfolding adjust
length-adjust f i counts = elim (Option-cases (get_elem? counts i)) [
  | inl e ↦ ap (λ o. length (put_adjusted f i counts o)) e
  | inr (n, e) ↦ ap (λ o. length (put_adjusted f i counts o)) e ∙ length-set counts i (f n)
]

adjust_lem :
    (f : ℕ → ℕ) (i j n : ℕ) (counts : List ℕ)
    → i < length counts
    → get_elem? counts j ≡ some n
    → get_elem? (adjust f i counts) j ≡ some (if nat_beq i j then f n else n)
unfolding adjust
adjust_lem f i j n counts h e =
    let (m, found) = get_elem?-some counts i h in
    let now =
      ap (λ o. get_elem? (put_adjusted f i counts o) j) found ∙ get_elem?-set counts i j (f m) h in
    now
    ∙ elim (Bool-cases (nat_beq i j))
        as (λ _.
          (if nat_beq i j then some (f m) else get_elem? counts j)
          ≡ some (if nat_beq i j then f n else n)) [
            | inl same ↦
                let one : i ≡ j = ground (arith, same) in
                let both : some m ≡ some n = sym found ∙ ap (get_elem? counts) one ∙ e in
                rw same (ap (λ o. some (f o)) (some_inj m n both))
            | inr other ↦ rw other e
          ]

pub leave_lem :
    (old r n : ℕ) (counts : List ℕ)
    → 0 < r
    → r < length counts
    → get_elem? counts r ≡ some n
    → get_elem? (leave old counts) r ≡ some (if nat_beq old r then sub64 n 1 else n)
unfolding leave
leave_lem old r n counts h lt e = elim (Bool-cases (ltb 0 old && ltb old (length counts))) [
  | inl counted ↦
      let inside : old < length counts = ground (arith, counted) in
      rw counted (adjust_lem (λ n. sub64 n 1) old r n counts inside e)
  | inr not_counted ↦
      let other : nat_beq old r ≡ false = ground (arith, not_counted) in rw (not_counted, other) e
]

pub enter_lem :
    (new r n : ℕ) (counts : List ℕ)
    → r < length counts
    → get_elem? counts r ≡ some n
    → get_elem? (enter new counts) r ≡ some (if nat_beq new r then add64 n 1 else n)
unfolding enter
enter_lem new r n counts lt e = elim (Bool-cases (ltb new (length counts))) [
  | inl counted ↦
      let inside : new < length counts = ground (arith, counted) in
      rw counted (adjust_lem (λ n. add64 n 1) new r n counts inside e)
  | inr not_counted ↦
      let other : nat_beq new r ≡ false = ground (arith, not_counted) in rw (not_counted, other) e
]

pub length-leave : (old : ℕ) (counts : List ℕ) → length (leave old counts) ≡ length counts
unfolding leave
length-leave old counts = elim (Bool-cases (ltb 0 old && ltb old (length counts))) [
  | inl counted ↦ rw counted (length-adjust (λ n. sub64 n 1) old counts)
  | inr not_counted ↦ rw not_counted refl
]

pub length-enter : (new : ℕ) (counts : List ℕ) → length (enter new counts) ≡ length counts
unfolding enter
length-enter new counts = elim (Bool-cases (ltb new (length counts))) [
  | inl counted ↦ rw counted (length-adjust (λ n. add64 n 1) new counts)
  | inr not_counted ↦ rw not_counted refl
]
