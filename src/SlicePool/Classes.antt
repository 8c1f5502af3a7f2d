-- ===== src/SlicePool/Classes.antt =====
-- The size classes of the pools: each length belongs to the smallest power of two that it fits.
use axxx.Prelude.{
  ℕ, zero, suc, ◌*◌, ◌/◌, ◌%◌, ◌^◌, ◌<◌, ◌≤◌, ◌≡◌, refl, ap, ◌∙◌, false, some, if◌then◌else◌, arith,
  ltb, leb, nat_beq, lt-cases, Bool-cases, inl, inr, ◌≢◌,
}
use native.Mathlib.Nat.{pow-suc, pow-le-pow_right}
use axxx.SlicePool.{log2_floor, ones_count, get_slot_info}

pub double : (k : ℕ) → 2 ^ suc k ≡ 2 ^ k * 2
double k = pow-suc 2 k

positive : (k : ℕ) → 0 < 2 ^ k
positive zero = omega arith
positive (suc k) = omega (arith, double k, positive k)

log2_floor_lem :
    (fuel n : ℕ)
    → 0 < n
    → n < 2 ^ fuel
    → (2 ^ log2_floor fuel n ≤ n) × (n < 2 * 2 ^ log2_floor fuel n)
unfolding log2_floor
log2_floor_lem zero n h small = (omega arith, omega arith)
log2_floor_lem (suc fuel) n h small = elim (Bool-cases (ltb n 2)) [
  | inl one ↦ rw one (omega arith, ground (arith, one))
  | inr more ↦
      let big : 2 ≤ n = ground (arith, more) in
      let (low, high) = log2_floor_lem fuel (n / 2) (omega arith) (omega (arith, double fuel)) in
      let next = double (log2_floor fuel (n / 2)) in
      rw more (omega (arith, low, next), omega (arith, high, next))
]

ones_count_zero : (fuel : ℕ) → ones_count fuel 0 ≡ 0
unfolding ones_count
ones_count_zero zero = refl
ones_count_zero (suc fuel) = omega (arith, ones_count_zero fuel)

ones_count_none : (fuel n : ℕ) → n < 2 ^ fuel → ones_count fuel n ≡ 0 → n ≡ 0
unfolding ones_count
ones_count_none zero n small h = omega arith
ones_count_none (suc fuel) n small h =
    let half = ones_count_none fuel (n / 2) (omega (arith, double fuel)) (omega arith) in
    omega (arith, half)

-- A number with a single one is a power of two.
ones_count_one : (fuel n : ℕ) → n < 2 ^ fuel → ones_count fuel n ≡ 1 → n ≡ 2 ^ log2_floor fuel n
unfolding ones_count log2_floor
ones_count_one zero n small h = ground arith
ones_count_one (suc fuel) n small h = elim (Bool-cases (ltb n 2)) [
  | inl one ↦
      let low : n < 2 = ground (arith, one) in
      let none_half : n / 2 ≡ 0 = omega arith in
      let none_left : ones_count fuel (n / 2) ≡ 0 = rw none_half (ones_count_zero fuel) in
      rw one (omega (arith, none_left))
  | inr more ↦
      let half : n / 2 < 2 ^ fuel = omega (arith, double fuel) in
      elim (Bool-cases (nat_beq (n % 2) 0)) [
        | inl even ↦
            let e0 : n % 2 ≡ 0 = ground (arith, even) in
            let same = ones_count_one fuel (n / 2) half (omega arith) in
            rw more (omega (arith, double (log2_floor fuel (n / 2)), same, e0))
        | inr odd ↦
            let o1 : n % 2 ≢ 0 = ground (arith, odd) in
            let none_left = ones_count_none fuel (n / 2) half (omega arith) in
            ground (arith, more, none_left)
      ]
]

-- The powers of two have a single one.
ones_count_pow : (fuel k : ℕ) → k < fuel → ones_count fuel (2 ^ k) ≡ 1
unfolding ones_count
ones_count_pow zero k h = omega arith
ones_count_pow (suc fuel) zero h = omega (arith, ones_count_zero fuel)
ones_count_pow (suc fuel) (suc k) h =
    let half : 2 ^ suc k / 2 ≡ 2 ^ k = omega (arith, double k) in
    rw half (omega (arith, double k, ones_count_pow fuel k (omega arith)))

log2_floor_pow : (fuel k : ℕ) → k < fuel → log2_floor fuel (2 ^ k) ≡ k
unfolding log2_floor
log2_floor_pow zero k h = omega arith
log2_floor_pow (suc fuel) zero h = refl
log2_floor_pow (suc fuel) (suc k) h =
    let half : 2 ^ suc k / 2 ≡ 2 ^ k = omega (arith, double k) in
    rw (half, log2_floor_pow fuel k (omega arith)) (ground (arith, double k, positive k))

pub small_exponent : (k m : ℕ) → 2 ^ k < 2 ^ m → k < m
small_exponent k m h = elim (lt-cases k m) [
  | inl lt ↦ lt
  | inr le ↦
      (let grown : 2 ^ m ≤ 2 ^ k = pow-le-pow_right (omega arith) le in ground (arith, grown))
]

pub get_slot_info_pow :
    (slot : ℕ) → 2 ^ slot < 2 ^ 63 → get_slot_info (2 ^ slot) ≡ some (slot, 2 ^ slot)
unfolding get_slot_info
get_slot_info_pow slot small =
    let few = small_exponent slot 63 small in
    let some_bits : nat_beq (2 ^ slot) 0 ≡ false = ground (arith, positive slot) in
    let not_negative : leb (2 ^ 63) (2 ^ slot) ≡ false = ground (arith, small) in
    rw
      (
        some_bits,
        not_negative,
        ones_count_pow 64 slot (omega (arith, few)),
        log2_floor_pow 64 slot (omega (arith, few)),
      )
      refl

-- The slot of a length, as the branch of the code says.
slot_between :
    (n slot : ℕ)
    → 0 < n
    → n ≤ 2 ^ 62
    → (if nat_beq (ones_count 64 n) 1 then log2_floor 64 n else suc (log2_floor 64 n)) ≡ slot
    → (get_slot_info n ≡ some (slot, 2 ^ slot)) × (n ≤ 2 ^ slot) × (2 ^ slot < 2 * n)
unfolding get_slot_info
slot_between n slot h small e =
    let some_bits : nat_beq n 0 ≡ false = ground arith in
    let not_negative : leb (2 ^ 63) n ≡ false = ground arith in
    let (low, high) = log2_floor_lem 64 n h (omega arith) in
    let next = double (log2_floor 64 n) in
    let found : get_slot_info n ≡ some (slot, 2 ^ slot) = rw (some_bits, not_negative, e) refl in
    elim (Bool-cases (nat_beq (ones_count 64 n) 1)) [
      | inl one ↦
          let ones : ones_count 64 n ≡ 1 = ground (arith, one) in
          let exact = ones_count_one 64 n (omega arith) ones in
          let is_slot : log2_floor 64 n ≡ slot = rw one at e in
          (found, rw (← is_slot) (omega (arith, exact)), rw (← is_slot) (omega (arith, exact)))
      | inr several ↦
          let is_slot : suc (log2_floor 64 n) ≡ slot = rw several at e in
          let not_exact : n ≢ 2 ^ log2_floor 64 n = λ same.
            let ones =
              ap (ones_count 64) same
              ∙ ones_count_pow 64 (log2_floor 64 n)
                  (small_exponent (log2_floor 64 n) 64 (omega (arith, low))) in
            ground (arith, several, ones) in
          (
            found,
            rw (← is_slot) (omega (arith, high, next)),
            rw (← is_slot) (omega (arith, low, next, not_exact)),
          )
    ]

-- A length of 1 to 2^62 belongs to a slot whose slices have the smallest power of two that is not
-- below it as their capacity, so that less than half of a slice is unused, and a slice of that
-- capacity belongs to the same slot.
pub get_slot_info_lem :
    (n : ℕ)
    → 0 < n
    → n ≤ 2 ^ 62
    → (slot : ℕ) × (get_slot_info n ≡ some (slot, 2 ^ slot))
      × (n ≤ 2 ^ slot)
      × (2 ^ slot < 2 * n)
      × (get_slot_info (2 ^ slot) ≡ some (slot, 2 ^ slot))
get_slot_info_lem n h small =
    let (found, fits, tight) = slot_between n _ h small refl in
    (_, found, fits, tight, get_slot_info_pow _ (omega (arith, tight)))
