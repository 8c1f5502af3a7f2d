-- ===== src/SlicePool/Pools.antt =====
-- What one operation does to a pool and to the list of pools.
use axxx.Prelude.{
  ℕ, zero, suc, ◌+◌, ◌^◌, ◌<◌, ◌≤◌, ◌≡◌, refl, ap, ◌∙◌, true, List, [], ◌∷◌, ◌++◌, Option, none,
  some, arith, ltb, leb, Bool-cases, inl, inr, length, get_elem?, set, All, length-append,
  bind_some,
}
use native.Mathlib.Nat.{zero-add}
use axxx.SlicePool.{
  Slice, SimpleSlicePool, receive, new_simple_slice_pool, get, put, holds_small_slices,
  get_max_slice_count_in_pool, new_pools, reslice, resize, prune,
}

-- The pool of a slot has slices of the slot's capacity, and not more than it may.
pub record PoolOk (slot : ℕ) (p : SimpleSlicePool) : Type 0 where
  pub capacities : All (λ (s : Slice). s.capacity ≡ 2 ^ slot) p.slices
  pub room : length p.slices ≤ p.max_capacity
  pub bound : p.max_capacity ≡ get_max_slice_count_in_pool slot

abbrev pub PoolsOk : ℕ → List SimpleSlicePool → Type 0
PoolsOk slot [] = Unit
PoolsOk slot (p ∷ pools) = PoolOk slot p × PoolsOk (suc slot) pools

All-snoc :
    (P : Slice → Type 0) (xs : List Slice) (s : Slice) → All P xs → P s → All P (xs ++ s ∷ [])
All-snoc P [] s h p = (p, tt)
All-snoc P (x ∷ xs) s (h, hs) p = (h, All-snoc P xs s hs p)

-- What a pool gives, if anything, has the slot's capacity.
abbrev pub Fitting : ℕ → Option Slice → Type 0
Fitting slot none = Unit
Fitting slot (some s) = s.capacity ≡ 2 ^ slot

receive-PoolOk :
    (slot max_capacity : ℕ) (slices : List Slice)
    → All (λ (s : Slice). s.capacity ≡ 2 ^ slot) slices
    → length slices ≤ max_capacity
    → max_capacity ≡ get_max_slice_count_in_pool slot
    → PoolOk slot (receive max_capacity slices).0 × Fitting slot (receive max_capacity slices).1
unfolding receive
receive-PoolOk slot m [] all room bound =
    (record { capacities = tt; room = room; bound = bound }, tt)
receive-PoolOk slot m (s ∷ slices) (h, all) room bound =
    (record { capacities = all; room = omega arith; bound = bound }, h)

pub get-PoolOk :
    (slot : ℕ) (p : SimpleSlicePool)
    → PoolOk slot p
    → PoolOk slot (get p).0 × Fitting slot (get p).1
unfolding get
get-PoolOk slot p ok = receive-PoolOk slot p.max_capacity p.slices ok.capacities ok.room ok.bound

pub put-PoolOk :
    (slot : ℕ) (s : Slice) (p : SimpleSlicePool)
    → PoolOk slot p
    → s.capacity ≡ 2 ^ slot
    → PoolOk slot (put s p)
unfolding put
put-PoolOk slot s p ok e = elim (Bool-cases (ltb (length p.slices) p.max_capacity)) [
  | inl free ↦ rw free (record {
    capacities = All-snoc _ p.slices s ok.capacities e;
    room = ground (arith, free, length-append p.slices (s ∷ []));
    bound = ok.bound;
  })
  | inr full ↦ rw full ok
]

pub found-PoolOk :
    (base slot : ℕ) (pools : List SimpleSlicePool)
    → PoolsOk base pools
    → slot < length pools
    → (p : SimpleSlicePool) × (get_elem? pools slot ≡ some p) × PoolOk (slot + base) p
found-PoolOk base slot [] ok h = ground arith
found-PoolOk base zero (p ∷ pools) (ok, _) h = (p, refl, rw (zero-add base) ok)
found-PoolOk base (suc slot) (p ∷ pools) (_, ok) h =
    let (p', e, ok') = found-PoolOk (suc base) slot pools ok (omega arith) in
    let same : slot + suc base ≡ suc slot + base = omega arith in (p', e, rw (← same) ok')

pub set-PoolsOk :
    (base slot : ℕ) (pools : List SimpleSlicePool) (p : SimpleSlicePool)
    → PoolsOk base pools
    → PoolOk (slot + base) p
    → PoolsOk base (set pools slot p)
set-PoolsOk base slot [] p ok new = tt
set-PoolsOk base zero (q ∷ pools) p (_, ok) new = (rw (← zero-add base) new, ok)
set-PoolsOk base (suc slot) (q ∷ pools) p (h, ok) new =
    let same : slot + suc base ≡ suc slot + base = omega arith in
    (h, set-PoolsOk (suc base) slot pools p ok (rw same new))

pub length-set :
    (pools : List SimpleSlicePool) (slot : ℕ) (p : SimpleSlicePool)
    → length (set pools slot p) ≡ length pools
length-set [] slot p = refl
length-set (q ∷ pools) zero p = refl
length-set (q ∷ pools) (suc slot) p = ap suc (length-set pools slot p)

pub prune-PoolsOk :
    (base : ℕ) (pools : List SimpleSlicePool) → PoolsOk base pools → PoolsOk base (prune base pools)
unfolding prune
prune-PoolsOk base [] ok = tt
prune-PoolsOk base (p ∷ pools) (h, ok) = (
  elim (Bool-cases (holds_small_slices base)) [
    | inl small ↦ rw small h
    | inr large ↦ rw large (get-PoolOk base p h).0
  ],
  prune-PoolsOk (suc base) pools ok,
)

pub length-prune :
    (base : ℕ) (pools : List SimpleSlicePool) → length (prune base pools) ≡ length pools
unfolding prune
length-prune base [] = refl
length-prune base (p ∷ pools) = ap suc (length-prune (suc base) pools)

pub new_pools-PoolsOk : (count base : ℕ) → PoolsOk base (new_pools count base)
unfolding new_pools new_simple_slice_pool
new_pools-PoolsOk zero base = tt
new_pools-PoolsOk (suc count) base = (
  record { capacities = tt; room = omega arith; bound = refl },
  new_pools-PoolsOk count (suc base),
)

pub length-new_pools : (count base : ℕ) → length (new_pools count base) ≡ count
unfolding new_pools
length-new_pools zero base = refl
length-new_pools (suc count) base = ap suc (length-new_pools count (suc base))

reslice_lem :
    (n : ℕ) (s : Slice) → n ≤ s.capacity → reslice n s ≡ some (record s { slice_length = n })
unfolding reslice
reslice_lem n s h = let enough : leb n s.capacity ≡ true = ground arith in rw enough refl

pub resize_lem :
    (n slot : ℕ) (taken : Option Slice)
    → Fitting slot taken
    → n ≤ 2 ^ slot
    → (s : Slice) × (resize n (2 ^ slot) taken ≡ some s)
      × (s.slice_length ≡ n)
      × (s.capacity ≡ 2 ^ slot)
unfolding resize
resize_lem n slot none fitting enough = (_, refl, refl, refl)
resize_lem n slot (some s) e enough =
    let cleared : Slice = record s { slice_length = 2 ^ slot } in
    let reslices =
      bind_some (reslice n) (reslice_lem (2 ^ slot) s (omega (arith, e)))
      ∙ reslice_lem n cleared (omega (arith, e)) in
    (record s { slice_length = n }, reslices, refl, e)
