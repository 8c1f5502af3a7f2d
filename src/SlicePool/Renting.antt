-- ===== src/SlicePool/Renting.antt =====
-- The pools over any history of renting, returning and pruning.
use axxx.Prelude.{
  ℕ, suc, ◌*◌, ◌^◌, ◌<◌, ◌≤◌, ◌≡◌, refl, ap, ◌∙◌, List, [], ◌∷◌, Option, some, arith, length, set,
  bind_some,
}
use native.Mathlib.Nat.{add-zero}
use axxx.SlicePool.{
  Slice, SimpleSlicePool, get, put, get_slot_info, new_pools, new_multi_size_slice_pool, rent_slice,
  return_slice, prune,
}
use axxx.Prelude.{◌>>=◌}
use axxx.SlicePool.Classes.{double, get_slot_info_lem, get_slot_info_pow, small_exponent}
use axxx.SlicePool.Pools.{
  PoolsOk, get-PoolOk, put-PoolOk, found-PoolOk, set-PoolsOk, length-set, prune-PoolsOk,
  length-prune, new_pools-PoolsOk, length-new_pools, resize_lem,
}

-- What may be done with the pools.
pub data Operation : Type 0 where
  rent : ℕ → Operation
  give_back : Slice → Operation
  prune_all : Operation

-- One operation; a slice that is rented is in use.
pub perform : Operation → List SimpleSlicePool → Option (List SimpleSlicePool)
perform (rent n) pools =
    rent_slice n pools >>= λ (rented : List SimpleSlicePool × Slice). some rented.0
perform (give_back s) pools = return_slice s pools
perform prune_all pools = some (prune 0 pools)

pub perform_all : List Operation → List SimpleSlicePool → Option (List SimpleSlicePool)
perform_all [] pools = some pools
perform_all (o ∷ os) pools = perform o pools >>= perform_all os

-- Lengths up to the one that the pools were made for are rented, and slices are returned that have
-- the capacity of a slot for such a length.
abbrev pub Proper : ℕ → List Operation → Type 0
Proper max_length [] = Unit
Proper max_length (rent n ∷ os) = (0 < n) × (n ≤ max_length) × Proper max_length os
Proper max_length (give_back s ∷ os) =
    ((slot : ℕ) × (s.capacity ≡ 2 ^ slot) × (2 ^ slot < 2 * max_length)) × Proper max_length os
Proper max_length (prune_all ∷ os) = Proper max_length os

module _ (top max_length : ℕ) (fits : max_length ≤ 2 ^ top) (small : max_length ≤ 2 ^ 62) where
  in_range : (slot : ℕ) → 2 ^ slot < 2 * max_length → slot < suc top
  in_range slot h = small_exponent slot (suc top) (omega (arith, double top))

  rent_slice_lem :
      (n : ℕ) (pools : List SimpleSlicePool)
      → PoolsOk 0 pools
      → length pools ≡ suc top
      → 0 < n
      → n ≤ max_length
      → (pools' : List SimpleSlicePool) × (s : Slice) × (rent_slice n pools ≡ some (pools', s))
        × (s.slice_length ≡ n)
        × (n ≤ s.capacity)
        × (s.capacity < 2 * n)
        × PoolsOk 0 pools'
        × (length pools' ≡ suc top)
  unfolding rent_slice
  rent_slice_lem n pools ok count h le =
      let (slot, info, enough, tight, _) = get_slot_info_lem n h (omega arith) in
      let inside : slot < length pools = omega (arith, count, in_range slot (omega arith)) in
      let (p, found, ok0) = found-PoolOk 0 slot pools ok inside in
      let (taken_ok, fitting) = get-PoolOk slot p (rw (add-zero slot) at ok0) in
      let (s, resized, size, capacity) = resize_lem n slot (get p).1 fitting enough in
      (
        set pools slot (get p).0,
        s,
        bind_some _ info ∙ bind_some _ found ∙ bind_some _ resized,
        size,
        rw capacity enough,
        rw capacity tight,
        set-PoolsOk 0 slot pools (get p).0 ok (rw (add-zero slot) taken_ok),
        length-set pools slot (get p).0 ∙ count,
      )

  return_slice_lem :
      (s : Slice) (slot : ℕ) (pools : List SimpleSlicePool)
      → PoolsOk 0 pools
      → length pools ≡ suc top
      → s.capacity ≡ 2 ^ slot
      → 2 ^ slot < 2 * max_length
      → (pools' : List SimpleSlicePool) × (return_slice s pools ≡ some pools')
        × PoolsOk 0 pools'
        × (length pools' ≡ suc top)
  unfolding return_slice
  return_slice_lem s slot pools ok count e bound =
      let info = get_slot_info_pow slot (omega arith) in
      let inside : slot < length pools = omega (arith, count, in_range slot bound) in
      let (p, found, ok0) = found-PoolOk 0 slot pools ok inside in
      let after = put-PoolOk slot s p (rw (add-zero slot) at ok0) e in
      (
        set pools slot (put s p),
        bind_some _ (ap get_slot_info e ∙ info) ∙ bind_some _ found,
        set-PoolsOk 0 slot pools (put s p) ok (rw (add-zero slot) after),
        length-set pools slot (put s p) ∙ count,
      )

  perform_all_lem :
      (os : List Operation) (pools : List SimpleSlicePool)
      → PoolsOk 0 pools
      → length pools ≡ suc top
      → Proper max_length os
      → (pools' : List SimpleSlicePool) × (perform_all os pools ≡ some pools')
        × PoolsOk 0 pools'
        × (length pools' ≡ suc top)
  unfolding perform_all perform
  perform_all_lem [] pools ok count proper = (pools, refl, ok, count)
  perform_all_lem (rent n ∷ os) pools ok count (h, le, proper) =
      let (pools1, s, rented, _, _, _, ok1, count1) = rent_slice_lem n pools ok count h le in
      let (pools2, done, ok2, count2) = perform_all_lem os pools1 ok1 count1 proper in
      (pools2, bind_some _ (bind_some _ rented) ∙ done, ok2, count2)
  perform_all_lem (give_back s ∷ os) pools ok count ((slot, e, bound), proper) =
      let (pools1, returned, ok1, count1) = return_slice_lem s slot pools ok count e bound in
      let (pools2, done, ok2, count2) = perform_all_lem os pools1 ok1 count1 proper in
      (pools2, bind_some _ returned ∙ done, ok2, count2)
  perform_all_lem (prune_all ∷ os) pools ok count proper =
      perform_all_lem os (prune 0 pools) (prune-PoolsOk 0 pools ok) (length-prune 0 pools ∙ count)
        proper

-- Pools for lengths up to `max_length`, of 1 to 2^62, after any renting of lengths in that range,
-- returning of slices with capacities of the pools, and pruning: nothing of it panics, each pool
-- holds slices of its slot's capacity alone, at most 500 or 100 of them by its slot, and renting a
-- length in the range gives a slice of exactly that length whose capacity is less than twice as
-- large.
pub rent_slice-perform_all :
    (max_length n : ℕ) (os : List Operation)
    → max_length ≤ 2 ^ 62
    → Proper max_length os
    → 0 < n
    → n ≤ max_length
    → (pools : List SimpleSlicePool) × (pools' : List SimpleSlicePool) × (s : Slice)
      × ((new_multi_size_slice_pool max_length >>= perform_all os) ≡ some pools)
      × PoolsOk 0 pools
      × (rent_slice n pools ≡ some (pools', s))
      × (s.slice_length ≡ n)
      × (n ≤ s.capacity)
      × (s.capacity < 2 * n)
unfolding new_multi_size_slice_pool
rent_slice-perform_all max_length n os small proper h le =
    let (top, info, enough, _, _) = get_slot_info_lem max_length (omega arith) small in
    let (pools, done, ok, count) =
      perform_all_lem top max_length enough small os (new_pools (suc top) 0)
        (new_pools-PoolsOk (suc top) 0) (length-new_pools (suc top) 0) proper in
    let (pools', s, rented, size, fits, tight, _, _) =
      rent_slice_lem top max_length enough small n pools ok count h le in
    (
      pools,
      pools',
      s,
      bind_some (perform_all os) (bind_some _ info) ∙ done,
      ok,
      rented,
      size,
      fits,
      tight,
    )
