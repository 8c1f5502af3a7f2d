-- ===== src/SlicePool.antt =====
-- common/multiSizeSlicePool.go: pools of byte slices by size class. A slice is its length and its
-- capacity; a pool is a channel, the list of the slices in it, oldest first, and its size. An index
-- out of range, a length below one and a slice bound behind the capacity are panics, which are
-- `none`.
pub mod Classes
pub mod Pools
pub mod Renting
use axxx.Prelude.{
  ℕ, zero, suc, ◌+◌, ◌-◌, ◌*◌, ◌/◌, ◌%◌, ◌^◌, Bool, true, false, not, List, [], ◌∷◌, ◌++◌, Option,
  none, some, ltb, leb, nat_beq, if◌then◌else◌, length, get_elem?, set, ◌>>=◌,
}

pub record Slice : Type 0 where
  pub slice_length : ℕ
  pub capacity : ℕ

pub record SimpleSlicePool : Type 0 where
  pub max_capacity : ℕ
  pub slices : List Slice

unfoldable pub new_simple_slice_pool : ℕ → SimpleSlicePool
new_simple_slice_pool max_capacity = record { max_capacity = max_capacity; slices = [] }

-- `Get`, on the size and the slices of a pool.
unfoldable pub receive : ℕ → List Slice → SimpleSlicePool × Option Slice
receive max_capacity [] = (record { max_capacity = max_capacity; slices = [] }, none)
receive max_capacity (s ∷ rest) = (record { max_capacity = max_capacity; slices = rest }, some s)

unfoldable pub get : SimpleSlicePool → SimpleSlicePool × Option Slice
get p = receive p.max_capacity p.slices

unfoldable pub put : Slice → SimpleSlicePool → SimpleSlicePool
put b p =
    if ltb (length p.slices) p.max_capacity then record p { slices = p.slices ++ b ∷ [] } else p

-- `63 - bits.LeadingZeros64(n)`, on fuel, and `bits.OnesCount64(n)`; 64 rounds are enough for 64
-- bits.
unfoldable pub log2_floor : ℕ → ℕ → ℕ
log2_floor zero n = 0
log2_floor (suc fuel) n = let rest = log2_floor fuel (n / 2) in if ltb n 2 then 0 else suc rest

unfoldable pub ones_count : ℕ → ℕ → ℕ
ones_count zero n = 0
ones_count (suc fuel) n = n % 2 + ones_count fuel (n / 2)

-- The slot and the capacity of its slices. A length with its top bit set is negative.
unfoldable pub get_slot_info : ℕ → Option (ℕ × ℕ)
get_slot_info exact_slice_length =
    let raw_slot_index = log2_floor 64 exact_slice_length in
    let is_exact_power_of_two = nat_beq (ones_count 64 exact_slice_length) 1 in
    let slot_index = if is_exact_power_of_two then raw_slot_index else suc raw_slot_index in
    if nat_beq exact_slice_length 0
    then none
    else if leb (2 ^ 63) exact_slice_length
    then none
    else some (slot_index, 2 ^ slot_index)

-- `indexOf32KSlot` is 15.
unfoldable pub holds_small_slices : ℕ → Bool
holds_small_slices slot_index = leb slot_index 15

unfoldable pub get_max_slice_count_in_pool : ℕ → ℕ
get_max_slice_count_in_pool slot_index = if holds_small_slices slot_index then 500 else 100

-- `NewMultiSizeSlicePool`: `count` pools from the slot `index` on.
unfoldable pub new_pools : ℕ → ℕ → List SimpleSlicePool
new_pools zero index = []
new_pools (suc count) index =
    new_simple_slice_pool (get_max_slice_count_in_pool index) ∷ new_pools count (suc index)

unfoldable pub new_multi_size_slice_pool : ℕ → Option (List SimpleSlicePool)
new_multi_size_slice_pool max_slice_length = do
  (max_slot_index, _) ← get_slot_info max_slice_length
  some (new_pools (suc max_slot_index) 0)

-- `s[0:n]`, which asks for a capacity of `n`.
unfoldable pub reslice : ℕ → Slice → Option Slice
reslice n s = if leb n s.capacity then some (record s { slice_length = n }) else none

-- The slice that `RentSlice` returns, for what the pool gave. It was cleared up to its capacity
-- before.
unfoldable pub resize : ℕ → ℕ → Option Slice → Option Slice
resize desired_size max_cap_in_slot none =
    some (record { slice_length = desired_size; capacity = max_cap_in_slot })
resize desired_size max_cap_in_slot (some typed_slice) = do
  cleared ← reslice max_cap_in_slot typed_slice
  reslice desired_size cleared

unfoldable pub rent_slice : ℕ → List SimpleSlicePool → Option (List SimpleSlicePool × Slice)
rent_slice desired_size pools = do
  (slot_index, max_cap_in_slot) ← get_slot_info desired_size
  pool ← get_elem? pools slot_index
  s ← resize desired_size max_cap_in_slot (get pool).1
  some (set pools slot_index (get pool).0, s)

unfoldable pub return_slice : Slice → List SimpleSlicePool → Option (List SimpleSlicePool)
return_slice s pools = do
  (slot_index, _) ← get_slot_info s.capacity
  pool ← get_elem? pools slot_index
  some (set pools slot_index (put s pool))

-- `Prune`, from the slot `index` on.
unfoldable pub prune : ℕ → List SimpleSlicePool → List SimpleSlicePool
prune index [] = []
prune index (pool ∷ pools) =
    let rest = prune (suc index) pools in
    (if holds_small_slices index then pool else (get pool).0) ∷ rest
