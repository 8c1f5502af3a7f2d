-- ===== src/Tests/Pools.antt =====
-- Pools of slices of up to 1000 bytes, and a log of three chunks.
use axxx.Prelude.{ℕ, ◌<◌, ◌≤◌, ◌*◌, ◌≡◌, refl, List, [], ◌∷◌, some, arith, ◌>>=◌}
use axxx.SlicePool.{Slice, SimpleSlicePool, new_multi_size_slice_pool, rent_slice}
use axxx.SlicePool.Pools.{PoolsOk}
use axxx.SlicePool.Renting.{
  Operation, rent, give_back, prune_all, perform_all, rent_slice-perform_all,
}
use axxx.ChunkStatus.{
  WaitReason, body, queue_to_write, disk_io, get_count, index, new_chunk_status_logger,
}
use axxx.ChunkStatus.Moves.{transitions, in_state}
use axxx.ChunkStatus.Counts.{get_count-transitions}

abbrev operations : List Operation
operations =
    rent 1000
    ∷ rent 3
    ∷ give_back (record { slice_length = 3; capacity = 4 })
    ∷ prune_all
    ∷ give_back (record { slice_length = 1000; capacity = 1024 })
    ∷ []

rent_slice-perform_all_example :
    (pools : List SimpleSlicePool) × (pools' : List SimpleSlicePool) × (s : Slice)
    × ((new_multi_size_slice_pool 1000 >>= perform_all operations) ≡ some pools)
    × PoolsOk 0 pools
    × (rent_slice 600 pools ≡ some (pools', s))
    × (s.slice_length ≡ 600)
    × (600 ≤ s.capacity)
    × (s.capacity < 2 * 600)
rent_slice-perform_all_example =
    rent_slice-perform_all 1000 600 operations (omega arith)
      (
        omega arith,
        omega arith,
        (omega arith, omega arith, ((2, refl, omega arith), ((10, refl, omega arith), tt))),
      )
      (omega arith) (omega arith)

abbrev moves : List (ℕ × WaitReason)
moves = (0, body) ∷ (1, body) ∷ (0, queue_to_write) ∷ (2, body) ∷ (1, body) ∷ (0, disk_io) ∷ []

positive : 0 < index body
unfolding index
positive = omega arith

get_count-transitions_example :
    get_count body (transitions moves (new_chunk_status_logger 3))
    ≡ in_state (index body) (transitions moves (new_chunk_status_logger 3)).wait_reason_index
get_count-transitions_example = get_count-transitions 3 moves body (omega arith) positive
