-- ===== src/Writer/Books.antt =====
-- The memory that a chunk is granted is given back when the chunk never reaches the worker.
use axxx.Prelude.{ℕ, ◌+◌, ◌^◌, ◌<◌, ◌≡◌, true, List, map, none, arith}
use axxx.Limiter.{wait_until_add}
use axxx.Limiter.Sequential.{wait_until_add_grants}
use axxx.Writer.{
  Booking, Enqueue, taken, wait_to_schedule_chunk, enqueue_chunk, should_use_relaxed_ram_threshold,
}

module _ (strict : ℕ → ℕ) (size : ℕ) (seen : List ℕ) (b : Booking)
    (fits : b.limiter.value + size < 2 ^ 63) (reserved : b.current_reserved_capacity < 2 ^ 64)
    (active : b.active_chunk_count < 2 ^ 32)
    (granted : (wait_to_schedule_chunk strict size seen b).1 ≡ true) where
  wait_granted :
      (wait_until_add strict size (map should_use_relaxed_ram_threshold seen) b.limiter).1 ≡ true
  unfolding wait_to_schedule_chunk
  wait_granted = ground (arith, granted)

  -- A chunk is scheduled and then its body cannot be read, or the worker has ended: `EnqueueChunk`
  -- returns an error, and the limiter, the reserved capacity and the number of active chunks are as
  -- they were before the chunk was scheduled.
  pub enqueue-wait_to_schedule :
      (e : Enqueue)
      → ¬ (e ≡ taken)
      → ((enqueue_chunk size e (wait_to_schedule_chunk strict size seen b).0).0 ≡ b)
        × ¬ ((enqueue_chunk size e (wait_to_schedule_chunk strict size seen b).0).1 ≡ none)
  unfolding wait_to_schedule_chunk enqueue_chunk
  enqueue-wait_to_schedule e failed = ground (
    arith,
    wait_granted,
    wait_until_add_grants strict b.limiter size fits (map should_use_relaxed_ram_threshold seen)
        wait_granted,
  )
