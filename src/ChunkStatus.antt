-- ===== src/ChunkStatus.antt =====
-- common/chunkStatusLogger.go: how many chunks are in each state, and what the counts say of the
-- bottleneck. The state of a chunk is the index in its id; counts are int64, held as their bits.
-- The atomic operations of one transition are taken as one step. The log itself is left out.
pub mod Moves
pub mod Counts
use axxx.Prelude.{
  ℕ, ◌+◌, ◌-◌, ◌*◌, ◌%◌, ◌^◌, Bool, true, false, ◌&&◌, not, List, [], ◌∷◌, Option, none, some, map,
  ltb, leb, nat_beq, if◌then◌else◌, length, replicate, get_elem?, set,
}
use axxx.Limiter.{add64, sub64}

pub data WaitReason : Type 0 where
  nothing create_local_file ram_to_schedule worker_gr file_pacer : WaitReason
  header_response body body_re_read_due_to_mem body_re_read_due_to_speed sorting : WaitReason
  prior_chunk queue_to_write disk_io s2s_copy_on_wire epilogue xfer_start : WaitReason
  open_local_source modified_time_refresh lock_destination chunk_done cancelled : WaitReason

unfoldable pub index : WaitReason → ℕ
index nothing = 0
index create_local_file = 1
index ram_to_schedule = 2
index worker_gr = 3
index file_pacer = 4
index header_response = 5
index body = 6
index body_re_read_due_to_mem = 7
index body_re_read_due_to_speed = 8
index sorting = 9
index prior_chunk = 10
index queue_to_write = 11
index disk_io = 12
index s2s_copy_on_wire = 13
index epilogue = 14
index xfer_start = 15
index open_local_source = 16
index modified_time_refresh = 17
index lock_destination = 18
index chunk_done = 19
index cancelled = 20

-- `numWaitReasons`.
abbrev pub num_wait_reasons : ℕ
num_wait_reasons = 21

-- `wait_reason_index` are the states in the ids of the chunks.
pub record ChunkStatusLogger : Type 0 where
  pub counts : List ℕ
  pub wait_reason_index : List ℕ
  pub atomic_is_waiting_on_final_body_reads : Bool

-- The logger, and `n` new chunk ids.
unfoldable pub new_chunk_status_logger : ℕ → ChunkStatusLogger
new_chunk_status_logger n = record {
  counts = replicate num_wait_reasons 0;
  wait_reason_index = replicate n 0;
  atomic_is_waiting_on_final_body_reads = false;
}

-- `atomic.AddInt64(&counts[i], ...)`.
abbrev pub put_adjusted : (ℕ → ℕ) → ℕ → List ℕ → Option ℕ → List ℕ
put_adjusted f i counts none = counts
put_adjusted f i counts (some n) = set counts i (f n)

unfoldable pub adjust : (ℕ → ℕ) → ℕ → List ℕ → List ℕ
adjust f i counts = put_adjusted f i counts (get_elem? counts i)

-- The counts, for a chunk whose state was the index `old`.
unfoldable pub leave : ℕ → List ℕ → List ℕ
leave old counts =
    if ltb 0 old && ltb old (length counts) then adjust (λ n. sub64 n 1) old counts else counts

unfoldable pub enter : ℕ → List ℕ → List ℕ
enter new counts = if ltb new (length counts) then adjust (λ n. add64 n 1) new counts else counts

abbrev pub move_chunk : ℕ → WaitReason → ChunkStatusLogger → Option ℕ → ChunkStatusLogger
move_chunk c new_reason csl none = csl
move_chunk c new_reason csl (some old) = record csl {
  counts = enter (index new_reason) (leave old csl.counts);
  wait_reason_index = set csl.wait_reason_index c (index new_reason);
}

-- `countStateTransition` for chunk `c`; there is nothing to do for an id that was not made.
unfoldable pub count_state_transition : ℕ → WaitReason → ChunkStatusLogger → ChunkStatusLogger
count_state_transition c new_reason csl =
    move_chunk c new_reason csl (get_elem? csl.wait_reason_index c)

abbrev pub or_zero : Option ℕ → ℕ
or_zero none = 0
or_zero (some n) = n

-- `getCount`; the index is always in range.
unfoldable pub get_count : WaitReason → ChunkStatusLogger → ℕ
get_count reason csl = or_zero (get_elem? csl.counts (index reason))
