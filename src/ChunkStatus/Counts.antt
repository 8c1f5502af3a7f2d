-- ===== src/ChunkStatus/Counts.antt =====
-- The counts are those of the chunks, after any transitions.
use axxx.Prelude.{
  ℕ, zero, suc, ◌^◌, ◌<◌, ◌≡◌, refl, ap, sym, ◌∙◌, List, [], ◌∷◌, Option, none, some, nat_beq,
  if◌then◌else◌, length, replicate, get_elem?, set, arith, Option-cases, inl, inr,
}
use axxx.Limiter.{add64, sub64}
use axxx.ChunkStatus.{
  WaitReason, nothing, create_local_file, ram_to_schedule, worker_gr, file_pacer, header_response,
  body, body_re_read_due_to_mem, body_re_read_due_to_speed, sorting, prior_chunk, queue_to_write,
  disk_io, s2s_copy_on_wire, epilogue, xfer_start, open_local_source, modified_time_refresh,
  lock_destination, chunk_done, cancelled, index, num_wait_reasons, ChunkStatusLogger,
  new_chunk_status_logger, or_zero, leave, move_chunk, count_state_transition, get_count,
}
use axxx.ChunkStatus.Moves.{
  few_states, in_state, transitions, in_state-set, in_state-le, length-set, Right, leave_lem,
  enter_lem, length-leave, length-enter,
}

moved :
    (r old new c : ℕ) (states : List ℕ)
    → get_elem? states c ≡ some old
    → length states < 2 ^ 63
    → (if nat_beq new r
        then add64 (if nat_beq old r then sub64 (in_state r states) 1 else in_state r states) 1
        else (if nat_beq old r then sub64 (in_state r states) 1 else in_state r states))
      ≡ in_state r (set states c new)
moved r old new c states found few =
    let after = in_state-set r old new c states found in
    let without = in_state-set r old (suc r) c states found in
    let le = in_state-le r states in ground (arith, after, without, le)

move_chunk-Right :
    (c : ℕ) (reason : WaitReason) (old : ℕ) (csl : ChunkStatusLogger)
    → Right csl
    → length csl.wait_reason_index < 2 ^ 63
    → get_elem? csl.wait_reason_index c ≡ some old
    → Right (move_chunk c reason csl (some old))
      × (length (move_chunk c reason csl (some old)).wait_reason_index
          ≡ length csl.wait_reason_index)
move_chunk-Right c reason old csl h few found =
    let new = index reason in
    (
      record {
        size = length-enter new (leave old csl.counts) ∙ length-leave old csl.counts ∙ h.size;
        right = λ r positive lt.
            let n = in_state r csl.wait_reason_index in
            let inside : r < length csl.counts = omega (arith, h.size) in
            let left = leave_lem old r n csl.counts positive inside (h.right r positive lt) in
            enter_lem new r _ (leave old csl.counts)
              (omega (arith, inside, length-leave old csl.counts)) left
            ∙ ap some (moved r old new c csl.wait_reason_index found few);
      },
      length-set csl.wait_reason_index c new,
    )

count_state_transition_lem :
    (c : ℕ) (reason : WaitReason) (csl : ChunkStatusLogger) (o : Option ℕ)
    → get_elem? csl.wait_reason_index c ≡ o
    → count_state_transition c reason csl ≡ move_chunk c reason csl o
unfolding count_state_transition
count_state_transition_lem c reason csl o e = ap (move_chunk c reason csl) e

count_state_transition-Right :
    (c : ℕ) (reason : WaitReason) (csl : ChunkStatusLogger)
    → Right csl
    → length csl.wait_reason_index < 2 ^ 63
    → Right (count_state_transition c reason csl)
      × (length (count_state_transition c reason csl).wait_reason_index
          ≡ length csl.wait_reason_index)
count_state_transition-Right c reason csl h few =
    elim (Option-cases (get_elem? csl.wait_reason_index c)) [
      | inl missing ↦ rw (count_state_transition_lem c reason csl none missing) (h, refl)
      | inr (old, found) ↦
          rw (count_state_transition_lem c reason csl (some old) found)
            (move_chunk-Right c reason old csl h few found)
    ]

in_state-new : (r n : ℕ) → 0 < r → in_state r (replicate n 0) ≡ 0
in_state-new r zero h = refl
in_state-new r (suc n) h = ground (arith, in_state-new r n h)

transitions-Right :
    (moves : List (ℕ × WaitReason)) (csl : ChunkStatusLogger)
    → Right csl
    → length csl.wait_reason_index < 2 ^ 63
    → Right (transitions moves csl)
transitions-Right [] csl h few = h
transitions-Right ((c, reason) ∷ rest) csl h few =
    let (h', same) = count_state_transition-Right c reason csl h few in
    transitions-Right rest (count_state_transition c reason csl) h' (omega (arith, few, same))

replicated : (n r : ℕ) → r < n → get_elem? {A = ℕ} (replicate n 0) r ≡ some 0
replicated zero r h = ground arith
replicated (suc n) zero h = refl
replicated (suc n) (suc r) h = replicated n r (omega arith)

zeros :
    (r : ℕ)
    → 0 < r
    → r < num_wait_reasons
    → get_elem? {A = ℕ} (replicate num_wait_reasons 0) r ≡ some 0
zeros r h lt = replicated num_wait_reasons r lt

new-Right : (n : ℕ) → Right (new_chunk_status_logger n)
unfolding new_chunk_status_logger
new-Right n = record {
  size = refl;
  right = λ r h lt. zeros r h lt ∙ ap some (sym (in_state-new r n h));
}

index-lt : (reason : WaitReason) → index reason < num_wait_reasons
unfolding index
index-lt nothing = omega arith
index-lt create_local_file = omega arith
index-lt ram_to_schedule = omega arith
index-lt worker_gr = omega arith
index-lt file_pacer = omega arith
index-lt header_response = omega arith
index-lt body = omega arith
index-lt body_re_read_due_to_mem = omega arith
index-lt body_re_read_due_to_speed = omega arith
index-lt sorting = omega arith
index-lt prior_chunk = omega arith
index-lt queue_to_write = omega arith
index-lt disk_io = omega arith
index-lt s2s_copy_on_wire = omega arith
index-lt epilogue = omega arith
index-lt xfer_start = omega arith
index-lt open_local_source = omega arith
index-lt modified_time_refresh = omega arith
index-lt lock_destination = omega arith
index-lt chunk_done = omega arith
index-lt cancelled = omega arith

-- Whatever transitions fewer than 2^63 chunks make, in any order and even if a chunk is set to a
-- state again that it already has: the count of each state but the first is the number of chunks
-- that are in it.
pub get_count-transitions :
    (n : ℕ) (moves : List (ℕ × WaitReason)) (reason : WaitReason)
    → n < 2 ^ 63
    → 0 < index reason
    → get_count reason (transitions moves (new_chunk_status_logger n))
      ≡ in_state (index reason) (transitions moves (new_chunk_status_logger n)).wait_reason_index
unfolding get_count
get_count-transitions n moves reason few h =
    let known =
      (transitions-Right moves (new_chunk_status_logger n) (new-Right n) (few_states n few)).right
        (index reason) h (index-lt reason) in
    ap or_zero known
