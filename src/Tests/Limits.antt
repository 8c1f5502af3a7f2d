-- ===== src/Tests/Limits.antt =====
-- Memory that is limited, files written from chunks, and folders.
use axxx.Prelude.{
  String, ◌==◌, string_eq, if◌then◌else◌, ℕ, ◌/◌, ◌*◌, ◌≡◌, ◌≤◌, refl, Bool, true, false, List, [],
  ◌∷◌, ◌++◌, none, some, arith,
}
use axxx.Prelude.Int.{pos}
use axxx.Prelude.Assoc.{insert, lookup}
use axxx.Status.{code, not_started, in_progress}
use axxx.Limiter.{CacheLimiter, new_cache_limiter, try_add, effective_limit, wait_until_add}
use axxx.Limiter.Sequential.{wait_until_add_gives_up}
use axxx.Prelude.{total}
use axxx.Limiter.Concurrent.{
  Goroutine, held, in_counter, System, Step, start, held-le-limit, grant, here, next,
}
use axxx.Writer.{
  Bytes, FileChunk, Booking, ChunkedFileWriter, read_fails, wait_to_schedule_chunk, enqueue_chunk,
  should_use_relaxed_ram_threshold, worker_routine, running, finished, closed, new_writer,
  new_hasher,
}
use axxx.Writer.Arrivals.{arrivals, file-arrivals, file_complete}
use axxx.Writer.Books.{enqueue-wait_to_schedule}
use axxx.Destination.{Transfer, Locks}
use axxx.Destination.Exclusion.{Action, lock, unlock, run, holders, holders-run}
use axxx.Plan.{JobPartPlanTransfer, transfer}
use axxx.Folders.Deletion.{
  record_child_exists, record_child_deleted, request_deletion, try_deletion,
  new_folder_deletion_manager,
}
use axxx.Folders.DeletionLaws.{
  Call, call, child_exists, child_deleted, deletion_requested, calls, ready, tried, calls-attempts,
}
use axxx.Folders.Creation.{FolderTracker, overwrite_false, should_set_properties}
use axxx.Folders.CreationLaws.{
  create_then_register, register_then_create, create_then_register-register_then_create,
}

abbrev strict : ℕ → ℕ
strict n = n * 3 / 4

abbrev half_full : CacheLimiter
half_full = record { value = 50; limit = 100 }

wait_until_add_gives_up_example :
    (wait_until_add strict 40 (false ∷ false ∷ []) half_full).0 ≡ half_full
unfolding wait_until_add try_add effective_limit
wait_until_add_gives_up_example =
    wait_until_add_gives_up strict half_full 40 (omega arith) (false ∷ false ∷ []) refl

strict-le : (n : ℕ) → strict n ≤ n
strict-le n = omega arith

abbrev one_holds : System
one_holds = record {
  limiter = record { value = 60; limit = 100 };
  goroutines = Goroutine.holding 60 ∷ Goroutine.outside ∷ [];
}

one_grant : Step strict (start 100 2) one_holds
unfolding effective_limit new_cache_limiter
one_grant = grant 0 60 true refl (omega arith) refl

held-le-limit_example :
    (total held one_holds.goroutines ≤ 100)
    × (one_holds.limiter.value ≡ total in_counter one_holds.goroutines)
held-le-limit_example = held-le-limit strict strict-le 100 2 (omega arith) (next here one_grant)

abbrev never : Bytes → Bytes → Bool
never a b = false

abbrev first : FileChunk
first = record { offset_in_file = 0; id_length = 2; contents = 7 ∷ 8 ∷ [] }

abbrev second : FileChunk
second = record { offset_in_file = 2; id_length = 1; contents = 9 ∷ [] }

abbrev booked : Booking
booked = record {
  limiter = record { value = 3; limit = 100 };
  current_reserved_capacity = 3;
  active_chunk_count = 2;
}

file-arrivals_example :
    (w : ChunkedFileWriter) × (worker_routine never
        (new_hasher false true)
        (arrivals (second ∷ []))
        (running (new_writer booked))
      ≡ running w)
    × (w.file ≡ [])
    × (w.hashed ≡ w.file)
file-arrivals_example =
    file-arrivals never false true (λ content slice. refl) (first ∷ second ∷ []) (second ∷ [])
      booked (refl, omega arith, (refl, omega arith, tt)) (omega arith) (refl, tt)

file_complete_example :
    (w : ChunkedFileWriter) × (worker_routine never
        (new_hasher false true)
        (arrivals (second ∷ first ∷ []) ++ closed ∷ [])
        (running (new_writer booked))
      ≡ finished (7 ∷ 8 ∷ 9 ∷ []) w)
    × (w.file ≡ 7 ∷ 8 ∷ 9 ∷ [])
file_complete_example =
    file_complete never false true (λ content slice. refl) (first ∷ second ∷ [])
      (second ∷ first ∷ []) booked (refl, omega arith, (refl, omega arith, tt)) (omega arith)
      (refl, (refl, tt)) (refl, (refl, tt))

enqueue-wait_to_schedule_example :
    let booked' = (wait_to_schedule_chunk strict 10 (0 ∷ []) booked).0 in
    ((enqueue_chunk 10 read_fails booked').0 ≡ booked)
    × ¬ ((enqueue_chunk 10 read_fails booked').1 ≡ none)
unfolding wait_to_schedule_chunk wait_until_add try_add effective_limit
    should_use_relaxed_ram_threshold
enqueue-wait_to_schedule_example =
    enqueue-wait_to_schedule strict 10 (0 ∷ []) booked (omega arith) (omega arith) (omega arith)
      refl read_fails (λ e. cc)

abbrev folder_calls : List Call
folder_calls =
    child_exists ("b" ∷ "a" ∷ [])
    ∷ deletion_requested ("a" ∷ [])
    ∷ child_deleted ("b" ∷ "a" ∷ [])
    ∷ []

calls-attempts_example :
    tried
      ("a" ∷ [])
      (calls (λ before folder. false) folder_calls new_folder_deletion_manager).attempts
    ≡ true
unfolding ready calls call record_child_exists record_child_deleted request_deletion try_deletion
    lookup insert
calls-attempts_example = calls-attempts (λ before folder. false) folder_calls ("a" ∷ []) refl

abbrev folder_transfer : JobPartPlanTransfer
folder_transfer = record { atomic_transfer_status = not_started; atomic_error_code = pos 0 }

abbrev tracker : FolderTracker
tracker = record {
  plan = record {
    transfers = folder_transfer ∷ [];
    atomic_job_status = in_progress;
    atomic_part_status = in_progress;
  };
  contents = [];
  unregistered_but_created = [];
}

create_then_register_example :
    (create_then_register "/dev/null" "a" 0 tracker
      ≡ register_then_create "/dev/null" "a" 0 tracker)
    × ((g : FolderTracker) × (create_then_register "/dev/null" "a" 0 tracker ≡ some g)
        × (should_set_properties "/dev/null" (λ folder. false) "a" overwrite_false g ≡ some true))
unfolding lookup transfer code
create_then_register_example =
    create_then_register-register_then_create "/dev/null" "a" 0 tracker folder_transfer refl refl
      refl refl refl (λ folder. false) overwrite_false

abbrev lower_case : String → String
lower_case path = if path == "A" then "a" else path

abbrev equal_text : String → String → Bool
equal_text a b = a == b

abbrev transfer_to : String → Transfer
transfer_to path = record { destination = path; dest_lock_held = false }

abbrev two_transfers : Locks
two_transfers = record {
  exclusive_destination_map = record { keys = []; case_sensitive = false };
  file_count_limiter = half_full;
  transfers = transfer_to "a" ∷ transfer_to "A" ∷ [];
}

abbrev both_lock : List Action
both_lock = lock (true ∷ []) 0 ∷ lock (true ∷ []) 1 ∷ unlock 0 ∷ lock (true ∷ []) 1 ∷ []

holders-run_example :
    let s' = run equal_text lower_case strict "/dev/null" true both_lock two_transfers in
    holders equal_text lower_case s'.exclusive_destination_map.case_sensitive "a" s'.transfers ≤ 1
holders-run_example =
    holders-run equal_text lower_case strict "/dev/null" true both_lock two_transfers "a" refl
      (refl, (refl, tt))
