-- ===== src/Status.antt =====
-- common/fe-ste-models.go: the states of a job and of a transfer, and the numbers they are stored
-- as. `JobStatus` is a uint32 and `TransferStatus` an int32 in which a negative number is a
-- failure.
pub mod Laws
use axxx.Prelude.{Bool, true, false, ◌&&◌, if◌then◌else◌}
use axxx.Prelude.Int.{ℤ, pos, negsuc}

pub data JobStatus : Type 0 where
  in_progress paused cancelling cancelled completed completed_with_errors : JobStatus
  completed_with_skipped completed_with_errors_and_skipped failed : JobStatus

pub JobStatus-discrete : Discrete JobStatus
JobStatus-discrete = hlevel

-- The three flags are whether any transfer was skipped, failed and succeeded.
unfoldable pub enhance_job_status_info : Bool → Bool → Bool → JobStatus
enhance_job_status_info skipped_transfers failed_transfers successful_transfers =
    if failed_transfers && skipped_transfers
    then completed_with_errors_and_skipped
    else if failed_transfers
    then (if successful_transfers then completed_with_errors else failed)
    else if skipped_transfers
    then completed_with_skipped
    else completed

unfoldable pub is_job_done : JobStatus → Bool
is_job_done completed = true
is_job_done cancelled = true
is_job_done completed_with_skipped = true
is_job_done completed_with_errors = true
is_job_done completed_with_errors_and_skipped = true
is_job_done failed = true
is_job_done _ = false

pub data TransferStatus : Type 0 where
  not_started started success folder_created : TransferStatus
  failed blob_tier_failure skipped_entity_already_exists : TransferStatus
  skipped_blob_has_snapshots tier_availability_check_failure cancelled : TransferStatus

-- The int32 behind a status.
unfoldable pub code : TransferStatus → ℤ
code not_started = pos 0
code started = pos 1
code success = pos 2
code folder_created = pos 3
code failed = negsuc 0
code blob_tier_failure = negsuc 1
code skipped_entity_already_exists = negsuc 2
code skipped_blob_has_snapshots = negsuc 3
code tier_availability_check_failure = negsuc 4
code cancelled = negsuc 5

unfoldable pub should_transfer : TransferStatus → Bool
should_transfer not_started = true
should_transfer started = true
should_transfer folder_created = true
should_transfer _ = false
