-- ===== src/Download.antt =====
-- ste/mgr-JobPartTransferMgr.go: what the manager of a transfer keeps, and its operations: chunk
-- counts, statuses, cancellation, failures and the report that ends the transfer. Counters are
-- uint32 and int64, held as their bits. The atomic operations of one method are taken as one step.
-- Logging is left out.
pub mod Chunks
pub mod ChunkLaws
pub mod Whole
pub mod Md5
pub mod Epilogue
pub mod Start
pub mod EpilogueLaws
pub mod Checks
pub mod Outcome
pub mod Run
pub mod Counting
pub mod Reports
pub mod Md5Laws
pub mod Leftover
pub mod Transfer
use axxx.Prelude.{
  ℕ, ◌+◌, ◌-◌, ◌%◌, ◌^◌, Bool, true, false, List, ◌∷◌, ◌&&◌, ◌||◌, not, Option, none, some, nat_beq,
  if◌then◌else◌, get_elem?, set,
}
use axxx.Prelude.Int.{ℤ, pos, negsuc, is_neg}
use axxx.Status.{TransferStatus, success, skipped_entity_already_exists, code}
use axxx.Plan.{JobPartPlanTransfer, set_transfer_status, set_error_code, is_zero}
use axxx.Prelude.{◌>>=◌}
use axxx.Limiter.{add64, sub64}

-- What the event hub is told: the status of the job and the message for it.
pub data HubStatus : Type 0 where
  hub_failed hub_success : HubStatus

pub data HubMessage : Type 0 where
  job_failed file_skipped file_transferred not_found forbidden file_deleted : HubMessage

-- One call of `ReportTransferDone`: what the status manager, the part's manager and the hub get.
pub record Report : Type 0 where
  pub transfer_status : TransferStatus
  pub error_code : ℤ
  pub hub : HubStatus × HubMessage

-- `chunks_notified` are the flags of the chunk ids, `action_after_last_chunk` is whether there is
-- an action, `bytes_in_active_files` is the counter of the job, and `reports` has the latest report
-- first.
pub record JobPartTransferMgr : Type 0 where
  pub atomic_successful_bytes : ℕ
  pub atomic_chunks_done : ℕ
  pub atomic_completion_indicator : Bool
  pub atomic_dest_modified_indicator : Bool
  pub atomic_dest_lock_held_indicator : Bool
  pub job_part_plan_transfer : JobPartPlanTransfer
  pub canceled : Bool
  pub num_chunks : ℕ
  pub action_after_last_chunk : Bool
  pub chunks_notified : List Bool
  pub bytes_in_active_files : ℕ
  pub reports : List Report

unfoldable pub set_status : TransferStatus → JobPartTransferMgr → JobPartTransferMgr
set_status status jptm = record jptm {
  job_part_plan_transfer = set_transfer_status status false jptm.job_part_plan_transfer;
}

-- `SetErrorCode`, which does nothing for the code 0.
unfoldable pub set_code : ℤ → JobPartTransferMgr → JobPartTransferMgr
set_code error_code jptm = if is_zero error_code then jptm else record jptm {
  job_part_plan_transfer = set_error_code error_code false jptm.job_part_plan_transfer;
}

unfoldable pub cancel : JobPartTransferMgr → JobPartTransferMgr
cancel jptm = record jptm { canceled = true }

unfoldable pub set_destination_is_modified : JobPartTransferMgr → JobPartTransferMgr
set_destination_is_modified jptm = record jptm { atomic_dest_modified_indicator = true }

unfoldable pub is_dead : JobPartTransferMgr → Bool
is_dead jptm = is_neg (code jptm.job_part_plan_transfer.atomic_transfer_status) || jptm.canceled

unfoldable pub is_dead_before_start : JobPartTransferMgr → Bool
is_dead_before_start jptm = is_dead jptm && not jptm.atomic_dest_modified_indicator

unfoldable pub is_dead_inflight : JobPartTransferMgr → Bool
is_dead_inflight jptm = is_dead jptm && jptm.atomic_dest_modified_indicator

unfoldable pub is_live : JobPartTransferMgr → Bool
is_live jptm = not (is_dead jptm)

-- `failActiveTransfer` for an error with the given HTTP status code.
unfoldable pub fail_active_transfer : ℤ → TransferStatus → JobPartTransferMgr → JobPartTransferMgr
fail_active_transfer status failure_status jptm =
    if jptm.canceled then jptm else set_code status (set_status failure_status (cancel jptm))

abbrev pub int_beq : ℤ → ℤ → Bool
int_beq (pos a) (pos b) = nat_beq a b
int_beq (negsuc a) (negsuc b) = nat_beq a b
int_beq _ _ = false

-- The status and the message of the event hub; `deletes` is whether the task is a delta delete.
-- Each test that holds takes the place of what the ones before it said.
unfoldable pub hub_report : Bool → JobPartPlanTransfer → HubStatus × HubMessage
unfolding code
hub_report deletes t =
    let status = code t.atomic_transfer_status in
    let start : HubStatus × HubMessage = (hub_failed, job_failed) in
    let skips = if int_beq status (negsuc 2) then (hub_success, file_skipped) else start in
    let succeeds = if int_beq status (pos 2) then (hub_success, file_transferred) else skips in
    let missing =
      if int_beq t.atomic_error_code (pos 404) then (hub_failed, not_found) else succeeds in
    let refused =
      if int_beq t.atomic_error_code (pos 403) then (hub_failed, forbidden) else missing in
    if int_beq status (pos 2) && deletes then (hub_success, file_deleted) else refused

-- `ReportTransferDone`. A second call is only logged.
unfoldable pub report_transfer_done : Bool → JobPartTransferMgr → JobPartTransferMgr
report_transfer_done deletes jptm =
    let t = jptm.job_part_plan_transfer in
    record (cancel jptm) {
      atomic_completion_indicator = true;
      reports =
          record {
            transfer_status = t.atomic_transfer_status;
            error_code = t.atomic_error_code;
            hub = hub_report deletes t;
          }
          ∷ jptm.reports;
    }

unfoldable pub set_number_of_chunks : ℕ → JobPartTransferMgr → JobPartTransferMgr
set_number_of_chunks num_chunks jptm = record jptm { num_chunks = num_chunks }

unfoldable pub set_action_after_last_chunk : JobPartTransferMgr → JobPartTransferMgr
set_action_after_last_chunk jptm = record jptm { action_after_last_chunk = true }

-- `SetCompletionNotificationSent` of the id of chunk `i`; `none` is its panic at a second call, and
-- stands also for an id that was not made.
unfoldable pub set_completion_notification_sent : ℕ → JobPartTransferMgr → Option JobPartTransferMgr
set_completion_notification_sent i jptm = elim (get_elem? jptm.chunks_notified i) [
  | none ↦ none
  | some true ↦ none
  | some false ↦ some (record jptm { chunks_notified = set jptm.chunks_notified i true })
]

-- The bytes of a chunk count if the transfer is live.
unfoldable pub track_progress : ℕ → JobPartTransferMgr → JobPartTransferMgr
track_progress bytes jptm =
    if is_live jptm
    then record jptm {
      atomic_successful_bytes = add64 jptm.atomic_successful_bytes bytes;
      bytes_in_active_files = add64 jptm.bytes_in_active_files bytes;
    }
    else jptm

unfoldable pub count_chunk : ℕ → JobPartTransferMgr → JobPartTransferMgr
count_chunk bytes jptm =
    let tracked = track_progress bytes jptm in
    record tracked { atomic_chunks_done = (tracked.atomic_chunks_done + 1) % 2 ^ 32 }

-- A transfer with what else its action works on, `W`; the action may panic.
module _ {W : Type 0} (action : JobPartTransferMgr × W → Option (JobPartTransferMgr × W)) where
  unfoldable pub run_action_after_last_chunk :
      JobPartTransferMgr × W → Option (JobPartTransferMgr × W)
  run_action_after_last_chunk (jptm, w) =
      if jptm.action_after_last_chunk
      then (do
        (jptm', w') ← action (jptm, w)
        some (record jptm' { action_after_last_chunk = false }, w'))
      else some (jptm, w)

  -- What `ReportChunkDone` does for the last chunk.
  unfoldable pub last_chunk_done : JobPartTransferMgr × W → Option (JobPartTransferMgr × W)
  last_chunk_done (jptm, w) = do
    (jptm', w') ← run_action_after_last_chunk (jptm, w)
    some (
      record jptm' {
        bytes_in_active_files = sub64 jptm'.bytes_in_active_files jptm'.atomic_successful_bytes;
      },
      w',
    )

  -- `ReportChunkDone` for chunk `i`, of `bytes` bytes.
  unfoldable pub report_chunk_done :
      ℕ → ℕ → JobPartTransferMgr × W → Option (JobPartTransferMgr × W)
  report_chunk_done i bytes (jptm, w) = elim (set_completion_notification_sent i jptm) [
    | none ↦ none
    | some notified ↦
        let counted = count_chunk bytes notified in
        if nat_beq counted.atomic_chunks_done counted.num_chunks
        then last_chunk_done (counted, w)
        else some (counted, w)
  ]
