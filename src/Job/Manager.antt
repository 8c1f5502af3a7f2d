-- ===== src/Job/Manager.antt =====
-- ste/mgr-JobMgr.go: the parts of a job, its cancellation, and the handler that sets the job's
-- final status when the last part is done. The status of part 0 is the status of the job. A
-- goroutine that panics is `panic`. Counts of parts are uint32, sums of transfers are int.
use axxx.Prelude.{
  ℕ, ◌+◌, ◌%◌, ◌^◌, Bool, true, false, not, ◌&&◌, ◌||◌, List, [], Option, none, some, ltb, nat_beq,
  nat_eq, if◌then◌else◌, length,
}
use axxx.Prelude.Assoc.{lookup, insert}
use axxx.Status.{
  JobStatus, in_progress, paused, cancelling, cancelled, failed, enhance_job_status_info,
}
use axxx.Job.Part.{JobPartProgressInfo, u32}

pub data Outcome {ℓ} (A : Type ℓ) : Type ℓ where
  ok : A → Outcome A
  panic : Outcome A

infixl 5 ◌>>=◌
abbrev pub ◌>>=◌ {ℓ κ} : {A : Type ℓ} {B : Type κ} → Outcome A → (A → Outcome B) → Outcome B
ok a >>= f = f a
panic >>= f = panic

-- `job_part_mgrs` has the job status in the plan of each part. `xfer_done_closed` tells whether the
-- status manager's channel `xferDone` was closed, `cancelled_ctx` whether the job's context was.
pub record JobMgr : Type 0 where
  pub job_part_mgrs : List (ℕ × JobStatus)
  pub atomic_final_part_ordered_indicator : Bool
  pub parts_done : ℕ
  pub job_progress_info : JobPartProgressInfo
  pub xfer_done_closed : Bool
  pub cancelled_ctx : Bool

abbrev pub no_progress : JobPartProgressInfo
no_progress = record { transfers_completed = 0; transfers_skipped = 0; transfers_failed = 0 }

unfoldable pub new_job_mgr : JobMgr
new_job_mgr = record {
  job_part_mgrs = [];
  atomic_final_part_ordered_indicator = false;
  parts_done = 0;
  job_progress_info = no_progress;
  xfer_done_closed = false;
  cancelled_ctx = false;
}

abbrev pub is_cancelling : JobStatus → Bool
is_cancelling cancelling = true
is_cancelling _ = false

-- An int holds its bits; a positive one has its top bit clear.
abbrev pub int : ℕ → ℕ
int n = n % 2 ^ 64

abbrev pub int_pos : ℕ → Bool
int_pos n = ltb 0 n && ltb n (2 ^ 63)

unfoldable pub set_final_part_ordered : ℕ → Bool → JobMgr → Outcome JobMgr
set_final_part_ordered part_num is_final_part jm =
    if not is_final_part && jm.atomic_final_part_ordered_indicator && not (nat_beq part_num 0)
    then panic
    else ok (record jm { atomic_final_part_ordered_indicator = is_final_part })

-- The bookkeeping of `AddJobPart` and `AddJobOrder`; `job_status` is the one in the part's plan.
unfoldable pub add_job_part : ℕ → Bool → JobStatus → JobMgr → Outcome JobMgr
unfolding set_final_part_ordered
add_job_part part_num is_final_part job_status jm =
    set_final_part_ordered part_num is_final_part
      (record jm { job_part_mgrs = insert part_num job_status jm.job_part_mgrs })

unfoldable pub set_job_status : JobStatus → JobMgr → JobMgr
set_job_status status jm = record jm { job_part_mgrs = insert 0 status jm.job_part_mgrs }

abbrev pub job_status : JobMgr → Option JobStatus
job_status jm = lookup 0 jm.job_part_mgrs

unfoldable pub cancel_pause_job_order : JobStatus → JobMgr → JobMgr × Bool
unfolding set_job_status
cancel_pause_job_order desired_job_status jm = elim (job_status jm) [
  | none ↦ (jm, false)
  | some in_progress ↦
      (record (set_job_status desired_job_status jm) { cancelled_ctx = true }, true)
  | some paused ↦ (record (set_job_status desired_job_status jm) { cancelled_ctx = true }, true)
  | some cancelling ↦ (jm, true)
  | some _ ↦ (jm, false)
]

unfoldable pub add_progress : JobPartProgressInfo → JobPartProgressInfo → JobPartProgressInfo
add_progress a b = record {
  transfers_completed = int (a.transfers_completed + b.transfers_completed);
  transfers_skipped = int (a.transfers_skipped + b.transfers_skipped);
  transfers_failed = int (a.transfers_failed + b.transfers_failed);
}

unfoldable pub final_status : JobPartProgressInfo → JobStatus
final_status info =
    enhance_job_status_info (int_pos info.transfers_skipped) (int_pos info.transfers_failed)
      (int_pos info.transfers_completed)

-- The `switch` on the status as it is when all is done.
unfoldable pub conclude : Option JobStatus → JobPartProgressInfo → JobMgr → JobMgr
unfolding set_job_status final_status
conclude (some cancelling) info jm = set_job_status cancelled jm
conclude (some in_progress) info jm = set_job_status (final_status info) jm
conclude _ info jm = jm

-- What the handler does once all known parts are done and no more are to come.
unfoldable pub complete : JobMgr → Outcome JobMgr
unfolding conclude
complete jm =
    if jm.xfer_done_closed
    then panic
    else ok (record (conclude (job_status jm) jm.job_progress_info jm) {
      xfer_done_closed = true;
      parts_done = 0;
      job_progress_info = no_progress;
    })

-- A `CancelPauseJobOrder` of another goroutine, if one runs while the handler waits.
unfoldable pub concurrent_cancel : Option JobStatus → JobMgr → JobMgr
unfolding cancel_pause_job_order
concurrent_cancel none jm = jm
concurrent_cancel (some desired) jm = (cancel_pause_job_order desired jm).0

-- One message from `jobPartProgress`. `meanwhile` is what a cancel does between the handler's two
-- reads of the job's status.
unfoldable pub report_job_part_done :
    JobPartProgressInfo → Option JobStatus → JobMgr → Outcome JobMgr
unfolding add_progress complete concurrent_cancel
report_job_part_done part_progress_info meanwhile jm = elim (job_status jm) [
  | none ↦ panic
  | some status ↦
      let parts_done = u32 (jm.parts_done + 1) in
      let jm' = record jm {
        parts_done = parts_done;
        job_progress_info = add_progress jm.job_progress_info part_progress_info;
      } in
      let all_known_parts_done = nat_beq parts_done (u32 (length jm.job_part_mgrs)) in
      let should_complete =
        all_known_parts_done && (jm.atomic_final_part_ordered_indicator || is_cancelling status) in
      let jm'' = concurrent_cancel meanwhile jm' in
      if should_complete then complete jm'' else ok jm''
]

-- The message that ends the handler: it panics if the job has not ended.
unfoldable pub report_cancel : JobMgr → Outcome JobMgr
report_cancel jm = elim (job_status jm) [
  | some in_progress ↦ panic
  | some cancelling ↦ panic
  | _ ↦ ok jm
]

-- `Reset`, which `ResumeTransfers` calls.
unfoldable pub reset : JobMgr → JobMgr
reset jm = record jm { parts_done = 0; cancelled_ctx = false }

-- The end of `ResumeJobOrder` of jobsAdmin/init.go for a job with this status, which lets
-- through every status but `Failed`. A job that was cancelling is set to cancelled in between.
unfoldable pub resume_with_status : JobStatus → JobMgr → JobMgr × Bool
unfolding set_job_status reset
resume_with_status failed jm = (jm, false)
resume_with_status cancelling jm =
    (reset (set_job_status in_progress (set_job_status cancelled jm)), true)
resume_with_status _ jm = (reset (set_job_status in_progress jm), true)

-- `ResumeJobOrder`; `accepted` is whether the job is known and completely ordered and the request
-- has the credentials that it needs. The statuses of its transfers are in the plans.
unfoldable pub resume_job_order : Bool → JobMgr → JobMgr × Bool
unfolding resume_with_status
resume_job_order false jm = (jm, false)
resume_job_order true jm = elim (job_status jm) [
  | none ↦ (jm, false)
  | some status ↦ resume_with_status status jm
]
