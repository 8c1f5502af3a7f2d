-- ===== src/Status/Laws.antt =====
-- What the final status of a job or of a part says about its transfers.
use axxx.Prelude.{◌≡◌, ◌↔◌, Bool, true, false, ◌||◌, arith}
use axxx.Prelude.Int.{is_neg}
use axxx.Status.{
  JobStatus, completed_with_errors, completed, completed_with_skipped,
  completed_with_errors_and_skipped, enhance_job_status_info, is_job_done, TransferStatus, code,
  should_transfer, success,
}

-- The final status always counts as done. It is `completed` exactly if nothing was skipped and
-- nothing failed, `completed_with_skipped` if something was skipped and nothing failed,
-- `completed_with_errors_and_skipped` if both happened, `completed_with_errors` if something
-- failed, nothing was skipped and something succeeded, and `failed` if something failed and that is
-- all.
pub enhance_reports :
    (skipped failed successful : Bool)
    → let s = enhance_job_status_info skipped failed successful in
      (is_job_done s ≡ true)
      × ((s ≡ completed) ↔ ((skipped || failed) ≡ false))
      × ((s ≡ completed_with_skipped) ↔ ((skipped ≡ true) × (failed ≡ false)))
      × ((s ≡ completed_with_errors_and_skipped) ↔ ((skipped ≡ true) × (failed ≡ true)))
      × ((s ≡ completed_with_errors) ↔ ((skipped ≡ false) × (failed ≡ true) × (successful ≡ true)))
      × ((s ≡ JobStatus.failed) ↔ ((skipped ≡ false) × (failed ≡ true) × (successful ≡ false)))
unfolding enhance_job_status_info is_job_done
enhance_reports a b c = ground arith

-- A transfer is sent again on a resume exactly if it neither failed nor succeeded.
pub should_transfer_iff :
    (s : TransferStatus)
    → (should_transfer s ≡ true) ↔ ((is_neg (code s) ≡ false) × (¬ (s ≡ success)))
unfolding should_transfer code
should_transfer_iff s = ground arith
