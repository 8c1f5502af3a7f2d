-- ===== src/Tests/Jobs.antt =====
-- Small jobs: their parts, their status and their summary.
use axxx.Prelude.{◌+◌, ◌≡◌, refl, true, false, List, [], ◌∷◌, ◌++◌, none, some, String, arith}
use axxx.Prelude.Assoc.{lookup}
use axxx.Status.{
  is_job_done, TransferStatus, success, skipped_entity_already_exists, in_progress, cancelling,
  cancelled, completed_with_errors, completed,
}
use axxx.Job.Part.{JobPartProgressInfo, report_all, new_part, u32}
use axxx.Job.PartLaws.{Reports, report_all-new_part}
use axxx.Job.Manager.{
  JobMgr, no_progress, job_status, report_job_part_done, cancel_pause_job_order, ok,
}
use axxx.Job.ManagerLaws.{Ended, report_parts, parts_end_job, cancel_ends}
use axxx.Job.Missing.{parts_missing}
use axxx.Job.Lifecycle.{part_done, cancel_or_pause, resume, StatusAfter, run, run_done}
use axxx.Job.Summary.{
  TransferDetail, ListJobSummaryResponse, Message, Manager, xfer_done, list_req,
  handle_status_update_message,
}
use axxx.Job.SummaryLaws.{
  delivered, failures, delivered-handle, counts-handle, count, is_success, failing, skipping,
}
use axxx.Job.TierLaws.{tier_failures, tier_message, tier_failures_hidden}

abbrev three_transfers : List TransferStatus
three_transfers = success ∷ TransferStatus.failed ∷ skipped_entity_already_exists ∷ []

report_all-new_part_example : Reports three_transfers (new_part 3) 0 0 0
report_all-new_part_example = report_all-new_part three_transfers (omega arith) (omega arith)

abbrev two_parts : JobMgr
two_parts = record {
  job_part_mgrs = (0, in_progress) ∷ (1, in_progress) ∷ [];
  atomic_final_part_ordered_indicator = true;
  parts_done = 0;
  job_progress_info = no_progress;
  xfer_done_closed = false;
  cancelled_ctx = false;
}

abbrev good : JobPartProgressInfo
good = record { transfers_completed = 2; transfers_skipped = 0; transfers_failed = 0 }

abbrev bad : JobPartProgressInfo
bad = record { transfers_completed = 0; transfers_skipped = 1; transfers_failed = 1 }

two_parts_status : job_status two_parts ≡ some in_progress
unfolding lookup
two_parts_status = refl

parts_end_job_example : Ended (report_parts (good ∷ bad ∷ []) two_parts) 2 1 1
parts_end_job_example =
    parts_end_job good (bad ∷ []) two_parts refl (omega arith) refl two_parts_status refl refl refl
      (omega arith) (omega arith) (omega arith)

parts_missing_example :
    (jm' : JobMgr) × (report_parts (good ∷ []) two_parts ≡ ok jm')
    × (job_status jm' ≡ some in_progress)
    × (jm'.xfer_done_closed ≡ false)
    × (jm'.parts_done ≡ 1)
    × (jm'.job_progress_info ≡ good)
parts_missing_example =
    parts_missing (good ∷ []) two_parts (omega arith) (omega arith) refl two_parts_status refl refl
      refl (omega arith) (omega arith) (omega arith)

abbrev last_part : JobMgr
last_part = record two_parts { atomic_final_part_ordered_indicator = false; parts_done = 1 }

last_part_status : job_status last_part ≡ some in_progress
unfolding lookup
last_part_status = refl

cancel_ends_example :
    (jm' : JobMgr) × (report_job_part_done bad none (cancel_pause_job_order cancelling last_part).0
      ≡ ok jm')
    × (job_status jm' ≡ some cancelled)
    × (jm'.cancelled_ctx ≡ true)
cancel_ends_example = cancel_ends bad last_part last_part_status refl (omega arith) refl

abbrev ended : JobMgr
ended = record two_parts {
  job_part_mgrs = (0, completed_with_errors) ∷ (1, completed) ∷ [];
  xfer_done_closed = true;
}

ended_status : job_status ended ≡ some completed_with_errors
unfolding lookup
ended_status = refl

run_done_example :
    let events = cancel_or_pause cancelling ∷ part_done bad none ∷ resume false ∷ [] in
    StatusAfter (run events ended) completed_with_errors
    × StatusAfter (run (events ++ resume true ∷ []) ended) in_progress
unfolding is_job_done
run_done_example =
    run_done (cancel_or_pause cancelling ∷ part_done bad none ∷ resume false ∷ []) ended
      completed_with_errors ended_status refl tt

abbrev no_summary : ListJobSummaryResponse
no_summary = record {
  complete_job_ordered = true;
  total_transfers = 3;
  file_transfers = 3;
  folder_property_transfers = 0;
  transfers_completed = 0;
  transfers_failed = 0;
  transfers_skipped = 0;
  total_bytes_transferred = 0;
  total_bytes_enumerated = 30;
  total_bytes_expected = 30;
  failed_transfers = [];
  skipped_transfers = [];
}

abbrev fresh : Manager
fresh = record {
  js = no_summary;
  all_xfer_done_handled = false;
  drained = false;
  done = false;
  answers = [];
}

abbrev detail : String → TransferStatus → TransferDetail
detail file status = record { src = file; dst = file; transfer_status = status; transfer_size = 10 }

abbrev messages : List Message
messages =
    xfer_done (detail "a" TransferStatus.failed)
    ∷ list_req
    ∷ xfer_done (detail "b" success)
    ∷ xfer_done (detail "c" TransferStatus.failed)
    ∷ []

abbrev hide : String → String
hide text = "REDACTED"

delivered-handle_example :
    delivered (handle_status_update_message hide messages fresh)
    ≡ delivered fresh ++ failures hide messages
delivered-handle_example = delivered-handle hide messages fresh tt refl refl

counts-handle_example :
    let js = (handle_status_update_message hide messages fresh).js in
    (u32 js.transfers_completed ≡ u32 (0 + count is_success messages))
    × (u32 js.transfers_failed ≡ u32 (0 + count failing messages))
    × (u32 js.transfers_skipped ≡ u32 (0 + count skipping messages))
counts-handle_example = counts-handle hide messages fresh tt refl refl

tier_failures_hidden_example :
    ((report_all (tier_failures 2) (new_part 2)).0.part_status ≡ completed)
    × (u32
          (handle_status_update_message hide
            (tier_message "a" ∷ tier_message "a" ∷ [])
            fresh).js.transfers_failed
        ≡ 2)
tier_failures_hidden_example =
    tier_failures_hidden 2 hide "a" fresh (omega arith) (omega arith) refl refl refl
