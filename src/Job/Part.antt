-- ===== src/Job/Part.antt =====
-- ste/mgr-JobPartMgr.go: the counters of a part, and what it reports to the job when its last
-- transfer is done. The counters are uint32.
use axxx.Prelude.{
  ℕ, ◌+◌, ◌%◌, ◌^◌, List, [], ◌∷◌, ◌++◌, Option, none, some, ltb, nat_beq, if◌then◌else◌,
}
use axxx.Status.{
  JobStatus, enhance_job_status_info, TransferStatus, success, skipped_entity_already_exists,
  skipped_blob_has_snapshots, blob_tier_failure,
}

abbrev pub u32 : ℕ → ℕ
u32 n = n % 2 ^ 32

pub record JobPartProgressInfo : Type 0 where
  pub transfers_completed : ℕ
  pub transfers_skipped : ℕ
  pub transfers_failed : ℕ

-- `num_transfers` and `part_status` are those of the plan.
pub record JobPartMgr : Type 0 where
  pub atomic_transfers_done : ℕ
  pub atomic_transfers_completed : ℕ
  pub atomic_transfers_skipped : ℕ
  pub atomic_transfers_failed : ℕ
  pub num_transfers : ℕ
  pub part_status : JobStatus

-- A status with no case of its own is only logged.
unfoldable pub update_job_part_progress : TransferStatus → JobPartMgr → JobPartMgr
update_job_part_progress success jpm = record jpm {
  atomic_transfers_completed = u32 (jpm.atomic_transfers_completed + 1);
}
update_job_part_progress TransferStatus.failed jpm = record jpm {
  atomic_transfers_failed = u32 (jpm.atomic_transfers_failed + 1);
}
update_job_part_progress blob_tier_failure jpm = record jpm {
  atomic_transfers_failed = u32 (jpm.atomic_transfers_failed + 1);
}
update_job_part_progress skipped_entity_already_exists jpm = record jpm {
  atomic_transfers_skipped = u32 (jpm.atomic_transfers_skipped + 1);
}
update_job_part_progress skipped_blob_has_snapshots jpm = record jpm {
  atomic_transfers_skipped = u32 (jpm.atomic_transfers_skipped + 1);
}
update_job_part_progress _ jpm = jpm

progress : JobPartMgr → JobPartProgressInfo
progress jpm = record {
  transfers_completed = jpm.atomic_transfers_completed;
  transfers_skipped = jpm.atomic_transfers_skipped;
  transfers_failed = jpm.atomic_transfers_failed;
}

-- The branch of the last transfer: the part's status is set, and the job is told.
finish : JobPartMgr → JobPartMgr × Option JobPartProgressInfo
unfolding progress
finish jpm =
    let jppi = progress jpm in
    (
      record jpm {
        part_status =
            enhance_job_status_info (ltb 0 jppi.transfers_skipped) (ltb 0 jppi.transfers_failed)
              (ltb 0 jppi.transfers_completed);
      },
      some jppi,
    )

-- `ReportTransferDone`, with the message that it sends to the job, if any.
unfoldable pub report_transfer_done :
    TransferStatus → JobPartMgr → JobPartMgr × Option JobPartProgressInfo
unfolding update_job_part_progress finish
report_transfer_done status jpm =
    let transfers_done = u32 (jpm.atomic_transfers_done + 1) in
    let jpm' =
      update_job_part_progress status (record jpm { atomic_transfers_done = transfers_done }) in
    if nat_beq transfers_done jpm.num_transfers then finish jpm' else (jpm', none)

abbrev pub to_list {ℓ} : {A : Type ℓ} → Option A → List A
to_list none = []
to_list (some a) = a ∷ []

-- The transfers of a part, each done with a status, and the messages that the job gets.
unfoldable pub report_all : List TransferStatus → JobPartMgr → JobPartMgr × List JobPartProgressInfo
report_all [] jpm = (jpm, [])
report_all (s ∷ ss) jpm =
    let (jpm', sent) = report_transfer_done s jpm in
    let (jpm'', later) = report_all ss jpm' in (jpm'', to_list sent ++ later)

unfoldable pub new_part : ℕ → JobPartMgr
new_part num_transfers = record {
  atomic_transfers_done = 0;
  atomic_transfers_completed = 0;
  atomic_transfers_skipped = 0;
  atomic_transfers_failed = 0;
  num_transfers = num_transfers;
  part_status = JobStatus.in_progress;
}
