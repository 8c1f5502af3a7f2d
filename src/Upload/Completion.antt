-- ===== src/Upload/Completion.antt =====
-- The clean-up and the report at the end of an upload or a copy.
use axxx.Prelude.{
  ◌+◌, ◌≡◌, refl, ap, sym, ◌∙◌, Bool, false, ◌∷◌, some, inl, inr, if◌then◌else◌, Bool-cases,
}
use axxx.Status.{TransferStatus, success}
use axxx.Download.{
  JobPartTransferMgr, Report, hub_report, cancel, set_status, is_dead, is_live,
  report_transfer_done,
}
use axxx.Download.Epilogue.{notice_cancellation}
use axxx.Download.EpilogueLaws.{Ends, Keeps, status_of, set_status_lem}
use axxx.Upload.Rounds.{when, unless}
use axxx.Upload.Epilogue.{
  Sender, Calls, check_source, sender_epilogue, check_destination_length, is_not_started,
  common_sender_completion, finish_sending, epilogue_with_cleanup_send_to_remote,
}

lock_kept :
    (jptm : JobPartTransferMgr)
    → (set_status success jptm).atomic_dest_lock_held_indicator
      ≡ jptm.atomic_dest_lock_held_indicator
unfolding set_status
lock_kept jptm = refl

-- A report of a transfer that is as before but for its status.
reported-Ends :
    (deletes : Bool) (before ready : JobPartTransferMgr) (st : TransferStatus)
    → Keeps before ready
    → ready.atomic_dest_lock_held_indicator ≡ false
    → status_of ready ≡ st
    → Ends before (report_transfer_done deletes ready) st
unfolding report_transfer_done cancel
reported-Ends deletes before ready st keeps unlocked h =
    let report : Report = record {
      transfer_status = status_of ready;
      error_code = ready.job_part_plan_transfer.atomic_error_code;
      hub = hub_report deletes ready.job_part_plan_transfer;
    } in
    record {
      report = report;
      reported = ap (λ rs. report ∷ rs) keeps.same_reports;
      status = h;
      cancelled_ctx = refl;
      unlocked = unlocked;
      same_chunks = keeps.same_chunks;
    }

-- The completion reports the status that the checks left, and a transfer without failure as a
-- success.
completion-Ends :
    (s : Sender) (before jptm : JobPartTransferMgr) (st : TransferStatus)
    → Keeps before jptm
    → is_not_started (status_of jptm) ≡ false
    → status_of (if is_live jptm then set_status success jptm else jptm) ≡ st
    → (after : JobPartTransferMgr) × (common_sender_completion s jptm ≡ some after)
      × Ends before after st
unfolding common_sender_completion is_live is_dead
completion-Ends s before jptm st keeps begun h =
    let unlocked = record jptm { atomic_dest_lock_held_indicator = false } in
    elim (Bool-cases (is_live jptm)) [
      | inl live ↦
          let (status, _, kept) = set_status_lem success unlocked in
          let same = sym (set_status_lem success jptm).0 in
          (
            report_transfer_done s.deletes (set_status success unlocked),
            unless _ _ begun ∙ ap (λ x. some (report_transfer_done s.deletes x)) (when _ _ live),
            reported-Ends s.deletes before (set_status success unlocked) st
                (record {
                  same_reports = kept.same_reports ∙ keeps.same_reports;
                  same_chunks = kept.same_chunks ∙ keeps.same_chunks;
                  same_number = kept.same_number ∙ keeps.same_number;
                  same_done = kept.same_done ∙ keeps.same_done;
                  same_action = kept.same_action ∙ keeps.same_action;
                })
                (lock_kept unlocked) (status ∙ same ∙ ap status_of (sym (when _ jptm live)) ∙ h),
          )
      | inr dead ↦ (
        report_transfer_done s.deletes unlocked,
        unless _ _ begun ∙ ap (λ x. some (report_transfer_done s.deletes x)) (unless _ _ dead),
        reported-Ends s.deletes before unlocked st
            (record {
              same_reports = keeps.same_reports;
              same_chunks = keeps.same_chunks;
              same_number = keeps.same_number;
              same_done = keeps.same_done;
              same_action = keeps.same_action;
            })
            refl (ap status_of (sym (unless (set_status success jptm) jptm dead)) ∙ h),
      )
    ]

finished :
    (s : Sender) (jptm after : JobPartTransferMgr) (calls : Calls)
    → common_sender_completion s jptm ≡ some after
    → finish_sending s calls jptm
      ≡ some (
        after,
        record {
          epilogues = calls.epilogues + 1;
          cleanups =
              (if jptm.atomic_dest_lock_held_indicator then calls.cleanups + 1 else calls.cleanups);
        },
      )
unfolding finish_sending
finished s jptm after calls done = rw (finish_sending, done) refl

-- A transfer that has stopped with a status keeps it.
pub epilogue_after :
    (is_local : Bool) (s : Sender) (jptm noticed checked : JobPartTransferMgr) (calls : Calls)
    (st : TransferStatus)
    → notice_cancellation jptm ≡ noticed
    → check_destination_length s (sender_epilogue s (check_source is_local s noticed)) ≡ checked
    → Keeps jptm checked
    → is_not_started (status_of checked) ≡ false
    → status_of (if is_live checked then set_status success checked else checked) ≡ st
    → (after : JobPartTransferMgr) × (calls' : Calls) × (epilogue_with_cleanup_send_to_remote
          is_local s
          (jptm, calls)
        ≡ some (after, calls'))
      × Ends jptm after st
unfolding epilogue_with_cleanup_send_to_remote
epilogue_after is_local s jptm noticed checked calls st n c keeps begun h =
    let (after, done, ends) = completion-Ends s jptm checked st keeps begun h in
    (
      after,
      record {
        epilogues = calls.epilogues + 1;
        cleanups =
            (if checked.atomic_dest_lock_held_indicator
              then calls.cleanups + 1
              else calls.cleanups);
      },
      ap
            (λ j.
              finish_sending s calls
                (check_destination_length s (sender_epilogue s (check_source is_local s j))))
            n
          ∙ ap (finish_sending s calls) c
          ∙ finished s checked after calls done,
      ends,
    )
