-- ===== src/Upload/EpilogueLaws.antt =====
-- The status that the epilogue of an upload or a copy reports.
use axxx.Prelude.{
  ◌≡◌, refl, ap, ◌∙◌, Bool, true, false, none, some, inl, inr, if◌then◌else◌, arith, Bool-cases,
  Option-cases,
}
use axxx.Prelude.Int.{ℤ}
use axxx.Status.{TransferStatus, success, failed, cancelled}
use axxx.Plan.{morph_status}
use axxx.Download.{JobPartTransferMgr, set_status, is_live, fail_active_transfer}
use axxx.Download.Epilogue.{notice_cancellation}
use axxx.Download.EpilogueLaws.{Ends, Keeps, status_of, set_status_lem, morph_started}
use axxx.Download.Checks.{Fresh, Keeps-refl, is_live-Fresh, not_live_stopped}
use axxx.Download.Run.{
  Failure, in_general, setting_tier, checking_tier, failure_status, Fate, unharmed, has_failed,
  was_cancelled, outcome, Fares,
}
use axxx.Download.Counting.{morph_failed}
use axxx.Upload.Rounds.{when, unless}
use axxx.Upload.Epilogue.{
  Sender, Calls, check_source, sender_epilogue, check_destination_length, is_not_started,
  epilogue_with_cleanup_send_to_remote,
}
use axxx.Upload.Verdict.{
  source_same, length_right, committed_status, send_verdict, starts, Stopped, stops,
  check_source_same, check_source_changed, sender_epilogue_stopped, check_length_stopped,
  check_length_right, check_length_wrong,
}
use axxx.Upload.Completion.{epilogue_after}

check_source_stopped :
    (is_local : Bool) (s : Sender) (jptm : JobPartTransferMgr)
    → jptm.canceled ≡ true
    → check_source is_local s jptm ≡ jptm
unfolding check_source
check_source_stopped is_local s jptm h = rw (not_live_stopped jptm h) refl

-- A transfer that was cancelled, or failed before.
epilogue_stopped :
    (is_local : Bool) (s : Sender) (jptm : JobPartTransferMgr) (calls : Calls) (st : TransferStatus)
    → jptm.canceled ≡ true
    → morph_status cancelled false (status_of jptm) ≡ st
    → is_not_started st ≡ false
    → (after : JobPartTransferMgr) × (calls' : Calls) × (epilogue_with_cleanup_send_to_remote
          is_local s
          (jptm, calls)
        ≡ some (after, calls'))
      × Ends jptm after st
unfolding notice_cancellation
epilogue_stopped is_local s jptm calls st h m begun =
    let noticed = set_status cancelled jptm in
    let (status, context, keeps) = set_status_lem cancelled jptm in
    let stopped = context ∙ h in
    epilogue_after is_local s jptm noticed noticed calls st (rw h refl)
      (rw
        (
          check_source_stopped is_local s noticed stopped,
          sender_epilogue_stopped s noticed stopped,
          check_length_stopped s noticed stopped,
        )
        refl)
      keeps (rw (status, m) begun) (rw (not_live_stopped noticed stopped) (status ∙ m))

-- What the checks and the sender's epilogue leave of a transfer without harm.
record Checked (jptm checked : JobPartTransferMgr) (st : TransferStatus) : Type 0 where
  keeps : Keeps jptm checked
  begun : is_not_started (status_of checked) ≡ false
  ends_as : status_of (if is_live checked then set_status success checked else checked) ≡ st

Stopped-Checked :
    (before jptm : JobPartTransferMgr) (st : TransferStatus)
    → Stopped before jptm st
    → is_not_started st ≡ false
    → Checked before jptm st
Stopped-Checked before jptm st h begun = record {
  keeps = h.keeps;
  begun = rw h.status begun;
  ends_as = rw (not_live_stopped jptm h.stopped) h.status;
}

Fresh-Checked : (jptm : JobPartTransferMgr) → Fresh jptm → Checked jptm jptm success
Fresh-Checked jptm h = record {
  keeps = Keeps-refl jptm;
  begun = rw h.status refl;
  ends_as =
      rw (is_live-Fresh jptm h)
        ((set_status_lem success jptm).0 ∙ morph_started success (status_of jptm) h.status);
}

Checked-same :
    (jptm checked checked' : JobPartTransferMgr) (st st' : TransferStatus)
    → checked' ≡ checked
    → st' ≡ st
    → Checked jptm checked st
    → Checked jptm checked' st'
Checked-same jptm checked checked' st st' e e' h = rw (e, e') h

sender_epilogue-none :
    (s : Sender) (jptm : JobPartTransferMgr) → s.commit ≡ none → sender_epilogue s jptm ≡ jptm
unfolding sender_epilogue
sender_epilogue-none s jptm e = rw e refl

sender_epilogue_fails :
    (s : Sender) (jptm : JobPartTransferMgr) (failure : ℤ × TransferStatus)
    → Fresh jptm
    → s.commit ≡ some failure
    → sender_epilogue s jptm ≡ fail_active_transfer failure.0 failure.1 jptm
unfolding sender_epilogue
sender_epilogue_fails s jptm failure fresh e = rw (e, is_live-Fresh jptm fresh) refl

check_length-Checked :
    (s : Sender) (jptm : JobPartTransferMgr)
    → Fresh jptm
    → Checked jptm (check_destination_length s jptm) (if length_right s then success else failed)
check_length-Checked s jptm fresh = elim (Bool-cases (length_right s)) [
  | inl right ↦
      Checked-same jptm jptm _ success _ (check_length_right s jptm right) (when _ _ right)
        (Fresh-Checked jptm fresh)
  | inr wrong ↦
      Checked-same jptm (check_destination_length s jptm) _ failed _ refl (unless _ _ wrong)
        (Stopped-Checked jptm _ failed (check_length_wrong s jptm fresh wrong) refl)
]

sender_epilogue-Checked :
    (s : Sender) (jptm : JobPartTransferMgr)
    → Fresh jptm
    → starts s.commit ≡ true
    → Checked jptm
        (check_destination_length s (sender_epilogue s jptm))
        (committed_status (length_right s) s.commit)
sender_epilogue-Checked s jptm fresh begun = elim (Option-cases s.commit) [
  | inr (failure, e) ↦
      let stop = stops failure.0 failure.1 jptm fresh in
      Checked-same jptm (fail_active_transfer failure.0 failure.1 jptm) _ failure.1 _
        (ap (check_destination_length s) (sender_epilogue_fails s jptm failure fresh e)
          ∙ check_length_stopped s _ stop.stopped)
        (ap (committed_status (length_right s)) e)
        (Stopped-Checked jptm _ failure.1 stop (ground (arith, rw e at begun)))
  | inl e ↦
      Checked-same jptm (check_destination_length s jptm) _
        (if length_right s then success else failed) _
        (ap (check_destination_length s) (sender_epilogue-none s jptm e))
        (ap (committed_status (length_right s)) e) (check_length-Checked s jptm fresh)
]

checks-Checked :
    (is_local : Bool) (s : Sender) (jptm : JobPartTransferMgr)
    → Fresh jptm
    → starts s.commit ≡ true
    → Checked jptm
        (check_destination_length s (sender_epilogue s (check_source is_local s jptm)))
        (send_verdict is_local s)
checks-Checked is_local s jptm fresh begun = elim (Bool-cases (source_same is_local s)) [
  | inl same ↦
      rw (same, check_source_same is_local s jptm same) (sender_epilogue-Checked s jptm fresh begun)
  | inr other ↦
      let changed = check_source is_local s jptm in
      let stop = check_source_changed is_local s jptm fresh other in
      Checked-same jptm changed _ failed _
        (ap (check_destination_length s) (sender_epilogue_stopped s changed stop.stopped)
          ∙ check_length_stopped s changed stop.stopped)
        (unless _ _ other) (Stopped-Checked jptm changed failed stop refl)
]

failed_started : (f : Failure) → is_not_started (failure_status f) ≡ false
failed_started in_general = refl
failed_started setting_tier = refl
failed_started checking_tier = refl

pub epilogue-Fares :
    (fate : Fate) (is_local : Bool) (s : Sender) (jptm : JobPartTransferMgr) (calls : Calls)
    → starts s.commit ≡ true
    → Fares fate jptm
    → (after : JobPartTransferMgr) × (calls' : Calls) × (epilogue_with_cleanup_send_to_remote
          is_local s
          (jptm, calls)
        ≡ some (after, calls'))
      × Ends jptm after (outcome (send_verdict is_local s) fate)
unfolding notice_cancellation
epilogue-Fares unharmed is_local s jptm calls begun fresh =
    let checked = checks-Checked is_local s jptm fresh begun in
    epilogue_after is_local s jptm jptm _ calls (send_verdict is_local s) (rw fresh.going refl) refl
      checked.keeps checked.begun checked.ends_as
epilogue-Fares (has_failed f) is_local s jptm calls begun (stopped, status) =
    epilogue_stopped is_local s jptm calls (failure_status f) stopped
      (morph_failed f (status_of jptm) status) (failed_started f)
epilogue-Fares was_cancelled is_local s jptm calls begun (stopped, status) =
    epilogue_stopped is_local s jptm calls cancelled stopped
      (morph_started cancelled (status_of jptm) status) refl
