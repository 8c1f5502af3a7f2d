-- ===== src/Upload/Epilogue.antt =====
-- The end of an upload or a copy in ste/xfer-anyToRemote-file.go: whether the source has changed,
-- the sender's own epilogue, the length at the destination, the sender's clean-up, and the report.
-- `Sender` holds what the transfer knows and what the calls of other components answer; an error is
-- its HTTP status code, 0 if it has none. The texts of logs and messages are left out.
use axxx.Prelude.{
  ℕ, ◌+◌, Bool, true, false, ◌&&◌, ◌||◌, Option, none, some, ◌⊎◌, inl, inr, nat_beq, if◌then◌else◌,
}
use axxx.Prelude.Int.{ℤ, pos}
use axxx.Status.{TransferStatus, not_started, success, failed}
use axxx.Folders.Creation.{OverwriteOption}
use axxx.Download.{
  JobPartTransferMgr, set_status, is_live, fail_active_transfer, report_transfer_done, int_beq,
}
use axxx.Download.Epilogue.{notice_cancellation}

-- What is at the destination before the transfer.
pub data Existence : Type 0 where
  cannot_tell absent : Existence
  exists_since : ℕ → Existence

pub record Sender : Type 0 where
  -- Of the transfer.
  pub overwrite_option : OverwriteOption
  pub last_modified_time : ℕ
  pub expected_length : ℕ
  pub is_s2s_copier : Bool
  pub s2s_source_change_validation : Bool
  pub dest_length_validation : Bool
  pub deletes : Bool
  -- Of the calls before the chunks.
  pub provider_fails : Bool
  pub provider_is_of_file : Bool
  pub sender_fails : Bool
  pub remote_file : Existence
  pub prompter_says : Bool
  pub open_fails : Bool
  pub lmt_before : ℕ ⊎ ℤ
  pub lock_fails : Bool
  -- Of the calls after the chunks; `commit` is the failure of the sender's epilogue, with the
  -- status that it sets.
  pub lmt_after : ℕ ⊎ ℤ
  pub commit : Option (ℤ × TransferStatus)
  pub destination_length : ℕ ⊎ ℤ

-- How often the sender's epilogue and its clean-up were called.
pub record Calls : Type 0 where
  pub epilogues : ℕ
  pub cleanups : ℕ

abbrev pub fail_active_send : ℤ → JobPartTransferMgr → JobPartTransferMgr
fail_active_send status jptm = fail_active_transfer status failed jptm

-- Whether the source's modification time is asked for again.
unfoldable pub validates_source : Bool → Sender → Bool
validates_source is_local s = is_local || (s.is_s2s_copier && s.s2s_source_change_validation)

-- With an error the time is zero, and the comparison fails the transfer once more, which does
-- nothing.
unfoldable pub check_source : Bool → Sender → JobPartTransferMgr → JobPartTransferMgr
check_source is_local s jptm =
    if is_live jptm && validates_source is_local s
    then elim s.lmt_after [
      | inl lmt ↦ if nat_beq lmt s.last_modified_time then jptm else fail_active_send (pos 0) jptm
      | inr status ↦ fail_active_send status jptm
    ]
    else jptm

-- `Epilogue` of the sender, which acts on a live transfer alone.
unfoldable pub sender_epilogue : Sender → JobPartTransferMgr → JobPartTransferMgr
sender_epilogue s jptm = elim s.commit [
  | none ↦ jptm
  | some failure ↦ if is_live jptm then fail_active_transfer failure.0 failure.1 jptm else jptm
]

-- The destination may be write-only, which is no failure.
unfoldable pub check_destination_length : Sender → JobPartTransferMgr → JobPartTransferMgr
check_destination_length s jptm =
    if is_live jptm && s.dest_length_validation
    then elim s.destination_length [
      | inl length ↦
          if nat_beq length s.expected_length then jptm else fail_active_send (pos 0) jptm
      | inr status ↦ if int_beq status (pos 403) then jptm else fail_active_send status jptm
    ]
    else jptm

abbrev pub is_not_started : TransferStatus → Bool
is_not_started not_started = true
is_not_started _ = false

unfoldable pub common_sender_completion : Sender → JobPartTransferMgr → Option JobPartTransferMgr
common_sender_completion s jptm =
    let unlocked = record jptm { atomic_dest_lock_held_indicator = false } in
    let finished = if is_live unlocked then set_status success unlocked else unlocked in
    if is_not_started unlocked.job_part_plan_transfer.atomic_transfer_status
    then none
    else some (report_transfer_done s.deletes finished)

-- The clean-up, which a transfer with the lock on its destination makes, and the completion.
unfoldable pub finish_sending :
    Sender → Calls → JobPartTransferMgr → Option (JobPartTransferMgr × Calls)
finish_sending s calls jptm =
    let cleaned =
      if jptm.atomic_dest_lock_held_indicator then calls.cleanups + 1 else calls.cleanups in
    elim (common_sender_completion s jptm) [
      | none ↦ none
      | some done ↦ some (done, record { epilogues = calls.epilogues + 1; cleanups = cleaned })
    ]

-- `epilogueWithCleanupSendToRemote`; the flag is whether the source is local.
unfoldable pub epilogue_with_cleanup_send_to_remote :
    Bool → Sender → JobPartTransferMgr × Calls → Option (JobPartTransferMgr × Calls)
epilogue_with_cleanup_send_to_remote is_local s (jptm, calls) =
    let committed = sender_epilogue s (check_source is_local s (notice_cancellation jptm)) in
    finish_sending s calls (check_destination_length s committed)
