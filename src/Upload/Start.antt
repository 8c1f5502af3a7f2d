-- ===== src/Upload/Start.antt =====
-- The start of an upload or a copy in ste/xfer-anyToRemote-file.go: the reasons not to begin, and
-- the chunks that are scheduled. The destination of such a transfer is not the null device.
use axxx.Prelude.{
  Bool, true, false, ◌&&◌, not, Option, none, some, inl, inr, nat_beq, ltb, if◌then◌else◌, length,
  replicate,
}
use axxx.Status.{TransferStatus, failed, cancelled, skipped_entity_already_exists}
use axxx.Folders.Creation.{overwrite_true, overwrite_false, prompt, if_source_newer}
use axxx.Download.{
  JobPartTransferMgr, set_status, set_destination_is_modified, set_number_of_chunks,
  set_action_after_last_chunk, report_transfer_done,
}
use axxx.Upload.{Source, Answers, Sent, schedule_send_chunks}
use axxx.Upload.Epilogue.{Sender, cannot_tell, absent, exists_since, validates_source}

-- The transfer is over, or its chunks are scheduled, or the code panicked.
pub data Begun : Type 0 where
  over : JobPartTransferMgr → Begun
  scheduled : JobPartTransferMgr → Sent → Begun
  panicked : Begun

-- What the destination means for the transfer: it may go on, or it ends with a status.
unfoldable pub check_overwrite : Sender → Option TransferStatus
check_overwrite s = elim s.overwrite_option [
  | overwrite_true ↦ none
  | prompt ↦ elim s.remote_file [
    | cannot_tell ↦ some failed
    | absent ↦ none
    | exists_since _ ↦ if s.prompter_says then none else some skipped_entity_already_exists
  ]
  | if_source_newer ↦ elim s.remote_file [
    | cannot_tell ↦ some failed
    | absent ↦ none
    | exists_since t ↦
        if ltb t s.last_modified_time then none else some skipped_entity_already_exists
  ]
  | overwrite_false ↦ elim s.remote_file [
    | cannot_tell ↦ some failed
    | absent ↦ none
    | exists_since _ ↦ some skipped_entity_already_exists
  ]
]

-- Whether the source is found changed, or cannot be asked, before a transfer of more than one
-- chunk.
unfoldable pub source_changed : Source → Sender → Bool
unfolding validates_source
source_changed src s =
    ltb 1 src.num_chunks
    && (validates_source src.is_local s
        && (elim s.lmt_before [ inl lmt ↦ not (nat_beq lmt s.last_modified_time) | inr _ ↦ true ]))

-- `ReportTransferDoneWithError`, which differs from `ReportTransferDone` in the text of its
-- message.
abbrev pub report_transfer_done_with_error : Bool → JobPartTransferMgr → JobPartTransferMgr
report_transfer_done_with_error deletes jptm = report_transfer_done deletes jptm

abbrev pub end_with : TransferStatus → Sender → JobPartTransferMgr → Begun
end_with status s jptm = over (report_transfer_done s.deletes (set_status status jptm))

-- The prologue marked the destination as modified, or not; each chunk has a new id.
unfoldable pub scheduled_with : JobPartTransferMgr → Option Sent → Begun
scheduled_with jptm none = panicked
scheduled_with jptm (some sent) =
    let ready = record jptm { chunks_notified = replicate (length sent.scheduled) false } in
    scheduled (if sent.modified then set_destination_is_modified ready else ready) sent

-- The chunks, once nothing speaks against the transfer.
unfoldable pub send_chunks : Source → Answers → JobPartTransferMgr → Begun
send_chunks src a jptm =
    let locked = record jptm { atomic_dest_lock_held_indicator = true } in
    scheduled_with (set_action_after_last_chunk (set_number_of_chunks src.num_chunks locked))
      (schedule_send_chunks src a)

unfoldable pub check_and_send : Source → Answers → Sender → JobPartTransferMgr → Begun
check_and_send src a s jptm =
    if src.is_local && s.open_fails
    then end_with failed s jptm
    else if source_changed src s
    then end_with failed s jptm
    else if s.lock_fails
    then over (report_transfer_done_with_error s.deletes (set_status failed jptm))
    else send_chunks src a jptm

-- How the transfer goes on, unless the destination ends it.
unfoldable pub go_on : Sender → JobPartTransferMgr → Begun → Option TransferStatus → Begun
go_on s jptm rest none = rest
go_on s jptm rest (some status) = end_with status s jptm

-- `anyToRemote_file`.
unfoldable pub any_to_remote_file : Source → Answers → Sender → JobPartTransferMgr → Begun
any_to_remote_file src a s jptm =
    if jptm.canceled
    then end_with cancelled s jptm
    else if s.provider_fails
    then end_with failed s jptm
    else if not s.provider_is_of_file
    then panicked
    else if s.sender_fails
    then end_with failed s jptm
    else if nat_beq src.num_chunks 0
    then panicked
    else go_on s jptm (check_and_send src a s jptm) (check_overwrite s)
