-- ===== src/Download/Start.antt =====
-- The start of a download in ste/xfer-remoteToLocal-file.go: the reasons not to begin, empty files,
-- the creation of the file, and the chunks that are scheduled. `Beginning` holds what the transfer
-- knows and what the calls of other components and of the operating system answer.
use axxx.Prelude.{
  ℕ, ◌%◌, ◌^◌, Bool, true, false, List, ◌&&◌, not, Option, none, some, nat_beq, ltb, if◌then◌else◌,
  length, replicate,
}
use axxx.Status.{TransferStatus, failed, cancelled, skipped_entity_already_exists}
use axxx.Folders.Creation.{
  OverwriteOption, overwrite_true, overwrite_false, prompt, if_source_newer,
}
use axxx.Download.{
  JobPartTransferMgr, set_status, set_destination_is_modified, set_number_of_chunks,
  set_action_after_last_chunk, report_transfer_done,
}
use axxx.Download.Md5.{HashValidationOption, fail_if_different_or_missing}
use axxx.Download.Chunks.{number_of_chunks, schedule_chunks, rounds}
use axxx.Download.Epilogue.{
  at_download_path, at_destination, Disk, Ending, epilogue_with_cleanup_download,
}

-- `dest_mod_time` is `none` if nothing is at the destination; `lock` and `create` tell whether
-- locking the destination and creating the file fail.
pub record Beginning : Type 0 where
  pub overwrite_option : OverwriteOption
  pub dest_mod_time : Option ℕ
  pub prompter_says : Bool
  pub last_modified_time : ℕ
  pub block_size : ℕ
  pub lock_fails : Bool
  pub create_fails : Bool

-- The transfer is over, or its chunks are scheduled, or the code panicked.
pub data Started : Type 0 where
  over : JobPartTransferMgr → Disk → Started
  scheduled : JobPartTransferMgr → Disk → List (ℕ × ℕ) → Started
  panicked : Started

abbrev pub is_if_different_or_missing : HashValidationOption → Bool
is_if_different_or_missing fail_if_different_or_missing = true
is_if_different_or_missing _ = false

unfoldable pub should_overwrite : Beginning → ℕ → Bool
should_overwrite s dest_mod_time = elim s.overwrite_option [
  | overwrite_true ↦ true
  | prompt ↦ s.prompter_says
  | if_source_newer ↦ ltb dest_mod_time s.last_modified_time
  | overwrite_false ↦ false
]

unfoldable pub is_skipped : Beginning → Bool
is_skipped s = elim s.dest_mod_time [ none ↦ false | some t ↦ not (should_overwrite s t) ]

-- `ReportTransferDone` with a status and no epilogue.
unfoldable pub report_with : TransferStatus → Ending → JobPartTransferMgr → Disk → Started
report_with status e jptm disk = over (report_transfer_done e.deletes (set_status status jptm)) disk

-- The epilogue without a file of its own, which ends the transfer.
unfoldable pub end_now : Ending → JobPartTransferMgr → Disk → Started
end_now e jptm disk = elim (epilogue_with_cleanup_download false e (jptm, disk)) [
  | none ↦ panicked
  | some (jptm', disk') ↦ over jptm' disk'
]

unfoldable pub lock_destination : Ending → JobPartTransferMgr → JobPartTransferMgr
lock_destination e jptm =
    if e.is_dev_null then jptm else record jptm { atomic_dest_lock_held_indicator = true }

-- An empty file is created at the destination itself, and not at the download path.
unfoldable pub empty_file : Beginning → Ending → JobPartTransferMgr → Disk → Started
empty_file s e jptm disk =
    if e.is_dev_null
    then end_now e jptm disk
    else if s.lock_fails
    then end_now e (set_status failed jptm) disk
    else if s.create_fails
    then end_now e (set_status failed (lock_destination e jptm)) disk
    else end_now e (lock_destination e jptm)
        (record disk { place = (if e.path_differs then at_destination else at_download_path) })

-- The sanity check of the number of chunks, behind the loop.
unfoldable pub check_chunks : ℕ → JobPartTransferMgr → Disk → Option (List (ℕ × ℕ)) → Started
check_chunks num_chunks jptm disk none = panicked
check_chunks num_chunks jptm disk (some ids) =
    if nat_beq (length ids % 2 ^ 32) num_chunks
    then scheduled (record jptm { chunks_notified = replicate (length ids) false }) disk ids
    else panicked

-- The ids of the chunks are new.
unfoldable pub file_with_content : Beginning → Ending → JobPartTransferMgr → Disk → Started
file_with_content s e jptm disk =
    let locked = lock_destination e jptm in
    let created = if e.is_dev_null then disk else record disk { place = at_download_path } in
    let num_chunks = number_of_chunks e.source_size s.block_size in
    let ready = set_action_after_last_chunk (set_number_of_chunks num_chunks locked) in
    if not e.is_dev_null && s.lock_fails
    then end_now e (set_status failed jptm) disk
    else if not e.is_dev_null && s.create_fails
    then end_now e (set_status failed locked) disk
    else check_chunks num_chunks ready created
        (schedule_chunks (rounds e.source_size s.block_size) e.source_size s.block_size 0)

-- `remoteToLocal_file`. No file of an earlier attempt is at the download path; a block size of 0 is
-- a division by zero.
unfoldable pub remote_to_local_file : Beginning → Ending → JobPartTransferMgr → Disk → Started
remote_to_local_file s e jptm disk =
    let modified = set_destination_is_modified jptm in
    if jptm.canceled
    then report_with cancelled e jptm disk
    else if is_skipped s
    then report_with skipped_entity_already_exists e jptm disk
    else if is_if_different_or_missing e.md5_validation_option && nat_beq (length e.expected_md5) 0
    then report_with failed e jptm disk
    else if nat_beq e.source_size 0
    then empty_file s e modified disk
    else if nat_beq s.block_size 0
    then panicked
    else file_with_content s e modified disk
