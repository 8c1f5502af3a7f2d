-- ===== src/Download/Epilogue.antt =====
-- The end of a download in ste/xfer-remoteToLocal-file.go: flushing and closing the file, the
-- checks of its hash and its length, the move to its final name, the downloader's own epilogue
-- (ste/downloader-azureFiles.go), and the completion, which deletes the file of a transfer that
-- failed. `Place` says where the file is, and `Ending` what the calls
-- of other components and of the operating system answer; an error is its HTTP status code, 0 if it
-- has none.
use axxx.Prelude.{
  ℕ, Bool, true, false, List, ◌&&◌, ◌||◌, not, Option, none, some, ◌⊎◌, inl, inr, nat_beq,
  if◌then◌else◌,
}
use axxx.Prelude.Int.{ℤ, pos}
use axxx.Status.{success, failed, cancelled}
use axxx.Prelude.{◌>>=◌}
use axxx.Writer.{Bytes}
use axxx.Download.{
  JobPartTransferMgr, set_status, is_dead_inflight, is_dead_before_start, is_live,
  fail_active_transfer, report_transfer_done,
}
use axxx.Download.Md5.{HashValidationOption, passed, error, panic, check}

pub data Place : Type 0 where
  absent at_download_path at_destination : Place

-- What is left of the destination's folder: the file and the log of its times.
pub record Disk : Type 0 where
  pub place : Place
  pub times_preserved : Bool

pub record Ending : Type 0 where
  -- Of the transfer.
  pub expected_md5 : Bytes
  pub md5_validation_option : HashValidationOption
  pub dest_length_validation : Bool
  pub is_dev_null : Bool
  pub should_decompress : Bool
  pub source_size : ℕ
  pub path_differs : Bool
  pub preserve_last_modified_time : Bool
  pub preserve_smb_info : Bool
  pub deletes : Bool
  -- Of the calls.
  pub flush : Bytes ⊎ ℤ
  pub close : Option ℤ
  pub stat : ℕ ⊎ ℤ
  pub rename_fails : Bool
  pub chtimes_fails : Bool
  pub delete_fails : Bool
  -- The error of `preserveAttributes` of the downloader of Azure Files; none for any other.
  pub preserve_attributes : Option ℤ

abbrev pub fail_active_download : ℤ → JobPartTransferMgr → JobPartTransferMgr
fail_active_download status jptm = fail_active_transfer status failed jptm

-- `os.Rename` to the destination; with no download path of its own the file is where it belongs.
unfoldable pub rename : Ending → Disk → Disk
rename e disk =
    if e.rename_fails
    then disk
    else elim disk.place [ at_download_path ↦ record disk { place = at_destination } | _ ↦ disk ]

-- `tryDeleteFile`, which deletes what is at the download path.
unfoldable pub try_delete_file : Ending → Disk → Disk
try_delete_file e disk =
    if e.is_dev_null || e.delete_fails
    then disk
    else elim disk.place [ at_download_path ↦ record disk { place = absent } | _ ↦ disk ]

unfoldable pub flush_and_close : Ending → JobPartTransferMgr → JobPartTransferMgr
flush_and_close e jptm =
    let flushed : JobPartTransferMgr = elim e.flush [
      | inl _ ↦ jptm
      | inr status ↦ fail_active_download status jptm
    ] in
    elim e.close [ none ↦ flushed | some status ↦ fail_active_download status flushed ]

-- The hash as the writer returns it, empty if it failed.
unfoldable pub md5_of_file_as_written : Ending → Bytes
md5_of_file_as_written e = elim e.flush [ inl hash ↦ hash | inr _ ↦ List.[] ]

unfoldable pub check_length : Ending → JobPartTransferMgr → JobPartTransferMgr
check_length e jptm =
    if e.dest_length_validation && (not e.is_dev_null && not e.should_decompress)
    then elim e.stat [
      | inl size ↦ if nat_beq size e.source_size then jptm else fail_active_download (pos 0) jptm
      | inr status ↦ fail_active_download status jptm
    ]
    else jptm

-- The checks of a file that was saved. The move to the final name asks whether the check of the
-- hash had an error, and not how the one of the length went.
unfoldable pub check_file : Ending → JobPartTransferMgr × Disk → Option (JobPartTransferMgr × Disk)
check_file e (jptm, disk) =
    elim (check e.md5_validation_option e.expected_md5 (md5_of_file_as_written e)) [
      | panic ↦ none
      | error _ ↦ some (check_length e (fail_active_download (pos 0) jptm), disk)
      | passed ↦ some (
        check_length e jptm,
        (if e.path_differs && not e.is_dev_null then rename e disk else disk),
      )
    ]

-- `Epilogue` of the downloader.
unfoldable pub downloader_epilogue : Ending → JobPartTransferMgr → JobPartTransferMgr
downloader_epilogue e jptm =
    if is_live jptm
    then elim e.preserve_attributes [ none ↦ jptm | some status ↦ fail_active_download status jptm ]
    else jptm

unfoldable pub common_downloader_completion :
    Bool → Ending → JobPartTransferMgr × Disk → Option (JobPartTransferMgr × Disk)
common_downloader_completion is_file e (jptm, disk) =
    let unlocked =
      λ (j : JobPartTransferMgr). record j { atomic_dest_lock_held_indicator = false } in
    if is_dead_inflight jptm || is_dead_before_start jptm
    then some (
      report_transfer_done e.deletes (unlocked jptm),
      (if is_file && (is_dead_inflight jptm && jptm.atomic_dest_lock_held_indicator)
          then try_delete_file e disk
          else disk),
    )
    else if is_live jptm
    then some (report_transfer_done e.deletes (unlocked (set_status success jptm)), disk)
    else none

unfoldable pub preserve_times : Ending → JobPartTransferMgr × Disk → Disk
preserve_times e (jptm, disk) =
    if is_live jptm
      && (e.preserve_last_modified_time && (not e.preserve_smb_info && not e.chtimes_fails))
    then record disk { times_preserved = true }
    else disk

-- Where a transfer first sees that it is cancelled.
unfoldable pub notice_cancellation : JobPartTransferMgr → JobPartTransferMgr
notice_cancellation jptm = if jptm.canceled then set_status cancelled jptm else jptm

-- The steps for a destination file with a writer.
unfoldable pub save_file : Ending → JobPartTransferMgr × Disk → Option (JobPartTransferMgr × Disk)
save_file e (jptm, disk) =
    let closed = flush_and_close e jptm in
    if is_live closed then check_file e (closed, disk) else some (closed, disk)

-- `epilogueWithCleanupDownload`; the flag is whether there is a destination file with a writer.
unfoldable pub epilogue_with_cleanup_download :
    Bool → Ending → JobPartTransferMgr × Disk → Option (JobPartTransferMgr × Disk)
epilogue_with_cleanup_download have_non_empty_file e (jptm, disk) = do
  let noticed = notice_cancellation jptm
  (jptm', disk') ← if have_non_empty_file then save_file e (noticed, disk) else some (noticed, disk)
  let released = downloader_epilogue e jptm'
  common_downloader_completion true e (released, preserve_times e (released, disk'))
