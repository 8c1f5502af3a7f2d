-- ===== src/Download/Leftover.antt =====
-- A file of the wrong length in ste/xfer-remoteToLocal-file.go: the move to the final name asks for
-- an error of the hash check alone, since the error of the length check has a scope of its own.
use axxx.Prelude.{
  ◌≡◌, refl, ap, ◌∙◌, true, false, not, ◌&&◌, ◌||◌, some, inl, inr, if◌then◌else◌, Bool-cases,
}
use axxx.Prelude.{◌>>=◌}
use axxx.Status.{failed}
use axxx.Download.{JobPartTransferMgr, is_live}
use axxx.Download.Md5.{passed, check}
use axxx.Download.Epilogue.{
  at_download_path, at_destination, Disk, Ending, rename, try_delete_file, check_length, save_file,
  common_downloader_completion, downloader_epilogue, notice_cancellation, preserve_times,
  md5_of_file_as_written, epilogue_with_cleanup_download,
}
use axxx.Download.EpilogueLaws.{Ends, completion-Ends}
use axxx.Download.Checks.{
  Fresh, saved, length_right, check_length_fails, downloader_epilogue_stopped,
}
use axxx.Download.Outcome.{failed_status, save_file_passed}

preserve_times-place :
    (e : Ending) (jptm : JobPartTransferMgr) (disk : Disk)
    → (preserve_times e (jptm, disk)).place ≡ disk.place
unfolding preserve_times
preserve_times-place e jptm disk =
    elim (Bool-cases (
      is_live jptm
      && (e.preserve_last_modified_time && (not e.preserve_smb_info && not e.chtimes_fails)))) [
        | inl preserved ↦ rw preserved refl
        | inr unchanged ↦ rw unchanged refl
      ]

try_delete_file-place :
    (e : Ending) (disk : Disk)
    → disk.place ≡ at_destination
    → (try_delete_file e disk).place ≡ at_destination
unfolding try_delete_file
try_delete_file-place e disk h = elim (Bool-cases (e.is_dev_null || e.delete_fails)) [
  | inl kept ↦ rw kept h
  | inr tried ↦ rw (tried, h) h
]

rename-place :
    (e : Ending) (disk : Disk)
    → e.rename_fails ≡ false
    → disk.place ≡ at_download_path
    → (rename e disk).place ≡ at_destination
unfolding rename
rename-place e disk renames here = rw (renames, here) refl

notice_going : (jptm : JobPartTransferMgr) → jptm.canceled ≡ false → notice_cancellation jptm ≡ jptm
unfolding notice_cancellation
notice_going jptm going = rw going refl

-- A download that uses a temporary path was saved, its hash passed and its move succeeds, but the
-- length of its file is wrong: it is reported as failed, and yet its file is left under the final
-- name, since the clean-up looks for it at the temporary path.
pub length_mismatch_leaves_file :
    (e : Ending) (jptm : JobPartTransferMgr) (disk : Disk)
    → Fresh jptm
    → saved e ≡ true
    → check e.md5_validation_option e.expected_md5 (md5_of_file_as_written e) ≡ passed
    → length_right e ≡ false
    → (e.path_differs && not e.is_dev_null) ≡ true
    → e.rename_fails ≡ false
    → disk.place ≡ at_download_path
    → (after : JobPartTransferMgr) × (disk' : Disk) × (epilogue_with_cleanup_download true e
          (jptm, disk)
        ≡ some (after, disk'))
      × Ends jptm after failed
      × (disk'.place ≡ at_destination)
unfolding epilogue_with_cleanup_download
length_mismatch_leaves_file e jptm disk fresh was_saved p short differs renames here =
    let moved = if e.path_differs && not e.is_dev_null then rename e disk else disk in
    let failure = check_length_fails e jptm fresh short in
    let (after, disk', done, ends, left) =
      completion-Ends e jptm (check_length e jptm) (preserve_times e (check_length e jptm, moved))
        failed failure.keeps (failed_status jptm (check_length e jptm) failure) in
    let rest = λ (x : JobPartTransferMgr × Disk).
      let released = downloader_epilogue e x.0 in
      common_downloader_completion true e (released, preserve_times e (released, x.1)) in
    let arrived : (preserve_times e (check_length e jptm, moved)).place ≡ at_destination =
      preserve_times-place e (check_length e jptm) moved
      ∙ rw differs (rename-place e disk renames here) in
    let placed : disk'.place ≡ at_destination = elim left [
      | inl kept ↦ ap (λ (d : Disk). d.place) kept ∙ arrived
      | inr tried ↦ ap (λ (d : Disk). d.place) tried ∙ try_delete_file-place e _ arrived
    ] in
    (
      after,
      disk',
      ap (λ j. save_file e (j, disk) >>= rest) (notice_going jptm fresh.going)
          ∙ ap (λ o. o >>= rest) (save_file_passed e jptm disk fresh was_saved p)
          ∙ ap
              (λ (j : JobPartTransferMgr).
                common_downloader_completion true e (j, preserve_times e (j, moved)))
              (downloader_epilogue_stopped e (check_length e jptm) failure.stopped)
          ∙ done,
      ends,
      placed,
    )
