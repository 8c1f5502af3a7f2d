-- ===== src/Download/Outcome.antt =====
-- The status that the epilogue of a download reports, for each way in which the transfer reaches
-- it.
use axxx.Prelude.{
  ◌≡◌, refl, ap, ◌∙◌, true, false, ◌&&◌, not, some, inl, inr, if◌then◌else◌, arith, Bool-cases,
}
use axxx.Prelude.Int.{pos}
use axxx.Status.{TransferStatus, success, failed, cancelled, code}
use axxx.Plan.{morph_status}
use axxx.Download.{JobPartTransferMgr, set_status, is_dead}
use axxx.Download.Md5.{Checked, Md5Error, passed, error, panic, check}
use axxx.Download.Epilogue.{
  Disk, Ending, flush_and_close, md5_of_file_as_written, check_length, check_file, rename,
  notice_cancellation, save_file, preserve_times, epilogue_with_cleanup_download,
  fail_active_download, downloader_epilogue,
}
use axxx.Download.EpilogueLaws.{
  Ends, Keeps, status_of, set_status_lem, completion-Ends, morph_started,
}
use axxx.Download.Checks.{
  saved, attributes_kept, downloader_epilogue_stopped, downloader_epilogue_kept,
  downloader_epilogue_fails, hash_passed, hash_panics, length_right, Fresh, Failed, Keeps-refl,
  fails, is_live-Fresh, dead_stopped, not_live_stopped, flush_and_close_stopped,
  flush_and_close_saved, flush_and_close_fails, check_length_stopped, check_length_right,
  check_length_fails,
}

-- What the epilogue does once it is known what its checks leave.
epilogue_after :
    (e : Ending) (jptm noticed checked jptm' : JobPartTransferMgr) (disk disk' : Disk)
    (s : TransferStatus)
    → notice_cancellation jptm ≡ noticed
    → save_file e (noticed, disk) ≡ some (checked, disk')
    → downloader_epilogue e checked ≡ jptm'
    → Keeps jptm jptm'
    → status_of (if is_dead jptm' then jptm' else set_status success jptm') ≡ s
    → (after : JobPartTransferMgr) × (disk'' : Disk) × (epilogue_with_cleanup_download true e
          (jptm, disk)
        ≡ some (after, disk''))
      × Ends jptm after s
unfolding epilogue_with_cleanup_download
epilogue_after e jptm noticed checked jptm' disk disk' s n c d keeps st =
    let (after, disk'', done, ends, _) =
      completion-Ends e jptm jptm' (preserve_times e (jptm', disk')) s keeps st in
    (after, disk'', rw (n, c, d) done, ends)

-- A transfer that was cancelled, or failed before.
pub epilogue_stopped :
    (e : Ending) (jptm : JobPartTransferMgr) (disk : Disk)
    → jptm.canceled ≡ true
    → (after : JobPartTransferMgr) × (disk' : Disk) × (epilogue_with_cleanup_download true e
          (jptm, disk)
        ≡ some (after, disk'))
      × Ends jptm after (morph_status cancelled false (status_of jptm))
unfolding notice_cancellation save_file
epilogue_stopped e jptm disk h =
    let noticed = set_status cancelled jptm in
    let (status, context, keeps) = set_status_lem cancelled jptm in
    let stopped = context ∙ h in
    epilogue_after e jptm noticed noticed noticed disk disk _ (rw h)
      (rw (flush_and_close_stopped e noticed stopped, not_live_stopped noticed stopped))
      (downloader_epilogue_stopped e noticed stopped) keeps
      (rw (dead_stopped noticed stopped) status)

-- A transfer that stopped with a failure in the epilogue reports it.
pub failed_status :
    (before jptm : JobPartTransferMgr)
    → Failed before jptm
    → status_of (if is_dead jptm then jptm else set_status success jptm) ≡ failed
failed_status before jptm f = rw (dead_stopped jptm f.stopped) f.status

status_of-Fresh :
    (jptm : JobPartTransferMgr)
    → Fresh jptm
    → status_of (if is_dead jptm then jptm else set_status success jptm) ≡ success
unfolding is_dead code morph_status
status_of-Fresh jptm h =
    let alive : is_dead jptm ≡ false = rw (h.status, h.going) in
    rw alive ((set_status_lem success jptm).0 ∙ morph_started success (status_of jptm) h.status)

data HashCases (c : Checked) : Type 0 where
  right : c ≡ passed → HashCases c
  wrong : (err : Md5Error) → c ≡ error err → HashCases c
  panics : c ≡ panic → HashCases c

hash_cases : (c : Checked) → HashCases c
hash_cases passed = right refl
hash_cases (error err) = wrong err refl
hash_cases panic = panics refl

-- What is left for the transfer that reached the epilogue without a failure.
abbrev pub verdict : Ending → TransferStatus
verdict e =
    if saved e && (hash_passed e && (length_right e && attributes_kept e)) then success else failed

-- A file that was saved and whose hash passed is moved, whatever its length.
pub save_file_passed :
    (e : Ending) (jptm : JobPartTransferMgr) (disk : Disk)
    → Fresh jptm
    → saved e ≡ true
    → check e.md5_validation_option e.expected_md5 (md5_of_file_as_written e) ≡ passed
    → save_file e (jptm, disk)
      ≡ some (
        check_length e jptm,
        (if e.path_differs && not e.is_dev_null then rename e disk else disk),
      )
unfolding save_file check_file
save_file_passed e jptm disk fresh was_saved p =
    let same = flush_and_close_saved e jptm was_saved in
    rw (same, is_live-Fresh jptm fresh, check_file, p, same)

-- The file was saved.
epilogue_saved :
    (e : Ending) (jptm : JobPartTransferMgr) (disk : Disk)
    → Fresh jptm
    → hash_panics e ≡ false
    → saved e ≡ true
    → (after : JobPartTransferMgr) × (disk' : Disk) × (epilogue_with_cleanup_download true e
          (jptm, disk)
        ≡ some (after, disk'))
      × Ends jptm after
          (if hash_passed e && (length_right e && attributes_kept e) then success else failed)
unfolding notice_cancellation save_file check_file
epilogue_saved e jptm disk fresh calm was_saved =
    let same = flush_and_close_saved e jptm was_saved in
    let live = is_live-Fresh jptm fresh in
    let moved = if e.path_differs && not e.is_dev_null then rename e disk else disk in
    elim (hash_cases (check e.md5_validation_option e.expected_md5 (md5_of_file_as_written e))) [
      | panics p ↦ ground (arith, rw (hash_panics, p) at calm)
      | wrong err p ↦
          let failure = fails (pos 0) jptm fresh in
          let closed = fail_active_download (pos 0) jptm in
          let hash : hash_passed e ≡ false = rw (hash_passed, p) refl in
          rw hash (
            epilogue_after e jptm jptm closed closed disk disk failed (rw fresh.going)
              (rw (same, live, check_file, p, same, check_length_stopped e closed failure.stopped))
              (downloader_epilogue_stopped e closed failure.stopped) failure.keeps
              (failed_status jptm closed failure))
      | right p ↦
          let hash : hash_passed e ≡ true = rw (hash_passed, p) refl in
          elim (Bool-cases (length_right e)) [
            | inl long ↦
                let right_length = check_length_right e jptm long in
                let arrived : save_file e (jptm, disk) ≡ some (jptm, moved) =
                  save_file_passed e jptm disk fresh was_saved p
                  ∙ ap (λ (j : JobPartTransferMgr). some (j, moved)) right_length in
                elim (Bool-cases (attributes_kept e)) [
                  | inl kept ↦
                      rw (hash, long, kept)
                        (epilogue_after e jptm jptm jptm jptm disk moved success (rw fresh.going)
                          arrived (downloader_epilogue_kept e jptm kept) (Keeps-refl jptm)
                          (status_of-Fresh jptm fresh))
                  | inr lost ↦
                      let failure = downloader_epilogue_fails e jptm fresh lost in
                      let released = downloader_epilogue e jptm in
                      rw (hash, long, lost)
                        (epilogue_after e jptm jptm jptm released disk moved failed (rw fresh.going)
                          arrived refl failure.keeps (failed_status jptm released failure))
                ]
            | inr short ↦
                let failure = check_length_fails e jptm fresh short in
                rw (hash, short)
                  (epilogue_after e jptm jptm (check_length e jptm) (check_length e jptm) disk moved
                    failed (rw fresh.going) (save_file_passed e jptm disk fresh was_saved p)
                    (downloader_epilogue_stopped e (check_length e jptm) failure.stopped)
                    failure.keeps (failed_status jptm (check_length e jptm) failure))
          ]
    ]

-- A transfer that was neither cancelled nor failed reaches the epilogue.
pub epilogue-Fresh :
    (e : Ending) (jptm : JobPartTransferMgr) (disk : Disk)
    → Fresh jptm
    → hash_panics e ≡ false
    → (after : JobPartTransferMgr) × (disk' : Disk) × (epilogue_with_cleanup_download true e
          (jptm, disk)
        ≡ some (after, disk'))
      × Ends jptm after (verdict e)
unfolding notice_cancellation save_file
epilogue-Fresh e jptm disk fresh calm = elim (Bool-cases (saved e)) [
  | inr unsaved ↦
      let failure = flush_and_close_fails e jptm fresh unsaved in
      let closed = flush_and_close e jptm in
      rw unsaved (
        epilogue_after e jptm jptm closed closed disk disk failed (rw fresh.going)
          (rw (not_live_stopped closed failure.stopped))
          (downloader_epilogue_stopped e closed failure.stopped) failure.keeps
          (failed_status jptm closed failure))
  | inl was_saved ↦ rw was_saved (epilogue_saved e jptm disk fresh calm was_saved)
]
