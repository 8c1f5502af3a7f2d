-- ===== src/Download/EpilogueLaws.antt =====
-- How a download ends, for each way in which its chunks went.
use axxx.Prelude.{
  ◌≡◌, refl, ap, ◌∙◌, Bool, true, false, ◌∷◌, ◌&&◌, some, ◌⊎◌, inl, inr, if◌then◌else◌, Bool-cases,
}
use axxx.Prelude.Int.{ℤ}
use axxx.Status.{TransferStatus, started, success, code}
use axxx.Plan.{set_transfer_status, set_error_code, morph_status, is_zero}
use axxx.Download.{
  JobPartTransferMgr, Report, hub_report, cancel, set_code, set_status, is_dead, is_live,
  is_dead_inflight, is_dead_before_start, fail_active_transfer, report_transfer_done,
}
use axxx.Download.Epilogue.{Disk, Ending, common_downloader_completion, try_delete_file}

abbrev pub status_of : JobPartTransferMgr → TransferStatus
status_of jptm = jptm.job_part_plan_transfer.atomic_transfer_status

-- What the end of a transfer does: one report, of the status `s`, and the transfer is cancelled and
-- without the lock; its chunks and its action are as before.
pub record Ends (before after : JobPartTransferMgr) (s : TransferStatus) : Type 0 where
  pub report : Report
  pub reported : after.reports ≡ report ∷ before.reports
  pub status : report.transfer_status ≡ s
  pub cancelled_ctx : after.canceled ≡ true
  pub unlocked : after.atomic_dest_lock_held_indicator ≡ false
  pub same_chunks : after.chunks_notified ≡ before.chunks_notified

-- What stays the same while the transfer is not reported.
pub record Keeps (before after : JobPartTransferMgr) : Type 0 where
  pub same_reports : after.reports ≡ before.reports
  pub same_chunks : after.chunks_notified ≡ before.chunks_notified
  pub same_number : after.num_chunks ≡ before.num_chunks
  pub same_done : after.atomic_chunks_done ≡ before.atomic_chunks_done
  pub same_action : after.action_after_last_chunk ≡ before.action_after_last_chunk

pub fail_canceled :
    (status : ℤ) (s : TransferStatus) (jptm : JobPartTransferMgr)
    → jptm.canceled ≡ true
    → fail_active_transfer status s jptm ≡ jptm
unfolding fail_active_transfer
fail_canceled status s jptm h = rw h

pub set_status_lem :
    (s : TransferStatus) (jptm : JobPartTransferMgr)
    → (status_of (set_status s jptm) ≡ morph_status s false (status_of jptm))
      × ((set_status s jptm).canceled ≡ jptm.canceled)
      × Keeps jptm (set_status s jptm)
unfolding set_status set_transfer_status
set_status_lem s jptm = (
  refl,
  refl,
  record {
    same_reports = refl;
    same_chunks = refl;
    same_number = refl;
    same_done = refl;
    same_action = refl;
  },
)

set_code_lem :
    (c : ℤ) (jptm : JobPartTransferMgr)
    → (status_of (set_code c jptm) ≡ status_of jptm)
      × ((set_code c jptm).canceled ≡ jptm.canceled)
      × Keeps jptm (set_code c jptm)
unfolding set_code set_error_code
set_code_lem c jptm = elim (Bool-cases (is_zero c)) [
  | inl zero ↦ rw zero (
    refl,
    refl,
    record {
      same_reports = refl;
      same_chunks = refl;
      same_number = refl;
      same_done = refl;
      same_action = refl;
    },
  )
  | inr other ↦ elim (Bool-cases (is_zero jptm.job_part_plan_transfer.atomic_error_code)) [
    | inl new ↦
        rw (other, new)
          (
            refl,
            refl,
            record {
              same_reports = refl;
              same_chunks = refl;
              same_number = refl;
              same_done = refl;
              same_action = refl;
            },
          )
    | inr old ↦
        rw (other, old)
          (
            refl,
            refl,
            record {
              same_reports = refl;
              same_chunks = refl;
              same_number = refl;
              same_done = refl;
              same_action = refl;
            },
          )
  ]
]

pub morph_started : (s t : TransferStatus) → t ≡ started → morph_status s false t ≡ s
unfolding morph_status code
morph_started s t h = rw h refl

-- A transfer that has not failed fails.
pub fail_live :
    (c : ℤ) (s : TransferStatus) (jptm : JobPartTransferMgr)
    → jptm.canceled ≡ false
    → status_of jptm ≡ started
    → ((fail_active_transfer c s jptm).canceled ≡ true)
      × (status_of (fail_active_transfer c s jptm) ≡ s)
      × Keeps jptm (fail_active_transfer c s jptm)
unfolding fail_active_transfer cancel
fail_live c s jptm live st =
    let (same, context, keeps) = set_code_lem c (set_status s (cancel jptm)) in
    let (new, context', keeps') = set_status_lem s (cancel jptm) in
    let morphed = morph_started s (status_of (cancel jptm)) st in
    rw live (
      context ∙ context',
      same ∙ new ∙ morphed,
      record {
        same_reports = keeps.same_reports ∙ keeps'.same_reports;
        same_chunks = keeps.same_chunks ∙ keeps'.same_chunks;
        same_number = keeps.same_number ∙ keeps'.same_number;
        same_done = keeps.same_done ∙ keeps'.same_done;
        same_action = keeps.same_action ∙ keeps'.same_action;
      },
    )

either_way :
    {A : Type 0} (b : Bool) (x y : A) → ((if b then x else y) ≡ y) ⊎ ((if b then x else y) ≡ x)
either_way true x y = inr refl
either_way false x y = inl refl

completion :
    (e : Ending) (jptm : JobPartTransferMgr) (disk : Disk)
    → (disk' : Disk) × (common_downloader_completion true e (jptm, disk)
        ≡ some (
          report_transfer_done e.deletes
              (record (if is_dead jptm then jptm else set_status success jptm) {
                atomic_dest_lock_held_indicator = false;
              }),
          disk',
        ))
      × ((disk' ≡ disk) ⊎ (disk' ≡ try_delete_file e disk))
unfolding common_downloader_completion is_dead_inflight is_dead_before_start is_live
completion e jptm disk =
    let deleted =
      if is_dead_inflight jptm && jptm.atomic_dest_lock_held_indicator
      then try_delete_file e disk
      else disk in
    let kept_or_deleted : (b : Bool)
        → ((if b then try_delete_file e disk else disk) ≡ disk)
          ⊎ ((if b then try_delete_file e disk else disk) ≡ try_delete_file e disk) =
      λ b. either_way b (try_delete_file e disk) disk in
    elim (Bool-cases (is_dead jptm)) [
      | inl dead ↦ elim (Bool-cases jptm.atomic_dest_modified_indicator) [
        | inl begun ↦ (deleted, rw (dead, begun) refl, kept_or_deleted _)
        | inr before ↦ (deleted, rw (dead, before) refl, kept_or_deleted _)
      ]
      | inr live ↦ (disk, rw live refl, inl refl)
    ]

-- The state in which the last chunk finds the transfer, and the one that the completion reports.
pub completion-Ends :
    (e : Ending) (before jptm : JobPartTransferMgr) (disk : Disk) (s : TransferStatus)
    → Keeps before jptm
    → status_of (if is_dead jptm then jptm else set_status success jptm) ≡ s
    → (after : JobPartTransferMgr) × (disk' : Disk) × (common_downloader_completion true e
          (jptm, disk)
        ≡ some (after, disk'))
      × Ends before after s
      × ((disk' ≡ disk) ⊎ (disk' ≡ try_delete_file e disk))
unfolding report_transfer_done cancel
completion-Ends e before jptm disk s keeps st =
    let (disk', done, left) = completion e jptm disk in
    let ready = if is_dead jptm then jptm else set_status success jptm in
    let kept : Keeps jptm ready = elim (Bool-cases (is_dead jptm)) [
      | inl dead ↦ rw dead (record {
        same_reports = refl;
        same_chunks = refl;
        same_number = refl;
        same_done = refl;
        same_action = refl;
      })
      | inr live ↦ rw live (set_status_lem success jptm).2
    ] in
    let report : Report = record {
      transfer_status = status_of ready;
      error_code = ready.job_part_plan_transfer.atomic_error_code;
      hub = hub_report e.deletes ready.job_part_plan_transfer;
    } in
    (
      _,
      disk',
      done,
      record {
        report = report;
        reported = ap (λ rs. report ∷ rs) (kept.same_reports ∙ keeps.same_reports);
        status = st;
        cancelled_ctx = refl;
        unlocked = refl;
        same_chunks = kept.same_chunks ∙ keeps.same_chunks;
      },
      left,
    )
