-- ===== src/Job/Missing.antt =====
-- A job that waits for some of its parts: the handler of ste/mgr-JobMgr.go.
use axxx.Prelude.{
  ℕ, ◌+◌, ◌^◌, ◌<◌, ◌≡◌, refl, true, false, List, [], ◌∷◌, ap, ◌∙◌, some, arith, nat_eq, length,
}
use native.Mathlib.Nat.{add-zero}
use axxx.Status.{in_progress}
use axxx.Job.Part.{JobPartProgressInfo}
use axxx.Job.Manager.{ok, ◌>>=◌, JobMgr, no_progress, job_status}
use axxx.Job.ManagerLaws.{Waits, report_parts, total, after_part, part_waits}

-- Fewer parts than there are have reported.
report_some :
    (is : List JobPartProgressInfo) (jm : JobMgr) (n p c k f : ℕ)
    → Waits jm n p c k f
    → n < 2 ^ 32
    → c + total (λ x. x.transfers_completed) is < 2 ^ 63
    → k + total (λ x. x.transfers_skipped) is < 2 ^ 63
    → f + total (λ x. x.transfers_failed) is < 2 ^ 63
    → p + length is < n
    → (jm' : JobMgr) × (report_parts is jm ≡ ok jm')
      × Waits jm' n
          (p + length is)
          (c + total (λ x. x.transfers_completed) is)
          (k + total (λ x. x.transfers_skipped) is)
          (f + total (λ x. x.transfers_failed) is)
unfolding report_parts
report_some [] jm n p c k f w small hc hk hf lt = (jm, refl, simp add-zero w)
report_some (i ∷ is) jm n p c k f w small hc hk hf lt =
    let next = after_part i jm n p c k f w small (omega arith) (omega arith) (omega arith) in
    let (jm', ran, waits) =
      report_some is next n (p + 1) (c + i.transfers_completed) (k + i.transfers_skipped)
        (f + i.transfers_failed)
        (record {
          parts = w.parts;
          ordered = w.ordered;
          status = w.status;
          open_channel = w.open_channel;
          done = refl;
          completed_so_far = refl;
          skipped_so_far = refl;
          failed_so_far = refl;
        })
        small (omega arith) (omega arith) (omega arith) (omega arith) in
    (
      jm',
      ap (λ o. o >>= report_parts is)
            (part_waits i jm n p c k f w small (omega arith) (omega arith) (omega arith)
              (omega arith))
          ∙ ran,
      record {
        parts = waits.parts;
        ordered = waits.ordered;
        status = waits.status;
        open_channel = waits.open_channel;
        done = omega (arith, waits.done);
        completed_so_far = omega (arith, waits.completed_so_far);
        skipped_so_far = omega (arith, waits.skipped_so_far);
        failed_so_far = omega (arith, waits.failed_so_far);
      },
    )

-- The final part of a job is ordered and `n` parts are known, none of them done. As long as fewer
-- than `n` have reported, and no cancellation interferes, and the totals fit an int, the handler
-- does not panic, the job stays in progress, the status manager's channel stays open, and the
-- handler has counted the parts that reported and the transfers that they completed, skipped and
-- failed.
pub parts_missing :
    (is : List JobPartProgressInfo) (jm : JobMgr)
    → length is < length jm.job_part_mgrs
    → length jm.job_part_mgrs < 2 ^ 32
    → jm.atomic_final_part_ordered_indicator ≡ true
    → job_status jm ≡ some in_progress
    → jm.xfer_done_closed ≡ false
    → jm.parts_done ≡ 0
    → jm.job_progress_info ≡ no_progress
    → total (λ x. x.transfers_completed) is < 2 ^ 63
    → total (λ x. x.transfers_skipped) is < 2 ^ 63
    → total (λ x. x.transfers_failed) is < 2 ^ 63
    → (jm' : JobMgr) × (report_parts is jm ≡ ok jm')
      × (job_status jm' ≡ some in_progress)
      × (jm'.xfer_done_closed ≡ false)
      × (jm'.parts_done ≡ length is)
      × (jm'.job_progress_info ≡ record {
        transfers_completed = total (λ x. x.transfers_completed) is;
        transfers_skipped = total (λ x. x.transfers_skipped) is;
        transfers_failed = total (λ x. x.transfers_failed) is;
      })
parts_missing is jm lt small ord st op d pr hc hk hf =
    let (jm', ran, w) =
      report_some is jm (length jm.job_part_mgrs) 0 0 0 0
        (record {
          parts = refl;
          ordered = ord;
          status = st;
          open_channel = op;
          done = d;
          completed_so_far = ground arith;
          skipped_so_far = ground arith;
          failed_so_far = ground arith;
        })
        small (omega arith) (omega arith) (omega arith) (omega arith) in
    (jm', ran, w.status, w.open_channel, omega (arith, w.done), ground (arith, w))
