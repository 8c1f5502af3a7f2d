-- ===== src/Job/ManagerLaws.antt =====
-- A job ends once, when its last part is done, with the status that its transfers earned.
use axxx.Prelude.{
  ℕ, ◌+◌, ◌^◌, ◌<◌, ◌≡◌, refl, true, false, List, [], ◌∷◌, none, some, arith, ltb, nat_eq, length,
}
use native.Mathlib.Nat.{add-zero, zero-add, add_assoc}
use axxx.Prelude.Assoc.{insert, lookup-insert, length-insert}
use axxx.Status.{JobStatus, in_progress, cancelling, cancelled, enhance_job_status_info}
use axxx.Job.Part.{JobPartProgressInfo}
use axxx.Job.Manager.{
  Outcome, ok, panic, ◌>>=◌, JobMgr, no_progress, job_status, cancel_pause_job_order,
  report_job_part_done,
}

-- The parts of a job reporting one after another, with no cancellation.
unfoldable pub report_parts : List JobPartProgressInfo → JobMgr → Outcome JobMgr
report_parts [] jm = ok jm
report_parts (i ∷ is) jm = report_job_part_done i none jm >>= report_parts is

abbrev pub total : (JobPartProgressInfo → ℕ) → List JobPartProgressInfo → ℕ
total f [] = 0
total f (i ∷ is) = f i + total f is

-- `c` transfers completed, `k` skipped and `f` failed so far in a job that has `n` parts and is
-- waiting for `n - p` of them.
pub record Waits (jm : JobMgr) (n p c k f : ℕ) : Type 0 where
  pub parts : length jm.job_part_mgrs ≡ n
  pub ordered : jm.atomic_final_part_ordered_indicator ≡ true
  pub status : job_status jm ≡ some in_progress
  pub open_channel : jm.xfer_done_closed ≡ false
  pub done : jm.parts_done ≡ p
  pub completed_so_far : jm.job_progress_info.transfers_completed ≡ c
  pub skipped_so_far : jm.job_progress_info.transfers_skipped ≡ k
  pub failed_so_far : jm.job_progress_info.transfers_failed ≡ f

-- The job has ended with the status that the totals give, and is ready for a resume.
pub record Ended (o : Outcome JobMgr) (c k f : ℕ) : Type 0 where
  pub after : JobMgr
  pub returns : o ≡ ok after
  pub status : job_status after ≡ some (enhance_job_status_info (ltb 0 k) (ltb 0 f) (ltb 0 c))
  pub closed : after.xfer_done_closed ≡ true
  pub parts_done : after.parts_done ≡ 0
  pub progress : after.job_progress_info ≡ no_progress

module _ (i : JobPartProgressInfo) (jm : JobMgr) (n p c k f : ℕ) (w : Waits jm n p c k f)
    (small : n < 2 ^ 32) (hc : c + i.transfers_completed < 2 ^ 63)
    (hk : k + i.transfers_skipped < 2 ^ 63) (hf : f + i.transfers_failed < 2 ^ 63) where
  abbrev final : JobStatus
  final =
      enhance_job_status_info (ltb 0 (k + i.transfers_skipped)) (ltb 0 (f + i.transfers_failed))
        (ltb 0 (c + i.transfers_completed))

  abbrev pub after_part : JobMgr
  after_part = record jm {
    parts_done = p + 1;
    job_progress_info = record {
      transfers_completed = c + i.transfers_completed;
      transfers_skipped = k + i.transfers_skipped;
      transfers_failed = f + i.transfers_failed;
    };
  }

  pub part_waits : p + 1 < n → report_job_part_done i none jm ≡ ok after_part
  unfolding report_job_part_done
  part_waits lt = ground (arith, w)

  part_ends :
      p + 1 ≡ n
      → Ended
          (report_job_part_done i none jm)
          (c + i.transfers_completed)
          (k + i.transfers_skipped)
          (f + i.transfers_failed)
  unfolding report_job_part_done
  part_ends e = record {
    after = record jm {
      job_part_mgrs = insert 0 final jm.job_part_mgrs;
      parts_done = 0;
      job_progress_info = no_progress;
      xfer_done_closed = true;
    };
    returns = ground (arith, w);
    status = ground (arith, lookup-insert 0 0 final jm.job_part_mgrs);
    closed = refl;
    parts_done = refl;
    progress = refl;
  }

bind-ok : (o : Outcome JobMgr) → (o >>= λ jm. ok jm) ≡ o
bind-ok (ok jm) = refl
bind-ok panic = refl

-- All parts of a job of `n` parts report, `p` having reported before: the job ends at the last one.
report_rest :
    (i : JobPartProgressInfo) (is : List JobPartProgressInfo) (jm : JobMgr) (n p c k f : ℕ)
    → Waits jm n p c k f
    → n < 2 ^ 32
    → c + total (λ x. x.transfers_completed) (i ∷ is) < 2 ^ 63
    → k + total (λ x. x.transfers_skipped) (i ∷ is) < 2 ^ 63
    → f + total (λ x. x.transfers_failed) (i ∷ is) < 2 ^ 63
    → p + length (i ∷ is) ≡ n
    → Ended
        (report_parts (i ∷ is) jm)
        (c + total (λ x. x.transfers_completed) (i ∷ is))
        (k + total (λ x. x.transfers_skipped) (i ∷ is))
        (f + total (λ x. x.transfers_failed) (i ∷ is))
unfolding report_parts
report_rest i [] jm n p c k f w small hc hk hf e =
    simp (add-zero, bind-ok)
      (part_ends i jm n p c k f w small (omega arith) (omega arith) (omega arith) (omega arith))
report_rest i (i' ∷ is) jm n p c k f w small hc hk hf e =
    rw (part_waits i jm n p c k f w small (omega arith) (omega arith) (omega arith) (omega arith)) (
      simp add_assoc at (
        report_rest i' is
          (after_part i jm n p c k f w small (omega arith) (omega arith) (omega arith)) n (p + 1)
          (c + i.transfers_completed) (k + i.transfers_skipped) (f + i.transfers_failed)
          (record {
            parts = w.parts;
            ordered = w.ordered;
            status = w.status;
            open_channel = w.open_channel;
            done = refl;
            completed_so_far = refl;
            skipped_so_far = refl;
            failed_so_far = refl;
          })
          small (omega arith) (omega arith) (omega arith) (omega arith)))

-- The final part of a job is ordered and `n` parts are known, none of them done. When all of them
-- have reported, and no cancellation interferes, and the totals fit an int, the handler returns:
-- the job's status is the one for the total number of skipped, failed and completed transfers of
-- all parts, the status manager's channel is closed, and the handler's counters are reset.
pub parts_end_job :
    (i : JobPartProgressInfo) (is : List JobPartProgressInfo) (jm : JobMgr)
    → length (i ∷ is) ≡ length jm.job_part_mgrs
    → length jm.job_part_mgrs < 2 ^ 32
    → jm.atomic_final_part_ordered_indicator ≡ true
    → job_status jm ≡ some in_progress
    → jm.xfer_done_closed ≡ false
    → jm.parts_done ≡ 0
    → jm.job_progress_info ≡ no_progress
    → total (λ x. x.transfers_completed) (i ∷ is) < 2 ^ 63
    → total (λ x. x.transfers_skipped) (i ∷ is) < 2 ^ 63
    → total (λ x. x.transfers_failed) (i ∷ is) < 2 ^ 63
    → Ended
        (report_parts (i ∷ is) jm)
        (total (λ x. x.transfers_completed) (i ∷ is))
        (total (λ x. x.transfers_skipped) (i ∷ is))
        (total (λ x. x.transfers_failed) (i ∷ is))
parts_end_job i is jm len small ord st op d pr hc hk hf = simp zero-add at (
    report_rest i is jm (length jm.job_part_mgrs) 0 0 0 0
      (record {
        parts = refl;
        ordered = ord;
        status = st;
        open_channel = op;
        done = d;
        completed_so_far = ground arith;
        skipped_so_far = ground arith;
        failed_so_far = ground arith;
      })
      small (omega arith) (omega arith) (omega arith) (omega arith))

-- A cancelled job, the final part of which may never have been ordered: when the last part that is
-- known is done, the job is cancelled, whatever its transfers did.
pub cancel_ends :
    (i : JobPartProgressInfo) (jm : JobMgr)
    → job_status jm ≡ some in_progress
    → jm.parts_done + 1 ≡ length jm.job_part_mgrs
    → length jm.job_part_mgrs < 2 ^ 32
    → jm.xfer_done_closed ≡ false
    → (jm' : JobMgr) × (report_job_part_done i none (cancel_pause_job_order cancelling jm).0
        ≡ ok jm')
      × (job_status jm' ≡ some cancelled)
      × (jm'.cancelled_ctx ≡ true)
unfolding report_job_part_done cancel_pause_job_order
cancel_ends i jm h e small op =
    let parts = insert 0 cancelling jm.job_part_mgrs in
    (
      record jm {
        job_part_mgrs = insert 0 cancelled parts;
        parts_done = 0;
        job_progress_info = no_progress;
        xfer_done_closed = true;
        cancelled_ctx = true;
      },
      ground (
        arith,
        lookup-insert 0 0 cancelling jm.job_part_mgrs,
        length-insert 0 cancelling in_progress jm.job_part_mgrs h,
      ),
      ground (arith, lookup-insert 0 0 cancelled parts),
      refl,
    )
