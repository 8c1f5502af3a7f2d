-- ===== src/Job/Lifecycle.antt =====
-- What a job's status goes through once the job has ended: ste/mgr-JobMgr.go and `ResumeJobOrder`
-- of jobsAdmin/init.go.
use axxx.Prelude.{
  ℕ, ◌<◌, ◌≡◌, refl, Bool, true, false, List, [], ◌∷◌, ◌++◌, Option, some, arith, nat_eq,
}
use axxx.Prelude.Assoc.{lookup-insert}
use axxx.Status.{JobStatus, in_progress, failed, is_job_done}
use axxx.Job.Part.{JobPartProgressInfo}
use axxx.Job.Manager.{
  Outcome, ok, panic, ◌>>=◌, JobMgr, job_status, add_job_part, cancel_pause_job_order,
  report_job_part_done, resume_job_order,
}

-- What may happen to a job.
pub data Event : Type 0 where
  add : ℕ → Bool → JobStatus → Event
  part_done : JobPartProgressInfo → Option JobStatus → Event
  cancel_or_pause : JobStatus → Event
  resume : Bool → Event

pub step : Event → JobMgr → Outcome JobMgr
step (add n is_final status) jm = add_job_part n is_final status jm
step (part_done info meanwhile) jm = report_job_part_done info meanwhile jm
step (cancel_or_pause desired) jm = ok (cancel_pause_job_order desired jm).0
step (resume accepted) jm = ok (resume_job_order accepted jm).0

pub run : List Event → JobMgr → Outcome JobMgr
run [] jm = ok jm
run (e ∷ es) jm = step e jm >>= run es

-- No event orders part 0 anew, and no resume is accepted.
abbrev pub KeepsStatus : List Event → Type 0
KeepsStatus [] = Unit
KeepsStatus (add n is_final status ∷ es) = (0 < n) × KeepsStatus es
KeepsStatus (resume true ∷ es) = ⊥
KeepsStatus (_ ∷ es) = KeepsStatus es

abbrev pub StatusAfter : Outcome JobMgr → JobStatus → Type 0
StatusAfter (ok jm) s = job_status jm ≡ some s
StatusAfter panic s = Unit

step_done :
    (e : Event) (jm : JobMgr) (s : JobStatus)
    → job_status jm ≡ some s
    → is_job_done s ≡ true
    → KeepsStatus (e ∷ [])
    → StatusAfter (step e jm) s
unfolding step add_job_part report_job_part_done cancel_pause_job_order resume_job_order is_job_done
step_done (add n is_final status) jm s h d k =
    ground (arith, lookup-insert n 0 status jm.job_part_mgrs)
step_done (part_done info meanwhile) jm s h d k = ground arith
step_done (cancel_or_pause desired) jm s h d k = ground arith
step_done (resume true) jm s h d k = absurd k
step_done (resume false) jm s h d k = h

after_bind :
    (o : Outcome JobMgr) (es : List Event) (s : JobStatus)
    → StatusAfter o s
    → ((jm : JobMgr) → job_status jm ≡ some s → StatusAfter (run es jm) s)
    → StatusAfter (o >>= run es) s
after_bind (ok jm) es s h next = next jm h
after_bind panic es s h next = tt

KeepsStatus-head : (e : Event) (es : List Event) → KeepsStatus (e ∷ es) → KeepsStatus (e ∷ [])
KeepsStatus-head (add n is_final status) es (p, _) = (p, tt)
KeepsStatus-head (part_done info meanwhile) es k = tt
KeepsStatus-head (cancel_or_pause desired) es k = tt
KeepsStatus-head (resume true) es k = k
KeepsStatus-head (resume false) es k = tt

KeepsStatus-tail : (e : Event) (es : List Event) → KeepsStatus (e ∷ es) → KeepsStatus es
KeepsStatus-tail (add n is_final status) es (_, k) = k
KeepsStatus-tail (part_done info meanwhile) es k = k
KeepsStatus-tail (cancel_or_pause desired) es k = k
KeepsStatus-tail (resume true) es k = absurd k
KeepsStatus-tail (resume false) es k = k

run_kept :
    (es : List Event) (jm : JobMgr) (s : JobStatus)
    → job_status jm ≡ some s
    → is_job_done s ≡ true
    → KeepsStatus es
    → StatusAfter (run es jm) s
unfolding run
run_kept [] jm s h d k = h
run_kept (e ∷ es) jm s h d k =
    after_bind (step e jm) es s (step_done e jm s h d (KeepsStatus-head e es k))
      (λ jm' h'. run_kept es jm' s h' d (KeepsStatus-tail e es k))

-- What a job that has ended becomes by a resume.
abbrev pub resumed : JobStatus → JobStatus
resumed failed = failed
resumed _ = in_progress

resume_done :
    (jm : JobMgr) (s : JobStatus)
    → job_status jm ≡ some s
    → is_job_done s ≡ true
    → job_status (resume_job_order true jm).0 ≡ some (resumed s)
unfolding resume_job_order is_job_done
resume_done jm s h d = ground (arith, lookup-insert 0 0 in_progress jm.job_part_mgrs)

run-append : (es fs : List Event) (jm : JobMgr) → run (es ++ fs) jm ≡ (run es jm >>= run fs)
unfolding run
run-append [] fs jm = refl
run-append (e ∷ es) fs jm =
    elim (step e jm)
      as (λ (o : Outcome JobMgr). (o >>= run (es ++ fs)) ≡ ((o >>= run es) >>= run fs)) [
        | ok jm' ↦ run-append es fs jm'
        | panic ↦ refl
      ]

after_resume :
    (o : Outcome JobMgr) (s : JobStatus)
    → StatusAfter o s
    → is_job_done s ≡ true
    → StatusAfter (o >>= run (resume true ∷ [])) (resumed s)
unfolding run step
after_resume (ok jm) s h d = resume_done jm s h d
after_resume panic s h d = tt

-- A job that has ended keeps its final status, whatever is done to it later, as long as its part 0
-- is not ordered anew and it is not resumed: parts that are added or done, requests to cancel or
-- pause, and requests to resume that are turned down. A resume that is accepted then sets it to in
-- progress, unless all of its transfers failed, that is its status is `Failed`, which stays. This
-- holds where the code does not panic.
pub run_done :
    (es : List Event) (jm : JobMgr) (s : JobStatus)
    → job_status jm ≡ some s
    → is_job_done s ≡ true
    → KeepsStatus es
    → StatusAfter (run es jm) s × StatusAfter (run (es ++ resume true ∷ []) jm) (resumed s)
unfolding run step
run_done es jm s h d k =
    let kept = run_kept es jm s h d k in
    (kept, rw (run-append es (resume true ∷ []) jm) (after_resume (run es jm) s kept d))
