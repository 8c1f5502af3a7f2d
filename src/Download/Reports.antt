-- ===== src/Download/Reports.antt =====
-- A transfer is reported once, when its last chunk is done, with the status that its view says.
use axxx.Prelude.{
  ℕ, ◌≡◌, refl, ap, ◌∙◌, Bool, true, false, List, [], ◌∷◌, Option, some, if◌then◌else◌, arith,
  nat_beq, get_elem?, set, Bool-cases, inl, inr,
}
use axxx.Prelude.Int.{ℤ}
use axxx.Status.{TransferStatus}
use axxx.Limiter.{sub64}
use axxx.Download.{
  JobPartTransferMgr, cancel, fail_active_transfer, count_chunk, last_chunk_done,
  set_completion_notification_sent, run_action_after_last_chunk, report_chunk_done,
}
use axxx.Download.EpilogueLaws.{Ends, fail_canceled, fail_live}
use axxx.Download.Run.{
  Event, chunk_done, chunk_fails, job_cancelled, step, run, Failure, failure_status, Fate, unharmed,
  has_failed, was_cancelled, Fares, View, in_flight, ended, all_true, outcome, harm, view_step,
  view_run, Once, Flies, Over, Shows, flags_after, count_all, all_true-missing,
}
use axxx.Prelude.{◌>>=◌}
use axxx.Download.Counting.{
  Counted, notified, count_chunk-Counted, Fares-cancel, Once-first, Once-rest,
}

module _ {W : Type 0} (bytes : ℕ → ℕ)
    (action : JobPartTransferMgr × W → Option (JobPartTransferMgr × W)) where
  step-chunk_done :
      (i : ℕ) (jptm : JobPartTransferMgr) (disk : W)
      → get_elem? jptm.chunks_notified i ≡ some false
      → step bytes action (chunk_done i) (jptm, disk) ≡ (
          let counted = count_chunk (bytes i) (notified i jptm) in
          if nat_beq counted.atomic_chunks_done counted.num_chunks
          then last_chunk_done action (counted, disk)
          else some (counted, disk))
  unfolding step report_chunk_done set_completion_notification_sent
  step-chunk_done i jptm disk free =
      rw (step, report_chunk_done, set_completion_notification_sent, free) refl

last_chunk_done_lem :
    (W : Type 0) (action : JobPartTransferMgr × W → Option (JobPartTransferMgr × W))
    (jptm after : JobPartTransferMgr) (w w' : W)
    → jptm.action_after_last_chunk ≡ true
    → action (jptm, w) ≡ some (after, w')
    → last_chunk_done action (jptm, w)
      ≡ some (
        record after {
          action_after_last_chunk = false;
          bytes_in_active_files = sub64 after.bytes_in_active_files after.atomic_successful_bytes;
        },
        w',
      )
unfolding last_chunk_done run_action_after_last_chunk
last_chunk_done_lem W action jptm after w w' h ran =
    ap
      (λ (o : Option (JobPartTransferMgr × W)). o >>= λ x. some (
        record (x.0) {
          bytes_in_active_files = sub64 x.0.bytes_in_active_files x.0.atomic_successful_bytes;
        },
        x.1,
      ))
      (ap
          (λ (b : Bool).
            if b
            then (action (jptm, w) >>= λ x.
                some (record (x.0) { action_after_last_chunk = false }, x.1))
            else some (jptm, w))
          h
        ∙ ap
            (λ (o : Option (JobPartTransferMgr × W)).
              o >>= λ x. some (record (x.0) { action_after_last_chunk = false }, x.1))
            ran)

module _ {W : Type 0} (bytes : ℕ → ℕ)
    (action : JobPartTransferMgr × W → Option (JobPartTransferMgr × W)) (verdict : TransferStatus)
    (finishes : (fate : Fate) (jptm : JobPartTransferMgr) (w : W)
      → Fares fate jptm
      → (after : JobPartTransferMgr) × (w' : W) × (action (jptm, w) ≡ some (after, w'))
        × Ends jptm after (outcome verdict fate)) where
  last_chunk_done-Over :
      (done : List Bool) (fate : Fate) (counted : JobPartTransferMgr) (disk : W)
      → Counted done fate counted
      → all_true done ≡ true
      → (jptm' : JobPartTransferMgr) × (disk' : W) × (last_chunk_done action (counted, disk)
          ≡ some (jptm', disk'))
        × Over done (outcome verdict fate) jptm'
  last_chunk_done-Over done fate counted disk c complete =
      let (after, disk', ran, ends) = finishes fate counted disk c.fares in
      (
        record after {
          action_after_last_chunk = false;
          bytes_in_active_files = sub64 after.bytes_in_active_files after.atomic_successful_bytes;
        },
        disk',
        last_chunk_done_lem W action counted after disk disk' c.action ran,
        record {
          complete = complete;
          stopped = ends.cancelled_ctx;
          reported =
              (ends.report, ends.reported ∙ ap (λ rs. ends.report ∷ rs) c.silent, ends.status);
        },
      )

  chunk_done-Shows :
      (done : List Bool) (fate : Fate) (i : ℕ) (jptm : JobPartTransferMgr) (disk : W)
      → Flies done fate jptm
      → get_elem? done i ≡ some false
      → (jptm' : JobPartTransferMgr) × (disk' : W) × (step bytes action (chunk_done i) (jptm, disk)
          ≡ some (jptm', disk'))
        × Shows (set done i true) jptm' (view_step verdict (chunk_done i) (in_flight done fate))
  chunk_done-Shows done fate i jptm disk f free =
      let counted = count_chunk (bytes i) (notified i jptm) in
      let c = count_chunk-Counted (bytes i) done fate i jptm f free in
      let taken =
        step-chunk_done bytes action i jptm disk (ap (λ flags. get_elem? flags i) f.flags ∙ free) in
      let last : nat_beq counted.atomic_chunks_done counted.num_chunks
          ≡ all_true (set done i true) =
        rw (c.total, c.number) (count_all (set done i true)) in
      elim (Bool-cases (all_true (set done i true))) [
        | inl complete ↦
            let (after, disk', ran, over') =
              last_chunk_done-Over (set done i true) fate counted disk c complete in
            let now =
              ap
                (λ (b : Bool).
                  if b then last_chunk_done action (counted, disk) else some (counted, disk))
                (last ∙ complete) in
            rw complete (after, disk', taken ∙ now ∙ ran, over')
        | inr missing ↦
            let now =
              ap
                (λ (b : Bool).
                  if b then last_chunk_done action (counted, disk) else some (counted, disk))
                (last ∙ missing) in
            rw missing (
              counted,
              disk,
              taken ∙ now,
              (
                refl,
                record {
                  flags = c.flags;
                  number = c.number;
                  small = c.small;
                  counted = c.total;
                  missing = missing;
                  action = c.action;
                  silent = c.silent;
                  fares = c.fares;
                },
              ),
            )
      ]

  chunk_fails-Shows :
      (done : List Bool) (fate : Fate) (status : ℤ) (way : Failure) (jptm : JobPartTransferMgr)
      → Flies done fate jptm
      → Flies done
          (harm (has_failed way) fate)
          (fail_active_transfer status (failure_status way) jptm)
  chunk_fails-Shows done unharmed status way jptm f =
      let (stopped, failure, keeps) =
        fail_live status (failure_status way) jptm f.fares.going f.fares.status in
      record {
        flags = keeps.same_chunks ∙ f.flags;
        number = keeps.same_number ∙ f.number;
        small = f.small;
        counted = keeps.same_done ∙ f.counted;
        missing = f.missing;
        action = keeps.same_action ∙ f.action;
        silent = keeps.same_reports ∙ f.silent;
        fares = (stopped, failure);
      }
  chunk_fails-Shows done (has_failed _) status way jptm f =
      rw (fail_canceled status (failure_status way) jptm f.fares.0) f
  chunk_fails-Shows done was_cancelled status way jptm f =
      rw (fail_canceled status (failure_status way) jptm f.fares.0) f

  job_cancelled-Shows :
      (done : List Bool) (fate : Fate) (jptm : JobPartTransferMgr)
      → Flies done fate jptm
      → Flies done (harm was_cancelled fate) (cancel jptm)
  unfolding cancel
  job_cancelled-Shows done fate jptm f = record {
    flags = f.flags;
    number = f.number;
    small = f.small;
    counted = f.counted;
    missing = f.missing;
    action = f.action;
    silent = f.silent;
    fares = Fares-cancel fate jptm f.fares;
  }

  step-Shows :
      (event : Event) (done : List Bool) (v : View) (jptm : JobPartTransferMgr) (disk : W)
      → Shows done jptm v
      → Once done (event ∷ [])
      → (jptm' : JobPartTransferMgr) × (disk' : W) × (step bytes action event (jptm, disk)
          ≡ some (jptm', disk'))
        × Shows (flags_after event done) jptm' (view_step verdict event v)
  unfolding step cancel
  step-Shows (chunk_done i) done (in_flight done' fate) jptm disk (same, f) (free, _) =
      rw same (chunk_done-Shows done fate i jptm disk f free)
  step-Shows (chunk_done i) done (ended s) jptm disk over' (free, _) =
      ground (arith, over'.complete, all_true-missing done i free)
  step-Shows (chunk_fails status way) done (in_flight done' fate) jptm disk (same, f) once =
      (_, disk, refl, (same, chunk_fails-Shows done fate status way jptm f))
  step-Shows (chunk_fails status way) done (ended s) jptm disk over' once =
      (_, disk, refl, rw (fail_canceled status (failure_status way) jptm over'.stopped) over')
  step-Shows job_cancelled done (in_flight done' fate) jptm disk (same, f) once =
      (_, disk, refl, (same, job_cancelled-Shows done fate jptm f))
  step-Shows job_cancelled done (ended s) jptm disk over' once = (
    _,
    disk,
    refl,
    record { complete = over'.complete; stopped = refl; reported = over'.reported },
  )

  pub run-Shows :
      (events : List Event) (done : List Bool) (v : View) (jptm : JobPartTransferMgr) (disk : W)
      → Shows done jptm v
      → Once done events
      → (jptm' : JobPartTransferMgr) × (disk' : W) × (done' : List Bool) × (run bytes action events
            (jptm, disk)
          ≡ some (jptm', disk'))
        × Shows done' jptm' (view_run verdict events v)
  unfolding run
  run-Shows [] done v jptm disk h once = (jptm, disk, done, refl, h)
  run-Shows (event ∷ events) done v jptm disk h once =
      let (jptm1, disk1, taken, h1) =
        step-Shows event done v jptm disk h (Once-first event events done once) in
      let (jptm2, disk2, done2, ran, h2) =
        run-Shows events (flags_after event done) (view_step verdict event v) jptm1 disk1 h1
          (Once-rest event events done once) in
      (jptm2, disk2, done2, ap (λ o. o >>= run bytes action events) taken ∙ ran, h2)
