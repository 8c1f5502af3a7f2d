-- ===== src/Download/Counting.antt =====
-- What a chunk that is done changes in a transfer in flight.
use axxx.Prelude.{
  ℕ, ◌^◌, ◌<◌, ◌≡◌, refl, ap, sym, ◌∙◌, Bool, true, false, List, [], ◌∷◌, some, arith, length,
  get_elem?, set, Bool-cases, inl, inr,
}
use axxx.Status.{TransferStatus, cancelled, code}
use axxx.Plan.{morph_status}
use axxx.Download.{JobPartTransferMgr, cancel, is_live, track_progress, count_chunk}
use axxx.Download.Epilogue.{Disk, Ending, epilogue_with_cleanup_download}
use axxx.Download.EpilogueLaws.{Ends, status_of, morph_started}
use axxx.Download.Checks.{hash_panics}
use axxx.Download.Outcome.{verdict, epilogue-Fresh, epilogue_stopped}
use axxx.Download.Run.{
  Event, chunk_done, chunk_fails, job_cancelled, Failure, in_general, setting_tier, checking_tier,
  failure_status, Fate, unharmed, has_failed, was_cancelled, count, outcome, harm, Once, Fares,
  Flies, flags_after, length-set, count-set, count-le,
}

-- The bytes of a chunk change nothing but the counters of bytes.
record Alike (before after : JobPartTransferMgr) : Type 0 where
  pub done : after.atomic_chunks_done ≡ before.atomic_chunks_done
  pub context : after.canceled ≡ before.canceled
  pub status : status_of after ≡ status_of before
  pub number : after.num_chunks ≡ before.num_chunks
  pub action : after.action_after_last_chunk ≡ before.action_after_last_chunk
  pub flags : after.chunks_notified ≡ before.chunks_notified
  pub reports : after.reports ≡ before.reports

track_progress-Alike :
    (bytes : ℕ) (jptm : JobPartTransferMgr) → Alike jptm (track_progress bytes jptm)
unfolding track_progress
track_progress-Alike bytes jptm =
    let same : (j : JobPartTransferMgr) → Alike j j = λ j. record {
      done = refl;
      context = refl;
      status = refl;
      number = refl;
      action = refl;
      flags = refl;
      reports = refl;
    } in
    elim (Bool-cases (is_live jptm)) [
      | inl live ↦ rw live (record {
        done = refl;
        context = refl;
        status = refl;
        number = refl;
        action = refl;
        flags = refl;
        reports = refl;
      })
      | inr dead ↦ rw dead (same jptm)
    ]

Fares-Alike :
    (fate : Fate) (before after : JobPartTransferMgr)
    → after.canceled ≡ before.canceled
    → status_of after ≡ status_of before
    → Fares fate before
    → Fares fate after
Fares-Alike unharmed before after c s f = record { going = c ∙ f.going; status = s ∙ f.status }
Fares-Alike (has_failed f) before after c s (stopped, status) = (c ∙ stopped, s ∙ status)
Fares-Alike was_cancelled before after c s (stopped, status) = (c ∙ stopped, s ∙ status)

pub morph_failed :
    (f : Failure) (t : TransferStatus)
    → t ≡ failure_status f
    → morph_status cancelled false t ≡ failure_status f
unfolding morph_status code
morph_failed in_general t h = rw h refl
morph_failed setting_tier t h = rw h refl
morph_failed checking_tier t h = rw h refl

pub epilogue-Fares :
    (fate : Fate) (e : Ending) (jptm : JobPartTransferMgr) (disk : Disk)
    → hash_panics e ≡ false
    → Fares fate jptm
    → (after : JobPartTransferMgr) × (disk' : Disk) × (epilogue_with_cleanup_download true e
          (jptm, disk)
        ≡ some (after, disk'))
      × Ends jptm after (outcome (verdict e) fate)
epilogue-Fares unharmed e jptm disk calm f = epilogue-Fresh e jptm disk f calm
epilogue-Fares (has_failed f) e jptm disk calm (stopped, status) =
    rw (← morph_failed f (status_of jptm) status) (epilogue_stopped e jptm disk stopped)
epilogue-Fares was_cancelled e jptm disk calm (stopped, status) =
    rw (← morph_started cancelled (status_of jptm) status) (epilogue_stopped e jptm disk stopped)

-- A chunk of a transfer in flight, before it is known whether it was the last one.
pub record Counted (done : List Bool) (fate : Fate) (counted : JobPartTransferMgr) : Type 0 where
  pub flags : counted.chunks_notified ≡ done
  pub number : counted.num_chunks ≡ length done
  pub small : length done < 2 ^ 32
  pub total : counted.atomic_chunks_done ≡ count done
  pub action : counted.action_after_last_chunk ≡ true
  pub silent : counted.reports ≡ []
  pub fares : Fares fate counted

abbrev pub notified : ℕ → JobPartTransferMgr → JobPartTransferMgr
notified i jptm = record jptm { chunks_notified = set jptm.chunks_notified i true }

pub count_chunk-Counted :
    (bytes : ℕ) (done : List Bool) (fate : Fate) (i : ℕ) (jptm : JobPartTransferMgr)
    → Flies done fate jptm
    → get_elem? done i ≡ some false
    → Counted (set done i true) fate (count_chunk bytes (notified i jptm))
unfolding count_chunk
count_chunk-Counted bytes done fate i jptm f free =
    let a = track_progress-Alike bytes (notified i jptm) in
    let le = count-le (set done i true) in
    record {
      flags = a.flags ∙ ap (λ flags. set flags i true) f.flags;
      number = a.number ∙ f.number ∙ sym (length-set done i);
      small = omega (arith, f.small, length-set done i);
      total =
          omega (arith, a.done, f.counted, f.small, le, length-set done i, count-set done i free);
      action = a.action ∙ f.action;
      silent = a.reports ∙ f.silent;
      fares = Fares-Alike fate jptm _ a.context a.status f.fares;
    }

pub Fares-cancel :
    (fate : Fate) (jptm : JobPartTransferMgr)
    → Fares fate jptm
    → Fares (harm was_cancelled fate) (cancel jptm)
unfolding cancel
Fares-cancel unharmed jptm f = (refl, f.status)
Fares-cancel (has_failed f) jptm (stopped, status) = (refl, status)
Fares-cancel was_cancelled jptm (stopped, status) = (refl, status)

pub Once-first :
    (event : Event) (events : List Event) (done : List Bool)
    → Once done (event ∷ events)
    → Once done (event ∷ [])
Once-first (chunk_done i) events done (free, _) = (free, tt)
Once-first (chunk_fails _ _) events done once = tt
Once-first job_cancelled events done once = tt

pub Once-rest :
    (event : Event) (events : List Event) (done : List Bool)
    → Once done (event ∷ events)
    → Once (flags_after event done) events
Once-rest (chunk_done i) events done (_, rest) = rest
Once-rest (chunk_fails _ _) events done once = once
Once-rest job_cancelled events done once = once
