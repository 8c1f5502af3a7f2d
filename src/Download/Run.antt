-- ===== src/Download/Run.antt =====
-- A transfer whose chunks are scheduled, as a sequence of steps: a chunk is done, an active chunk
-- fails, or the job is cancelled. A view of it that counts nothing says which report it ends with.
use axxx.Prelude.{
  ℕ, zero, suc, ◌+◌, ◌^◌, ◌<◌, ◌≤◌, ◌≡◌, refl, ap, Bool, true, false, List, [], ◌∷◌, ◌&&◌, Option,
  some, if◌then◌else◌, arith, nat_beq, length, get_elem?, set,
}
use axxx.Prelude.Int.{ℤ}
use axxx.Status.{
  TransferStatus, started, failed, blob_tier_failure, tier_availability_check_failure, cancelled,
}
use axxx.Download.{JobPartTransferMgr, cancel, fail_active_transfer, report_chunk_done}
use axxx.Download.EpilogueLaws.{status_of}
use axxx.Download.Checks.{Fresh}
use axxx.Prelude.{◌>>=◌}

-- A transfer fails with the status of failures in general, or with one about the access tier.
pub data Failure : Type 0 where
  in_general setting_tier checking_tier : Failure

abbrev pub failure_status : Failure → TransferStatus
failure_status in_general = failed
failure_status setting_tier = blob_tier_failure
failure_status checking_tier = tier_availability_check_failure

-- What may happen: the chunk with this number is done; an error with this HTTP status fails the
-- transfer, in this way; the job is cancelled.
pub data Event : Type 0 where
  chunk_done : ℕ → Event
  chunk_fails : ℤ → Failure → Event
  job_cancelled : Event

-- One event; `bytes` are the sizes of the chunks, and `action` is what runs after the last one.
module _ {W : Type 0} (bytes : ℕ → ℕ)
    (action : JobPartTransferMgr × W → Option (JobPartTransferMgr × W)) where
  unfoldable pub step : Event → JobPartTransferMgr × W → Option (JobPartTransferMgr × W)
  step (chunk_done i) s = report_chunk_done action i (bytes i) s
  step (chunk_fails status f) (jptm, w) =
      some (fail_active_transfer status (failure_status f) jptm, w)
  step job_cancelled (jptm, w) = some (cancel jptm, w)

  unfoldable pub run : List Event → JobPartTransferMgr × W → Option (JobPartTransferMgr × W)
  run [] s = some s
  run (event ∷ events) s = step event s >>= run events

-- How the transfer went so far.
pub data Fate : Type 0 where
  unharmed was_cancelled : Fate
  has_failed : Failure → Fate

-- The view: the chunks that are done, and how it went, or the status that was reported.
pub data View : Type 0 where
  in_flight : List Bool → Fate → View
  ended : TransferStatus → View

abbrev pub all_true : List Bool → Bool
all_true [] = true
all_true (b ∷ bs) = b && all_true bs

abbrev pub count : List Bool → ℕ
count [] = 0
count (b ∷ bs) = (if b then 1 else 0) + count bs

-- `verdict` is the status that the action gives to a transfer without harm.
abbrev pub outcome : TransferStatus → Fate → TransferStatus
outcome verdict unharmed = verdict
outcome verdict (has_failed f) = failure_status f
outcome verdict was_cancelled = cancelled

-- The first failure or cancellation counts.
abbrev pub harm : Fate → Fate → Fate
harm new unharmed = new
harm new old = old

abbrev pub view_step : TransferStatus → Event → View → View
view_step verdict (chunk_done i) (in_flight done fate) =
    let done' = set done i true in
    if all_true done' then ended (outcome verdict fate) else in_flight done' fate
view_step verdict (chunk_fails _ f) (in_flight done fate) =
    in_flight done (harm (has_failed f) fate)
view_step verdict job_cancelled (in_flight done fate) = in_flight done (harm was_cancelled fate)
view_step verdict _ (ended s) = ended s

abbrev pub view_run : TransferStatus → List Event → View → View
view_run verdict [] v = v
view_run verdict (event ∷ events) v = view_run verdict events (view_step verdict event v)

-- Each chunk is done at most once.
abbrev pub Once : List Bool → List Event → Type 0
Once done [] = Unit
Once done (chunk_done i ∷ events) = (get_elem? done i ≡ some false) × Once (set done i true) events
Once done (_ ∷ events) = Once done events

abbrev pub Fares : Fate → JobPartTransferMgr → Type 0
Fares unharmed jptm = Fresh jptm
Fares (has_failed f) jptm = (jptm.canceled ≡ true) × (status_of jptm ≡ failure_status f)
Fares was_cancelled jptm = (jptm.canceled ≡ true) × (status_of jptm ≡ started)

-- A transfer in flight: nothing is reported, and the counter counts.
pub record Flies (done : List Bool) (fate : Fate) (jptm : JobPartTransferMgr) : Type 0 where
  pub flags : jptm.chunks_notified ≡ done
  pub number : jptm.num_chunks ≡ length done
  pub small : length done < 2 ^ 32
  pub counted : jptm.atomic_chunks_done ≡ count done
  pub missing : all_true done ≡ false
  pub action : jptm.action_after_last_chunk ≡ true
  pub silent : jptm.reports ≡ []
  pub fares : Fares fate jptm

-- A transfer that is over: all its chunks are done, and one report was made, of this status.
pub record Over (done : List Bool) (status : TransferStatus) (jptm : JobPartTransferMgr)
    : Type 0 where
  pub complete : all_true done ≡ true
  pub stopped : jptm.canceled ≡ true
  pub reported : (r : axxx.Download.Report) × (jptm.reports ≡ r ∷ []) × (r.transfer_status ≡ status)

abbrev pub Shows : List Bool → JobPartTransferMgr → View → Type 0
Shows done jptm (in_flight done' fate) = (done' ≡ done) × Flies done fate jptm
Shows done jptm (ended status) = Over done status jptm

abbrev pub flags_after : Event → List Bool → List Bool
flags_after (chunk_done i) done = set done i true
flags_after _ done = done

pub length-set : (done : List Bool) (i : ℕ) → length (set done i true) ≡ length done
length-set [] i = refl
length-set (b ∷ done) zero = refl
length-set (b ∷ done) (suc i) = ap suc (length-set done i)

pub count-set :
    (done : List Bool) (i : ℕ)
    → get_elem? done i ≡ some false
    → count (set done i true) ≡ count done + 1
count-set [] i h = cc
count-set (b ∷ done) zero h = ground arith
count-set (b ∷ done) (suc i) h = omega (arith, count-set done i h)

pub count-le : (done : List Bool) → count done ≤ length done
count-le [] = omega arith
count-le (true ∷ done) = omega (arith, count-le done)
count-le (false ∷ done) = omega (arith, count-le done)

-- The counter reaches the number of chunks when all of them are done.
pub count_all : (done : List Bool) → nat_beq (count done) (length done) ≡ all_true done
count_all [] = refl
count_all (true ∷ done) = ground (arith, count_all done)
count_all (false ∷ done) = ground (arith, count-le done)

pub all_true-missing :
    (done : List Bool) (i : ℕ) → get_elem? done i ≡ some false → all_true done ≡ false
all_true-missing [] i h = cc
all_true-missing (b ∷ done) zero h = ground arith
all_true-missing (b ∷ done) (suc i) h = ground (arith, all_true-missing done i h)
