-- ===== src/Plan/Sticky.antt =====
-- A failed transfer stays failed, with the first failure that was recorded.
use axxx.Prelude.{◌≡◌, refl, true, false, List, [], ◌∷◌, if◌then◌else◌, inl, inr, Bool-cases}
use axxx.Prelude.Int.{is_neg}
use axxx.Status.{TransferStatus, code}
use axxx.Plan.{JobPartPlanTransfer, set_transfer_status}

-- The statuses that are set, one after another, without the overwrite flag.
pub set_all : List TransferStatus → JobPartPlanTransfer → JobPartPlanTransfer
set_all [] t = t
set_all (s ∷ ss) t = set_all ss (set_transfer_status s false t)

-- The first failure among the statuses behind `s`, or else the last of them.
pub first_failure : TransferStatus → List TransferStatus → TransferStatus
first_failure s [] = s
first_failure s (s' ∷ ss) = if is_neg (code s) then s else first_failure s' ss

first_failure_neg :
    (s : TransferStatus) (ss : List TransferStatus)
    → is_neg (code s) ≡ true
    → first_failure s ss ≡ s
unfolding first_failure
first_failure_neg s [] h = refl
first_failure_neg s (s' ∷ ss) h = rw h

-- Setting any statuses without the overwrite flag leaves the first failure, the old status
-- included, and the last status if there is none; the error code is untouched.
pub set_all-first_failure :
    (ss : List TransferStatus) (t : JobPartPlanTransfer)
    → set_all ss t ≡ record t { atomic_transfer_status = first_failure t.atomic_transfer_status ss }
unfolding set_all set_transfer_status first_failure
set_all-first_failure [] t = refl
set_all-first_failure (s ∷ ss) t =
    rw (set_all-first_failure ss (set_transfer_status s false t))
      (elim (Bool-cases (is_neg (code t.atomic_transfer_status))) [
        | inl old ↦ rw (old, first_failure_neg t.atomic_transfer_status ss old)
        | inr new ↦ rw new
      ])
