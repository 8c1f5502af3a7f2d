-- ===== src/Plan.antt =====
-- ste/JobPartPlan.go: the part of the memory-mapped plan that changes while a job runs, which is
-- the status and the error code of each transfer, and the statuses of the job and of the part.
-- `AtomicMorphInt32` stores `morpher current` by compare-and-swap: one such store is one step here.
pub mod File
pub mod FileLaws
pub mod Overflow
pub mod RoundTrip
pub mod Located
pub mod Reading
pub mod Sticky
use axxx.Prelude.{ℕ, Bool, true, false, List, Option, none, some, if◌then◌else◌, get_elem?, set}
use axxx.Prelude.Int.{ℤ, pos, is_neg}
use axxx.Status.{JobStatus, TransferStatus, code}

pub record JobPartPlanTransfer : Type 0 where
  pub atomic_transfer_status : TransferStatus
  pub atomic_error_code : ℤ

pub record JobPartPlanHeader : Type 0 where
  pub transfers : List JobPartPlanTransfer
  pub atomic_job_status : JobStatus
  pub atomic_part_status : JobStatus

-- The value that the status takes: a failure is not overwritten unless the flag says so.
unfoldable pub morph_status : TransferStatus → Bool → TransferStatus → TransferStatus
unfolding code
morph_status status over_write start_val =
    if over_write then status else if is_neg (code start_val) then start_val else status

unfoldable pub set_transfer_status :
    TransferStatus → Bool → JobPartPlanTransfer → JobPartPlanTransfer
unfolding morph_status
set_transfer_status status over_write t = record t {
  atomic_transfer_status = morph_status status over_write t.atomic_transfer_status;
}

abbrev pub is_zero : ℤ → Bool
is_zero (pos ℕ.zero) = true
is_zero _ = false

unfoldable pub set_error_code : ℤ → Bool → JobPartPlanTransfer → JobPartPlanTransfer
set_error_code error_code overwrite t =
    if overwrite
    then record t { atomic_error_code = error_code }
    else if is_zero t.atomic_error_code
    then record t { atomic_error_code = error_code }
    else t

-- `Transfer(index)`; `none` is the panic on an index that is not below `NumTransfers`.
unfoldable pub transfer : JobPartPlanHeader → ℕ → Option JobPartPlanTransfer
transfer jpph transfer_index = get_elem? jpph.transfers transfer_index

-- `plan.Transfer(index).SetTransferStatus(status, overWrite)`.
unfoldable pub set_status_at :
    JobPartPlanHeader → ℕ → TransferStatus → Bool → Option JobPartPlanHeader
unfolding transfer set_transfer_status
set_status_at jpph transfer_index status over_write = elim (transfer jpph transfer_index) [
  | none ↦ none
  | some t ↦ some (record jpph {
    transfers = set jpph.transfers transfer_index (set_transfer_status status over_write t);
  })
]
