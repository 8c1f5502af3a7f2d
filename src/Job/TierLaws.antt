-- ===== src/Job/TierLaws.antt =====
-- A part and the summary disagree on a transfer whose destination tier could not be checked.
use axxx.Prelude.{ℕ, zero, suc, ◌^◌, ◌<◌, ◌≡◌, refl, false, List, String, arith, length, replicate}
use axxx.Status.{
  TransferStatus, tier_availability_check_failure, completed, enhance_job_status_info,
}
use axxx.Job.Part.{u32, report_all, new_part}
use axxx.Job.PartLaws
use axxx.Job.PartLaws.{
  counts_as_completed, counts_as_failed, counts_as_skipped, report_all-new_part,
}
use axxx.Job.Summary.{Message, xfer_done, Manager, handle_status_update_message}
use axxx.Job.SummaryLaws.{IsOpen, failing, count, counts-handle}

-- The statuses and the messages of `n` transfers that failed so.
abbrev pub tier_failures : ℕ → List TransferStatus
tier_failures n = replicate n tier_availability_check_failure

abbrev pub tier_message : String → Message
tier_message file = xfer_done (record {
  src = file;
  dst = file;
  transfer_status = tier_availability_check_failure;
  transfer_size = 0;
})

length-tier_failures : (n : ℕ) → length (tier_failures n) ≡ n
length-tier_failures zero = refl
length-tier_failures (suc n) = omega (arith, length-tier_failures n)

total-tier_failures :
    (n : ℕ)
    → (PartLaws.total counts_as_completed (tier_failures n) ≡ 0)
      × (PartLaws.total counts_as_failed (tier_failures n) ≡ 0)
      × (PartLaws.total counts_as_skipped (tier_failures n) ≡ 0)
total-tier_failures zero = (refl, refl, refl)
total-tier_failures (suc n) =
    let (a, b, c) = total-tier_failures n in (omega arith, omega arith, omega arith)

count-tier_failures :
    (n : ℕ) (file : String)
    → (count failing (replicate n (tier_message file)) ≡ n)
      × IsOpen (replicate n (tier_message file))
unfolding count
count-tier_failures zero file = (refl, tt)
count-tier_failures (suc n) file = let (a, b) = count-tier_failures n file in (omega arith, b)

-- A part all of whose `n` transfers end with `TierAvailabilityCheckFailure` ends as `completed`, as
-- if all had gone well, while the summary of the same job counts `n` failed transfers.
pub tier_failures_hidden :
    (n : ℕ) (redact : String → String) (file : String) (m : Manager)
    → 0 < n
    → n < 2 ^ 32
    → m.all_xfer_done_handled ≡ false
    → m.done ≡ false
    → m.js.transfers_failed ≡ 0
    → ((report_all (tier_failures n) (new_part n)).0.part_status ≡ completed)
      × (u32
            (handle_status_update_message redact
              (replicate n (tier_message file))
              m).js.transfers_failed
          ≡ n)
unfolding enhance_job_status_info
tier_failures_hidden n redact file m p small h d z =
    let len = length-tier_failures n in
    let part =
      rw len at (report_all-new_part (tier_failures n) (omega (arith, len)) (omega (arith, len))) in
    let (opened, is_open) = count-tier_failures n file in
    let counted = counts-handle redact (replicate n (tier_message file)) m is_open h d in
    (ground (arith, part, total-tier_failures n), omega (arith, counted, opened))
