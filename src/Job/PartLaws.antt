-- ===== src/Job/PartLaws.antt =====
-- A part reports to the job exactly once, when its last transfer is done, with the true counts.
use axxx.Prelude.{ℕ, ◌+◌, ◌^◌, ◌≤◌, ◌<◌, ◌≡◌, refl, List, [], ◌∷◌, none, some, arith, length, ltb}
use axxx.Status.{
  enhance_job_status_info, TransferStatus, success, skipped_entity_already_exists,
  skipped_blob_has_snapshots, blob_tier_failure,
}
use axxx.Job.Part.{JobPartProgressInfo, JobPartMgr, report_transfer_done, report_all, new_part}

-- Which counter a status belongs to.
abbrev pub counts_as_completed : TransferStatus → ℕ
counts_as_completed success = 1
counts_as_completed _ = 0

abbrev pub counts_as_failed : TransferStatus → ℕ
counts_as_failed TransferStatus.failed = 1
counts_as_failed blob_tier_failure = 1
counts_as_failed _ = 0

abbrev pub counts_as_skipped : TransferStatus → ℕ
counts_as_skipped skipped_entity_already_exists = 1
counts_as_skipped skipped_blob_has_snapshots = 1
counts_as_skipped _ = 0

abbrev pub info : ℕ → ℕ → ℕ → JobPartProgressInfo
info c k f = record { transfers_completed = c; transfers_skipped = k; transfers_failed = f }

abbrev pub total : (TransferStatus → ℕ) → List TransferStatus → ℕ
total f [] = 0
total f (s ∷ ss) = f s + total f ss

-- The counters of a part `n` transfers of which are still to come.
record Tracks (jpm : JobPartMgr) (d c k f : ℕ) : Type 0 where
  done : jpm.atomic_transfers_done ≡ d
  completed : jpm.atomic_transfers_completed ≡ c
  skipped : jpm.atomic_transfers_skipped ≡ k
  failed : jpm.atomic_transfers_failed ≡ f

module _ (s : TransferStatus) (jpm : JobPartMgr) (d c k f : ℕ) (t : Tracks jpm d c k f)
    (small : jpm.num_transfers < 2 ^ 32) (hc : c ≤ d) (hk : k ≤ d) (hf : f ≤ d) where
  step-Tracks :
      d < jpm.num_transfers
      → Tracks
          (report_transfer_done s jpm).0
          (d + 1)
          (c + counts_as_completed s)
          (k + counts_as_skipped s)
          (f + counts_as_failed s)
        × ((report_transfer_done s jpm).0.num_transfers ≡ jpm.num_transfers)
  unfolding report_transfer_done
  step-Tracks lt = ground arith

  step_quiet : d + 1 < jpm.num_transfers → (report_transfer_done s jpm).1 ≡ none
  unfolding report_transfer_done
  step_quiet lt = ground arith

  step_last :
      d + 1 ≡ jpm.num_transfers
      → ((report_transfer_done s jpm).1
          ≡ some
              (info (c + counts_as_completed s) (k + counts_as_skipped s) (f + counts_as_failed s)))
        × ((report_transfer_done s jpm).0.part_status
            ≡ enhance_job_status_info
                (ltb 0 (k + counts_as_skipped s))
                (ltb 0 (f + counts_as_failed s))
                (ltb 0 (c + counts_as_completed s)))
  unfolding report_transfer_done
  step_last e = ground arith

counts_le_one :
    (s : TransferStatus)
    → (counts_as_completed s ≤ 1) × (counts_as_skipped s ≤ 1) × (counts_as_failed s ≤ 1)
counts_le_one s = ground arith

-- What the job hears of the transfers `ss`, when `d` transfers are done and these are the last.
abbrev pub Reports : List TransferStatus → JobPartMgr → ℕ → ℕ → ℕ → Type 0
Reports ss jpm c k f =
    ((report_all ss jpm).1
      ≡ info (c + total counts_as_completed ss) (k + total counts_as_skipped ss)
          (f + total counts_as_failed ss)
        ∷ [])
    × ((report_all ss jpm).0.part_status
        ≡ enhance_job_status_info (ltb 0 (k + total counts_as_skipped ss))
            (ltb 0 (f + total counts_as_failed ss)) (ltb 0 (c + total counts_as_completed ss)))

report_rest :
    (s : TransferStatus) (ss : List TransferStatus) (jpm : JobPartMgr) (d c k f : ℕ)
    → Tracks jpm d c k f
    → jpm.num_transfers < 2 ^ 32
    → c ≤ d
    → k ≤ d
    → f ≤ d
    → d + length (s ∷ ss) ≡ jpm.num_transfers
    → Reports (s ∷ ss) jpm c k f
unfolding report_all
report_rest s [] jpm d c k f t small hc hk hf e =
    grind (arith, step_last s jpm d c k f t small hc hk hf)
report_rest s (s' ∷ ss) jpm d c k f t small hc hk hf e =
    let (t', n') = step-Tracks s jpm d c k f t small hc hk hf (omega arith) in
    ground (
      arith,
      step_quiet s jpm d c k f t small hc hk hf,
      report_rest s' ss (report_transfer_done s jpm).0 (d + 1) (c + counts_as_completed s)
          (k + counts_as_skipped s) (f + counts_as_failed s) t',
      counts_le_one s,
    )

-- A part of `n` transfers, `n` positive, sends the job one message in all, whatever statuses its
-- transfers end with: the number of them that count as completed, as skipped and as failed. Its own
-- status is then the one for these numbers.
pub report_all-new_part :
    (ss : List TransferStatus)
    → 0 < length ss
    → length ss < 2 ^ 32
    → Reports ss (new_part (length ss)) 0 0 0
unfolding new_part
report_all-new_part [] p _ = elim p [ ]
report_all-new_part (s ∷ ss) _ small =
    report_rest s ss (new_part (length (s ∷ ss))) 0 0 0 0
      (record { done = refl; completed = refl; skipped = refl; failed = refl }) small (omega arith)
      (omega arith) (omega arith) (omega arith)
