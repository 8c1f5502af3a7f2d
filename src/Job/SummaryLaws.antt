-- ===== src/Job/SummaryLaws.antt =====
-- What the front end reads of a job is what happened to its transfers.
use native.Mathlib.Nat.{add-zero}
use axxx.Prelude.{
  ℕ, ◌+◌, ◌≡◌, ◌∙◌, refl, Bool, true, false, List, [], ◌∷◌, ◌++◌, append-nil, append_assoc, String,
  arith, if◌then◌else◌,
}
use axxx.Status.{
  TransferStatus, success, tier_availability_check_failure, blob_tier_failure,
  skipped_entity_already_exists, skipped_blob_has_snapshots,
}
use axxx.Job.Part.{u32}
use axxx.Job.Summary.{
  TransferDetail, ListJobSummaryResponse, Message, part_created, part_created_closed, xfer_done,
  xfer_done_closed, list_req, Manager, on_part_created, on_status, on_xfer_done, handle,
  handle_status_update_message,
}

abbrev pub failing : TransferStatus → Bool
failing TransferStatus.failed = true
failing tier_availability_check_failure = true
failing blob_tier_failure = true
failing _ = false

-- The messages before the one that says that all transfers are attended to.
abbrev pub IsOpen : List Message → Type 0
IsOpen [] = Unit
IsOpen (xfer_done_closed ∷ msgs) = ⊥
IsOpen (_ ∷ msgs) = IsOpen msgs

-- The failed transfers that were sent with the answers, in their order.
unfoldable pub sent : List ListJobSummaryResponse → List TransferDetail
sent [] = []
sent (js ∷ older) = sent older ++ js.failed_transfers

-- The failed transfers that the front end has heard of or will hear of next.
unfoldable pub delivered : Manager → List TransferDetail
delivered m = sent m.answers ++ m.js.failed_transfers

failed_transfers-on_status :
    (s : TransferStatus) (msg : TransferDetail) (js : ListJobSummaryResponse)
    → (on_status s msg js).failed_transfers
      ≡ (if failing s then js.failed_transfers ++ msg ∷ [] else js.failed_transfers)
unfolding on_status
failed_transfers-on_status s msg js = ground arith

append_shift :
    (xs ys zs : List TransferDetail) (x : TransferDetail)
    → (xs ++ (ys ++ x ∷ [])) ++ zs ≡ (xs ++ ys) ++ x ∷ zs
append_shift xs ys zs x = simp append_assoc

abbrev pub one_if : Bool → ℕ
one_if true = 1
one_if false = 0

abbrev pub is_success : TransferStatus → Bool
is_success success = true
is_success _ = false

abbrev pub skipping : TransferStatus → Bool
skipping skipped_entity_already_exists = true
skipping skipped_blob_has_snapshots = true
skipping _ = false

-- The number of done transfers among the messages that have such a status.
unfoldable pub count : (TransferStatus → Bool) → List Message → ℕ
count p [] = 0
count p (xfer_done msg ∷ msgs) = one_if (p msg.transfer_status) + count p msgs
count p (_ ∷ msgs) = count p msgs

module _ (redact : String → String) where
  -- The failed transfers among the messages, as they are to be shown.
  unfoldable pub failures : List Message → List TransferDetail
  failures [] = []
  failures (xfer_done msg ∷ msgs) =
      if failing msg.transfer_status
      then record msg { src = redact msg.src; dst = redact msg.dst } ∷ failures msgs
      else failures msgs
  failures (_ ∷ msgs) = failures msgs

  delivered-step :
      (msg : Message) (msgs : List Message) (m : Manager)
      → delivered (handle redact msg m) ++ failures msgs ≡ delivered m ++ failures (msg ∷ msgs)
  unfolding delivered handle failures sent on_xfer_done
  delivered-step (part_created msg) msgs m = refl
  delivered-step part_created_closed msgs m = refl
  delivered-step (xfer_done msg) msgs m =
      let shown : TransferDetail = record msg { src = redact msg.src; dst = redact msg.dst } in
      ground (
        arith,
        failed_transfers-on_status msg.transfer_status shown m.js,
        append_shift (sent m.answers) m.js.failed_transfers (failures msgs) shown,
      )
  delivered-step xfer_done_closed msgs m = refl
  delivered-step list_req msgs m = rw append-nil

  handle-not_done :
      (msg : Message) (msgs : List Message) (m : Manager)
      → IsOpen (msg ∷ msgs)
      → m.all_xfer_done_handled ≡ false
      → m.done ≡ false
      → ((handle redact msg m).all_xfer_done_handled ≡ false)
        × ((handle redact msg m).done ≡ false)
        × IsOpen msgs
  unfolding handle
  handle-not_done (part_created msg) msgs m o h d = (h, d, o)
  handle-not_done part_created_closed msgs m o h d = (h, d, o)
  handle-not_done (xfer_done msg) msgs m o h d = (h, d, o)
  handle-not_done xfer_done_closed msgs m o h d = absurd o
  handle-not_done list_req msgs m o h d = (h, h, o)

  -- Until all transfers are attended to, every transfer that failed is handed to the front end once
  -- and in order: those sent with the answers so far, followed by those kept for the next answer,
  -- are those of before followed by the failed transfers among the messages, with their texts
  -- redacted.
  pub delivered-handle :
      (msgs : List Message) (m : Manager)
      → IsOpen msgs
      → m.all_xfer_done_handled ≡ false
      → m.done ≡ false
      → delivered (handle_status_update_message redact msgs m) ≡ delivered m ++ failures msgs
  unfolding handle_status_update_message failures
  delivered-handle [] m o h d = rw append-nil
  delivered-handle (msg ∷ msgs) m o h d =
      let (h', d', o') = handle-not_done msg msgs m o h d in
      simp d (delivered-handle msgs (handle redact msg m) o' h' d' ∙ delivered-step msg msgs m)

  handle-counts :
      (msg : Message) (msgs : List Message) (m : Manager)
      → (u32 ((handle redact msg m).js.transfers_completed + count is_success msgs)
          ≡ u32 (m.js.transfers_completed + count is_success (msg ∷ msgs)))
        × (u32 ((handle redact msg m).js.transfers_failed + count failing msgs)
            ≡ u32 (m.js.transfers_failed + count failing (msg ∷ msgs)))
        × (u32 ((handle redact msg m).js.transfers_skipped + count skipping msgs)
            ≡ u32 (m.js.transfers_skipped + count skipping (msg ∷ msgs)))
  unfolding handle on_part_created on_xfer_done on_status count
  handle-counts (part_created msg) msgs m = (refl, refl, refl)
  handle-counts part_created_closed msgs m = (refl, refl, refl)
  handle-counts (xfer_done msg) msgs m = ground arith
  handle-counts xfer_done_closed msgs m = (refl, refl, refl)
  handle-counts list_req msgs m = (refl, refl, refl)

  -- Until all transfers are attended to, the three counters of the summary are those of before plus
  -- the number of transfers that succeeded, that failed and that were skipped, modulo 2 ^ 32; an
  -- answer to the front end does not reset them.
  pub counts-handle :
      (msgs : List Message) (m : Manager)
      → IsOpen msgs
      → m.all_xfer_done_handled ≡ false
      → m.done ≡ false
      → let js = (handle_status_update_message redact msgs m).js in
        (u32 js.transfers_completed ≡ u32 (m.js.transfers_completed + count is_success msgs))
        × (u32 js.transfers_failed ≡ u32 (m.js.transfers_failed + count failing msgs))
        × (u32 js.transfers_skipped ≡ u32 (m.js.transfers_skipped + count skipping msgs))
  unfolding handle_status_update_message count
  counts-handle [] m o h d = simp add-zero (refl, refl, refl)
  counts-handle (msg ∷ msgs) m o h d =
      let (h', d', o') = handle-not_done msg msgs m o h d in
      let (a, b, c) = counts-handle msgs (handle redact msg m) o' h' d' in
      let (a', b', c') = handle-counts msg msgs m in simp d (a ∙ a', b ∙ b', c ∙ c')
