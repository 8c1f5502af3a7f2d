-- ===== src/Job/Summary.antt =====
-- ste/jobStatusManager.go: the goroutine that keeps the summary of a job. A message is one round of
-- its `select`; the channels that it reads, answers on and closes are fields of its state. Counts
-- are uint32 and sums of bytes uint64. The redaction of secrets in the two texts of a transfer is
-- the parameter `redact` (it is in common/extensions.go).
use axxx.Prelude.{ℕ, ◌+◌, ◌%◌, ◌^◌, Bool, true, ◌||◌, List, [], ◌∷◌, ◌++◌, String, if◌then◌else◌}
use axxx.Status.{
  TransferStatus, success, tier_availability_check_failure, blob_tier_failure,
  skipped_entity_already_exists, skipped_blob_has_snapshots,
}
use axxx.Job.Part.{u32}

abbrev pub u64 : ℕ → ℕ
u64 n = n % 2 ^ 64

pub record JobPartCreatedMsg : Type 0 where
  pub total_transfers : ℕ
  pub is_final_part : Bool
  pub total_bytes_enumerated : ℕ
  pub file_transfers : ℕ
  pub folder_transfer : ℕ

pub record TransferDetail : Type 0 where
  pub src : String
  pub dst : String
  pub transfer_status : TransferStatus
  pub transfer_size : ℕ

pub record ListJobSummaryResponse : Type 0 where
  pub complete_job_ordered : Bool
  pub total_transfers : ℕ
  pub file_transfers : ℕ
  pub folder_property_transfers : ℕ
  pub transfers_completed : ℕ
  pub transfers_failed : ℕ
  pub transfers_skipped : ℕ
  pub total_bytes_transferred : ℕ
  pub total_bytes_enumerated : ℕ
  pub total_bytes_expected : ℕ
  pub failed_transfers : List TransferDetail
  pub skipped_transfers : List TransferDetail

pub data Message : Type 0 where
  part_created : JobPartCreatedMsg → Message
  part_created_closed : Message
  xfer_done : TransferDetail → Message
  xfer_done_closed : Message
  list_req : Message

-- `answers` is what was sent on `respChan`, the last first.
pub record Manager : Type 0 where
  pub js : ListJobSummaryResponse
  pub all_xfer_done_handled : Bool
  pub drained : Bool
  pub done : Bool
  pub answers : List ListJobSummaryResponse

unfoldable pub on_part_created : JobPartCreatedMsg → ListJobSummaryResponse → ListJobSummaryResponse
on_part_created msg js = record js {
  complete_job_ordered = js.complete_job_ordered || msg.is_final_part;
  total_transfers = u32 (js.total_transfers + msg.total_transfers);
  file_transfers = u32 (js.file_transfers + msg.file_transfers);
  folder_property_transfers = u32 (js.folder_property_transfers + msg.folder_transfer);
  total_bytes_enumerated = u64 (js.total_bytes_enumerated + msg.total_bytes_enumerated);
  total_bytes_expected = u64 (js.total_bytes_expected + msg.total_bytes_enumerated);
}

abbrev pub fail : TransferDetail → ListJobSummaryResponse → ListJobSummaryResponse
fail msg js = record js {
  transfers_failed = u32 (js.transfers_failed + 1);
  failed_transfers = js.failed_transfers ++ msg ∷ [];
}

abbrev pub skip : TransferDetail → ListJobSummaryResponse → ListJobSummaryResponse
skip msg js = record js {
  transfers_skipped = u32 (js.transfers_skipped + 1);
  skipped_transfers = js.skipped_transfers ++ msg ∷ [];
}

-- The `switch` on the status of a transfer that is done.
unfoldable pub on_status :
    TransferStatus → TransferDetail → ListJobSummaryResponse → ListJobSummaryResponse
on_status success msg js = record js {
  transfers_completed = u32 (js.transfers_completed + 1);
  total_bytes_transferred = u64 (js.total_bytes_transferred + msg.transfer_size);
}
on_status TransferStatus.failed msg js = fail msg js
on_status tier_availability_check_failure msg js = fail msg js
on_status blob_tier_failure msg js = fail msg js
on_status skipped_entity_already_exists msg js = skip msg js
on_status skipped_blob_has_snapshots msg js = skip msg js
on_status _ msg js = js

module _ (redact : String → String) where
  unfoldable pub on_xfer_done : TransferDetail → ListJobSummaryResponse → ListJobSummaryResponse
  unfolding on_status
  on_xfer_done msg js =
      on_status msg.transfer_status (record msg { src = redact msg.src; dst = redact msg.dst }) js

  -- One round of the loop. After the round that sets `done` there is none.
  unfoldable pub handle : Message → Manager → Manager
  unfolding on_part_created on_xfer_done
  handle (part_created msg) m = record m { js = on_part_created msg m.js }
  handle part_created_closed m = m
  handle (xfer_done msg) m = record m { js = on_xfer_done msg m.js }
  handle xfer_done_closed m = record m { all_xfer_done_handled = true; drained = true }
  handle list_req m = record m {
    js = record (m.js) { failed_transfers = []; skipped_transfers = [] };
    answers = m.js ∷ m.answers;
    done = m.all_xfer_done_handled;
  }

  unfoldable pub handle_status_update_message : List Message → Manager → Manager
  unfolding handle
  handle_status_update_message [] m = m
  handle_status_update_message (msg ∷ msgs) m =
      let rest = handle_status_update_message msgs (handle msg m) in if m.done then m else rest
