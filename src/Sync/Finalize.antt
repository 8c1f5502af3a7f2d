-- ===== src/Sync/Finalize.antt =====
-- The end of a sync: the finalizers of `initEnumerator` and `quitIfInSync`
-- (cmd/syncEnumerator.go). What the index still has is deleted if it is of the destination, as in a
-- download or a copy between services, and scheduled if it is of the source, as in an upload; then
-- the last part is dispatched.
use axxx.Prelude.{Bool, true, false, List, [], Option, none, some, String, ltb}
use axxx.Object.{StoredObject, FolderPropertyOption}
use axxx.Filter.{ObjectFilter}
use axxx.Scheduler.{
  CopyJobPartOrderRequest, CopyJobPartOrderResponse, CopyTransferProcessor, DispatchError,
  nothing_scheduled, failed, schedule_copy_transfer, dispatch_final_part,
}
use axxx.Sync.{
  Processor, Result, ObjectIndexer, other_error, traverse_index, new_fpo_aware_processor,
}
use axxx.Sync.Delete.{DeleteProcessor, Response, remove_immediately, error_of}

-- The command is at work, or has quit with one of its two messages, or waits for the job.
pub data Outcome : Type 0 where
  scanning already_in_sync now_in_sync scanning_complete : Outcome

pub record SyncState : Type 0 where
  pub transfer_scheduler : CopyTransferProcessor
  pub deleter : DeleteProcessor
  pub outcome : Outcome

-- Whether `quitIfInSync` ends the command, and how; else the scanning is complete.
abbrev pub quit_if_in_sync : Bool → Bool → Outcome
quit_if_in_sync true any_destination_file_deleted = scanning_complete
quit_if_in_sync false false = already_in_sync
quit_if_in_sync false true = now_in_sync

abbrev pub schedule :
    (List CopyJobPartOrderRequest → CopyJobPartOrderRequest → CopyJobPartOrderResponse)
    → (Bool → String → String)
    → Processor SyncState
schedule respond path_encode_rules o s =
    let (scheduler, err) =
      schedule_copy_transfer respond path_encode_rules o s.transfer_scheduler in
    (record s { transfer_scheduler = scheduler }, error_of err)

abbrev pub remove_extra :
    (StoredObject → Response) → (StoredObject → Option String) → Processor SyncState
remove_extra prompt delete_object o s =
    let (deleter, err) = remove_immediately prompt delete_object o s.deleter in
    (record s { deleter = deleter }, err)

-- How the command goes on after the last part.
unfoldable pub after_dispatch : Option DispatchError → SyncState → Result SyncState
after_dispatch none s =
    (record s { outcome = quit_if_in_sync true (ltb 0 s.deleter.deletion_count) }, none)
after_dispatch (some nothing_scheduled) s =
    (record s { outcome = quit_if_in_sync false (ltb 0 s.deleter.deletion_count) }, none)
after_dispatch (some (failed msg)) s = (s, some (other_error msg))

module _
    (respond : List CopyJobPartOrderRequest → CopyJobPartOrderRequest → CopyJobPartOrderResponse)
    (path_encode_rules : Bool → String → String) where
  -- What follows the traversal of the index, whose error ends the finalizer.
  unfoldable pub after_traversal : Result SyncState → Result SyncState
  after_traversal (s, some e) = (s, some e)
  after_traversal (s, none) =
      let (scheduler, dispatched) =
        dispatch_final_part respond path_encode_rules s.transfer_scheduler in
      after_dispatch dispatched (record s { transfer_scheduler = scheduler })

  unfoldable pub finalize :
      (StoredObject → Response)
      → (StoredObject → Option String)
      → FolderPropertyOption
      → ObjectIndexer × SyncState
      → Result SyncState
  finalize prompt delete_object fpo (indexer, s) = after_traversal (
      traverse_index [] (new_fpo_aware_processor fpo (remove_extra prompt delete_object)) indexer s)

  -- Of an upload: every object that the destination lacks is scheduled.
  unfoldable pub finalize_upload : List ObjectFilter → ObjectIndexer × SyncState → Result SyncState
  finalize_upload filters (indexer, s) =
      after_traversal (traverse_index filters (schedule respond path_encode_rules) indexer s)
