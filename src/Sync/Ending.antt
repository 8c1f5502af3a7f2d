-- ===== src/Sync/Ending.antt =====
-- The scheduling and the finalizer of a sync, in terms of what they leave.
use axxx.Prelude.{
  ℕ, ◌≡◌, refl, sym, ap, ◌∙◌, Bool, true, false, List, [], ◌∷◌, Option, none, String, arith,
  if◌then◌else◌, string_eq,
}
use axxx.Object.{StoredObject, FolderPropertyOption, is_compatible_with_fpo}
use axxx.Filter.{passed_filters}
use axxx.Scheduler.{
  CopyJobPartOrderRequest, CopyJobPartOrderResponse, CopyTransferProcessor, send_part_to_ste,
  schedule_copy_transfer, dispatch_final_part, schedule_all, new_copy_transfer_processor,
}
use axxx.Sync.{Result, ObjectIndexer, traverse_index, new_fpo_aware_processor, values_of}
use axxx.Sync.Source.{each, passing, traverse-passing}
use axxx.Sync.Delete.{
  DeleteDestination, Response, remove_immediately, new_interactive_delete_processor,
}
use axxx.Sync.Finalize.{
  scanning, scanning_complete, SyncState, schedule, remove_extra, after_dispatch, after_traversal,
  finalize,
}
use axxx.Sync.Removal.{compatible}

all_pass : (os : List StoredObject) → passing [] os ≡ os
unfolding passing passed_filters
all_pass [] = refl
all_pass (o ∷ os) = ap (λ rest. o ∷ rest) (all_pass os)

module _
    (respond : List CopyJobPartOrderRequest → CopyJobPartOrderRequest → CopyJobPartOrderResponse)
    (path_encode_rules : Bool → String → String) (prompt : StoredObject → Response)
    (delete_object : StoredObject → Option String) (fpo : FolderPropertyOption) where
  each-remove_extra :
      (os : List StoredObject) (s : SyncState)
      → each (new_fpo_aware_processor fpo (remove_extra prompt delete_object)) os s ≡ record s {
        deleter = each (remove_immediately prompt delete_object) (compatible fpo os) s.deleter;
      }
  unfolding each compatible new_fpo_aware_processor
  each-remove_extra [] s = refl
  each-remove_extra (o ∷ os) s =
      let inner = remove_extra prompt delete_object in
      elim (is_compatible_with_fpo fpo o)
        as (λ (c : Bool).
          each (new_fpo_aware_processor fpo inner) os
            (if◌then◌else◌ {A = Result SyncState} c (inner o s) (s, none)).0
          ≡ record s {
            deleter =
                each (remove_immediately prompt delete_object)
                  (if c then o ∷ compatible fpo os else compatible fpo os) s.deleter;
          }) [ true ↦ each-remove_extra os (inner o s).0 | false ↦ each-remove_extra os s ]

  schedule_next :
      (o : StoredObject) (os : List StoredObject) (p : CopyTransferProcessor)
      → (schedule_all respond path_encode_rules (o ∷ os) p).1 ≡ none
      → schedule_all respond path_encode_rules (o ∷ os) p
        ≡ schedule_all respond path_encode_rules os
            (schedule_copy_transfer respond path_encode_rules o p).0
  unfolding schedule_all
  schedule_next o os p e = ground (arith, e)

  -- As long as nothing is refused.
  pub each-schedule :
      (os : List StoredObject) (s : SyncState)
      → (schedule_all respond path_encode_rules os s.transfer_scheduler).1 ≡ none
      → each (schedule respond path_encode_rules) os s ≡ record s {
        transfer_scheduler = (schedule_all respond path_encode_rules os s.transfer_scheduler).0;
      }
  unfolding each schedule_all
  each-schedule [] s e = refl
  each-schedule (o ∷ os) s e =
      let moves = schedule_next o os s.transfer_scheduler e in
      each-schedule os (schedule respond path_encode_rules o s).0 (ap (λ r. r.1) (sym moves) ∙ e)
      ∙ ap (λ (r : CopyTransferProcessor × Option String). record s { transfer_scheduler = r.0 })
          (sym moves)

  -- The finalizer, in terms of its two parts.
  pub finalize_lem :
      (i : ObjectIndexer) (s : SyncState)
      → let deleter =
          each
            (remove_immediately prompt delete_object)
            (compatible fpo (values_of i.index_map))
            s.deleter in
        let (scheduler, dispatched) =
          dispatch_final_part respond path_encode_rules s.transfer_scheduler in
        finalize respond path_encode_rules prompt delete_object fpo (i, s)
        ≡ after_dispatch dispatched (record s { deleter = deleter; transfer_scheduler = scheduler })
  unfolding finalize traverse_index after_traversal
  finalize_lem i s =
      let values = values_of i.index_map in
      ap (after_traversal respond path_encode_rules) (
        traverse-passing [] (new_fpo_aware_processor fpo (remove_extra prompt delete_object)) values
          s
        ∙ ap (λ (t : SyncState). (t, none))
            (ap (λ os. each (new_fpo_aware_processor fpo (remove_extra prompt delete_object)) os s)
                (all_pass values)
              ∙ each-remove_extra values s))

-- The engine's answer to a part, which is the same for every part, also for one without transfers:
-- `ExecuteNewCopyJobPartOrder` of jobsAdmin/init.go.
pub record Engine
    (respond : List CopyJobPartOrderRequest → CopyJobPartOrderRequest → CopyJobPartOrderResponse)
    : Type 0 where
  pub accepts :
      (past : List CopyJobPartOrderRequest) (r : CopyJobPartOrderRequest)
      → ((respond past r).error_msg ≡ "") × ((respond past r).job_started ≡ true)

abbrev pub starting : ℕ → FolderPropertyOption → Bool → DeleteDestination → SyncState
starting n fpo preserve_access_tier delete_destination = record {
  transfer_scheduler = new_copy_transfer_processor n fpo preserve_access_tier false;
  deleter = new_interactive_delete_processor delete_destination false;
  outcome = scanning;
}

module _
    (respond : List CopyJobPartOrderRequest → CopyJobPartOrderRequest → CopyJobPartOrderResponse)
    (path_encode_rules : Bool → String → String) (engine : Engine respond) where
  dispatched :
      (s : CopyTransferProcessor) → (dispatch_final_part respond path_encode_rules s).1 ≡ none
  unfolding dispatch_final_part send_part_to_ste
  dispatched s =
      let last : CopyJobPartOrderRequest = record s.copy_job_template { is_final_part = true } in
      rw ((engine.accepts s.sent last).1) refl

  -- With that answer the last part is never refused, and the command waits for the job.
  pub after_job :
      (s : CopyTransferProcessor) (after : SyncState)
      → after_dispatch (dispatch_final_part respond path_encode_rules s).1 after
        ≡ (record after { outcome = scanning_complete }, none)
  unfolding after_dispatch
  after_job s after = rw (dispatched s) refl
