-- ===== src/Sync/Uploading.antt =====
-- What an upload does with the objects of the destination: which source objects are scheduled again
-- and which destination objects are deleted.
use axxx.Prelude.{
  Bool, List, [], ◌∷◌, ◌++◌, Option, none, some, String, ◌≡◌, refl, arith, ◌||◌, if◌then◌else◌,
  Option-cases, string_eq,
}
use axxx.Prelude.Assoc.{lookup}
use axxx.Object.{StoredObject, FolderPropertyOption, is_more_recent_than}
use axxx.Filter.{ObjectFilter, passed_filters}
use axxx.Scheduler.{CopyJobPartOrderRequest, CopyJobPartOrderResponse}
use axxx.Sync.{Processor, new_fpo_aware_processor}
use axxx.Sync.Source.{each}
use axxx.Sync.Destination.{act, act_all}
use axxx.Sync.Delete.{DeleteProcessor, Response, remove_immediately}
use axxx.Sync.Finalize.{SyncState, schedule, remove_extra}
use axxx.Sync.Removal.{compatible}

module _ (filters : List ObjectFilter) (m : List (String × StoredObject)) where
  -- The source's objects that replace one of the destination.
  unfoldable pub rewritten : Bool → List StoredObject → List StoredObject
  rewritten mirror [] = []
  rewritten mirror (o ∷ os) =
      let rest = rewritten mirror os in
      if passed_filters filters o
      then elim (lookup o.relative_path m) [
        | none ↦ rest
        | some source ↦ if mirror || is_more_recent_than source o then source ∷ rest else rest
      ]
      else rest

  -- The objects of the destination of whose path the source has none.
  unfoldable pub extras : List StoredObject → List StoredObject
  extras [] = []
  extras (o ∷ os) =
      let rest = extras os in
      if passed_filters filters o
      then elim (lookup o.relative_path m) [ none ↦ o ∷ rest | some source ↦ rest ]
      else rest

pub each-append :
    {σ : Type 0} (processor : Processor σ) (os more : List StoredObject) (s : σ)
    → each processor (os ++ more) s ≡ each processor more (each processor os s)
unfolding each
each-append processor [] more s = refl
each-append processor (o ∷ os) more s = each-append processor os more (processor o s).0

module _
    (respond : List CopyJobPartOrderRequest → CopyJobPartOrderRequest → CopyJobPartOrderResponse)
    (path_encode_rules : Bool → String → String) (prompt : StoredObject → Response)
    (delete_object : StoredObject → Option String) (fpo : FolderPropertyOption) where
  abbrev scheduler : Processor SyncState
  scheduler = schedule respond path_encode_rules

  abbrev cleaner : Processor SyncState
  cleaner = new_fpo_aware_processor fpo (remove_extra prompt delete_object)

  -- The scheduler does not touch the deleter.
  pub each-schedule_deleter :
      (os : List StoredObject) (s : SyncState) (d : DeleteProcessor)
      → each scheduler os (record s { deleter = d }) ≡ record (each scheduler os s) { deleter = d }
  unfolding each
  each-schedule_deleter [] s d = refl
  each-schedule_deleter (o ∷ os) s d = each-schedule_deleter os (scheduler o s).0 d

  abbrev removed : List StoredObject → DeleteProcessor → DeleteProcessor
  removed os d = each (remove_immediately prompt delete_object) (compatible fpo os) d

  removed-∷ :
      (o : StoredObject) (os : List StoredObject) (s : SyncState)
      → removed os ((cleaner o s).0.deleter) ≡ removed (o ∷ os) s.deleter
  unfolding each compatible new_fpo_aware_processor
  removed-∷ o os s = ground arith

  cleaner-deleter :
      (o : StoredObject) (s : SyncState)
      → (cleaner o s).0 ≡ record s { deleter = (cleaner o s).0.deleter }
  unfolding new_fpo_aware_processor
  cleaner-deleter o s = ground arith

  module _ (to_lower : String → String) (filters : List ObjectFilter) (mirror : Bool)
      (m : List (String × StoredObject)) where
    pub act_all_lem :
        (os : List StoredObject) (s : SyncState)
        → act_all filters to_lower scheduler cleaner mirror m os s
          ≡ record (each scheduler (rewritten filters m mirror os) s) {
            deleter = removed (extras filters m os) s.deleter;
          }
    unfolding act_all act rewritten extras each compatible
    act_all_lem [] s = refl
    act_all_lem (o ∷ os) s =
        let s1 = act filters to_lower scheduler cleaner mirror m o s in
        ground (
          arith,
          act_all_lem os s,
          act_all_lem os s1,
          removed-∷ o (extras filters m os) s,
          cleaner-deleter o s,
          each-schedule_deleter (rewritten filters m mirror os) s (cleaner o s).0.deleter,
          Option-cases (lookup o.relative_path m),
        )
