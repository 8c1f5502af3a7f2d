-- ===== src/Tests/Enumeration.antt =====
-- Objects that are filtered, compared and scheduled, and the statuses of transfers.
use axxx.Prelude.{
  ℕ, ◌≡◌, ◌↔◌, ◌⊎◌, refl, Bool, true, false, List, [], ◌∷◌, Option, none, some, String, arith, ◌==◌,
  string_eq, if◌then◌else◌, inl, inr,
}
use axxx.Prelude.Int.{pos}
use axxx.Prelude.Assoc.{lookup}
use axxx.Status.{TransferStatus, started, success}
use axxx.Plan.{JobPartPlanTransfer}
use axxx.Plan.Sticky.{set_all, first_failure, set_all-first_failure}
use axxx.Object.{StoredObject, file, folder}
use axxx.Filter.{passed_filters, non_empty}
use axxx.Filter.Chain.{sync_filters, AnyPrefix, passed_filters-sync_filters_iff}
use axxx.Filter.Laws.{AnyMatch, AnyRegex}
use axxx.Scheduler.{CopyJobPartOrderRequest, CopyJobPartOrderResponse}
use axxx.Sync.Run.{indexed, last_with, enumerate-process_source}
use axxx.Sync.{
  enumerate, new_object_indexer, other_error, ObjectIndexer, Result, traverse, process_source,
  process_destination,
}
use axxx.Sync.Source.{each, chosen, seen, traverse-process_source}
use axxx.Sync.Destination.{act_all, seen_path, traverse-process_destination}

abbrev object : String → ℕ → StoredObject
object path time = record {
  name = path;
  entity_type = file;
  last_modified_time = time;
  smb_last_modified_time = 0;
  size = 10;
  md5 = [];
  blob_type = "BlockBlob";
  content_disposition = "";
  cache_control = "";
  content_language = "";
  content_encoding = "";
  content_type = "";
  relative_path = path;
  container_name = "";
  dst_container_name = "";
  blob_access_tier = "Hot";
  archive_status = "";
  metadata = [];
  blob_version_id = "";
  blob_tags = [];
  blob_snapshot_id = "";
  blob_deleted = false;
  lease_state = "";
  lease_status = "";
  lease_duration = "";
}

abbrev respond : List CopyJobPartOrderRequest → CopyJobPartOrderRequest → CopyJobPartOrderResponse
respond past r = record { error_msg = ""; job_started = true }

abbrev pub encode : Bool → String → String
encode is_source path = path

abbrev pub three_objects : List StoredObject
three_objects = object "a" 5 ∷ object "b" 6 ∷ object "c" 7 ∷ []

-- A processor that keeps the paths that it gets and always fails.
abbrev keep : StoredObject → List String → Result (List String)
keep o paths = (o.relative_path ∷ paths, some (other_error "full"))

abbrev index : ObjectIndexer
index = record {
  index_map = ("a", object "a" 3) ∷ ("b", object "b" 9) ∷ ("z", object "z" 1) ∷ [];
  counter = 3;
  is_destination_case_insensitive = false;
}

abbrev pub lower : String → String
lower path = path

traverse-process_source_example :
    let (r, err) = traverse [] (process_source lower keep false) three_objects (index, []) in
    (err ≡ none)
    × (r.1 ≡ each keep (chosen lower [] keep false index three_objects) [])
    × (lookup "z" r.0.index_map
        ≡ (if seen lower [] false "z" three_objects then none else lookup "z" index.index_map))
unfolding seen passed_filters
traverse-process_source_example =
    traverse-process_source lower [] keep false three_objects index [] "z"
      (refl, (refl, (refl, tt)))

traverse-process_destination_example :
    let (r, err) =
      traverse [] (process_destination lower keep false keep) three_objects (index, []) in
    (err ≡ none)
    × (r.1 ≡ act_all [] lower keep keep false index.index_map three_objects [])
    × (lookup "z" r.0.index_map
        ≡ (if seen_path [] "z" three_objects then none else lookup "z" index.index_map))
unfolding seen_path passed_filters
traverse-process_destination_example =
    traverse-process_destination [] lower keep keep false three_objects index [] "z" refl
      (refl, (refl, (refl, tt)))

abbrev same_name : String → String → Option Bool
same_name pattern name = some (pattern == name)

abbrev same_path : String → String → Bool
same_path path prefix = path == prefix

abbrev keep_separators : String → String → String → String
keep_separators pattern old new = pattern

passed_filters-sync_filters_iff_example :
    (passed_filters
        (sync_filters false same_path same_path keep_separators same_name same_name
          ("a" ∷ [])
          ("b" ∷ [])
          ("c" ∷ [])
          ("a" ∷ [])
          ("d" ∷ "" ∷ []))
        (object "a" 5)
      ≡ true)
    ↔ (((file ≡ folder)
          ⊎ (((non_empty ("a" ∷ []) ≡ []) ⊎ AnyMatch same_name ("a" ∷ []) "a")
              × ¬ AnyMatch same_name ("b" ∷ []) "a"))
        × (¬ AnyPrefix false same_path same_path keep_separators ("c" ∷ []) "a")
        × ((non_empty ("a" ∷ []) ≡ []) ⊎ AnyRegex same_name ("a" ∷ []) "a")
        × (¬ AnyRegex same_name ("d" ∷ "" ∷ []) "a"))
passed_filters-sync_filters_iff_example =
    passed_filters-sync_filters_iff false same_path same_path keep_separators same_name same_name
      ("a" ∷ []) ("b" ∷ []) ("c" ∷ []) ("a" ∷ []) ("d" ∷ "" ∷ []) (object "a" 5)
      (inr (λ e. ground (arith, e)), (inl refl, tt))

abbrev plan_transfer : JobPartPlanTransfer
plan_transfer = record { atomic_transfer_status = started; atomic_error_code = pos 0 }

set_all-first_failure_example :
    set_all (success ∷ TransferStatus.failed ∷ success ∷ []) plan_transfer ≡ record plan_transfer {
      atomic_transfer_status =
          first_failure started (success ∷ TransferStatus.failed ∷ success ∷ []);
    }
set_all-first_failure_example =
    set_all-first_failure (success ∷ TransferStatus.failed ∷ success ∷ []) plan_transfer

abbrev finish_sync : ObjectIndexer × List String → Result (List String)
finish_sync r = (r.1, none)

abbrev pub old_objects : List StoredObject
old_objects = object "a" 3 ∷ object "b" 9 ∷ object "z" 1 ∷ []

enumerate-process_source_example :
    (i : ObjectIndexer) × (enumerate lower []
        (process_source lower keep false)
        finish_sync
        old_objects
        three_objects
        (new_object_indexer false, [])
      ≡ finish_sync (
        i,
        each keep
            (chosen lower [] keep false (indexed lower [] false old_objects) three_objects)
            [],
      ))
    × ((k : String)
        → lookup k (indexed lower [] false old_objects).index_map
          ≡ last_with lower [] false k old_objects none)
    × ((k : String)
        → lookup k i.index_map ≡ (
            if seen lower [] false k three_objects
            then none
            else last_with lower [] false k old_objects none))
unfolding seen passed_filters
enumerate-process_source_example =
    enumerate-process_source lower [] keep false finish_sync false old_objects three_objects []
      (refl, (refl, (refl, tt)))
