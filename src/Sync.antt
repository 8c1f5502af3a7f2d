-- ===== src/Sync.antt =====
-- cmd/syncIndexer.go, cmd/syncComparator.go and the enumeration of cmd/zc_enumerator.go: one side
-- is read into an index, then the other is read and each of its objects compared with the index.
-- `strings.ToLower` is the parameter `to_lower`. Processors are functions on a state `σ` of their
-- own. A traverser is the list of the objects it finds: each is handed on as every traverser does,
-- through `processIfPassedFilters` and `getProcessingError`. A map is traversed in some order, here
-- the one of its list.
pub mod Source
pub mod Run
pub mod Destination
pub mod Delete
pub mod Finalize
pub mod Removal
pub mod Ending
pub mod Whole
pub mod Uploading
pub mod WholeUpload
use axxx.Prelude.{
  ℕ, ◌+◌, Bool, true, false, List, [], ◌∷◌, Option, none, some, String, ◌==◌, ◌&&◌, ◌||◌, not,
  string_eq, if◌then◌else◌,
}
use axxx.Prelude.Assoc.{lookup, insert, delete}
use axxx.Object.{StoredObject, FolderPropertyOption, is_more_recent_than, is_compatible_with_fpo}
use axxx.Filter.{ObjectFilter, passed_filters}

pub data ProcessingError : Type 0 where
  ignored_error : ProcessingError
  other_error : String → ProcessingError

pub record ObjectIndexer : Type 0 where
  pub index_map : List (String × StoredObject)
  pub counter : ℕ
  pub is_destination_case_insensitive : Bool

unfoldable pub new_object_indexer : Bool → ObjectIndexer
new_object_indexer is_destination_case_insensitive = record {
  index_map = [];
  counter = 0;
  is_destination_case_insensitive = is_destination_case_insensitive;
}

abbrev pub Result : Type 0 → Type 0
Result σ = σ × Option ProcessingError

-- `getProcessingError`: whether the error is the flag, and the error that is left. The source
-- returns its named result `err`, which is nil, also for an error that is not the flag.
unfoldable pub get_processing_error : Option ProcessingError → Bool × Option ProcessingError
get_processing_error none = (false, none)
get_processing_error (some ignored_error) = (true, none)
get_processing_error (some (other_error e)) = (false, none)

abbrev pub Processor : Type 0 → Type 0
Processor σ = StoredObject → σ → Result σ

module _ {σ : Type 0} where
  unfoldable pub process_if_passed_filters : List ObjectFilter → Processor σ → Processor σ
  process_if_passed_filters filters processor stored_object s =
      if passed_filters filters stored_object
      then processor stored_object s
      else (s, some ignored_error)

  unfoldable pub traverse : List ObjectFilter → Processor σ → List StoredObject → σ → Result σ
  unfolding process_if_passed_filters get_processing_error
  traverse filters processor [] s = (s, none)
  traverse filters processor (value ∷ values) s =
      let (s', errin) = process_if_passed_filters filters processor value s in
      let (ignored, err) = get_processing_error errin in
      let rest = traverse filters processor values s' in
      elim err [ none ↦ rest | some e ↦ (s', some e) ]

  unfoldable pub new_fpo_aware_processor : FolderPropertyOption → Processor σ → Processor σ
  new_fpo_aware_processor fpo inner o s =
      if is_compatible_with_fpo fpo o then inner o s else (s, none)

unfoldable pub values_of : List (String × StoredObject) → List StoredObject
values_of [] = []
values_of ((k, v) ∷ m) = v ∷ values_of m

-- `objectIndexer.traverse`.
unfoldable pub traverse_index :
    {σ : Type 0} → List ObjectFilter → Processor σ → ObjectIndexer → σ → Result σ
unfolding traverse values_of
traverse_index filters processor i s = traverse filters processor (values_of i.index_map) s

module _ (to_lower : String → String) where
  unfoldable pub store : Processor (ObjectIndexer)
  store stored_object i =
      let key =
        if i.is_destination_case_insensitive
        then to_lower stored_object.relative_path
        else stored_object.relative_path in
      (record i { index_map = insert key stored_object i.index_map; counter = i.counter + 1 }, none)

  module _ {σ : Type 0} (copy_transfer_scheduler : Processor σ) (disable_comparison : Bool) where
    -- `syncSourceComparator.processIfNecessary`.
    unfoldable pub process_source : Processor (ObjectIndexer × σ)
    unfolding is_more_recent_than
    process_source source_object (i, s) =
        let rel_path =
          if i.is_destination_case_insensitive
          then to_lower source_object.relative_path
          else source_object.relative_path in
        elim (lookup rel_path i.index_map) [
          | none ↦ let (s', err) = copy_transfer_scheduler source_object s in ((i, s'), err)
          | some destination_object_in_map ↦
              let i' = record i { index_map = delete rel_path i.index_map } in
              if disable_comparison || is_more_recent_than source_object destination_object_in_map
              then (let (s', err) = copy_transfer_scheduler source_object s in ((i', s'), err))
              else ((i', s), none)
        ]

    unfoldable pub find_source : StoredObject → ObjectIndexer → Option StoredObject
    find_source destination_object i = elim (lookup destination_object.relative_path i.index_map) [
      | some source_object ↦ some source_object
      | none ↦
          if i.is_destination_case_insensitive
          then lookup (to_lower destination_object.relative_path) i.index_map
          else none
    ]

    -- `syncDestinationComparator.processIfNecessary`.
    unfoldable pub process_destination :
        (destination_cleaner : Processor σ) → Processor (ObjectIndexer × σ)
    unfolding find_source is_more_recent_than
    process_destination destination_cleaner destination_object (i, s) =
        elim (find_source destination_object i) [
          | some source_object_in_map ↦
              let i' = record i {
                index_map = delete destination_object.relative_path i.index_map;
              } in
              if disable_comparison || is_more_recent_than source_object_in_map destination_object
              then (let (s', err) = copy_transfer_scheduler source_object_in_map s in
                  ((i', s'), err))
              else ((i', s), none)
          | none ↦ ((i, (destination_cleaner destination_object s).0), none)
        ]

-- `syncEnumerator.enumerate`: the primary side is indexed, the secondary side is compared, and the
-- finalizer runs if neither traversal failed. What the traversers find are the two lists.
unfoldable pub enumerate :
    {σ : Type 0} (to_lower : String → String) (filters : List ObjectFilter)
    (object_comparator : Processor (ObjectIndexer × σ)) (finalize : ObjectIndexer × σ → Result σ)
    (primary secondary : List StoredObject)
    → ObjectIndexer × σ
    → Result σ
unfolding traverse store
enumerate to_lower filters object_comparator finalize primary secondary (i, s) =
    let (i1, err) = traverse filters (store to_lower) primary i in
    let (r, err') = traverse filters object_comparator secondary (i1, s) in
    elim err [
      | some e ↦ (s, some e)
      | none ↦ elim err' [ some e ↦ (r.1, some e) | none ↦ finalize r ]
    ]
