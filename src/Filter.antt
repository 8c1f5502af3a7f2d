-- ===== src/Filter.antt =====
-- cmd/zc_filter.go and `passedFilters` of cmd/zc_enumerator.go: which objects an enumeration keeps.
-- A filter is the interface `ObjectFilter`; each filter here answers that it supports every system.
-- Of Go's library, `path.Match` and `regexp.MatchString` are parameters, `none` for an invalid
-- pattern, and `strings.Contains`, `strings.HasPrefix` and `strings.ReplaceAll`.
pub mod Laws
pub mod Chain
use axxx.Prelude.{
  ℕ, Bool, true, false, List, [], ◌∷◌, ◌++◌, Option, none, some, String, Eq, ◌==◌, ◌&&◌, ◌||◌, not,
  map, if◌then◌else◌, string_eq,
}
use axxx.Object.{StoredObject, is_file}

pub record ObjectFilter : Type 0 where
  pub applies_only_to_files : Bool
  pub does_pass : StoredObject → Bool

unfoldable pub passed_filters : List ObjectFilter → StoredObject → Bool
unfolding is_file
passed_filters [] stored_object = true
passed_filters (filter ∷ filters) stored_object =
    let rest = passed_filters filters stored_object in
    if filter.applies_only_to_files && not (is_file stored_object.entity_type)
    then rest
    else if not (filter.does_pass stored_object)
    then false
    else rest

unfoldable pub non_empty : List String → List String
non_empty [] = []
non_empty (pattern ∷ patterns) =
    if not (pattern == "") then pattern ∷ non_empty patterns else non_empty patterns

unfoldable pub contains_type : String → List String → Bool
contains_type t [] = false
contains_type t (u ∷ us) = if u == t then true else contains_type t us

-- `excludeBlobTypeFilter`, whose map is the list of its keys.
unfoldable pub exclude_blob_type_filter : List String → ObjectFilter
unfolding contains_type
exclude_blob_type_filter blob_types = record {
  applies_only_to_files = true;
  does_pass = λ object. not (contains_type object.blob_type blob_types);
}

-- `permDeleteFilter`.
unfoldable pub perm_delete_filter : Bool → Bool → ObjectFilter
perm_delete_filter delete_snapshots delete_versions = record {
  applies_only_to_files = false;
  does_pass = λ o.
      if (delete_versions && delete_snapshots)
        && (o.blob_deleted && (not (o.blob_version_id == "") || not (o.blob_snapshot_id == "")))
      then true
      else if delete_snapshots && (o.blob_deleted && not (o.blob_snapshot_id == ""))
      then true
      else if delete_versions && (o.blob_deleted && not (o.blob_version_id == ""))
      then true
      else false;
}

pub data PermanentDeleteOption : Type 0 where
  none_of_them snapshots versions snapshots_and_versions : PermanentDeleteOption

unfoldable pub build_include_soft_deleted : PermanentDeleteOption → List ObjectFilter
unfolding perm_delete_filter
build_include_soft_deleted none_of_them = []
build_include_soft_deleted snapshots = perm_delete_filter true false ∷ []
build_include_soft_deleted versions = perm_delete_filter false true ∷ []
build_include_soft_deleted snapshots_and_versions = perm_delete_filter true true ∷ []

module _ (path_match : String → String → Option Bool) where
  -- `excludeFilter` with `targetsPath` off, which is by name.
  unfoldable pub exclude_filter : String → ObjectFilter
  exclude_filter pattern = record {
    applies_only_to_files = true;
    does_pass = λ stored_object. elim (path_match pattern stored_object.name) [
      | none ↦ true
      | some matched ↦ if matched then false else true
    ];
  }

  unfoldable pub build_exclude_filters : List String → List ObjectFilter
  unfolding exclude_filter
  build_exclude_filters [] = []
  build_exclude_filters (pattern ∷ patterns) =
      let rest = build_exclude_filters patterns in
      if not (pattern == "") then exclude_filter pattern ∷ rest else rest

  -- The loop of `IncludeFilter.DoesPass`.
  unfoldable pub any_match : List String → String → Bool
  any_match [] name = false
  any_match (pattern ∷ patterns) name =
      let rest = any_match patterns name in
      elim (path_match pattern name) [ none ↦ rest | some matched ↦ if matched then true else rest ]

  unfoldable pub include_passes : List String → StoredObject → Bool
  unfolding any_match
  include_passes [] stored_object = true
  include_passes (pattern ∷ patterns) stored_object =
      any_match (pattern ∷ patterns) stored_object.name

  unfoldable pub include_filter : List String → ObjectFilter
  unfolding include_passes
  include_filter patterns = record {
    applies_only_to_files = true;
    does_pass = include_passes patterns;
  }

  unfoldable pub build_include_filters : List String → List ObjectFilter
  unfolding include_filter non_empty
  build_include_filters [] = []
  build_include_filters (pattern ∷ patterns) = include_filter (non_empty (pattern ∷ patterns)) ∷ []

module _ (match_string : String → String → Option Bool) where
  -- The loop of `regexFilter.DoesPass`.
  unfoldable pub regex_loop : Bool → List String → String → Bool
  regex_loop is_included [] path = not is_included
  regex_loop is_included (pattern ∷ patterns) path =
      let rest = regex_loop is_included patterns path in
      elim (match_string pattern path) [
        | none ↦ if is_included then rest else true
        | some matched ↦ if matched then is_included else rest
      ]

  unfoldable pub regex_passes : Bool → List String → StoredObject → Bool
  unfolding regex_loop
  regex_passes is_included [] stored_object = true
  regex_passes is_included (pattern ∷ patterns) stored_object =
      regex_loop is_included (pattern ∷ patterns) stored_object.relative_path

  unfoldable pub regex_filter : Bool → List String → ObjectFilter
  unfolding regex_passes
  regex_filter is_included patterns = record {
    applies_only_to_files = false;
    does_pass = regex_passes is_included patterns;
  }

  unfoldable pub build_regex_filters : Bool → List String → List ObjectFilter
  unfolding regex_filter non_empty
  build_regex_filters is_included [] = []
  build_regex_filters is_included (pattern ∷ patterns) =
      regex_filter is_included (non_empty (pattern ∷ patterns)) ∷ []
