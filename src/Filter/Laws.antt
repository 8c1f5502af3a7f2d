-- ===== src/Filter/Laws.antt =====
-- What a combination of filters lets through.
use axxx.Prelude.{
  Bool, true, false, List, [], ◌∷◌, ◌++◌, Option, none, some, String, ◌≡◌, ◌↔◌, ◌⊎◌, ◌≢◌, inl, refl,
  arith, not, ◌&&◌, string_eq, Option-cases,
}
use axxx.Object.{StoredObject, is_file, file}
use axxx.Filter.{
  ObjectFilter, passed_filters, non_empty, build_exclude_filters, build_include_filters, any_match,
  include_filter, include_passes, exclude_filter, regex_loop, regex_passes, regex_filter,
  build_regex_filters, PermanentDeleteOption, build_include_soft_deleted, perm_delete_filter,
  snapshots, versions, none_of_them,
}

pub passed_filters-append :
    (fs gs : List ObjectFilter) (o : StoredObject)
    → passed_filters (fs ++ gs) o ≡ (passed_filters fs o && passed_filters gs o)
unfolding passed_filters
passed_filters-append [] gs o = refl
passed_filters-append (f ∷ fs) gs o = ground (arith, passed_filters-append fs gs o)

module _ (path_match : String → String → Option Bool) where
  passed_filters-exclude :
      (qs : List String) (o : StoredObject)
      → o.entity_type ≡ file
      → passed_filters (build_exclude_filters path_match qs) o
        ≡ not (any_match path_match (non_empty qs) o.name)
  unfolding passed_filters build_exclude_filters any_match non_empty is_file exclude_filter
  passed_filters-exclude [] o e = refl
  passed_filters-exclude (q ∷ qs) o e = ground (arith, passed_filters-exclude qs o)

  -- Some non-empty pattern of the list is valid and matches the name.
  abbrev pub AnyMatch : List String → String → Type 0
  AnyMatch [] name = ⊥
  AnyMatch (p ∷ ps) name = ((p ≢ "") × (path_match p name ≡ some true)) ⊎ AnyMatch ps name

  any_match_iff :
      (ps : List String) (name : String)
      → (any_match path_match (non_empty ps) name ≡ true) ↔ AnyMatch ps name
  unfolding any_match non_empty
  any_match_iff [] name = ground arith
  any_match_iff (p ∷ ps) name =
      ground
        (arith, string_eq.same_iff p "", any_match_iff ps name, Option-cases (path_match p name))

  include_passes-any_match :
      (qs : List String) (o : StoredObject)
      → (include_passes path_match qs o ≡ true)
        ↔ ((qs ≡ []) ⊎ (any_match path_match qs o.name ≡ true))
  unfolding include_passes any_match
  include_passes-any_match [] o = (λ _. inl refl, λ _. refl)
  include_passes-any_match (q ∷ qs) o = ground arith

  include_passes_iff :
      (ps : List String) (o : StoredObject)
      → (include_passes path_match (non_empty ps) o ≡ true)
        ↔ ((non_empty ps ≡ []) ⊎ AnyMatch ps o.name)
  include_passes_iff ps o =
      ground (arith, include_passes-any_match (non_empty ps) o, any_match_iff ps o.name)

  -- A file passes the include and exclude filters by name exactly if its name matches one of the
  -- non-empty include patterns, or there is none of these, and it matches none of the non-empty
  -- exclude patterns. A pattern that `path.Match` calls invalid matches nothing.
  pub passed_filters-build_iff :
      (ps qs : List String) (o : StoredObject)
      → o.entity_type ≡ file
      → (passed_filters
            (build_include_filters path_match ps ++ build_exclude_filters path_match qs)
            o
          ≡ true)
        ↔ (((non_empty ps ≡ []) ⊎ AnyMatch ps o.name) × ¬ AnyMatch qs o.name)
  unfolding passed_filters build_include_filters is_file include_filter non_empty
  passed_filters-build_iff [] qs o e =
      ground (arith, passed_filters-exclude qs o e, any_match_iff qs o.name)
  passed_filters-build_iff (p ∷ ps) qs o e =
      ground (
        arith,
        passed_filters-exclude qs o e,
        any_match_iff qs o.name,
        include_passes_iff (p ∷ ps) o,
      )

module _ (match_string : String → String → Option Bool) where
  -- Some non-empty expression of the list is valid and matches the path.
  abbrev pub AnyRegex : List String → String → Type 0
  AnyRegex [] path = ⊥
  AnyRegex (p ∷ ps) path = ((p ≢ "") × (match_string p path ≡ some true)) ⊎ AnyRegex ps path

  -- Every non-empty expression of the list is valid.
  abbrev pub AllValid : List String → String → Type 0
  AllValid [] path = Unit
  AllValid (p ∷ ps) path = ((p ≡ "") ⊎ (match_string p path ≢ none)) × AllValid ps path

  regex_loop-include :
      (ps : List String) (path : String)
      → (regex_loop match_string true (non_empty ps) path ≡ true) ↔ AnyRegex ps path
  unfolding regex_loop non_empty
  regex_loop-include [] path = ground arith
  regex_loop-include (p ∷ ps) path = ground (
    arith,
    string_eq.same_iff p "",
    regex_loop-include ps path,
    Option-cases (match_string p path),
  )

  regex_loop-exclude :
      (ps : List String) (path : String)
      → AllValid ps path
      → (regex_loop match_string false (non_empty ps) path ≡ true) ↔ (¬ AnyRegex ps path)
  unfolding regex_loop non_empty
  regex_loop-exclude [] path v = ground arith
  regex_loop-exclude (p ∷ ps) path v = ground (
    arith,
    string_eq.same_iff p "",
    regex_loop-exclude ps path v.1,
    Option-cases (match_string p path),
  )

  regex_passes_iff :
      (is_included : Bool) (ps : List String) (o : StoredObject)
      → (regex_passes match_string is_included ps o ≡ true)
        ↔ ((ps ≡ []) ⊎ (regex_loop match_string is_included ps o.relative_path ≡ true))
  unfolding regex_passes regex_loop
  regex_passes_iff is_included [] o = (λ _. inl refl, λ _. refl)
  regex_passes_iff is_included (p ∷ ps) o = ground arith

  -- An object passes the regular expressions to include exactly if one of the valid ones matches
  -- its path, or no expression is non-empty.
  pub passed_filters-regex_include_iff :
      (ps : List String) (o : StoredObject)
      → (passed_filters (build_regex_filters match_string true ps) o ≡ true)
        ↔ ((non_empty ps ≡ []) ⊎ AnyRegex ps o.relative_path)
  unfolding passed_filters build_regex_filters regex_filter non_empty
  passed_filters-regex_include_iff [] o = ground arith
  passed_filters-regex_include_iff (p ∷ ps) o = ground (
    arith,
    regex_passes_iff true (non_empty (p ∷ ps)) o,
    regex_loop-include (p ∷ ps) o.relative_path,
  )

  -- If all the non-empty regular expressions to exclude are valid, an object passes them exactly if
  -- none of them matches its path.
  pub passed_filters-regex_exclude_iff :
      (ps : List String) (o : StoredObject)
      → AllValid ps o.relative_path
      → (passed_filters (build_regex_filters match_string false ps) o ≡ true)
        ↔ (¬ AnyRegex ps o.relative_path)
  unfolding passed_filters build_regex_filters regex_filter non_empty
  passed_filters-regex_exclude_iff [] o v = ground arith
  passed_filters-regex_exclude_iff (p ∷ ps) o v = ground (
    arith,
    regex_passes_iff false (non_empty (p ∷ ps)) o,
    regex_loop-exclude (p ∷ ps) o.relative_path v,
  )

-- With the filter for permanent deletion an object passes exactly if it is soft-deleted and is a
-- snapshot, or a version, as the option asks for; with the option `None` every object passes.
pub passed_filters-soft_deleted_iff :
    (option : PermanentDeleteOption) (o : StoredObject)
    → (passed_filters (build_include_soft_deleted option) o ≡ true) ↔ (
        (option ≡ none_of_them)
        ⊎ ((o.blob_deleted ≡ true)
            × (((o.blob_snapshot_id ≢ "") × (option ≢ versions))
                ⊎ ((o.blob_version_id ≢ "") × (option ≢ snapshots)))))
unfolding passed_filters build_include_soft_deleted perm_delete_filter
passed_filters-soft_deleted_iff option o =
    ground
      (arith, string_eq.same_iff o.blob_snapshot_id "", string_eq.same_iff o.blob_version_id "")
