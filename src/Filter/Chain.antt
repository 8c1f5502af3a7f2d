-- ===== src/Filter/Chain.antt =====
-- The filters of a sync in their order (`initEnumerator` of cmd/syncEnumerator.go), and the
-- exclusion by path of cmd/zc_filter.go, with `DeterminePathSeparator` of common/extensions.go.
use axxx.Prelude.{
  Bool, true, false, List, [], ◌∷◌, ◌++◌, Option, String, ◌≡◌, ◌↔◌, ◌⊎◌, ◌≢◌, refl, arith, not,
  ◌&&◌, ◌==◌, string_eq, if◌then◌else◌, inl, inr, sym, ap, ◌∙◌,
}
use axxx.Object.{StoredObject, EntityType, is_file, file, folder}
use axxx.Filter.{
  ObjectFilter, passed_filters, non_empty, build_exclude_filters, build_include_filters,
  include_filter, exclude_filter, build_regex_filters,
}
use axxx.Filter.Laws.{
  AnyMatch, AnyRegex, AllValid, passed_filters-append, passed_filters-build_iff,
  passed_filters-regex_include_iff, passed_filters-regex_exclude_iff,
}

file_or_folder : (t : EntityType) → (t ≡ file) ⊎ (t ≡ folder)
file_or_folder file = inl refl
file_or_folder folder = inr refl

file-folder : file ≢ folder
file-folder e = ground (arith, e)

module _ (on_windows : Bool) (contains has_prefix : String → String → Bool)
    (replace_all : String → String → String → String) where
  unfoldable pub determine_path_separator : String → String
  determine_path_separator path = if on_windows && contains path "\\" then "\\" else "/"

  -- `excludeFilter` with `targetsPath`.
  unfoldable pub exclude_path_filter : String → ObjectFilter
  unfolding determine_path_separator
  exclude_path_filter pattern = record {
    applies_only_to_files = false;
    does_pass = λ stored_object.
        let separator = determine_path_separator stored_object.relative_path in
        not (has_prefix stored_object.relative_path (replace_all pattern "/" separator));
  }

  unfoldable pub build_exclude_path_filters : List String → List ObjectFilter
  unfolding exclude_path_filter
  build_exclude_path_filters [] = []
  build_exclude_path_filters (pattern ∷ patterns) =
      let rest = build_exclude_path_filters patterns in
      if not (pattern == "") then exclude_path_filter pattern ∷ rest else rest

  -- Some non-empty path of the list, with the separators of the other, is a prefix of it.
  abbrev pub AnyPrefix : List String → String → Type 0
  AnyPrefix [] path = ⊥
  AnyPrefix (p ∷ ps) path =
      ((p ≢ "") × (has_prefix path (replace_all p "/" (determine_path_separator path)) ≡ true))
      ⊎ AnyPrefix ps path

  passed_filters-exclude_path_iff :
      (ps : List String) (o : StoredObject)
      → (passed_filters (build_exclude_path_filters ps) o ≡ true) ↔ (¬ AnyPrefix ps o.relative_path)
  unfolding passed_filters build_exclude_path_filters
  passed_filters-exclude_path_iff [] o = ground arith
  passed_filters-exclude_path_iff (p ∷ ps) o =
      ground (arith, string_eq.same_iff p "", passed_filters-exclude_path_iff ps o)

  module _ (path_match match_string : String → String → Option Bool) where
    -- For a source that is not local, to which no filters by file attributes apply.
    unfoldable pub sync_filters :
        (include_patterns exclude_patterns exclude_paths include_regex exclude_regex : List String)
        → List ObjectFilter
    sync_filters include_patterns exclude_patterns exclude_paths include_regex exclude_regex =
        (build_include_filters path_match include_patterns
          ++ build_exclude_filters path_match exclude_patterns)
        ++ (build_exclude_path_filters exclude_paths
            ++ (build_regex_filters match_string true include_regex
                ++ build_regex_filters match_string false exclude_regex))

    excluding-folder :
        (qs : List String) (o : StoredObject)
        → is_file o.entity_type ≡ false
        → passed_filters (build_exclude_filters path_match qs) o ≡ true
    unfolding passed_filters build_exclude_filters exclude_filter
    excluding-folder [] o h = refl
    excluding-folder (q ∷ qs) o h = ground (arith, excluding-folder qs o h)

    including-folder :
        (ps : List String) (o : StoredObject)
        → is_file o.entity_type ≡ false
        → passed_filters (build_include_filters path_match ps) o ≡ true
    unfolding passed_filters build_include_filters include_filter
    including-folder [] o h = refl
    including-folder (p ∷ ps) o h = ground (arith, h)

    -- The filters by name let every folder through.
    by_name_iff :
        (ps qs : List String) (o : StoredObject)
        → (passed_filters
              (build_include_filters path_match ps ++ build_exclude_filters path_match qs)
              o
            ≡ true)
          ↔ ((o.entity_type ≡ folder)
              ⊎ (((non_empty ps ≡ []) ⊎ AnyMatch path_match ps o.name)
                  × ¬ AnyMatch path_match qs o.name))
    unfolding is_file
    by_name_iff ps qs o = elim (file_or_folder o.entity_type) [
      | inl e ↦
          let named = passed_filters-build_iff path_match ps qs o e in
          (
            λ passed. inr (named.0 passed),
            λ choice. elim choice [
              | inl e' ↦ absurd (file-folder (sym e ∙ e'))
              | inr c ↦ named.1 c
            ],
          )
      | inr e ↦
          let is_folder = ap is_file e in
          (
            λ passed. inl e,
            λ choice.
                passed_filters-append (build_include_filters path_match ps)
                  (build_exclude_filters path_match qs) o
                ∙ rw (including-folder ps o is_folder, excluding-folder qs o is_folder) refl,
          )
    ]

    -- An object passes the filters of a sync whose source is not local, and all of whose non-empty
    -- regular expressions to exclude are valid, exactly if it is a folder or has a name that
    -- matches one of the non-empty include patterns, or there is none of these, and none of the
    -- non-empty exclude patterns; if none of the non-empty paths to exclude is a prefix of its
    -- path, once their separators are those of its path; and if its path matches one of the valid
    -- non-empty regular expressions to include, or no such expression is non-empty, and none of
    -- those to exclude.
    pub passed_filters-sync_filters_iff :
        (ps qs paths includes excludes : List String) (o : StoredObject)
        → AllValid match_string excludes o.relative_path
        → (passed_filters (sync_filters ps qs paths includes excludes) o ≡ true) ↔ (
            ((o.entity_type ≡ folder)
              ⊎ (((non_empty ps ≡ []) ⊎ AnyMatch path_match ps o.name)
                  × ¬ AnyMatch path_match qs o.name))
            × (¬ AnyPrefix paths o.relative_path)
            × ((non_empty includes ≡ []) ⊎ AnyRegex match_string includes o.relative_path)
            × (¬ AnyRegex match_string excludes o.relative_path))
    unfolding sync_filters
    passed_filters-sync_filters_iff ps qs paths includes excludes o valid =
        let by_name = build_include_filters path_match ps ++ build_exclude_filters path_match qs in
        let by_path = build_exclude_path_filters paths in
        let including = build_regex_filters match_string true includes in
        let excluding = build_regex_filters match_string false excludes in
        ground (
          arith,
          passed_filters-append by_name (by_path ++ (including ++ excluding)) o,
          passed_filters-append by_path (including ++ excluding) o,
          passed_filters-append including excluding o,
          by_name_iff ps qs o,
          passed_filters-exclude_path_iff paths o,
          passed_filters-regex_include_iff match_string includes o,
          passed_filters-regex_exclude_iff match_string excludes o valid,
        )
