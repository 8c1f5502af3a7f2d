-- ===== src/Sync/Destination.antt =====
-- An upload: the source is in the index and the destination is read.
use axxx.Prelude.{
  Bool, true, false, List, [], ◌∷◌, none, some, String, ◌≡◌, ap, refl, ◌∙◌, arith, ◌==◌, ◌||◌,
  string_eq, if◌then◌else◌, Option-cases, Bool-cases, inl, inr,
}
use axxx.Prelude.Assoc.{lookup, delete, lookup-delete, delete_missing}
use axxx.Object.{StoredObject, is_more_recent_than}
use axxx.Filter.{ObjectFilter, passed_filters}
use axxx.Sync.{ObjectIndexer, Processor, traverse, find_source, process_destination}
use axxx.Sync.Source.{each, passing, traverse-passing}

module _ (filters : List ObjectFilter) where
  -- Some object of the list passes the filters and has the path.
  unfoldable pub seen_path : String → List StoredObject → Bool
  seen_path k [] = false
  seen_path k (o ∷ os) =
      let rest = seen_path k os in
      if passed_filters filters o then (if o.relative_path == k then true else rest) else rest

  -- No two objects that pass the filters have the same path.
  abbrev pub DistinctPaths : List StoredObject → Type 0
  DistinctPaths [] = Unit
  DistinctPaths (o ∷ os) = (seen_path o.relative_path os ≡ false) × DistinctPaths os

  module _ (to_lower : String → String) {σ : Type 0}
      (copy_transfer_scheduler destination_cleaner : Processor σ) (mirror : Bool) where
    -- What becomes of one object of the destination: it is removed if the source has no object of
    -- its path, and written again if the source's is more recent or comparison is off.
    unfoldable pub act : List (String × StoredObject) → StoredObject → σ → σ
    act m o s = elim (lookup o.relative_path m) [
      | none ↦ (destination_cleaner o s).0
      | some source ↦
          if mirror || is_more_recent_than source o then (copy_transfer_scheduler source s).0 else s
    ]

    unfoldable pub act_all : List (String × StoredObject) → List StoredObject → σ → σ
    act_all m [] s = s
    act_all m (o ∷ os) s =
        let rest0 = act_all m os s in
        let rest1 = act_all m os (act m o s) in if passed_filters filters o then rest1 else rest0

    abbrev comparator : Processor (ObjectIndexer × σ)
    comparator = process_destination to_lower copy_transfer_scheduler mirror destination_cleaner

    process_destination-act :
        (o : StoredObject) (i : ObjectIndexer) (s : σ)
        → i.is_destination_case_insensitive ≡ false
        → (comparator o (i, s)).0
          ≡ (record i { index_map = delete o.relative_path i.index_map }, act i.index_map o s)
    unfolding process_destination find_source act
    process_destination-act o i s c = ground (
      arith,
      delete_missing o.relative_path i.index_map,
      Option-cases (lookup o.relative_path i.index_map),
    )

    act-delete :
        (k : String) (o : StoredObject) (m : List (String × StoredObject)) (s : σ)
        → (o.relative_path == k) ≡ false
        → act (delete k m) o s ≡ act m o s
    unfolding act
    act-delete k o m s h =
        let j = o.relative_path in
        ground (arith, lookup-delete k j m, string_eq.same_iff j k, string_eq.same_iff k j)

    act_all-delete :
        (k : String) (os : List StoredObject) (m : List (String × StoredObject)) (s : σ)
        → seen_path k os ≡ false
        → act_all (delete k m) os s ≡ act_all m os s
    unfolding act_all seen_path
    act_all-delete k [] m s h = refl
    act_all-delete k (o ∷ os) m s h =
        ground
          (arith, act_all-delete k os m s, act_all-delete k os m (act m o s), act-delete k o m s)

    act_all-∷ :
        (o : StoredObject) (os : List StoredObject) (m : List (String × StoredObject)) (s : σ)
        → passed_filters filters o ≡ true
        → act_all m os (act m o s) ≡ act_all m (o ∷ os) s
    unfolding act_all
    act_all-∷ o os m s passed = ground arith

    seen_path-delete :
        (j : String) (o : StoredObject) (os : List StoredObject) (m : List (String × StoredObject))
        → passed_filters filters o ≡ true
        → (if seen_path j os then none else lookup j (delete o.relative_path m))
          ≡ (if seen_path j (o ∷ os) then none else lookup j m)
    unfolding seen_path
    seen_path-delete j o os m passed = ground (arith, lookup-delete o.relative_path j m)

    each-passing-∷ :
        (o : StoredObject) (os : List StoredObject) (i : ObjectIndexer) (s : σ)
        → passed_filters filters o ≡ true
        → i.is_destination_case_insensitive ≡ false
        → each comparator (passing filters (o ∷ os)) (i, s)
          ≡ each comparator
              (passing filters os)
              (record i { index_map = delete o.relative_path i.index_map }, act i.index_map o s)
    unfolding each passing
    each-passing-∷ o os i s passed c =
        rw passed (ap (each comparator (passing filters os)) (process_destination-act o i s c))

    pub each-process_destination :
        (os : List StoredObject) (i : ObjectIndexer) (s : σ)
        → i.is_destination_case_insensitive ≡ false
        → DistinctPaths os
        → let r = each comparator (passing filters os) (i, s) in
          (r.1 ≡ act_all i.index_map os s)
          × ((k : String)
              → lookup k r.0.index_map ≡ (if seen_path k os then none else lookup k i.index_map))
    unfolding each passing act_all seen_path
    each-process_destination [] i s c d = (refl, λ k. refl)
    each-process_destination (o ∷ os) i s c (new, d) =
        let i1 = record i { index_map = delete o.relative_path i.index_map } in
        let s1 = act i.index_map o s in
        let (run1, map1) = each-process_destination os i1 s1 c d in
        elim (Bool-cases (passed_filters filters o)) [
          | inl passed ↦
              let moved = each-passing-∷ o os i s passed c in
              (
                ap (λ r. r.1) moved
                    ∙ run1
                    ∙ act_all-delete o.relative_path os i.index_map s1 new
                    ∙ act_all-∷ o os i.index_map s passed,
                λ j.
                    ap (λ r. lookup j r.0.index_map) moved
                    ∙ map1 j
                    ∙ seen_path-delete j o os i.index_map passed,
              )
          | inr stopped ↦ rw stopped (each-process_destination os i s c d)
        ]

    -- Reading a destination whose objects have distinct paths, with a case-sensitive index of the
    -- source, reports no error: each object that passes the filters is removed if the source has
    -- none of its path, even if the removal fails, and is else written again exactly if the
    -- source's is more recent or comparison is off; what remains in the index is what the
    -- destination lacks.
    pub traverse-process_destination :
        (os : List StoredObject) (i : ObjectIndexer) (s : σ) (k : String)
        → i.is_destination_case_insensitive ≡ false
        → DistinctPaths os
        → let (r, err) =
            traverse filters
              (process_destination to_lower copy_transfer_scheduler mirror destination_cleaner)
              os
              (i, s) in
          (err ≡ none)
          × (r.1 ≡ act_all i.index_map os s)
          × (lookup k r.0.index_map ≡ (if seen_path k os then none else lookup k i.index_map))
    traverse-process_destination os i s k c d =
        rw (traverse-passing filters comparator os (i, s))
          (let (run, left) = each-process_destination os i s c d in (refl, run, left k))
