-- ===== src/Sync/Source.antt =====
-- A download or a copy between services: the destination is in the index and the source is read.
use axxx.Prelude.{
  Bool, true, false, List, [], ◌∷◌, none, some, String, ◌≡◌, ap, refl, ◌∙◌, arith, ◌==◌, ◌||◌,
  string_eq, if◌then◌else◌, Bool-cases, inl, inr,
}
use axxx.Prelude.Assoc.{lookup, delete, lookup-delete, delete_missing}
use axxx.Object.{StoredObject, is_more_recent_than}
use axxx.Filter.{ObjectFilter, passed_filters}
use axxx.Sync.{
  ObjectIndexer, Processor, process_if_passed_filters, get_processing_error, traverse,
  process_source,
}

-- The processor applied to each object in turn, whatever errors it reports.
unfoldable pub each : {σ : Type 0} → Processor σ → List StoredObject → σ → σ
each processor [] s = s
each processor (o ∷ os) s = each processor os (processor o s).0

-- The objects that pass the filters.
unfoldable pub passing : List ObjectFilter → List StoredObject → List StoredObject
passing filters [] = []
passing filters (o ∷ os) =
    let rest = passing filters os in if passed_filters filters o then o ∷ rest else rest

pub traverse-passing :
    {σ : Type 0} (filters : List ObjectFilter) (processor : Processor σ) (os : List StoredObject)
    (s : σ)
    → traverse filters processor os s ≡ (each processor (passing filters os) s, none)
unfolding traverse process_if_passed_filters get_processing_error passing each
traverse-passing filters processor [] s = refl
traverse-passing filters processor (o ∷ os) s = ground (
  arith,
  traverse-passing filters processor os s,
  traverse-passing filters processor os (processor o s).0,
)

module _ (to_lower : String → String) (filters : List ObjectFilter) where
  abbrev pub key : Bool → StoredObject → String
  key insensitive o = if insensitive then to_lower o.relative_path else o.relative_path

  -- Some object of the list passes the filters and has the key.
  unfoldable pub seen : Bool → String → List StoredObject → Bool
  seen c k [] = false
  seen c k (o ∷ os) =
      let rest = seen c k os in
      if passed_filters filters o then (if key c o == k then true else rest) else rest

  -- No two objects that pass the filters have the same key.
  abbrev pub Distinct : Bool → List StoredObject → Type 0
  Distinct c [] = Unit
  Distinct c (o ∷ os) = (seen c (key c o) os ≡ false) × Distinct c os

  module _ {σ : Type 0} (copy_transfer_scheduler : Processor σ) (mirror : Bool) where
    -- Whether an object is new, or is more recent than what the index has, or all are to be copied.
    unfoldable pub wanted : ObjectIndexer → StoredObject → Bool
    wanted i o = elim (lookup (key i.is_destination_case_insensitive o) i.index_map) [
      | none ↦ true
      | some d ↦ mirror || is_more_recent_than o d
    ]

    unfoldable pub chosen : ObjectIndexer → List StoredObject → List StoredObject
    chosen i [] = []
    chosen i (o ∷ os) =
        let rest = chosen i os in
        if passed_filters filters o then (if wanted i o then o ∷ rest else rest) else rest

    -- One step of the comparator.
    process_source-wanted :
        (o : StoredObject) (i : ObjectIndexer) (s : σ)
        → let k = key i.is_destination_case_insensitive o in
          (process_source to_lower copy_transfer_scheduler mirror o (i, s)).0 ≡ (
            record i { index_map = delete k i.index_map },
            if wanted i o then (copy_transfer_scheduler o s).0 else s,
          )
    unfolding process_source wanted
    process_source-wanted o i s =
        let k = key i.is_destination_case_insensitive o in
        ground (arith, delete_missing k i.index_map)

    -- An object with another key is wanted as before.
    wanted-delete :
        (k : String) (o : StoredObject) (i : ObjectIndexer)
        → (key i.is_destination_case_insensitive o == k) ≡ false
        → wanted (record i { index_map = delete k i.index_map }) o ≡ wanted i o
    unfolding wanted
    wanted-delete k o i h =
        let j = key i.is_destination_case_insensitive o in
        ground
          (arith, lookup-delete k j i.index_map, string_eq.same_iff j k, string_eq.same_iff k j)

    chosen-delete :
        (k : String) (os : List StoredObject) (i : ObjectIndexer)
        → seen i.is_destination_case_insensitive k os ≡ false
        → chosen (record i { index_map = delete k i.index_map }) os ≡ chosen i os
    unfolding chosen seen
    chosen-delete k [] i h = refl
    chosen-delete k (o ∷ os) i h = ground (arith, chosen-delete k os i, wanted-delete k o i)

    each-chosen :
        (o : StoredObject) (os : List StoredObject) (i : ObjectIndexer) (s : σ)
        → let k = key i.is_destination_case_insensitive o in
          seen i.is_destination_case_insensitive k os ≡ false
          → passed_filters filters o ≡ true
          → each copy_transfer_scheduler
              (chosen (record i { index_map = delete k i.index_map }) os)
              (if wanted i o then (copy_transfer_scheduler o s).0 else s)
            ≡ each copy_transfer_scheduler (chosen i (o ∷ os)) s
    unfolding each chosen
    each-chosen o os i s new passed =
        let k = key i.is_destination_case_insensitive o in ground (arith, chosen-delete k os i new)

    seen-delete :
        (j : String) (o : StoredObject) (os : List StoredObject) (i : ObjectIndexer)
        → passed_filters filters o ≡ true
        → let c = i.is_destination_case_insensitive in
          (if seen c j os then none else lookup j (delete (key c o) i.index_map))
          ≡ (if seen c j (o ∷ os) then none else lookup j i.index_map)
    unfolding seen
    seen-delete j o os i passed =
        let k = key i.is_destination_case_insensitive o in
        ground (arith, lookup-delete k j i.index_map)

    each-passing-∷ :
        (o : StoredObject) (os : List StoredObject) (i : ObjectIndexer) (s : σ)
        → passed_filters filters o ≡ true
        → let k = key i.is_destination_case_insensitive o in
          let processor = process_source to_lower copy_transfer_scheduler mirror in
          each processor (passing filters (o ∷ os)) (i, s)
          ≡ each processor (passing filters os) (
            record i { index_map = delete k i.index_map },
            if wanted i o then (copy_transfer_scheduler o s).0 else s,
          )
    unfolding each passing
    each-passing-∷ o os i s passed =
        let processor = process_source to_lower copy_transfer_scheduler mirror in
        rw passed (ap (each processor (passing filters os)) (process_source-wanted o i s))

    pub each-process_source :
        (os : List StoredObject) (i : ObjectIndexer) (s : σ)
        → Distinct i.is_destination_case_insensitive os
        → let r =
            each
              (process_source to_lower copy_transfer_scheduler mirror)
              (passing filters os)
              (i, s) in
          (r.1 ≡ each copy_transfer_scheduler (chosen i os) s)
          × (r.0.is_destination_case_insensitive ≡ i.is_destination_case_insensitive)
          × ((k : String)
              → lookup k r.0.index_map ≡ (
                  if seen i.is_destination_case_insensitive k os
                  then none
                  else lookup k i.index_map))
    unfolding each passing chosen seen
    each-process_source [] i s d = (refl, refl, λ k. refl)
    each-process_source (o ∷ os) i s (new, d) =
        let k = key i.is_destination_case_insensitive o in
        let i1 = record i { index_map = delete k i.index_map } in
        let s1 = if wanted i o then (copy_transfer_scheduler o s).0 else s in
        let (run1, flag1, map1) = each-process_source os i1 s1 d in
        let (run0, flag0, map0) = each-process_source os i s d in
        elim (Bool-cases (passed_filters filters o)) [
          | inl passed ↦
              let moved = each-passing-∷ o os i s passed in
              (
                ap (λ r. r.1) moved ∙ run1 ∙ each-chosen o os i s new passed,
                ap (λ r. r.0.is_destination_case_insensitive) moved ∙ flag1,
                λ j. ap (λ r. lookup j r.0.index_map) moved ∙ map1 j ∙ seen-delete j o os i passed,
              )
          | inr stopped ↦ rw stopped (run0, flag0, map0)
        ]

    -- Reading a source whose objects have distinct keys reports no error and hands to the
    -- scheduler, in order, exactly those that pass the filters and are new, or more recent than
    -- their counterpart in the index, or all of these if comparison is off; what remains in the
    -- index are the destination's objects that no such source object has the key of.
    pub traverse-process_source :
        (os : List StoredObject) (i : ObjectIndexer) (s : σ) (k : String)
        → Distinct i.is_destination_case_insensitive os
        → let (r, err) =
            traverse filters (process_source to_lower copy_transfer_scheduler mirror) os (i, s) in
          (err ≡ none)
          × (r.1 ≡ each copy_transfer_scheduler (chosen i os) s)
          × (lookup k r.0.index_map ≡ (
              if seen i.is_destination_case_insensitive k os then none else lookup k i.index_map))
    traverse-process_source os i s k d =
        let (run, flag, left) = each-process_source os i s d in
        let processor = process_source to_lower copy_transfer_scheduler mirror in
        rw (traverse-passing filters processor os (i, s)) (refl, run, left k)
