-- ===== src/Sync/Run.antt =====
-- A whole sync from a source that is read second: a download or a copy between services.
use axxx.Prelude.{
  Bool, List, [], ◌∷◌, Option, none, some, String, ◌≡◌, ap, refl, ◌∙◌, arith, ◌==◌, string_eq,
  if◌then◌else◌,
}
use axxx.Prelude.Assoc.{lookup, lookup-insert}
use axxx.Object.{StoredObject}
use axxx.Filter.{ObjectFilter, passed_filters}
use axxx.Sync.{
  ObjectIndexer, Processor, Result, new_object_indexer, store, process_source, enumerate,
}
use axxx.Sync.Source.{
  each, passing, traverse-passing, key, seen, chosen, Distinct, each-process_source,
}

module _ (to_lower : String → String) (filters : List ObjectFilter) where
  -- The last object of the list that passes the filters and has the key, or else `old`.
  unfoldable pub last_with :
      Bool → String → List StoredObject → Option StoredObject → Option StoredObject
  last_with c k [] old = old
  last_with c k (o ∷ os) old =
      let skipped = last_with c k os old in
      let taken = last_with c k os (some o) in
      if passed_filters filters o
      then (if key to_lower filters c o == k then taken else skipped)
      else skipped

  each-store :
      (k : String) (os : List StoredObject) (i : ObjectIndexer)
      → let r = each (store to_lower) (passing filters os) i in
        (r.is_destination_case_insensitive ≡ i.is_destination_case_insensitive)
        × (lookup k r.index_map
            ≡ last_with i.is_destination_case_insensitive k os (lookup k i.index_map))
  unfolding each passing store last_with
  each-store k [] i = (refl, refl)
  each-store k (o ∷ os) i =
      let j = key to_lower filters i.is_destination_case_insensitive o in
      let i1 = (store to_lower o i).0 in
      ground (arith, each-store k os i, each-store k os i1, lookup-insert j k o i.index_map)

  -- The index of the primary side.
  abbrev pub indexed : Bool → List StoredObject → ObjectIndexer
  indexed c os = each (store to_lower) (passing filters os) (new_object_indexer c)

  pub lookup-indexed :
      (c : Bool) (os : List StoredObject) (k : String)
      → lookup k (indexed c os).index_map ≡ last_with c k os none
  unfolding new_object_indexer lookup
  lookup-indexed c os k = (each-store k os (new_object_indexer c)).1

  pub flag-indexed :
      (c : Bool) (os : List StoredObject) → (indexed c os).is_destination_case_insensitive ≡ c
  unfolding new_object_indexer
  flag-indexed c os = (each-store "" os (new_object_indexer c)).0

  pub enumerate-traverse :
      {σ : Type 0} (processor : Processor (ObjectIndexer × σ))
      (finalize : ObjectIndexer × σ → Result σ) (c : Bool) (primary secondary : List StoredObject)
      (s : σ)
      → enumerate to_lower filters processor finalize primary secondary (new_object_indexer c, s)
        ≡ finalize (each processor (passing filters secondary) (indexed c primary, s))
  unfolding enumerate
  enumerate-traverse processor finalize c primary secondary s =
      let indexing = traverse-passing filters (store to_lower) primary (new_object_indexer c) in
      let comparing = traverse-passing filters processor secondary (indexed c primary, s) in
      ground (arith, indexing, comparing)

  module _ {σ : Type 0} (copy_transfer_scheduler : Processor σ) (mirror : Bool)
      (finalize : ObjectIndexer × σ → Result σ) where
    -- A sync whose source is read second, with distinct keys among the source's objects, comes to
    -- its finalizer. By then exactly the new and the more recent objects of the source, or all of
    -- them if comparison is off, were handed to the scheduler in order. The index that the
    -- comparisons start from has for each key the last of the destination's objects with it, and
    -- the index that the finalizer gets, for deletion, has those whose key no object of the source
    -- has. Objects that do not pass the filters do not count anywhere.
    pub enumerate-process_source :
        (c : Bool) (dests sources : List StoredObject) (s : σ)
        → Distinct to_lower filters c sources
        → (i : ObjectIndexer) × (enumerate to_lower filters
              (process_source to_lower copy_transfer_scheduler mirror)
              finalize
              dests
              sources
              (new_object_indexer c, s)
            ≡ finalize (
              i,
              each copy_transfer_scheduler
                  (chosen to_lower filters copy_transfer_scheduler mirror (indexed c dests) sources)
                  s,
            ))
          × ((k : String) → lookup k (indexed c dests).index_map ≡ last_with c k dests none)
          × ((k : String)
              → lookup k i.index_map
                ≡ (if seen to_lower filters c k sources then none else last_with c k dests none))
    enumerate-process_source c dests sources s d =
        let processor = process_source to_lower copy_transfer_scheduler mirror in
        let r = each processor (passing filters sources) (indexed c dests, s) in
        let flag = flag-indexed c dests in
        let (ran, same_flag, left) =
          each-process_source to_lower filters copy_transfer_scheduler mirror sources
            (indexed c dests) s (rw flag d) in
        (
          r.0,
          enumerate-traverse processor finalize c dests sources s ∙ ap (λ x. finalize (r.0, x)) ran,
          lookup-indexed c dests,
          λ k. ground (arith, left k, flag, lookup-indexed c dests k),
        )
