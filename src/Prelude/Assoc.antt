-- ===== src/Prelude/Assoc.antt =====
-- Go's maps as association lists over keys with a Boolean equality: `m[k]` with the test whether
-- the key is there, `m[k] = v`, which takes the place of an old entry, and `delete(m, k)`.
use axxx.Prelude.Tests.{if◌then◌else◌, Eq, ◌==◌}
use Prim.Native.Nat.{◌≤◌, ◌<◌}
use mathlib.Core.Path.{◌≡◌, refl}
use mathlib.Core.List.{List, [], ◌∷◌}
use mathlib.Core.Option.{Option, none, some}
use native.Mathlib.Omega.{arith}
use axxx.Prelude.Lists.{length}

module _ {ℓ} {Key : Type 0} {Value : Type ℓ} ⦃eq : Eq Key⦄ where
  unfoldable pub delete : Key → List (Key × Value) → List (Key × Value)
  delete key [] = []
  delete key (entry ∷ table) =
      let rest = delete key table in if entry.0 == key then rest else entry ∷ rest

  unfoldable pub insert : Key → Value → List (Key × Value) → List (Key × Value)
  insert key new [] = (key, new) ∷ []
  insert key new (entry ∷ table) =
      let rest = insert key new table in if entry.0 == key then (key, new) ∷ table else entry ∷ rest

  unfoldable pub lookup : Key → List (Key × Value) → Option Value
  lookup key [] = none
  lookup key (entry ∷ table) =
      let rest = lookup key table in if entry.0 == key then some entry.1 else rest

  pub length-delete-le :
      (key : Key) (table : List (Key × Value)) → length (delete key table) ≤ length table
  unfolding delete
  length-delete-le key [] = omega arith
  length-delete-le key (entry ∷ table) = ground (arith, length-delete-le key table)

  pub length-delete_lt :
      (key : Key) (old : Value) (table : List (Key × Value))
      → lookup key table ≡ some old
      → length (delete key table) < length table
  unfolding lookup delete
  length-delete_lt key old [] found = cc
  length-delete_lt key old (entry ∷ table) found =
      ground (arith, length-delete_lt key old table, length-delete-le key table)

  pub length-insert :
      (key : Key) (new old : Value) (table : List (Key × Value))
      → lookup key table ≡ some old
      → length (insert key new table) ≡ length table
  unfolding lookup insert
  length-insert key new old [] found = cc
  length-insert key new old (entry ∷ table) found =
      ground (arith, eq.same_iff entry.0 key, length-insert key new old table)

  pub lookup-delete :
      (key other : Key) (table : List (Key × Value))
      → lookup other (delete key table) ≡ (if key == other then none else lookup other table)
  unfolding lookup delete
  lookup-delete key other [] = ground arith
  lookup-delete key other (entry ∷ table) =
      let distinct = lookup-delete key other table in
      ground
        (arith, distinct, eq.same_iff entry.0 other, eq.same_iff entry.0 key, eq.same_iff key other)

  pub lookup-insert :
      (key other : Key) (new : Value) (table : List (Key × Value))
      → lookup other (insert key new table)
        ≡ (if key == other then some new else lookup other table)
  unfolding insert lookup
  lookup-insert key other new [] = refl
  lookup-insert key other new (entry ∷ table) =
      let distinct = lookup-insert key other new table in
      ground
        (arith, distinct, eq.same_iff entry.0 other, eq.same_iff entry.0 key, eq.same_iff key other)

  pub delete_missing :
      (key : Key) (table : List (Key × Value)) → lookup key table ≡ none → delete key table ≡ table
  unfolding delete lookup
  delete_missing key [] missing = refl
  delete_missing key (entry ∷ table) missing = ground (arith, delete_missing key table)

  pub delete-insert :
      (key : Key) (new : Value) (table : List (Key × Value))
      → lookup key table ≡ none
      → delete key (insert key new table) ≡ table
  unfolding insert lookup delete
  delete-insert key new [] missing = ground (arith, eq.same_iff key key)
  delete-insert key new (entry ∷ table) missing = ground (arith, delete-insert key new table)
