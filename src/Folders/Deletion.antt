-- ===== src/Folders/Deletion.antt =====
-- common/folderDeletionManager.go: `standardFolderDeletionManager`, which removes a folder once its
-- removal is asked for and its children are gone. The path of a URL is the list of its parts, each
-- after a slash, the last one first; it is also the key, as `PathEscape` is injective. A caller's
-- deletion function is the parameter `deletion_func`, told the folder and the attempts made before.
-- The lock is held for each access to the map; one sequence of calls at a time is modelled.
use axxx.Prelude.{
  ℕ, ◌+◌, ◌-◌, Bool, true, false, List, [], ◌∷◌, Option, none, some, String, ◌≡◌, ◌↔◌, arith, Eq,
  ◌==◌, ◌&&◌, not, nat_beq, string_eq, if◌then◌else◌,
}
use axxx.Prelude.Assoc.{lookup, insert, delete}

abbrev pub FolderPath : Type 0
FolderPath = List String

abbrev pub path_beq : FolderPath → FolderPath → Bool
path_beq [] [] = true
path_beq [] (y ∷ ys) = false
path_beq (x ∷ xs) [] = false
path_beq (x ∷ xs) (y ∷ ys) = (x == y) && path_beq xs ys

pub path_beq_iff : (xs ys : FolderPath) → (path_beq xs ys ≡ true) ↔ (xs ≡ ys)
path_beq_iff [] [] = ground arith
path_beq_iff [] (y ∷ ys) = ground arith
path_beq_iff (x ∷ xs) [] = ground arith
path_beq_iff (x ∷ xs) (y ∷ ys) = ground (arith, string_eq.same_iff x y, path_beq_iff xs ys)

instance abbrev pub path_eq : Eq FolderPath
path_eq = record { same = path_beq; same_iff = path_beq_iff }

-- The count stays at 0 or above, and `deleter` says whether there is a deletion function.
pub record FolderDeletionState : Type 0 where
  pub child_count : ℕ
  pub deleter : Bool

-- The map, and the folders whose deletion was attempted, in order.
pub record FolderDeletionManager : Type 0 where
  pub contents : List (FolderPath × FolderDeletionState)
  pub attempts : List FolderPath

abbrev pub new_folder_deletion_manager : FolderDeletionManager
new_folder_deletion_manager = record { contents = []; attempts = [] }

unfoldable pub should_delete_now : FolderDeletionState → Bool
should_delete_now f = f.deleter && nat_beq f.child_count 0

-- The path without its last part; the empty path and `/` have no parent.
unfoldable pub has_parent : FolderPath → Bool
has_parent [] = false
has_parent (part ∷ []) = not (part == "")
has_parent (part ∷ next ∷ rest) = true

unfoldable pub get_parent : FolderPath → Option FolderPath
unfolding has_parent
get_parent [] = none
get_parent (part ∷ rest) = if has_parent (part ∷ rest) then some rest else none

unfoldable pub get_state : FolderPath → FolderDeletionManager → FolderDeletionState
get_state folder s = elim (lookup folder s.contents) [
  | none ↦ record { child_count = 0; deleter = false }
  | some state ↦ state
]

unfoldable pub put_state :
    FolderPath → FolderDeletionState → FolderDeletionManager → FolderDeletionManager
put_state folder state s = record s { contents = insert folder state s.contents }

unfoldable pub record_child_exists : FolderPath → FolderDeletionManager → FolderDeletionManager
unfolding get_parent get_state put_state
record_child_exists child s = elim (get_parent child) [
  | none ↦ s
  | some folder ↦
      let state = get_state folder s in
      put_state folder (record state { child_count = state.child_count + 1 }) s
]

module _ (deletion_func : List FolderPath → FolderPath → Bool) where
  -- The attempt itself, without the recursion to the parent, and whether it succeeded.
  unfoldable pub attempt : FolderPath → FolderDeletionManager → FolderDeletionManager × Bool
  attempt folder s =
      let s1 = record s { attempts = folder ∷ s.attempts } in
      if deletion_func s.attempts folder
      then (record s1 { contents = delete folder s.contents }, true)
      else (s1, false)

  -- `RecordChildDeleted` of a child of `folder`, as far as the attempt.
  unfoldable pub visit : FolderPath → FolderDeletionManager → FolderDeletionManager × Bool
  unfolding attempt put_state should_delete_now
  visit folder s = elim (lookup folder s.contents) [
    | none ↦ (s, false)
    | some state ↦
        let state' = record state { child_count = state.child_count - 1 } in
        let s1 = put_state folder state' s in
        if should_delete_now state' then attempt folder s1 else (s1, false)
  ]

  -- All of it: `RecordChildDeleted` and `tryDeletion` call each other on the way up.
  unfoldable pub child_deleted_in : FolderPath → FolderDeletionManager → FolderDeletionManager
  unfolding visit has_parent
  child_deleted_in [] s = (visit [] s).0
  child_deleted_in (part ∷ rest) s =
      let (s', success) = visit (part ∷ rest) s in
      let above = child_deleted_in rest s' in
      if success && has_parent (part ∷ rest) then above else s'

  unfoldable pub record_child_deleted : FolderPath → FolderDeletionManager → FolderDeletionManager
  unfolding child_deleted_in get_parent
  record_child_deleted child s = elim (get_parent child) [
    | none ↦ s
    | some folder ↦ child_deleted_in folder s
  ]

  unfoldable pub try_deletion : FolderPath → FolderDeletionManager → FolderDeletionManager
  unfolding record_child_deleted attempt
  try_deletion folder s =
      let (s', success) = attempt folder s in if success then record_child_deleted folder s' else s'

  unfoldable pub request_deletion : FolderPath → FolderDeletionManager → FolderDeletionManager
  unfolding try_deletion get_state put_state should_delete_now
  request_deletion folder s =
      let state = record (get_state folder s) { deleter = true } in
      let s1 = put_state folder state s in
      if should_delete_now state then try_deletion folder s1 else s1
