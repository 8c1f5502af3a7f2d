-- ===== src/Folders/DeletionLaws.antt =====
-- No folder that is ready to be removed is forgotten.
use axxx.Prelude.{
  ◌+◌, ◌-◌, Bool, true, false, List, [], ◌∷◌, none, some, ◌≡◌, arith, ◌==◌, if◌then◌else◌,
  Option-cases, inl, inr,
}
use axxx.Prelude.Assoc.{lookup, lookup-insert, lookup-delete}
use axxx.Folders.Deletion.{
  FolderPath, path_eq, FolderDeletionManager, FolderDeletionState, new_folder_deletion_manager,
  should_delete_now, get_parent, get_state, put_state, record_child_exists, attempt, visit,
  child_deleted_in, record_child_deleted, try_deletion, request_deletion,
}

-- Whether a folder is known, its removal asked for and its count of children 0.
unfoldable pub ready : FolderPath → FolderDeletionManager → Bool
ready p s = elim (lookup p s.contents) [ none ↦ false | some state ↦ should_delete_now state ]

unfoldable pub tried : FolderPath → List FolderPath → Bool
tried p [] = false
tried p (q ∷ qs) = let rest = tried p qs in if q == p then true else rest

-- If `p` is ready, its removal was attempted.
abbrev pub Settled : FolderPath → FolderDeletionManager → Type 0
Settled p s = ready p s ≡ true → tried p s.attempts ≡ true

ready-put_state :
    (p folder : FolderPath) (state : FolderDeletionState) (s : FolderDeletionManager)
    → ready p (put_state folder state s)
      ≡ (if folder == p then should_delete_now state else ready p s)
unfolding ready put_state should_delete_now
ready-put_state p folder state s = ground (arith, lookup-insert folder p state s.contents)

put_state-Settled :
    (p folder : FolderPath) (state : FolderDeletionState) (s : FolderDeletionManager)
    → Settled p s
    → should_delete_now state ≡ false
    → Settled p (put_state folder state s)
unfolding put_state
put_state-Settled p folder state s h e r = h (ground (arith, r, ready-put_state p folder state s))

grown : FolderPath → FolderDeletionManager → FolderDeletionState
grown folder s = record (get_state folder s) { child_count = (get_state folder s).child_count + 1 }

grown_not_ready :
    (folder : FolderPath) (s : FolderDeletionManager) → should_delete_now (grown folder s) ≡ false
unfolding should_delete_now grown
grown_not_ready folder s = ground arith

record_child_exists-Settled :
    (p child : FolderPath) (s : FolderDeletionManager)
    → Settled p s
    → Settled p (record_child_exists child s)
unfolding record_child_exists grown
record_child_exists-Settled p child s h = elim (Option-cases (get_parent child)) [
  | inl root ↦ rw (record_child_exists, root) h
  | inr (folder, e) ↦
      rw (record_child_exists, e)
        (put_state-Settled p folder (grown folder s) s h (grown_not_ready folder s))
]

module _ (deletion_func : List FolderPath → FolderPath → Bool) where
  attempt-Settled :
      (p folder : FolderPath) (s : FolderDeletionManager)
      → ((folder == p) ≡ false → Settled p s)
      → Settled p (attempt deletion_func folder s).0
  unfolding attempt ready tried
  attempt-Settled p folder s h = ground (arith, h, lookup-delete folder p s.contents)

  visit-Settled :
      (p folder : FolderPath) (s : FolderDeletionManager)
      → Settled p s
      → Settled p (visit deletion_func folder s).0
  unfolding visit
  visit-Settled p folder s h = elim (Option-cases (lookup folder s.contents)) [
    | inl unknown ↦ rw (visit, unknown) h
    | inr (state, known) ↦
        let state' = record state { child_count = state.child_count - 1 } in
        let s1 = put_state folder state' s in
        ground (arith, known, h, ready-put_state p folder state' s, attempt-Settled p folder s1)
  ]

  child_deleted_in-Settled :
      (p folder : FolderPath) (s : FolderDeletionManager)
      → Settled p s
      → Settled p (child_deleted_in deletion_func folder s)
  unfolding child_deleted_in
  child_deleted_in-Settled p [] s h = visit-Settled p [] s h
  child_deleted_in-Settled p (part ∷ rest) s h =
      let folder = part ∷ rest in
      let s' = (visit deletion_func folder s).0 in
      ground (
        arith,
        visit-Settled p folder s h,
        child_deleted_in-Settled p rest s' (visit-Settled p folder s h),
      )

  record_child_deleted-Settled :
      (p child : FolderPath) (s : FolderDeletionManager)
      → Settled p s
      → Settled p (record_child_deleted deletion_func child s)
  unfolding record_child_deleted
  record_child_deleted-Settled p child s h = elim (Option-cases (get_parent child)) [
    | inl root ↦ rw (record_child_deleted, root) h
    | inr (folder, e) ↦ rw (record_child_deleted, e) (child_deleted_in-Settled p folder s h)
  ]

  try_deletion-Settled :
      (p folder : FolderPath) (s : FolderDeletionManager)
      → ((folder == p) ≡ false → Settled p s)
      → Settled p (try_deletion deletion_func folder s)
  unfolding try_deletion
  try_deletion-Settled p folder s h =
      let s' = (attempt deletion_func folder s).0 in
      let attempted = attempt-Settled p folder s h in
      ground (arith, attempted, record_child_deleted-Settled p folder s' attempted)

  request_deletion-Settled :
      (p folder : FolderPath) (s : FolderDeletionManager)
      → Settled p s
      → Settled p (request_deletion deletion_func folder s)
  unfolding request_deletion
  request_deletion-Settled p folder s h =
      let state = record (get_state folder s) { deleter = true } in
      let s1 = put_state folder state s in
      ground (arith, h, ready-put_state p folder state s, try_deletion-Settled p folder s1)

-- The calls that the engine makes of the manager.
pub data Call : Type 0 where
  child_exists child_deleted deletion_requested : FolderPath → Call

unfoldable pub call :
    (List FolderPath → FolderPath → Bool) → Call → FolderDeletionManager → FolderDeletionManager
call deletion_func (child_exists child) = record_child_exists child
call deletion_func (child_deleted child) = record_child_deleted deletion_func child
call deletion_func (deletion_requested folder) = request_deletion deletion_func folder

unfoldable pub calls :
    (List FolderPath → FolderPath → Bool)
    → List Call
    → FolderDeletionManager
    → FolderDeletionManager
calls deletion_func [] s = s
calls deletion_func (c ∷ cs) s = calls deletion_func cs (call deletion_func c s)

call-Settled :
    (deletion_func : List FolderPath → FolderPath → Bool) (p : FolderPath) (c : Call)
    (s : FolderDeletionManager)
    → Settled p s
    → Settled p (call deletion_func c s)
unfolding call
call-Settled d p (child_exists child) s h = record_child_exists-Settled p child s h
call-Settled d p (child_deleted child) s h = record_child_deleted-Settled d p child s h
call-Settled d p (deletion_requested folder) s h = request_deletion-Settled d p folder s h

calls-Settled :
    (deletion_func : List FolderPath → FolderPath → Bool) (cs : List Call) (p : FolderPath)
    (s : FolderDeletionManager)
    → Settled p s
    → Settled p (calls deletion_func cs s)
unfolding calls
calls-Settled d [] p s h = h
calls-Settled d (c ∷ cs) p s h = calls-Settled d cs p (call d c s) (call-Settled d p c s h)

new-Settled : (p : FolderPath) → Settled p new_folder_deletion_manager
unfolding ready lookup
new-Settled p h = cc

-- After any sequence of calls to a new manager, whatever the deletion functions answer, a folder
-- whose removal was asked for and which has no child left in the count has had its removal
-- attempted.
pub calls-attempts :
    (deletion_func : List FolderPath → FolderPath → Bool) (cs : List Call) (p : FolderPath)
    → ready p (calls deletion_func cs new_folder_deletion_manager) ≡ true
    → tried p (calls deletion_func cs new_folder_deletion_manager).attempts ≡ true
calls-attempts d cs p = calls-Settled d cs p new_folder_deletion_manager (new-Settled p)
