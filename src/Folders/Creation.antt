-- ===== src/Folders/Creation.antt =====
-- ste/folderCreationTracker.go: `jpptFolderTracker`, which remembers in the plan which folders this
-- job created, so that it may set their properties. `none` stands for a panic, and every operation
-- holds the lock. `dev_null` is the system's null device and `should_overwrite` the prompter, which
-- is given the folder as it is, without the removal of a SAS from a URL.
use axxx.Prelude.{
  ℕ, Bool, true, false, List, [], Option, none, some, String, ◌==◌, string_eq, if◌then◌else◌,
}
use axxx.Prelude.Assoc.{lookup, insert, delete}
use axxx.Status.{TransferStatus, folder_created}
use axxx.Plan.{JobPartPlanHeader, transfer, set_status_at}

pub data OverwriteOption : Type 0 where
  overwrite_true overwrite_false prompt if_source_newer : OverwriteOption

pub record FolderTracker : Type 0 where
  pub plan : JobPartPlanHeader
  pub contents : List (String × ℕ)
  pub unregistered_but_created : List {0} (String × Unit)

unfoldable pub new_folder_tracker : JobPartPlanHeader → FolderTracker
new_folder_tracker plan = record { plan = plan; contents = []; unregistered_but_created = [] }

unfoldable pub mark_created : ℕ → FolderTracker → Option FolderTracker
unfolding set_status_at
mark_created idx f = elim (set_status_at f.plan idx folder_created false) [
  | none ↦ none
  | some plan ↦ some (record f { plan = plan })
]

unfoldable pub is_created : TransferStatus → Bool
is_created folder_created = true
is_created _ = false

module _ (dev_null : String) where
  unfoldable pub register_properties_transfer : String → ℕ → FolderTracker → Option FolderTracker
  unfolding mark_created
  register_properties_transfer folder transfer_index f =
      if folder == dev_null
      then some f
      else (let f1 = record f { contents = insert folder transfer_index f.contents } in
          elim (lookup folder f1.unregistered_but_created) [
            | none ↦ some f1
            | some u ↦ elim (mark_created transfer_index f1) [
              | none ↦ none
              | some f2 ↦ some (record f2 {
                unregistered_but_created = delete folder f2.unregistered_but_created;
              })
            ]
          ])

  unfoldable pub record_creation : String → FolderTracker → Option FolderTracker
  unfolding mark_created
  record_creation folder f =
      if folder == dev_null then some f else elim (lookup folder f.contents) [
        | some idx ↦ mark_created idx f
        | none ↦
            some
              (record f { unregistered_but_created = insert folder tt f.unregistered_but_created })
      ]

  unfoldable pub created_of : String → FolderTracker → Option Bool
  unfolding transfer is_created
  created_of folder f = elim (lookup folder f.contents) [
    | none ↦ none
    | some idx ↦ elim (transfer f.plan idx) [
      | none ↦ none
      | some t ↦ some (is_created t.atomic_transfer_status)
    ]
  ]

  unfoldable pub should_set_properties :
      (String → Bool) → String → OverwriteOption → FolderTracker → Option Bool
  unfolding created_of
  should_set_properties should_overwrite folder overwrite f =
      if folder == dev_null then some false else elim overwrite [
        | overwrite_true ↦ some true
        | overwrite_false ↦ created_of folder f
        | if_source_newer ↦ created_of folder f
        | prompt ↦ elim (created_of folder f) [
          | none ↦ none
          | some created ↦ some (if created then created else should_overwrite folder)
        ]
      ]

  unfoldable pub stop_tracking : String → FolderTracker → Option FolderTracker
  stop_tracking folder f = if folder == dev_null then some f else elim (lookup folder f.contents) [
    | none ↦ none
    | some idx ↦ some (record f { contents = delete folder f.contents })
  ]
