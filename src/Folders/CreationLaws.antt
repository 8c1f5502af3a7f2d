-- ===== src/Folders/CreationLaws.antt =====
-- The traversal and the transfers race: a folder may be created before it is registered.
use axxx.Prelude.{
  ℕ, zero, suc, Bool, true, false, List, [], ◌∷◌, Option, none, some, String, ◌≡◌, arith, refl, sym,
  ◌∙◌, ◌==◌, string_eq, get_elem?, set,
}
use axxx.Prelude.Int.{is_neg}
use axxx.Prelude.Assoc.{lookup, insert, lookup-insert, delete-insert}
use axxx.Status.{code, folder_created}
use axxx.Plan.{JobPartPlanTransfer, transfer, set_status_at, set_transfer_status, morph_status}
use axxx.Folders.Creation.{
  FolderTracker, mark_created, is_created, register_properties_transfer, record_creation,
  created_of, should_set_properties, OverwriteOption,
}

get_elem?-set :
    (ts : List JobPartPlanTransfer) (i : ℕ) (t u : JobPartPlanTransfer)
    → get_elem? ts i ≡ some t
    → get_elem? (set ts i u) i ≡ some u
get_elem?-set [] i t u h = cc
get_elem?-set (x ∷ ts) zero t u h = refl
get_elem?-set (x ∷ ts) (suc i) t u h = get_elem?-set ts i t u h

module _ (dev_null folder : String) (idx : ℕ) where
  pub create_then_register : FolderTracker → Option FolderTracker
  create_then_register f = elim (record_creation dev_null folder f) [
    | none ↦ none
    | some g ↦ register_properties_transfer dev_null folder idx g
  ]

  pub register_then_create : FolderTracker → Option FolderTracker
  register_then_create f = elim (register_properties_transfer dev_null folder idx f) [
    | none ↦ none
    | some g ↦ record_creation dev_null folder g
  ]

  module _ (f : FolderTracker) (t : JobPartPlanTransfer) (real : (folder == dev_null) ≡ false)
      (unregistered : lookup folder f.contents ≡ none)
      (uncreated : lookup folder f.unregistered_but_created ≡ none)
      (has_transfer : transfer f.plan idx ≡ some t)
      (healthy : is_neg (code t.atomic_transfer_status) ≡ false) where
    abbrev registered : FolderTracker
    registered = record f {
      plan = record f.plan {
        transfers = set f.plan.transfers idx (set_transfer_status folder_created false t);
      };
      contents = insert folder idx f.contents;
    }

    create_then_register_lem : create_then_register f ≡ some registered
    unfolding create_then_register record_creation register_properties_transfer mark_created
        set_status_at
    create_then_register_lem = ground (
      arith,
      real,
      unregistered,
      has_transfer,
      lookup-insert folder folder tt f.unregistered_but_created,
      string_eq.same_iff folder folder,
      delete-insert folder tt f.unregistered_but_created uncreated,
    )

    register_then_create_lem : register_then_create f ≡ some registered
    unfolding register_then_create record_creation register_properties_transfer mark_created
        set_status_at
    register_then_create_lem = ground (
      arith,
      real,
      uncreated,
      has_transfer,
      lookup-insert folder folder idx f.contents,
      string_eq.same_iff folder folder,
    )

    created_of-registered : created_of dev_null folder registered ≡ some true
    unfolding created_of transfer is_created set_transfer_status morph_status
    created_of-registered = ground (
      arith,
      healthy,
      lookup-insert folder folder idx f.contents,
      string_eq.same_iff folder folder,
      get_elem?-set f.plan.transfers idx t (set_transfer_status folder_created false t)
          has_transfer,
    )

    should_set_properties-registered :
        (ask : String → Bool) (overwrite : OverwriteOption)
        → should_set_properties dev_null ask folder overwrite registered ≡ some true
    unfolding should_set_properties
    should_set_properties-registered ask overwrite = ground (arith, real, created_of-registered)

    -- For a folder that is not the null device and is neither registered nor recorded as created
    -- yet, and whose transfer is in the plan and has not failed: recording its creation and
    -- registering it succeed in either order with the same result, after which its properties are
    -- to be set whatever the overwrite option and the answer of a prompt.
    pub create_then_register-register_then_create :
        (ask : String → Bool) (overwrite : OverwriteOption)
        → (create_then_register f ≡ register_then_create f)
          × ((g : FolderTracker) × (create_then_register f ≡ some g)
              × (should_set_properties dev_null ask folder overwrite g ≡ some true))
    create_then_register-register_then_create ask overwrite = (
      create_then_register_lem ∙ sym register_then_create_lem,
      (registered, create_then_register_lem, should_set_properties-registered ask overwrite),
    )
