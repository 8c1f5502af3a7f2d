-- ===== src/Sync/Removal.antt =====
-- What the deletion processor deletes of a list of objects.
use axxx.Prelude.{
  ℕ, ◌+◌, ◌%◌, ◌^◌, ◌≡◌, sym, ◌∙◌, Bool, true, false, List, [], ◌∷◌, ◌++◌, append-nil, append_assoc,
  Option, String, arith, length, if◌then◌else◌, string_eq,
}
use axxx.Object.{StoredObject, FolderPropertyOption, is_compatible_with_fpo}
use axxx.Sync.Source.{each}
use axxx.Sync.Delete.{
  DeleteDestination, DeleteProcessor, Response, answer_yes, answer_no, answer_yes_for_all,
  answer_no_for_all, unrecognized, remove_immediately, remove_decided, note_answer, is_prompt,
  is_true,
}

-- The objects that the folder option lets through.
unfoldable pub compatible : FolderPropertyOption → List StoredObject → List StoredObject
compatible fpo [] = []
compatible fpo (o ∷ os) =
    let rest = compatible fpo os in if is_compatible_with_fpo fpo o then o ∷ rest else rest

-- What is deleted of this object and of those behind it, of which `rest` are confirmed one by one.
abbrev answered :
    StoredObject → List StoredObject → List StoredObject → Response → List StoredObject
answered o os rest answer_yes = o ∷ rest
answered o os rest answer_yes_for_all = o ∷ os
answered o os rest answer_no = rest
answered o os rest answer_no_for_all = []
answered o os rest unrecognized = rest

module _ (prompt : StoredObject → Response) where
  -- Those that the user confirms when asked about each in order, until an answer for all.
  unfoldable pub confirmed : List StoredObject → List StoredObject
  confirmed [] = []
  confirmed (o ∷ os) = answered o os (confirmed os) (prompt o)

  abbrev pub selected : Bool → Bool → List StoredObject → List StoredObject
  selected true deletes os = confirmed os
  selected false true os = os
  selected false false os = []

  abbrev pub deletions : DeleteDestination → List StoredObject → List StoredObject
  deletions d os = selected (is_prompt d) (is_true d) os

  module _ (delete_object : StoredObject → Option String) where
    abbrev remover : Bool → Bool → ℕ → List StoredObject → DeleteProcessor
    remover asks deletes count removed = record {
      should_prompt_user = asks;
      should_delete = deletes;
      dryrun_mode = false;
      deletion_count = count;
      removed = removed;
    }

    -- These were removed and counted, after others.
    pub record Removed (count : ℕ) (before os : List StoredObject) (d : DeleteProcessor)
        : Type 0 where
      pub objects : d.removed ≡ before ++ os
      pub counted : d.deletion_count % 2 ^ 32 ≡ (count + length os) % 2 ^ 32

    one_more :
        (o : StoredObject) (os : List StoredObject) (n : ℕ) (rs : List StoredObject)
        {d : DeleteProcessor}
        → Removed ((n + 1) % 2 ^ 32) (rs ++ (o ∷ [])) os d
        → Removed n rs (o ∷ os) d
    one_more o os n rs r = record {
      objects = r.objects ∙ append_assoc rs (o ∷ []) os;
      counted = omega (arith, r.counted);
    }

    none_more :
        (asks deletes : Bool) (n : ℕ) (rs : List StoredObject)
        → Removed n rs [] (remover asks deletes n rs)
    none_more asks deletes n rs = record { objects = sym (append-nil rs); counted = omega arith }

    pub each-remover :
        (asks deletes : Bool) (os : List StoredObject) (n : ℕ) (rs : List StoredObject)
        → Removed n rs
            (selected asks deletes os)
            (each (remove_immediately prompt delete_object) os (remover asks deletes n rs))
    unfolding each remove_immediately remove_decided confirmed
    each-remover true deletes [] n rs = none_more true deletes n rs
    each-remover false true [] n rs = none_more false true n rs
    each-remover false false [] n rs = none_more false false n rs
    each-remover false false (o ∷ os) n rs = each-remover false false os n rs
    each-remover false true (o ∷ os) n rs =
        one_more o os n rs (each-remover false true os ((n + 1) % 2 ^ 32) (rs ++ (o ∷ [])))
    each-remover true deletes (o ∷ os) n rs =
        elim (prompt o)
          as (λ (r : Response). Removed n rs (answered o os (confirmed os) r) (
            each (remove_immediately prompt delete_object) os
              (remove_decided delete_object o (note_answer r (remover true deletes n rs))).0)) [
                | answer_yes ↦
                    one_more o (confirmed os) n rs
                      (each-remover true true os ((n + 1) % 2 ^ 32) (rs ++ (o ∷ [])))
                | answer_yes_for_all ↦
                    one_more o os n rs
                      (each-remover false true os ((n + 1) % 2 ^ 32) (rs ++ (o ∷ [])))
                | answer_no ↦ each-remover true false os n rs
                | answer_no_for_all ↦ each-remover false false os n rs
                | unrecognized ↦ each-remover true false os n rs
              ]
