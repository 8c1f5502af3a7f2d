-- ===== src/Sync/Delete.antt =====
-- The deletion of what the source does not have: `interactiveDeleteProcessor` of
-- cmd/syncProcessor.go, which may ask the user first. What the user answers for an object and what
-- the deletion of one object gives are parameters.
use axxx.Prelude.{
  ℕ, ◌+◌, ◌%◌, ◌^◌, Bool, true, false, List, [], ◌∷◌, ◌++◌, Option, none, some, String,
  if◌then◌else◌,
}
use axxx.Object.{StoredObject}
use axxx.Sync.{Processor, ProcessingError, other_error}

-- `common.DeleteDestination`.
pub data DeleteDestination : Type 0 where
  delete_false delete_prompt delete_true : DeleteDestination

pub data Response : Type 0 where
  answer_yes answer_no answer_yes_for_all answer_no_for_all unrecognized : Response

-- `deletion_count` is the counter of the command, and `removed` the objects given to the deleter.
pub record DeleteProcessor : Type 0 where
  pub should_prompt_user : Bool
  pub should_delete : Bool
  pub dryrun_mode : Bool
  pub deletion_count : ℕ
  pub removed : List StoredObject

abbrev pub is_prompt : DeleteDestination → Bool
is_prompt delete_prompt = true
is_prompt _ = false

abbrev pub is_true : DeleteDestination → Bool
is_true delete_true = true
is_true _ = false

abbrev pub new_interactive_delete_processor : DeleteDestination → Bool → DeleteProcessor
new_interactive_delete_processor delete_destination dryrun = record {
  should_prompt_user = is_prompt delete_destination;
  should_delete = is_true delete_destination;
  dryrun_mode = dryrun;
  deletion_count = 0;
  removed = [];
}

-- Whether to delete, and whether to ask again.
abbrev pub prompt_for_confirmation : Response → Bool × Bool
prompt_for_confirmation answer_yes = (true, true)
prompt_for_confirmation answer_yes_for_all = (true, false)
prompt_for_confirmation answer_no = (false, true)
prompt_for_confirmation answer_no_for_all = (false, false)
prompt_for_confirmation unrecognized = (false, true)

abbrev pub error_of : Option String → Option ProcessingError
error_of none = none
error_of (some msg) = some (other_error msg)

-- The user's decision is noted.
abbrev pub note_answer : Response → DeleteProcessor → DeleteProcessor
note_answer r d =
    let (should_delete, keep_prompting) = prompt_for_confirmation r in
    record d { should_delete = should_delete; should_prompt_user = keep_prompting }

-- The object is deleted, if that was decided and this is no dry run.
unfoldable pub remove_decided : (StoredObject → Option String) → Processor DeleteProcessor
remove_decided deleter o d =
    if d.should_delete
    then (if d.dryrun_mode then (d, none) else (
      record d {
        deletion_count = (d.deletion_count + 1) % 2 ^ 32;
        removed = d.removed ++ (o ∷ []);
      },
      error_of (deleter o),
    ))
    else (d, none)

unfoldable pub remove_immediately :
    (StoredObject → Response) → (StoredObject → Option String) → Processor DeleteProcessor
remove_immediately prompt deleter o d =
    remove_decided deleter o (if d.should_prompt_user then note_answer (prompt o) d else d)
