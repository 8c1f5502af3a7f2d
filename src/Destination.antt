-- ===== src/Destination.antt =====
-- common/exclusiveStringMap.go and its use in ste/mgr-JobPartTransferMgr.go: no two transfers write
-- to one destination at the same time. The set of keys is a list. `strings.EqualFold` and
-- `strings.ToLower` are parameters; the map's lock makes each operation one step.
pub mod Exclusion
use axxx.Prelude.{
  ℕ, Bool, true, false, List, [], ◌∷◌, Option, none, some, String, ◌==◌, ◌&&◌, ◌||◌, not, string_eq,
  if◌then◌else◌, get_elem?, set,
}
use axxx.Limiter.{CacheLimiter, wait_until_add, remove}

pub record ExclusiveStringMap : Type 0 where
  pub keys : List String
  pub case_sensitive : Bool

pub record Transfer : Type 0 where
  pub destination : String
  pub dest_lock_held : Bool

-- What the transfers of a part share, and the transfers.
pub record Locks : Type 0 where
  pub exclusive_destination_map : ExclusiveStringMap
  pub file_count_limiter : CacheLimiter
  pub transfers : List Transfer

pub data LockError : Type 0 where
  collision context_done : LockError

unfoldable pub contains_key : String → List String → Bool
contains_key key [] = false
contains_key key (k ∷ keys) = let rest = contains_key key keys in if k == key then true else rest

unfoldable pub delete_key : String → List String → List String
delete_key key [] = []
delete_key key (k ∷ keys) = let rest = delete_key key keys in if k == key then rest else k ∷ rest

module _ (equal_fold : String → String → Bool) (to_lower : String → String) where
  -- Whether the job is a download and whether it uploads to Azure Files.
  unfoldable pub new_exclusive_string_map : Bool → Bool → String → ExclusiveStringMap
  new_exclusive_string_map is_download to_file goos =
      let case_insensitive_download =
        is_download && (equal_fold goos "windows" || equal_fold goos "darwin") in
      record { keys = []; case_sensitive = not (case_insensitive_download || to_file) }

  unfoldable pub convert_case : String → ExclusiveStringMap → String
  convert_case s e = if e.case_sensitive then s else to_lower s

  unfoldable pub add_key : String → ExclusiveStringMap → ExclusiveStringMap × Option LockError
  unfolding convert_case contains_key
  add_key key e =
      let k = convert_case key e in
      if contains_key k e.keys then (e, some collision) else (record e { keys = k ∷ e.keys }, none)

  unfoldable pub remove_key : String → ExclusiveStringMap → ExclusiveStringMap
  unfolding convert_case delete_key
  remove_key key e = record e { keys = delete_key (convert_case key e) e.keys }

  -- `useFileCountLimiter` is whether the job is a download. `tries` has an entry for each time that
  -- the wait for the limiter tries, which is always with the relaxed limit.
  module _ (strict : ℕ → ℕ) (dev_null : String) (use_file_count_limiter : Bool) where
    unfoldable pub try_lock : ℕ → Transfer → Locks → Locks × Option LockError
    unfolding add_key remove
    try_lock i t s =
        let (e, err) = add_key t.destination s.exclusive_destination_map in
        elim err [
          | none ↦ (
            record s {
              exclusive_destination_map = e;
              transfers = set s.transfers i (record t { dest_lock_held = true });
            },
            none,
          )
          | some failure ↦ (
            record s {
              file_count_limiter =
                  if use_file_count_limiter
                  then remove 1 s.file_count_limiter
                  else s.file_count_limiter;
            },
            some failure,
          )
        ]

    unfoldable pub wait_until_lock_destination :
        List Bool → ℕ → Transfer → Locks → Locks × Option LockError
    unfolding try_lock wait_until_add
    wait_until_lock_destination tries i t s =
        if equal_fold t.destination dev_null
        then (s, none)
        else if use_file_count_limiter
        then (let (limiter, added) = wait_until_add strict 1 tries s.file_count_limiter in
            let s1 = record s { file_count_limiter = limiter } in
            if added then try_lock i t s1 else (s1, some context_done))
        else try_lock i t s

    unfoldable pub ensure_destination_unlocked : ℕ → Transfer → Locks → Locks
    unfolding remove_key remove
    ensure_destination_unlocked i t s =
        if t.dest_lock_held
        then record s {
          exclusive_destination_map = remove_key t.destination s.exclusive_destination_map;
          file_count_limiter =
              if use_file_count_limiter
              then remove 1 s.file_count_limiter
              else s.file_count_limiter;
          transfers = set s.transfers i (record t { dest_lock_held = false });
        }
        else s
