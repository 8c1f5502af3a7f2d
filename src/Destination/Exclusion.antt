-- ===== src/Destination/Exclusion.antt =====
-- At most one transfer holds the lock of a destination.
use axxx.Prelude.{
  ℕ, zero, suc, ◌+◌, ◌≤◌, ◌≡◌, refl, Bool, true, false, List, [], ◌∷◌, none, some, String, ◌==◌,
  ◌&&◌, string_eq, if◌then◌else◌, get_elem?, set, All, arith, Option-cases, inl, inr,
}
use axxx.Limiter.{wait_until_add}
use axxx.Destination.{
  Transfer, Locks, contains_key, delete_key, convert_case, add_key, remove_key, try_lock,
  wait_until_lock_destination, ensure_destination_unlocked,
}

pub data Action : Type 0 where
  lock : List Bool → ℕ → Action
  unlock : ℕ → Action

abbrev one_if : Bool → ℕ
one_if true = 1
one_if false = 0

counted : String → List String → ℕ
counted k [] = 0
counted k (j ∷ js) = one_if (j == k) + counted k js

counted-contains : (k : String) (js : List String) → contains_key k js ≡ false → counted k js ≡ 0
unfolding contains_key counted
counted-contains k [] h = refl
counted-contains k (j ∷ js) h = ground (arith, counted-contains k js)

counted-delete :
    (k d : String) (js : List String)
    → counted k (delete_key d js) ≡ (if d == k then 0 else counted k js)
unfolding delete_key counted
counted-delete k d [] = ground arith
counted-delete k d (j ∷ js) = ground (
  arith,
  counted-delete k d js,
  string_eq.same_iff j d,
  string_eq.same_iff j k,
  string_eq.same_iff d k,
)

module _ (equal_fold : String → String → Bool) (to_lower : String → String) where
  -- Whether the transfer holds the lock of the key.
  abbrev pub holds : Bool → String → Transfer → Bool
  holds case_sensitive k t =
      t.dest_lock_held && ((if case_sensitive then t.destination else to_lower t.destination) == k)

  unfoldable pub holders : Bool → String → List Transfer → ℕ
  holders c k [] = 0
  holders c k (t ∷ ts) = one_if (holds c k t) + holders c k ts

  holders-set :
      (c : Bool) (k : String) (ts : List Transfer) (i : ℕ) (t u : Transfer)
      → get_elem? ts i ≡ some t
      → holders c k (set ts i u) + one_if (holds c k t) ≡ holders c k ts + one_if (holds c k u)
  unfolding holders
  holders-set c k [] i t u h = cc
  holders-set c k (x ∷ ts) zero t u h = ground arith
  holders-set c k (x ∷ ts) (suc i) t u h = omega (arith, holders-set c k ts i t u h)

  -- The set has each key once for the transfer that holds it.
  abbrev Matches : String → Locks → Type 0
  Matches k s =
      (counted k s.exclusive_destination_map.keys
        ≡ holders s.exclusive_destination_map.case_sensitive k s.transfers)
      × (counted k s.exclusive_destination_map.keys ≤ 1)

  holders_pos :
      (c : Bool) (k : String) (ts : List Transfer) (i : ℕ) (t : Transfer)
      → get_elem? ts i ≡ some t
      → one_if (holds c k t) ≤ holders c k ts
  unfolding holders
  holders_pos c k [] i t h = cc
  holders_pos c k (x ∷ ts) zero t h = ground arith
  holders_pos c k (x ∷ ts) (suc i) t h = omega (arith, holders_pos c k ts i t h)

  holders_free :
      (c : Bool) (k : String) (ts : List Transfer)
      → All (λ t. t.dest_lock_held ≡ false) ts
      → holders c k ts ≡ 0
  unfolding holders
  holders_free c k [] free = refl
  holders_free c k (t ∷ ts) (none_held, free) = ground (arith, holders_free c k ts free)

  start-Matches :
      (s : Locks)
      → s.exclusive_destination_map.keys ≡ []
      → All (λ t. t.dest_lock_held ≡ false) s.transfers
      → (k : String) → Matches k s
  unfolding counted
  start-Matches s empty free k =
      let c = s.exclusive_destination_map.case_sensitive in
      ground (arith, holders_free c k s.transfers free)

  module _ (strict : ℕ → ℕ) (dev_null : String) (use_file_count_limiter : Bool) where
    try_lock-Matches :
        (i : ℕ) (t : Transfer) (s : Locks)
        → ((k : String) → Matches k s)
        → get_elem? s.transfers i ≡ some t
        → (k : String)
        → Matches k (try_lock equal_fold to_lower strict dev_null use_file_count_limiter i t s).0
    unfolding try_lock add_key convert_case counted
    try_lock-Matches i t s inv found k =
        let c = s.exclusive_destination_map.case_sensitive in
        let d = if c then t.destination else to_lower t.destination in
        let keys = s.exclusive_destination_map.keys in
        ground (
          arith,
          inv k,
          inv d,
          counted-contains d keys,
          holders-set c k s.transfers i t (record t { dest_lock_held = true }) found,
          holders_pos c d s.transfers i t found,
          string_eq.same_iff d k,
          string_eq.same_iff d d,
        )

    ensure_destination_unlocked-Matches :
        (i : ℕ) (t : Transfer) (s : Locks)
        → ((k : String) → Matches k s)
        → get_elem? s.transfers i ≡ some t
        → (k : String)
        → Matches k (
            ensure_destination_unlocked equal_fold to_lower strict dev_null use_file_count_limiter i
              t s)
    unfolding ensure_destination_unlocked remove_key convert_case
    ensure_destination_unlocked-Matches i t s inv found k =
        let c = s.exclusive_destination_map.case_sensitive in
        let d = if c then t.destination else to_lower t.destination in
        let keys = s.exclusive_destination_map.keys in
        ground (
          arith,
          inv k,
          counted-delete k d keys,
          holders-set c k s.transfers i t (record t { dest_lock_held = false }) found,
          holders_pos c k s.transfers i t found,
          string_eq.same_iff d k,
        )

    wait_until_lock_destination-Matches :
        (tries : List Bool) (i : ℕ) (t : Transfer) (s : Locks)
        → ((k : String) → Matches k s)
        → get_elem? s.transfers i ≡ some t
        → (k : String)
        → Matches k
            (wait_until_lock_destination equal_fold to_lower strict dev_null use_file_count_limiter
              tries i t s).0
    unfolding wait_until_lock_destination
    wait_until_lock_destination-Matches tries i t s inv found k =
        let s1 = record s {
          file_count_limiter = (wait_until_add strict 1 tries s.file_count_limiter).0;
        } in
        ground
          (arith, inv k, try_lock-Matches i t s inv found k, try_lock-Matches i t s1 inv found k)

    -- One transfer, given by its number, takes the lock or gives it up.
    unfoldable pub act : Action → Locks → Locks
    act (lock tries i) s = elim (get_elem? s.transfers i) [
      | none ↦ s
      | some t ↦
          (wait_until_lock_destination equal_fold to_lower strict dev_null use_file_count_limiter
            tries i t s).0
    ]
    act (unlock i) s = elim (get_elem? s.transfers i) [
      | none ↦ s
      | some t ↦
          ensure_destination_unlocked equal_fold to_lower strict dev_null use_file_count_limiter i t
            s
    ]

    unfoldable pub run : List Action → Locks → Locks
    run [] s = s
    run (a ∷ rest) s = run rest (act a s)

    act-Matches :
        (a : Action) (s : Locks) → ((k : String) → Matches k s) → (k : String) → Matches k (act a s)
    unfolding act
    act-Matches (lock tries i) s inv k = elim (Option-cases (get_elem? s.transfers i)) [
      | inl missing ↦ rw (act, missing) (inv k)
      | inr (t, found) ↦
          rw (act, found) (wait_until_lock_destination-Matches tries i t s inv found k)
    ]
    act-Matches (unlock i) s inv k = elim (Option-cases (get_elem? s.transfers i)) [
      | inl missing ↦ rw (act, missing) (inv k)
      | inr (t, found) ↦ rw (act, found) (ensure_destination_unlocked-Matches i t s inv found k)
    ]

    run-Matches :
        (actions : List Action) (s : Locks)
        → ((k : String) → Matches k s)
        → (k : String) → Matches k (run actions s)
    unfolding run
    run-Matches [] s inv k = inv k
    run-Matches (a ∷ rest) s inv k = run-Matches rest (act a s) (act-Matches a s inv) k

    -- From a state in which the set is empty and no transfer holds a lock, whatever the order in
    -- which transfers take locks and give them up, at most one transfer at a time holds the lock of
    -- a destination, up to the case of letters where the set ignores it.
    pub holders-run :
        (actions : List Action) (s : Locks) (k : String)
        → s.exclusive_destination_map.keys ≡ []
        → All (λ t. t.dest_lock_held ≡ false) s.transfers
        → let s' = run actions s in
          holders s'.exclusive_destination_map.case_sensitive k s'.transfers ≤ 1
    holders-run actions s k empty free =
        let (same, small) = run-Matches actions s (λ j. start-Matches s empty free j) k in
        omega (arith, same, small)
