-- ===== src/Scheduler/Parts.antt =====
-- The parts that `copyTransferProcessor` sends hold the transfers it was given, in order.
use axxx.Prelude.{
  ℕ, ◌+◌, ◌%◌, ◌^◌, ◌≤◌, ◌<◌, ◌≡◌, refl, sym, Bool, true, false, List, [], ◌∷◌, ◌++◌, none, some,
  String, length, length-append, append_assoc, append-nil, arith, ◌==◌, string_eq, lt-cases,
  Option-cases, inl, inr,
}
use axxx.Object.{StoredObject, CopyTransfer, FolderPropertyOption, to_new_copy_transfer}
use axxx.Scheduler.{
  CopyJobPartOrderRequest, CopyJobPartOrderResponse, CopyTransferProcessor, append_copy_transfer,
  next_part, append_transfer, send_part_to_ste, copy_transfer_of, schedule_copy_transfer,
  schedule_all,
}

empty : (resp : CopyJobPartOrderResponse) → resp.error_msg ≡ "" → (resp.error_msg == "") ≡ true
empty resp e = (string_eq.same_iff resp.error_msg "").1 e

-- The transfers in a list of parts.
unfoldable pub items_of : List CopyJobPartOrderRequest → List CopyTransfer
items_of [] = []
items_of (r ∷ rs) = r.transfers.items ++ items_of rs

-- The parts are numbered from `i`, each has `n` transfers and none is the final one.
abbrev pub FullParts : ℕ → ℕ → List CopyJobPartOrderRequest → Type 0
FullParts n i [] = Unit
FullParts n i (r ∷ rs) =
    (r.part_num ≡ i % 2 ^ 32)
    × (r.is_final_part ≡ false)
    × (length r.transfers.items ≡ n)
    × FullParts n (i + 1) rs

pub items_of-append :
    (rs : List CopyJobPartOrderRequest) (r : CopyJobPartOrderRequest)
    → items_of (rs ++ (r ∷ [])) ≡ items_of rs ++ r.transfers.items
unfolding items_of
items_of-append [] r = append-nil r.transfers.items
items_of-append (q ∷ rs) r =
    rw (items_of-append rs r, append_assoc q.transfers.items (items_of rs) r.transfers.items)

FullParts-append :
    (n i : ℕ) (rs : List CopyJobPartOrderRequest) (r : CopyJobPartOrderRequest)
    → FullParts n i rs
    → r.part_num ≡ (i + length rs) % 2 ^ 32
    → r.is_final_part ≡ false
    → length r.transfers.items ≡ n
    → FullParts n i (rs ++ (r ∷ []))
FullParts-append n i [] r full p f l = (omega arith, f, l, tt)
FullParts-append n i (q ∷ rs) r (a, b, c, full) p f l =
    (a, b, c, FullParts-append n (i + 1) rs r full (omega arith) f l)

-- A processor that has been given the transfers `ts`.
pub record Holds (p : Bool) (f : FolderPropertyOption) (s : CopyTransferProcessor) (n : ℕ)
    (ts : List CopyTransfer) : Type 0 where
  pub access : s.preserve_access_tier ≡ p
  pub options : s.folder_properties_option ≡ f
  pub dryrun : s.dryrun_mode ≡ false
  pub capacity : s.num_of_transfers_per_part ≡ n
  pub full : FullParts n 0 s.sent
  pub number : s.copy_job_template.part_num ≡ length s.sent % 2 ^ 32
  pub not_final : s.copy_job_template.is_final_part ≡ false
  pub room : length s.copy_job_template.transfers.items ≤ n
  pub order : items_of s.sent ++ s.copy_job_template.transfers.items ≡ ts

abbrev pub Nonempty : CopyTransferProcessor → Type 0
Nonempty s = 0 < length s.sent → 0 < length s.copy_job_template.transfers.items

module _ (p : Bool) (f : FolderPropertyOption) (t : CopyTransfer) (s : CopyTransferProcessor)
    (n : ℕ) (ts : List CopyTransfer) (h : Holds p f s n ts) where
  append-Holds :
      length s.copy_job_template.transfers.items < n
      → Holds p f (append_copy_transfer t s) n (ts ++ (t ∷ []))
        × Nonempty (append_copy_transfer t s)
  unfolding append_copy_transfer append_transfer
  append-Holds lt =
      let items = s.copy_job_template.transfers.items in
      (
        record {
          access = h.access;
          options = h.options;
          dryrun = h.dryrun;
          capacity = h.capacity;
          full = h.full;
          number = h.number;
          not_final = h.not_final;
          room = omega (arith, length-append items (t ∷ []));
          order = cc (append_assoc (items_of s.sent) items (t ∷ []), h.order);
        },
        λ _. omega (arith, length-append items (t ∷ [])),
      )

module _
    (respond : List CopyJobPartOrderRequest → CopyJobPartOrderRequest → CopyJobPartOrderResponse)
    (path_encode_rules : Bool → String → String) (p : Bool) (f : FolderPropertyOption) where
  next-Holds :
      (s : CopyTransferProcessor) (n : ℕ) (ts : List CopyTransfer)
      → Holds p f s n ts
      → length s.copy_job_template.transfers.items ≡ n
      → Holds p f (next_part (send_part_to_ste respond path_encode_rules s).0) n ts
  unfolding next_part send_part_to_ste
  next-Holds s n ts h e = record {
    access = h.access;
    options = h.options;
    dryrun = h.dryrun;
    capacity = h.capacity;
    full =
        FullParts-append n 0 s.sent s.copy_job_template h.full (omega (arith, h.number)) h.not_final
          e;
    number = omega (arith, h.number, length-append s.sent (s.copy_job_template ∷ []));
    not_final = h.not_final;
    room = omega arith;
    order = cc (
      items_of-append s.sent s.copy_job_template,
      h.order,
      append-nil (items_of (s.sent ++ (s.copy_job_template ∷ []))),
    );
  }

  -- The transfers that `scheduleCopyTransfer` makes of the objects that the option lets through.
  unfoldable pub scheduled : List StoredObject → List CopyTransfer
  scheduled [] = []
  scheduled (o ∷ os) =
      let made =
        to_new_copy_transfer (path_encode_rules true o.relative_path)
          (path_encode_rules false o.relative_path) p f o in
      elim made [ none ↦ scheduled os | some t ↦ t ∷ scheduled os ]

  abbrev pub Accepts : Type 0
  Accepts =
      (past : List CopyJobPartOrderRequest) (r : CopyJobPartOrderRequest)
      → 0 < length r.transfers.items
      → (respond past r).error_msg ≡ ""

  module _ (o : StoredObject) (s : CopyTransferProcessor) where
    abbrev Took : CopyTransferProcessor → Type 0
    Took s' = schedule_copy_transfer respond path_encode_rules o s ≡ (s', none)

    schedule_skips : copy_transfer_of respond path_encode_rules s o ≡ none → Took s
    unfolding schedule_copy_transfer
    schedule_skips skipped = ground (arith, skipped)

    schedule_appends :
        (t : CopyTransfer)
        → copy_transfer_of respond path_encode_rules s o ≡ some t
        → s.dryrun_mode ≡ false
        → length s.copy_job_template.transfers.items < s.num_of_transfers_per_part
        → Took (append_copy_transfer t s)
    unfolding schedule_copy_transfer
    schedule_appends t made dry lt = ground (arith, made)

    schedule_sends :
        Accepts
        → (t : CopyTransfer) → copy_transfer_of respond path_encode_rules s o ≡ some t
        → s.dryrun_mode ≡ false
        → length s.copy_job_template.transfers.items ≡ s.num_of_transfers_per_part
        → 0 < s.num_of_transfers_per_part
        → Took (append_copy_transfer t (next_part (send_part_to_ste respond path_encode_rules s).0))
    unfolding schedule_copy_transfer send_part_to_ste
    schedule_sends accepts t made dry e some_room = ground (
      arith,
      made,
      empty (respond s.sent s.copy_job_template)
          (accepts s.sent s.copy_job_template (omega (arith, e, some_room))),
    )

  module _ (s : CopyTransferProcessor) (o : StoredObject) (hp : s.preserve_access_tier ≡ p)
      (hf : s.folder_properties_option ≡ f) where
    scheduled_skip :
        (os : List StoredObject)
        → copy_transfer_of respond path_encode_rules s o ≡ none
        → scheduled (o ∷ os) ≡ scheduled os
    unfolding scheduled copy_transfer_of
    scheduled_skip os e = ground (arith, e)

    scheduled_made :
        (t : CopyTransfer) (os : List StoredObject)
        → copy_transfer_of respond path_encode_rules s o ≡ some t
        → scheduled (o ∷ os) ≡ t ∷ scheduled os
    unfolding scheduled copy_transfer_of
    scheduled_made t os e = ground (arith, e)

  next_room :
      (s : CopyTransferProcessor) (n : ℕ)
      → 0 < n
      → length
          (next_part
            (send_part_to_ste respond path_encode_rules s).0).copy_job_template.transfers.items
        < n
  unfolding next_part
  next_room s n lt = lt

  schedule_copy_transfer-Holds :
      Accepts
      → (o : StoredObject) (s : CopyTransferProcessor) (n : ℕ) (ts : List CopyTransfer) → 0 < n
      → Holds p f s n ts
      → Nonempty s
      → (s' : CopyTransferProcessor) × Took o s s'
        × Holds p f s' n (ts ++ scheduled (o ∷ []))
        × Nonempty s'
  unfolding scheduled copy_transfer_of
  schedule_copy_transfer-Holds accepts o s n ts lt h z =
      elim (Option-cases (copy_transfer_of respond path_encode_rules s o)) [
        | inl skipped ↦ (
          s,
          schedule_skips o s skipped,
          rw (scheduled_skip s o h.access h.options [] skipped, append-nil ts) h,
          z,
        )
        | inr (t, made) ↦
            let appended = scheduled_made s o h.access h.options t [] made in
            elim (lt-cases (length s.copy_job_template.transfers.items) n) [
              | inl has_room ↦
                  let (h', z') = append-Holds p f t s n ts h has_room in
                  (
                    append_copy_transfer t s,
                    schedule_appends o s t made h.dryrun (omega (arith, h.capacity)),
                    rw appended h',
                    z',
                  )
              | inr is_full ↦
                  let s1 = next_part (send_part_to_ste respond path_encode_rules s).0 in
                  let h1 = next-Holds s n ts h (omega (arith, h.room)) in
                  let (h', z') = append-Holds p f t s1 n ts h1 (next_room s n lt) in
                  (
                    append_copy_transfer t s1,
                    schedule_sends o s accepts t made h.dryrun (omega (arith, h.capacity, h.room))
                        (omega (arith, h.capacity, lt)),
                    rw appended h',
                    z',
                  )
            ]
      ]

  scheduled-∷ :
      (o : StoredObject) (os : List StoredObject)
      → scheduled (o ∷ os) ≡ scheduled (o ∷ []) ++ scheduled os
  unfolding scheduled
  scheduled-∷ o os = ground arith

  schedule_all-∷ :
      (o : StoredObject) (os : List StoredObject) (s s' : CopyTransferProcessor)
      → Took o s s'
      → schedule_all respond path_encode_rules (o ∷ os) s
        ≡ schedule_all respond path_encode_rules os s'
  unfolding schedule_all
  schedule_all-∷ o os s s' took = ground (arith, took)

  pub schedule_all-Holds :
      Accepts
      → (os : List StoredObject) (s : CopyTransferProcessor) (n : ℕ) (ts : List CopyTransfer)
      → 0 < n
      → Holds p f s n ts
      → Nonempty s
      → let (s', err) = schedule_all respond path_encode_rules os s in
        (err ≡ none) × Holds p f s' n (ts ++ scheduled os) × Nonempty s'
  unfolding schedule_all scheduled
  schedule_all-Holds accepts [] s n ts lt h z = (refl, rw (append-nil ts) h, z)
  schedule_all-Holds accepts (o ∷ os) s n ts lt h z =
      let (s', took, h', z') = schedule_copy_transfer-Holds accepts o s n ts lt h z in
      let whole = sym (append_assoc ts (scheduled (o ∷ [])) (scheduled os)) in
      rw (schedule_all-∷ o os s s' took, scheduled-∷ o os, whole)
        (schedule_all-Holds accepts os s' n (ts ++ scheduled (o ∷ [])) lt h' z')
