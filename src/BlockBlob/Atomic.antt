-- ===== src/BlockBlob/Atomic.antt =====
-- An upload by blocks puts the whole file in place, or leaves what was committed before.
use axxx.Prelude.{
  ℕ, ◌<◌, arith, String, none, Bool, true, false, ◌&&◌, not, List, [], ◌∷◌, Option, some, ◌⊎◌, inl,
  inr, ◌≡◌, refl, sym, ap, ◌∙◌, replicate, length, All, if◌then◌else◌, Bool-cases, if-either,
  nat_beq,
}
use axxx.Prelude.Int.{pos}
use axxx.Writer.{Bytes}
use axxx.Download.{JobPartTransferMgr, cancel, is_live, is_dead, is_dead_inflight}
use axxx.Download.Checks.{Fresh, is_live-Fresh, not_live_stopped}
use axxx.Upload.Epilogue.{fail_active_send}
use axxx.BlockBlob.{
  BlobService, Answer, Documented, BlockBlobUploader, needed, unknown, new_block_blob_uploader,
  generate_upload_func, commits, base_epilogue, epilogue, cleanup, staged,
}
use axxx.BlockBlob.Blocks.{Block, Distinct, bytes_of, Filled-new, Filled-whole, length-Filled}
use axxx.BlockBlob.Staging.{
  Event, EachOnce, Smooth, happen_all, generate_all, fail_stops, true-false, Inv, happen_all-Inv,
}

module _ {Blob : Type 0} (service : BlobService Blob) where
  -- What is there, if anything, has a list of blocks.
  abbrev Listed : BlockBlobUploader Blob → Type 0
  Listed s = service.committed_blocks s.blob ≡ 0 → service.content s.blob ≡ none

  -- The clean-up of a stopped upload deletes no content.
  cleanup-stopped :
      Documented service
      → (s : BlockBlobUploader Blob) → s.jptm.canceled ≡ true
      → Listed s
      → service.content (cleanup service s).blob ≡ service.content s.blob
  unfolding cleanup
  cleanup-stopped laws s stopped list =
      let deleting = record s { blob = service.delete s.blob } in
      let same = λ (t : BlockBlobUploader Blob). service.content t.blob ≡ service.content s.blob in
      if-either same (is_dead_inflight s.jptm && not (nat_beq s.atomic_chunks_written 0)) _ s
        (λ _.
          if-either same s.jptm.canceled
            (if service.has_uncommitted_only s.blob then deleting else s) deleting
            (λ _.
              if-either same (service.has_uncommitted_only s.blob) deleting s
                (λ only. elim (laws.deleted s.blob) [
                  | inl gone ↦ gone ∙ sym (list (laws.only_uncommitted s.blob only))
                  | inr kept ↦ kept
                ])
                (λ _. refl))
            (λ going. absurd cc))
        (λ _. refl)

  -- That of an upload that goes on does nothing.
  cleanup-live : (s : BlockBlobUploader Blob) → is_live s.jptm ≡ true → cleanup service s ≡ s
  unfolding cleanup is_dead_inflight is_live
  cleanup-live s live = elim (Bool-cases (is_dead s.jptm)) [
    | inl dead ↦ absurd (true-false (sym (rw dead at live)))
    | inr going ↦ rw going refl
  ]

  -- The job may be cancelled between the epilogue and the clean-up.
  abbrev pub cancelled_late : Bool → BlockBlobUploader Blob → BlockBlobUploader Blob
  cancelled_late true s = record s { jptm = cancel s.jptm }
  cancelled_late false s = s

  cleanup-keeps :
      Documented service
      → (late : Bool) (s : BlockBlobUploader Blob)
      → (s.jptm.canceled ≡ true) ⊎ (is_live s.jptm ≡ true)
      → Listed s
      → service.content (cleanup service (cancelled_late late s)).blob ≡ service.content s.blob
  unfolding cancel
  cleanup-keeps laws true s state list = cleanup-stopped laws (cancelled_late true s) refl list
  cleanup-keeps laws false s (inl stopped) list = cleanup-stopped laws s stopped list
  cleanup-keeps laws false s (inr live) list =
      ap (λ (t : BlockBlobUploader Blob). service.content t.blob) (cleanup-live s live)

  module _ (hashed : Bool) (all_events : List Event) (laws : Documented service) (es : List Block)
      (distinct : Distinct es) (some_blocks : 0 < length es) (old : Option Bytes) (listed : ℕ)
      (old_listed : listed ≡ 0 → old ≡ none) (late : Bool) where
    -- The end of an upload: it goes on with the file in place, or it stops with the blob as it was,
    -- or with the file in place by a call that was reported to have failed.
    abbrev Ends : BlockBlobUploader Blob → Type 0
    Ends s =
        let left = service.content (cleanup service (cancelled_late late s)).blob in
        ((is_live s.jptm ≡ true) × (left ≡ some (bytes_of es)))
        ⊎ ((is_live s.jptm ≡ false)
            × ((left ≡ old) ⊎ (left ≡ some (bytes_of es)))
            × ¬ Smooth service hashed all_events)

    stopped-Ends :
        (s : BlockBlobUploader Blob)
        → s.jptm.canceled ≡ true
        → (service.content s.blob ≡ old) ⊎ (service.content s.blob ≡ some (bytes_of es))
        → Listed s
        → ¬ Smooth service hashed all_events
        → Ends s
    stopped-Ends s stopped found list trouble =
        let same = cleanup-keeps laws late s (inl stopped) list in
        inr (
          not_live_stopped s.jptm stopped,
          elim found [ inl kept ↦ inl (same ∙ kept) | inr whole ↦ inr (same ∙ whole) ],
          trouble,
        )

    -- As it was, and as a committed list.
    still-Listed :
        (s : BlockBlobUploader Blob)
        → service.content s.blob ≡ old
        → service.committed_blocks s.blob ≡ listed
        → Listed s
    still-Listed s kept list empty = kept ∙ old_listed (sym list ∙ empty)

    newly-Listed :
        (s : BlockBlobUploader Blob) (ids : List String)
        → length ids ≡ length es
        → service.committed_blocks s.blob ≡ length ids
        → Listed s
    newly-Listed s ids count list empty = absurd (omega (arith, count, list, empty, some_blocks))

    committed-Ends :
        (r : Answer Blob) (s : BlockBlobUploader Blob)
        → service.commit_block_list s.block_ids s.blob ≡ r
        → Fresh s.jptm
        → service.content s.blob ≡ old
        → service.committed_blocks s.blob ≡ listed
        → staged (service.uncommitted s.blob) s.block_ids ≡ some (bytes_of es)
        → length s.block_ids ≡ length es
        → Ends (commits service r (record s { block_ids = [] }))
    unfolding commits
    committed-Ends (inl (status, blob)) s r fresh kept list whole count =
        let after = record s {
          jptm = fail_active_send status s.jptm;
          block_ids = [];
          blob = blob;
        } in
        let trouble = λ (smooth : Smooth service hashed all_events).
          smooth.commits_all s.block_ids s.blob blob status r in
        let stopped = fail_stops status s.jptm in
        elim (laws.not_committed s.block_ids (bytes_of es) s.blob blob status r whole) [
          | inl (same, same_list) ↦
              stopped-Ends after stopped (inl (same ∙ kept))
                (still-Listed after (same ∙ kept) (same_list ∙ list)) trouble
          | inr (done, new_list) ↦
              stopped-Ends after stopped (inr done) (newly-Listed after s.block_ids count new_list)
                trouble
        ]
    committed-Ends (inr blob) s r fresh kept list whole count =
        let live = is_live-Fresh s.jptm fresh in
        let (done, new_list) = laws.committed s.block_ids (bytes_of es) s.blob blob r whole in
        let after = record s { block_ids = []; blob = blob } in
        inl (
          live,
          cleanup-keeps laws late after (inr live) (newly-Listed after s.block_ids count new_list)
              ∙ done,
        )

    epilogue-Ends :
        (ds : List Bool) (s : BlockBlobUploader Blob)
        → All (λ d. d ≡ true) ds
        → Inv service hashed all_events laws es distinct old listed ds s
        → (final : BlockBlobUploader Blob) × (epilogue service hashed s ≡ some final) × Ends final
    unfolding epilogue base_epilogue
    epilogue-Ends ds s all v = elim v.state [
      | inr (stopped, trouble) ↦ (
        record s { block_ids = [] },
        rw (not_live_stopped s.jptm stopped, v.need) refl,
        stopped-Ends (record s { block_ids = [] }) stopped (inl v.kept)
            (still-Listed s v.kept v.same_list) trouble,
      )
      | inl g ↦ elim (Bool-cases hashed) [
        | inl h ↦ (
          commits service (service.commit_block_list s.block_ids s.blob)
              (record s { block_ids = [] }),
          rw (is_live-Fresh s.jptm g.fresh, v.need, h) refl,
          committed-Ends (service.commit_block_list s.block_ids s.blob) s refl g.fresh v.kept
              v.same_list (Filled-whole (service.uncommitted s.blob) all g.filled)
              (length-Filled (service.uncommitted s.blob) g.filled),
        )
        | inr missing ↦ (
          record s { jptm = fail_active_send (pos 0) s.jptm },
          rw (is_live-Fresh s.jptm g.fresh, v.need, missing) refl,
          stopped-Ends (record s { jptm = fail_active_send (pos 0) s.jptm })
              (fail_stops (pos 0) s.jptm) (inl v.kept) (still-Listed s v.kept v.same_list)
              (λ smooth. true-false (sym smooth.has_hash ∙ missing)),
        )
      ]
    ]

  generate_all-needed :
      (is : List ℕ) (s : BlockBlobUploader Blob)
      → generate_all service is (record s { put_list_need = needed })
        ≡ some (record s { put_list_need = needed })
  unfolding generate_all generate_upload_func
  generate_all-needed [] s = refl
  generate_all-needed (i ∷ is) s = generate_all-needed is s

  generate_all-new :
      (i : ℕ) (is : List ℕ) (s : BlockBlobUploader Blob)
      → s.put_list_need ≡ unknown
      → generate_all service (i ∷ is) s ≡ some (record s { put_list_need = needed })
  unfolding generate_all generate_upload_func
  generate_all-new i is s h = rw h (generate_all-needed is s)

  -- A file is sent to a block blob in one block or more, each with an id of its own, by a new
  -- transfer; what the blob held before, if anything, was committed as a list of at least one
  -- block, and not put as a whole. When the function of each block runs once, in any order,
  -- whatever calls of the service fail, with or without effect, and whenever the job is
  -- cancelled, be it between the epilogue and the clean-up (`late`), nothing panics. After the
  -- clean-up, if the transfer went on past the epilogue, the blob's content is all the blocks in
  -- the order of the file; if not, the content is what it was before the upload, or again all the
  -- blocks, when the call that commits took effect and yet failed. It does go on when the job is
  -- not cancelled before the epilogue, no call that stages or commits can fail, and there is a
  -- hash of the file.
  pub upload-all_or_nothing :
      (hashed : Bool) (events : List Event) (es : List Block) (i : ℕ) (is : List ℕ)
      (jptm : JobPartTransferMgr) (b : Blob) (late : Bool)
      → Documented service
      → Distinct es
      → Fresh jptm
      → EachOnce es (replicate (length es) false) events
      → 0 < length es
      → (service.committed_blocks b ≡ 0 → service.content b ≡ none)
      → (generated : BlockBlobUploader Blob) × (generate_all service
            (i ∷ is)
            (new_block_blob_uploader service (length es) jptm b)
          ≡ some generated)
        × (after : BlockBlobUploader Blob) × (happen_all service events generated ≡ some after)
        × (final : BlockBlobUploader Blob) × (epilogue service hashed after ≡ some final)
        × (let left = service.content (cleanup service (cancelled_late late final)).blob in
            ((is_live final.jptm ≡ true) × (left ≡ some (bytes_of es)))
            ⊎ ((is_live final.jptm ≡ false)
                × ((left ≡ service.content b) ⊎ (left ≡ some (bytes_of es)))
                × ¬ Smooth service hashed events))
  upload-all_or_nothing hashed events es i is jptm b late laws distinct fresh once some_blocks
        old_listed =
      let new = new_block_blob_uploader service (length es) jptm b in
      let generated = record new { put_list_need = needed } in
      let (after, all_done, ran, all, v) =
        happen_all-Inv service hashed events laws es distinct (service.content b)
          (service.committed_blocks b) events (replicate (length es) false) generated once
          (λ smooth. smooth.calm)
          (record {
            kept = refl;
            same_list = refl;
            need = refl;
            state = inl (record { fresh = fresh; filled = Filled-new (service.uncommitted b) es });
          }) in
      let (final, ended, ends) =
        epilogue-Ends hashed events laws es distinct some_blocks (service.content b)
          (service.committed_blocks b) old_listed late all_done after all v in
      (generated, generate_all-new i is new refl, after, ran, final, ended, ends)
