-- ===== src/Tests/Blobs.antt =====
-- An upload of two blocks to a service that keeps blocks in a list.
use axxx.Prelude.{
  ℕ, length, nat_beq, arith, Bool-cases, same_refl, sym, ap, ◌∙◌, true, false, List, [], ◌∷◌,
  Option, none, some, ◌⊎◌, inl, inr, ◌≡◌, refl, string_eq, if◌then◌else◌, String,
}
use axxx.Prelude.Int.{ℤ, pos}
use axxx.Writer.{Bytes}
use axxx.Status.{started}
use axxx.Download.{JobPartTransferMgr, is_live}
use axxx.Download.Checks.{Fresh}
use axxx.BlockBlob.{
  BlobService, Answer, Documented, BlockBlobUploader, staged, new_block_blob_uploader, epilogue,
  cleanup,
}
use axxx.BlockBlob.Blocks.{Block, Distinct}
use axxx.BlockBlob.Staging.{Event, chunk_runs, Smooth, happen_all, generate_all, true-false}
use axxx.BlockBlob.Atomic.{cancelled_late, upload-all_or_nothing}

-- Its content, the number of its committed blocks, and the blocks that are staged.
pub record Stored : Type 0 where
  pub committed_bytes : Option Bytes
  pub list_length : ℕ
  pub blocks : String → Option Bytes

abbrev commit : ℕ → Option Bytes → Stored → Answer Stored
commit n none b = inl (pos 400, b)
commit n (some bytes) b =
    inr (record { committed_bytes = some bytes; list_length = n; blocks = λ _. none })

abbrev service : BlobService Stored
service = record {
  stage_block = λ id block b. inr (record b {
    blocks = λ other. if string_eq.same other id then some block else b.blocks other;
  });
  commit_block_list = λ ids b. commit (length ids) (staged b.blocks ids) b;
  upload_blob =
      λ bytes b. inr (record { committed_bytes = some bytes; list_length = 0; blocks = λ _. none });
  delete = λ b. record { committed_bytes = none; list_length = 0; blocks = λ _. none };
  has_uncommitted_only = λ b. nat_beq b.list_length 0;
  content = λ b. b.committed_bytes;
  committed_blocks = λ b. b.list_length;
  uncommitted = λ b. b.blocks;
}

abbrev blob_of : Stored → Answer Stored → Stored
blob_of b (inl _) = b
blob_of b (inr after) = after

staged_other :
    (id other : String) (block : Bytes) (b : Stored)
    → ¬ (other ≡ id)
    → (if string_eq.same other id then some block else b.blocks other) ≡ b.blocks other
staged_other id other block b differ = elim (Bool-cases (string_eq.same other id)) [
  | inl same ↦ absurd (differ ((string_eq.same_iff other id).0 same))
  | inr distinct ↦ rw distinct refl
]

committed_content :
    (n : ℕ) (o : Option Bytes) (bytes : Bytes) (b after : Stored)
    → commit n o b ≡ inr after
    → o ≡ some bytes
    → (after.committed_bytes ≡ some bytes) × (after.list_length ≡ n)
committed_content n none bytes b after e h = absurd cc
committed_content n (some found) bytes b after e h = (
  ap (λ r. (blob_of b r).committed_bytes) (sym e) ∙ h,
  ap (λ r. (blob_of b r).list_length) (sym e),
)

commits_staged :
    {A : Type 0} (n : ℕ) (o : Option Bytes) (bytes : Bytes) (b after : Stored) (status : ℤ)
    → commit n o b ≡ inl (status, after)
    → o ≡ some bytes
    → A
commits_staged n none bytes b after status e h = absurd cc
commits_staged n (some found) bytes b after status e h = absurd cc

no_blocks : (n : ℕ) → nat_beq n 0 ≡ true → n ≡ 0
no_blocks n h = ground (arith, h)

service-Documented : Documented service
service-Documented = record {
  staged_same =
      λ id block b after e. sym (ap (λ r. (blob_of b r).blocks id) e) ∙ rw (same_refl id) refl;
  staged_other = λ id other block b after e differ.
      sym (ap (λ r. (blob_of b r).blocks other) e) ∙ staged_other id other block b differ;
  staged_content = λ id block b. (refl, refl);
  committed = λ ids bytes b after e h.
      committed_content (length ids) (staged b.blocks ids) bytes b after e h;
  not_committed = λ ids bytes b after status e h.
      commits_staged (length ids) (staged b.blocks ids) bytes b after status e h;
  only_uncommitted = λ b e. no_blocks b.list_length e;
  deleted = λ b. inl refl;
}

-- What was there before.
abbrev before : Stored
before = record { committed_bytes = some (1 ∷ []); list_length = 1; blocks = λ _. none }

abbrev blocks : List Block
blocks = record { id = "x"; contents = 5 ∷ 6 ∷ [] } ∷ record { id = "y"; contents = 7 ∷ [] } ∷ []

abbrev events : List Event
events =
    chunk_runs 1 (record { id = "y"; contents = 7 ∷ [] })
    ∷ chunk_runs 0 (record { id = "x"; contents = 5 ∷ 6 ∷ [] })
    ∷ []

blocks-Distinct : Distinct blocks
blocks-Distinct = ((λ e. true-false (ap (λ (c : String). string_eq.same c "y") e), tt), (tt, tt))

abbrev new_transfer : JobPartTransferMgr
new_transfer = record {
  atomic_successful_bytes = 0;
  atomic_chunks_done = 0;
  atomic_completion_indicator = false;
  atomic_dest_modified_indicator = false;
  atomic_dest_lock_held_indicator = false;
  job_part_plan_transfer = record { atomic_transfer_status = started; atomic_error_code = pos 0 };
  canceled = false;
  num_chunks = 0;
  action_after_last_chunk = false;
  chunks_notified = [];
  bytes_in_active_files = 0;
  reports = [];
}

new_transfer-Fresh : Fresh new_transfer
new_transfer-Fresh = record { going = refl; status = refl }

upload-all_or_nothing_example :
    (generated : BlockBlobUploader Stored) × (generate_all service
        (0 ∷ 1 ∷ [])
        (new_block_blob_uploader service 2 new_transfer before)
      ≡ some generated)
    × (after : BlockBlobUploader Stored) × (happen_all service events generated ≡ some after)
    × (final : BlockBlobUploader Stored) × (epilogue service true after ≡ some final)
    × (let left = service.content (cleanup service (cancelled_late service true final)).blob in
        ((is_live final.jptm ≡ true) × (left ≡ some (5 ∷ 6 ∷ 7 ∷ [])))
        ⊎ ((is_live final.jptm ≡ false)
            × ((left ≡ some (1 ∷ [])) ⊎ (left ≡ some (5 ∷ 6 ∷ 7 ∷ [])))
            × ¬ Smooth service true events))
upload-all_or_nothing_example =
    upload-all_or_nothing service true events blocks 0 (1 ∷ []) new_transfer before true
      service-Documented blocks-Distinct new_transfer-Fresh
      (refl, refl, (refl, refl, (refl, (refl, tt)))) (omega arith)
      (λ empty. absurd (omega (arith, empty)))
