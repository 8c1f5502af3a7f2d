-- ===== src/BlockBlob.antt =====
-- ste/sender-blockBlob.go, ste/sender-blockBlobFromLocal.go and ste/putListNeed.go: the sender of a
-- local file to a block blob. A file of several chunks is staged block by block, and the epilogue
-- commits the list of their ids. The service is a parameter, an error its HTTP status code.
-- Headers, tags, tiers and access control lists are left out; `none` is a panic.
pub mod Blocks
pub mod Staging
pub mod Atomic
use axxx.Prelude.{
  ℕ, ◌+◌, ◌%◌, ◌^◌, ◌<◌, Bool, true, false, ◌&&◌, not, List, [], ◌∷◌, ◌++◌, Option, none, some, ◌⊎◌,
  inl, inr, ◌≡◌, nat_beq, ltb, if◌then◌else◌, get_elem?, set, replicate, length, ◌>>=◌, String,
}
use axxx.Prelude.Int.{ℤ, pos}
use axxx.Writer.{Bytes}
use axxx.Download.{JobPartTransferMgr, set_destination_is_modified, is_live, is_dead_inflight}
use axxx.Upload.Epilogue.{fail_active_send}
use text.Mathlib.Text.{◌==◌ as str_eq}

-- What is staged under these ids, one after the other.
abbrev pub staged : (String → Option Bytes) → List String → Option Bytes
staged uncommitted [] = some []
staged uncommitted (id ∷ ids) =
    uncommitted id >>= λ block. staged uncommitted ids >>= λ rest. some (block ++ rest)

-- What a call leaves: an error with its status, and the blob, which it may have changed all the
-- same; or the blob that it made.
abbrev pub Answer : Type 0 → Type 0
Answer Blob = (ℤ × Blob) ⊎ Blob

abbrev pub left_by : {Blob : Type 0} → Answer Blob → Blob
left_by (inl (_, after)) = after
left_by (inr after) = after

-- The calls of the service on a blob, and what can be seen of it: its content, the number of blocks
-- in its list of committed ones, which may be 0 though it has content, and the blocks that are
-- staged and not committed.
pub record BlobService (Blob : Type 0) : Type 0 where
  pub stage_block : String → Bytes → Blob → Answer Blob
  pub commit_block_list : List String → Blob → Answer Blob
  pub upload_blob : Bytes → Blob → Answer Blob
  pub delete : Blob → Blob
  pub has_uncommitted_only : Blob → Bool
  pub content : Blob → Option Bytes
  pub committed_blocks : Blob → ℕ
  pub uncommitted : Blob → String → Option Bytes

-- Staging a block adds it and commits nothing, also when it fails. Committing a list of staged
-- blocks makes them the content and the list; when that fails, it may still have been done, or
-- nothing was. A blob with uncommitted blocks only has no committed one. Deleting a blob takes its
-- content, or fails.
pub record Documented {Blob : Type 0} (service : BlobService Blob) : Type 0 where
  pub staged_same :
      (id : String) (block : Bytes) (b after : Blob)
      → service.stage_block id block b ≡ inr after
      → service.uncommitted after id ≡ some block
  pub staged_other :
      (id other : String) (block : Bytes) (b after : Blob)
      → service.stage_block id block b ≡ inr after
      → ¬ (other ≡ id)
      → service.uncommitted after other ≡ service.uncommitted b other
  pub staged_content :
      (id : String) (block : Bytes) (b : Blob)
      → let after = left_by (service.stage_block id block b) in
        (service.content after ≡ service.content b)
        × (service.committed_blocks after ≡ service.committed_blocks b)
  pub committed :
      (ids : List String) (bytes : Bytes) (b after : Blob)
      → service.commit_block_list ids b ≡ inr after
      → staged (service.uncommitted b) ids ≡ some bytes
      → (service.content after ≡ some bytes) × (service.committed_blocks after ≡ length ids)
  pub not_committed :
      (ids : List String) (bytes : Bytes) (b after : Blob) (status : ℤ)
      → service.commit_block_list ids b ≡ inl (status, after)
      → staged (service.uncommitted b) ids ≡ some bytes
      → ((service.content after ≡ service.content b)
          × (service.committed_blocks after ≡ service.committed_blocks b))
        ⊎ ((service.content after ≡ some bytes) × (service.committed_blocks after ≡ length ids))
  pub only_uncommitted :
      (b : Blob) → service.has_uncommitted_only b ≡ true → service.committed_blocks b ≡ 0
  pub deleted :
      (b : Blob)
      → (service.content (service.delete b) ≡ none)
        ⊎ (service.content (service.delete b) ≡ service.content b)

pub data PutListNeed : Type 0 where
  unknown needed not_needed : PutListNeed

-- `block_ids` has an empty string where no id is set yet; `blob` is the destination.
pub record BlockBlobUploader (Blob : Type 0) : Type 0 where
  pub block_ids : List String
  pub atomic_chunks_written : ℕ
  pub put_list_need : PutListNeed
  pub jptm : JobPartTransferMgr
  pub blob : Blob

abbrev pub set_put_list_need : PutListNeed → PutListNeed → Option PutListNeed
set_put_list_need unknown value = some value
set_put_list_need needed needed = some needed
set_put_list_need not_needed not_needed = some not_needed
set_put_list_need _ _ = none

unfoldable pub set_block_id : ℕ → String → List String → Option (List String)
set_block_id index value block_ids = elim (get_elem? block_ids index) [
  | none ↦ none
  | some id ↦ if str_eq id "" then some (set block_ids index value) else none
]

module _ {Blob : Type 0} (service : BlobService Blob) where
  abbrev pub new_block_blob_uploader : ℕ → JobPartTransferMgr → Blob → BlockBlobUploader Blob
  new_block_blob_uploader num_chunks jptm blob = record {
    block_ids = replicate num_chunks "";
    atomic_chunks_written = 0;
    put_list_need = unknown;
    jptm = jptm;
    blob = blob;
  }

  -- `GenerateUploadFunc`, as to what it sets; the flag is whether the chunk is the whole file.
  unfoldable pub generate_upload_func :
      ℕ → Bool → BlockBlobUploader Blob → Option (BlockBlobUploader Blob)
  generate_upload_func block_index chunk_is_whole_file s =
      if chunk_is_whole_file && ltb 0 block_index
      then none
      else set_put_list_need s.put_list_need (if chunk_is_whole_file then not_needed else needed)
        >>= λ need. some (record s { put_list_need = need })

  -- What a call of the service means for the sender: a chunk is written, or the transfer fails.
  unfoldable pub chunk_written : Answer Blob → BlockBlobUploader Blob → BlockBlobUploader Blob
  chunk_written (inl (status, blob)) s = record s {
    jptm = fail_active_send status s.jptm;
    blob = blob;
  }
  chunk_written (inr blob) s = record s {
    atomic_chunks_written = (s.atomic_chunks_written + 1) % 2 ^ 32;
    blob = blob;
  }

  -- The function of `generatePutBlock`, with the id that it generates.
  unfoldable pub put_block :
      ℕ → String → Bytes → BlockBlobUploader Blob → Option (BlockBlobUploader Blob)
  put_block block_index id block s =
      let modified = set_destination_is_modified s.jptm in
      let stored = set_block_id block_index id s.block_ids >>= λ ids. some (
        chunk_written (service.stage_block id block s.blob)
          (record s { jptm = modified; block_ids = ids })) in
      if s.jptm.canceled then some s else stored

  -- The function of `generatePutWholeBlob`; the flag is whether there is a hash of the file.
  unfoldable pub put_whole_blob : Bool → Bytes → BlockBlobUploader Blob → BlockBlobUploader Blob
  put_whole_blob hashed bytes s =
      let modifying = record s { jptm = set_destination_is_modified s.jptm } in
      elim bytes as (λ _. BlockBlobUploader Blob) [
        | [] ↦
            if s.jptm.canceled then s else chunk_written (service.upload_blob [] s.blob) modifying
        | b ∷ rest ↦
            if s.jptm.canceled
            then s
            else if hashed
            then chunk_written (service.upload_blob (b ∷ rest) s.blob) modifying
            else record s { jptm = fail_active_send (pos 0) modifying.jptm }
      ]

  abbrev pub is_needed : PutListNeed → Bool
  is_needed needed = true
  is_needed _ = false

  abbrev pub is_unknown : PutListNeed → Bool
  is_unknown unknown = true
  is_unknown _ = false

  -- Whether the list of blocks was committed.
  unfoldable pub commits : Answer Blob → BlockBlobUploader Blob → BlockBlobUploader Blob
  commits (inl (status, blob)) s = record s { jptm = fail_active_send status s.jptm; blob = blob }
  commits (inr blob) s = record s { blob = blob }

  -- `Epilogue` of the base.
  unfoldable pub base_epilogue : BlockBlobUploader Blob → Option (BlockBlobUploader Blob)
  base_epilogue s =
      let taken = record s { block_ids = [] } in
      if is_unknown s.put_list_need && not s.jptm.canceled
      then none
      else if is_live s.jptm && is_needed s.put_list_need
      then some (commits (service.commit_block_list s.block_ids s.blob) taken)
      else some taken

  -- `Epilogue` of the uploader.
  unfoldable pub epilogue : Bool → BlockBlobUploader Blob → Option (BlockBlobUploader Blob)
  epilogue hashed s =
      if is_live s.jptm && (is_needed s.put_list_need && not hashed)
      then some (record s { jptm = fail_active_send (pos 0) s.jptm })
      else base_epilogue s

  unfoldable pub cleanup : BlockBlobUploader Blob → BlockBlobUploader Blob
  cleanup s =
      let deleting = record s { blob = service.delete s.blob } in
      if is_dead_inflight s.jptm && not (nat_beq s.atomic_chunks_written 0)
      then (if s.jptm.canceled
          then (if service.has_uncommitted_only s.blob then deleting else s)
          else deleting)
      else s
