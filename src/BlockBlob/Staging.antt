-- ===== src/BlockBlob/Staging.antt =====
-- What the staging of blocks keeps, whatever fails and whenever the job is cancelled.
use axxx.Prelude.{
  ℕ, Bool, true, false, List, [], ◌∷◌, Option, some, ◌⊎◌, inl, inr, ◌≡◌, refl, sym, ap, ◌∙◌,
  get_elem?, set, All, String, ◌>>=◌, Bool-cases, if-either,
}
use axxx.Prelude.Int.{ℤ}
use axxx.Writer.{Bytes}
use axxx.Upload.Rounds.{when, unless}
use axxx.Download.{
  JobPartTransferMgr, cancel, set_destination_is_modified, set_status, set_code,
  fail_active_transfer,
}
use axxx.Plan.{is_zero}
use axxx.Download.Checks.{Fresh}
use axxx.Upload.Epilogue.{fail_active_send}
use axxx.BlockBlob.{
  BlobService, Answer, left_by, Documented, BlockBlobUploader, needed, set_block_id,
  generate_upload_func, chunk_written, put_block,
}
use axxx.BlockBlob.Blocks.{Block, Distinct, Filled, Filled-set, Filled-unset}

-- What happens to a transfer: the function of a chunk runs, or the job is cancelled.
pub data Event : Type 0 where
  chunk_runs : ℕ → Block → Event
  job_cancelled : Event

-- The function of each chunk runs exactly once, and generates the id of its block.
abbrev pub EachOnce : List Block → List Bool → List Event → Type 0
EachOnce es ds [] = All (λ d. d ≡ true) ds
EachOnce es ds (chunk_runs i e ∷ events) =
    (get_elem? ds i ≡ some false) × (get_elem? es i ≡ some e) × EachOnce es (set ds i true) events
EachOnce es ds (job_cancelled ∷ events) = EachOnce es ds events

-- A failure stops a transfer, which may have been stopped before.
pub fail_stops : (c : ℤ) (jptm : JobPartTransferMgr) → (fail_active_send c jptm).canceled ≡ true
unfolding fail_active_transfer set_code set_status cancel
fail_stops c jptm = elim (Bool-cases jptm.canceled) [
  | inl stopped ↦ rw stopped refl
  | inr going ↦ rw going (
      if-either (λ (j : JobPartTransferMgr). j.canceled ≡ true) (is_zero c) _ _ (λ _. refl)
        (λ _. refl))
]

set_unset :
    (i : ℕ) (id : String) (xs : List String)
    → get_elem? xs i ≡ some ""
    → set_block_id i id xs ≡ some (set xs i id)
unfolding set_block_id
set_unset i id xs unset = rw (unset, set_block_id) refl

pub true-false : ¬ (true ≡ false)
true-false e = cc

-- No cancellation comes.
abbrev pub Calm : List Event → Type 0
Calm [] = Unit
Calm (chunk_runs i e ∷ events) = Calm events
Calm (job_cancelled ∷ events) = ⊥

module _ {Blob : Type 0} (service : BlobService Blob) where
  unfoldable pub happen : Event → BlockBlobUploader Blob → Option (BlockBlobUploader Blob)
  happen (chunk_runs i e) s = put_block service i e.id e.contents s
  happen job_cancelled s = some (record s { jptm = cancel s.jptm })

  unfoldable pub happen_all : List Event → BlockBlobUploader Blob → Option (BlockBlobUploader Blob)
  happen_all [] s = some s
  happen_all (event ∷ events) s = happen event s >>= happen_all events

  -- `GenerateUploadFunc` of chunks that are not the whole file.
  unfoldable pub generate_all : List ℕ → BlockBlobUploader Blob → Option (BlockBlobUploader Blob)
  generate_all [] s = some s
  generate_all (i ∷ is) s = generate_upload_func service i false s >>= generate_all is

  -- Nothing fails and nothing is cancelled.
  pub record Smooth (hashed : Bool) (events : List Event) : Type 0 where
    pub stages_all :
        (id : String) (block : Bytes) (b after : Blob) (status : ℤ)
        → ¬ (service.stage_block id block b ≡ inl (status, after))
    pub commits_all :
        (ids : List String) (b after : Blob) (status : ℤ)
        → ¬ (service.commit_block_list ids b ≡ inl (status, after))
    pub has_hash : hashed ≡ true
    pub calm : Calm events

  module _ (hashed : Bool) (all_events : List Event) (laws : Documented service) (es : List Block)
      (distinct : Distinct es) (old : Option Bytes) (listed : ℕ) where
    -- A transfer that goes on has staged the blocks that are done.
    pub record Going (ds : List Bool) (s : BlockBlobUploader Blob) : Type 0 where
      pub fresh : Fresh s.jptm
      pub filled : Filled (service.uncommitted s.blob) ds s.block_ids es

    pub record Inv (ds : List Bool) (s : BlockBlobUploader Blob) : Type 0 where
      pub kept : service.content s.blob ≡ old
      pub same_list : service.committed_blocks s.blob ≡ listed
      pub need : s.put_list_need ≡ needed
      pub state : Going ds s ⊎ ((s.jptm.canceled ≡ true) × ¬ Smooth hashed all_events)

    chunk_written-Inv :
        (r : Answer Blob) (i : ℕ) (e : Block) (ds : List Bool) (s : BlockBlobUploader Blob)
        → service.stage_block e.id e.contents s.blob ≡ r
        → get_elem? ds i ≡ some false
        → get_elem? es i ≡ some e
        → service.content s.blob ≡ old
        → service.committed_blocks s.blob ≡ listed
        → s.put_list_need ≡ needed
        → Going ds s
        → Inv (set ds i true) (
            chunk_written service r (record s {
              jptm = set_destination_is_modified s.jptm;
              block_ids = set s.block_ids i e.id;
            }))
    unfolding chunk_written set_destination_is_modified
    chunk_written-Inv (inl (status, after)) i e ds s r free here kept list need g = record {
      kept =
          ap (λ a. service.content (left_by a)) (sym r)
          ∙ (laws.staged_content e.id e.contents s.blob).0
          ∙ kept;
      same_list =
          ap (λ a. service.committed_blocks (left_by a)) (sym r)
          ∙ (laws.staged_content e.id e.contents s.blob).1
          ∙ list;
      need = need;
      state = inr (
        fail_stops status (set_destination_is_modified s.jptm),
        λ smooth. smooth.stages_all e.id e.contents s.blob after status r,
      );
    }
    chunk_written-Inv (inr blob) i e ds s r free here kept list need g = record {
      kept =
          ap (λ a. service.content (left_by a)) (sym r)
          ∙ (laws.staged_content e.id e.contents s.blob).0
          ∙ kept;
      same_list =
          ap (λ a. service.committed_blocks (left_by a)) (sym r)
          ∙ (laws.staged_content e.id e.contents s.blob).1
          ∙ list;
      need = need;
      state = inl (record {
        fresh = record { going = g.fresh.going; status = g.fresh.status };
        filled =
            Filled-set (service.uncommitted s.blob) (service.uncommitted blob) i e
              (laws.staged_same e.id e.contents s.blob blob r)
              (λ other differ. laws.staged_other e.id other e.contents s.blob blob r differ)
              distinct free here g.filled;
      });
    }

    happen-Inv :
        (i : ℕ) (e : Block) (ds : List Bool) (s : BlockBlobUploader Blob)
        → get_elem? ds i ≡ some false
        → get_elem? es i ≡ some e
        → Inv ds s
        → (after : BlockBlobUploader Blob) × (put_block service i e.id e.contents s ≡ some after)
          × Inv (set ds i true) after
    unfolding put_block
    happen-Inv i e ds s free here v = elim v.state [
      | inr stopped ↦ (
        s,
        when _ _ stopped.0,
        record { kept = v.kept; same_list = v.same_list; need = v.need; state = inr stopped },
      )
      | inl g ↦ (
        chunk_written service (service.stage_block e.id e.contents s.blob) (record s {
          jptm = set_destination_is_modified s.jptm;
          block_ids = set s.block_ids i e.id;
        }),
        unless _ _ g.fresh.going
            ∙ rw (set_unset i e.id s.block_ids (Filled-unset i free g.filled)) refl,
        chunk_written-Inv (service.stage_block e.id e.contents s.blob) i e ds s refl free here
            v.kept v.same_list v.need g,
      )
    ]

    pub happen_all-Inv :
        (events : List Event) (ds : List Bool) (s : BlockBlobUploader Blob)
        → EachOnce es ds events
        → (Smooth hashed all_events → Calm events)
        → Inv ds s
        → (after : BlockBlobUploader Blob) × (all_done : List Bool) × (happen_all events s
            ≡ some after)
          × All (λ d. d ≡ true) all_done
          × Inv all_done after
    unfolding happen_all happen cancel
    happen_all-Inv [] ds s once calm v = (s, ds, refl, once, v)
    happen_all-Inv (chunk_runs i e ∷ events) ds s (free, here, once) calm v =
        let (next, run, w) = happen-Inv i e ds s free here v in
        let (after, all_done, ran, all, u) =
          happen_all-Inv events (set ds i true) next once calm w in
        (after, all_done, ap (λ o. o >>= happen_all events) run ∙ ran, all, u)
    happen_all-Inv (job_cancelled ∷ events) ds s once calm v =
        happen_all-Inv events ds (record s { jptm = cancel s.jptm }) once
          (λ smooth. absurd (calm smooth))
          (record {
            kept = v.kept;
            same_list = v.same_list;
            need = v.need;
            state = inr (refl, calm);
          })
