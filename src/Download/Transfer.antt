-- ===== src/Download/Transfer.antt =====
-- A download from its start to its report.
use axxx.Prelude.{
  ℕ, zero, suc, ◌+◌, ◌%◌, ◌/◌, ◌^◌, ◌<◌, ◌≡◌, refl, ap, sym, ◌∙◌, Bool, true, false, List, [], ◌∷◌,
  ◌&&◌, not, some, if◌then◌else◌, arith, nat_beq, length, replicate, length-replicate, Bool-cases,
  inl, inr,
}
use native.Mathlib.Nat.{mod-add-div'}
use axxx.Status.{started}
use axxx.Download.{
  JobPartTransferMgr, Report, set_destination_is_modified, set_number_of_chunks,
  set_action_after_last_chunk,
}
use axxx.Download.Chunks.{schedule_chunks, number_of_chunks, rounds}
use axxx.Download.Epilogue.{at_download_path, Disk, Ending, epilogue_with_cleanup_download}
use axxx.Download.EpilogueLaws.{status_of}
use axxx.Download.Start.{
  Beginning, scheduled, is_skipped, is_if_different_or_missing, lock_destination, check_chunks,
  file_with_content, remote_to_local_file,
}
use axxx.Download.Run.{
  Event, run, View, in_flight, ended, unharmed, view_run, Once, Flies, Shows, all_true, count,
}
use axxx.Download.Md5Laws.{calm_unless_missing}
use axxx.Download.ChunkLaws.{schedule_chunks-whole}
use axxx.Download.Reports.{run-Shows}
use axxx.Download.Counting.{epilogue-Fares}
use axxx.Download.Outcome.{verdict}

-- A transfer of a new job: nothing has happened to it yet.
pub record New (jptm : JobPartTransferMgr) : Type 0 where
  pub going : jptm.canceled ≡ false
  pub status : status_of jptm ≡ started
  pub none_done : jptm.atomic_chunks_done ≡ 0
  pub silent : jptm.reports ≡ []

-- What the reports are, by the view.
abbrev pub Reported : View → JobPartTransferMgr → Type 0
Reported (in_flight _ _) jptm = jptm.reports ≡ []
Reported (ended s) jptm = (r : Report) × (jptm.reports ≡ r ∷ []) × (r.transfer_status ≡ s)

pub Shows-Reported :
    (done : List Bool) (jptm : JobPartTransferMgr) (v : View) → Shows done jptm v → Reported v jptm
Shows-Reported done jptm (in_flight _ _) (_, flies) = flies.silent
Shows-Reported done jptm (ended s) over' = over'.reported

count-replicate : (n : ℕ) → count (replicate n false) ≡ 0
count-replicate zero = refl
count-replicate (suc n) = omega (arith, count-replicate n)

not_done : (n : ℕ) → 0 < n → all_true (replicate n false) ≡ false
not_done zero h = ground arith
not_done (suc n) h = refl

-- A transfer whose chunks were just scheduled.
unfoldable pub ready : ℕ → JobPartTransferMgr → JobPartTransferMgr
ready n jptm = record jptm {
  num_chunks = n;
  action_after_last_chunk = true;
  chunks_notified = replicate n false;
}

pub ready-Flies :
    (n : ℕ) (jptm : JobPartTransferMgr)
    → New jptm
    → 0 < n
    → n < 2 ^ 32
    → Flies (replicate n false) unharmed (ready n jptm)
unfolding ready
ready-Flies n jptm new some_chunks few = record {
  flags = refl;
  number = sym (length-replicate n false);
  small = omega (arith, length-replicate n false);
  counted = new.none_done ∙ sym (count-replicate n);
  missing = not_done n some_chunks;
  action = refl;
  silent = new.silent;
  fares = record { going = new.going; status = new.status };
}

otherwise : {A : Type 0} {b : Bool} (x y : A) → b ≡ false → (if b then x else y) ≡ y
otherwise x y h = rw h refl

pub nonzero : (n : ℕ) → 0 < n → nat_beq n 0 ≡ false
nonzero n h = ground arith

and_false : (b : Bool) → (b && false) ≡ false
and_false true = refl
and_false false = refl

-- The sizes as the loop finds them.
pub schedules :
    (size chunk : ℕ)
    → 0 < chunk
    → size + chunk < 2 ^ 63
    → size / chunk + 1 < 2 ^ 32
    → (ids : List (ℕ × ℕ)) × (schedule_chunks (rounds size chunk) size chunk 0 ≡ some ids)
      × (length ids ≡ number_of_chunks size chunk)
      × (number_of_chunks size chunk < 2 ^ 32)
schedules size chunk positive small few =
    let (ids, made, count, le, _, _) =
      schedule_chunks-whole chunk (replicate size 0) positive
        (rw (length-replicate {A = ℕ} size 0) small) in
    let known = length-replicate {A = ℕ} size 0 in
    (
      ids,
      rw known at made,
      omega (arith, rw known at count, rw known at le),
      omega (arith, rw known at count, rw known at le),
    )

check_chunks_lem :
    (n : ℕ) (jptm : JobPartTransferMgr) (disk : Disk) (ids : List (ℕ × ℕ))
    → length ids ≡ n
    → n < 2 ^ 32
    → check_chunks n jptm disk (some ids)
      ≡ scheduled (record jptm { chunks_notified = replicate n false }) disk ids
unfolding check_chunks
check_chunks_lem n jptm disk ids e small =
    let same : nat_beq (n % 2 ^ 32) n ≡ true = ground arith in rw (e, same) refl

pub number_positive :
    (size chunk : ℕ)
    → 0 < chunk
    → 0 < size
    → size / chunk + 1 < 2 ^ 32
    → 0 < number_of_chunks size chunk
unfolding number_of_chunks
number_positive size chunk positive some_bytes few = ground (arith, mod-add-div' size chunk)

module _ (s : Beginning) (e : Ending) (jptm : JobPartTransferMgr) (disk : Disk) (new : New jptm)
    (not_skipped : is_skipped s ≡ false)
    (hashed : (is_if_different_or_missing e.md5_validation_option
        && nat_beq (length e.expected_md5) 0)
      ≡ false)
    (locks : s.lock_fails ≡ false) (creates : s.create_fails ≡ false)
    (some_bytes : 0 < e.source_size) (positive : 0 < s.block_size)
    (small : e.source_size + s.block_size < 2 ^ 63)
    (few : e.source_size / s.block_size + 1 < 2 ^ 32) where
  n : ℕ
  n = number_of_chunks e.source_size s.block_size

  modified : JobPartTransferMgr
  modified = lock_destination e (set_destination_is_modified jptm)

  modified-New : New modified
  unfolding modified lock_destination set_destination_is_modified
  modified-New = elim (Bool-cases e.is_dev_null) [
    | inl discards ↦ rw discards (record {
      going = new.going;
      status = new.status;
      none_done = new.none_done;
      silent = new.silent;
    })
    | inr keeps ↦ rw keeps (record {
      going = new.going;
      status = new.status;
      none_done = new.none_done;
      silent = new.silent;
    })
  ]

  begins :
      (disk' : Disk) × (ids : List (ℕ × ℕ)) × (remote_to_local_file s e jptm disk
        ≡ scheduled (ready n modified) disk' ids)
  unfolding remote_to_local_file file_with_content n ready set_action_after_last_chunk
      set_number_of_chunks lock_destination modified
  begins =
      let (ids, made, count, in_range) = schedules e.source_size s.block_size positive small few in
      let created = if e.is_dev_null then disk else record disk { place = at_download_path } in
      let announced = set_action_after_last_chunk (set_number_of_chunks n modified) in
      let unlocked : (not e.is_dev_null && s.lock_fails) ≡ false = rw locks (and_false _) in
      let uncreated : (not e.is_dev_null && s.create_fails) ≡ false = rw creates (and_false _) in
      (
        created,
        ids,
        otherwise _ _ new.going
            ∙ otherwise _ _ not_skipped
            ∙ otherwise _ _ hashed
            ∙ otherwise _ _ (nonzero _ some_bytes)
            ∙ otherwise _ _ (nonzero _ positive)
            ∙ otherwise _ _ unlocked
            ∙ otherwise _ _ uncreated
            ∙ ap (check_chunks n announced created) made
            ∙ check_chunks_lem n announced created ids count in_range,
      )

-- A download of a new transfer with content that is not skipped, has a hash if one is required,
-- gets its lock and its file, within the int64 and uint32 ranges of the sizes: its chunks are
-- scheduled, and then, in whatever order the chunks are done, each at most once, and whatever
-- failures and cancellations come between, the code does not panic. Until the last chunk is done
-- nothing is reported. Then the transfer is reported once: with the failure's status, or as
-- cancelled, if a failure or a cancellation came before that, whichever was first; and otherwise as
-- a success if the file was flushed and closed, its hash and its length passed, and the
-- downloader's epilogue could keep what Azure Files has about the file, and as failed if not.
pub remote_to_local_file-run :
    (bytes : ℕ → ℕ) (s : Beginning) (e : Ending) (jptm : JobPartTransferMgr) (disk : Disk)
    (events : List Event)
    → New jptm
    → is_skipped s ≡ false
    → (is_if_different_or_missing e.md5_validation_option && nat_beq (length e.expected_md5) 0)
      ≡ false
    → s.lock_fails ≡ false
    → s.create_fails ≡ false
    → 0 < e.source_size
    → 0 < s.block_size
    → e.source_size + s.block_size < 2 ^ 63
    → e.source_size / s.block_size + 1 < 2 ^ 32
    → Once (replicate (number_of_chunks e.source_size s.block_size) false) events
    → (begun : JobPartTransferMgr) × (created : Disk) × (ids : List (ℕ × ℕ)) × (remote_to_local_file
          s e jptm disk
        ≡ scheduled begun created ids)
      × ((after : JobPartTransferMgr) × (disk' : Disk) × (run bytes
              (epilogue_with_cleanup_download true e)
              events
              (begun, created)
            ≡ some (after, disk'))
          × Reported
              (view_run (verdict e) events (
                in_flight (replicate (number_of_chunks e.source_size s.block_size) false) unharmed))
              after)
unfolding n
remote_to_local_file-run bytes s e jptm disk events new skip hashed locks creates some_bytes
      positive small few once =
    let count = number_of_chunks e.source_size s.block_size in
    let flags = replicate count false in
    let (created, ids, started') =
      begins s e jptm disk new skip hashed locks creates some_bytes positive small few in
    let (_, _, _, in_range) = schedules e.source_size s.block_size positive small few in
    let begun =
      modified s e jptm disk new skip hashed locks creates some_bytes positive small few in
    let flies =
      ready-Flies count begun
        (modified-New s e jptm disk new skip hashed locks creates some_bytes positive small few)
        (number_positive e.source_size s.block_size positive some_bytes few) in_range in
    let (after, disk', done, ran, shows) =
      run-Shows bytes (epilogue_with_cleanup_download true e) (verdict e)
        (λ fate j d f. epilogue-Fares fate e j d (calm_unless_missing e hashed) f) events flags
        (in_flight flags unharmed) (ready count begun) created (refl, flies) once in
    (
      ready count begun,
      created,
      ids,
      started',
      (after, disk', ran, Shows-Reported done after _ shows),
    )
