-- ===== src/Tests/Downloads.antt =====
-- A source of five bytes in chunks of two bytes.
use axxx.Prelude.{
  ℕ, ◌+◌, ◌%◌, ◌/◌, ◌^◌, ◌≤◌, ◌≡◌, refl, Bool, true, false, List, [], ◌∷◌, ◌++◌, map, none, some,
  inl, arith, length, replicate,
}
use axxx.Prelude.Int.{pos}
use axxx.Status.{started, failed}
use axxx.Folders.Creation.{overwrite_true}
use mathlib.Core.List.{Permᴰ}
use axxx.Writer.{
  Bytes, FileChunk, Booking, ChunkedFileWriter, closed, running, finished, worker_routine,
  new_writer, new_hasher,
}
use axxx.Writer.Order.{Contiguous, contents_of}
use axxx.Writer.Arrivals.{arrivals}
use axxx.Download.{JobPartTransferMgr}
use axxx.Download.Md5.{fail_if_different, passed, check, check_hash, check_missing, check_match}
use axxx.Download.Chunks.{schedule_chunks, rounds, number_of_chunks, adjusted_chunk_size, chunk_of}
use axxx.Download.ChunkLaws.{schedule_chunks-whole}
use axxx.Download.Whole.{download-worker_routine}
use axxx.Download.Epilogue.{
  at_download_path, at_destination, absent, Disk, Ending, epilogue_with_cleanup_download,
  md5_of_file_as_written,
}
use axxx.Download.EpilogueLaws.{Ends}
use axxx.Download.Checks.{Fresh, saved}
use axxx.Download.Start.{Beginning, scheduled, remote_to_local_file, is_skipped}
use axxx.Download.Run.{
  Event, chunk_done, chunk_fails, in_general, job_cancelled, run, in_flight, unharmed, view_run,
}
use axxx.Download.Outcome.{verdict}
use axxx.Download.Leftover.{length_mismatch_leaves_file}
use axxx.Download.Transfer.{New, Reported, remote_to_local_file-run}

abbrev content : Bytes
content = 5 ∷ 6 ∷ 7 ∷ 8 ∷ 9 ∷ []

schedule_chunks-whole_example :
    (ids : List (ℕ × ℕ)) × (schedule_chunks (rounds (length content) 2) (length content) 2 0
      ≡ some ids)
    × (length ids % 2 ^ 32 ≡ number_of_chunks (length content) 2)
    × (length ids ≤ length content / 2 + 1)
    × Contiguous 0 (map (chunk_of content) ids)
    × (contents_of (map (chunk_of content) ids) ≡ content)
schedule_chunks-whole_example = schedule_chunks-whole 2 content (omega arith) (omega arith)

abbrev ids : List (ℕ × ℕ)
ids = (0, 2) ∷ (2, 2) ∷ (4, 1) ∷ []

made : schedule_chunks (rounds (length content) 2) (length content) 2 0 ≡ some ids
unfolding schedule_chunks rounds adjusted_chunk_size
made = refl

abbrev never : Bytes → Bytes → Bool
never saved slice = false

abbrev booked : Booking
booked = record {
  limiter = record { value = 5; limit = 100 };
  current_reserved_capacity = 5;
  active_chunk_count = 3;
}

abbrev arrived : List FileChunk
arrived = map (chunk_of content) ((2, 2) ∷ (0, 2) ∷ (4, 1) ∷ [])

download-worker_routine_example :
    (w : ChunkedFileWriter) × (worker_routine never
        (new_hasher false true)
        (arrivals arrived ++ closed ∷ [])
        (running (new_writer booked))
      ≡ finished content w)
    × (w.file ≡ content)
download-worker_routine_example =
    download-worker_routine never false true 2 content ids arrived booked (λ saved slice. refl)
      (omega arith) (omega arith) made
      (Permᴰ.trans (Permᴰ.swap refl refl)
        (Permᴰ.cons refl (Permᴰ.cons refl (Permᴰ.cons refl Permᴰ.nil))))

abbrev beginning : Beginning
beginning = record {
  overwrite_option = overwrite_true;
  dest_mod_time = some 3;
  prompter_says = false;
  last_modified_time = 2;
  block_size = 2;
  lock_fails = false;
  create_fails = false;
}

abbrev ending : ℕ → Ending
ending size_on_disk = record {
  expected_md5 = 1 ∷ 2 ∷ [];
  md5_validation_option = fail_if_different;
  dest_length_validation = true;
  is_dev_null = false;
  should_decompress = false;
  source_size = 5;
  path_differs = true;
  preserve_last_modified_time = true;
  preserve_smb_info = false;
  deletes = false;
  flush = inl (1 ∷ 2 ∷ []);
  close = none;
  stat = inl size_on_disk;
  rename_fails = false;
  chtimes_fails = false;
  delete_fails = false;
  preserve_attributes = none;
}

abbrev new_transfer : JobPartTransferMgr
new_transfer = record {
  atomic_successful_bytes = 0;
  atomic_chunks_done = 0;
  atomic_completion_indicator = false;
  atomic_dest_modified_indicator = false;
  atomic_dest_lock_held_indicator = false;
  job_part_plan_transfer = record { atomic_transfer_status = started; atomic_error_code = pos 0 };
  canceled = false;
  num_chunks = 0;
  action_after_last_chunk = false;
  chunks_notified = [];
  bytes_in_active_files = 0;
  reports = [];
}

abbrev nothing_there : Disk
nothing_there = record { place = absent; times_preserved = false }

new_transfer-New : New new_transfer
new_transfer-New = record { going = refl; status = refl; none_done = refl; silent = refl }

-- The second chunk fails, and the job is cancelled before the last one is done.
abbrev events : List Event
events =
    chunk_done 2
    ∷ chunk_fails (pos 503) in_general
    ∷ chunk_done 1
    ∷ job_cancelled
    ∷ chunk_done 0
    ∷ []

not_skipped : is_skipped beginning ≡ false
unfolding is_skipped axxx.Download.Start.should_overwrite
not_skipped = refl

count : number_of_chunks 5 2 ≡ 3
unfolding number_of_chunks
count = refl

once : axxx.Download.Run.Once (replicate (number_of_chunks 5 2) false) events
once = rw count (refl, (refl, (refl, tt)))

remote_to_local_file-run_example :
    (begun : JobPartTransferMgr) × (created : Disk) × (ids : List (ℕ × ℕ)) × (remote_to_local_file
        beginning
        (ending 5)
        new_transfer
        nothing_there
      ≡ scheduled begun created ids)
    × ((after : JobPartTransferMgr) × (disk' : Disk) × (run
            (λ _. 2)
            (epilogue_with_cleanup_download true (ending 5))
            events
            (begun, created)
          ≡ some (after, disk'))
        × Reported
            (view_run
              (verdict (ending 5))
              events
              (in_flight (replicate (number_of_chunks 5 2) false) unharmed))
            after)
remote_to_local_file-run_example =
    remote_to_local_file-run (λ _. 2) beginning (ending 5) new_transfer nothing_there events
      new_transfer-New not_skipped refl refl refl (omega arith) (omega arith) (omega arith)
      (omega arith) once

abbrev written : Disk
written = record { place = at_download_path; times_preserved = false }

new_transfer-Fresh : Fresh new_transfer
new_transfer-Fresh = record { going = refl; status = refl }

hash_passes : check fail_if_different (1 ∷ 2 ∷ []) (md5_of_file_as_written (ending 4)) ≡ passed
unfolding check check_hash check_missing check_match md5_of_file_as_written
    axxx.Download.Md5.bytes_equal
hash_passes = refl

length_mismatch_leaves_file_example :
    (after : JobPartTransferMgr) × (disk' : Disk) × (epilogue_with_cleanup_download true
        (ending 4)
        (new_transfer, written)
      ≡ some (after, disk'))
    × Ends new_transfer after failed
    × (disk'.place ≡ at_destination)
length_mismatch_leaves_file_example =
    length_mismatch_leaves_file (ending 4) new_transfer written new_transfer-Fresh refl hash_passes
      refl refl refl refl
