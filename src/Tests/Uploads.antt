-- ===== src/Tests/Uploads.antt =====
-- Uploads of five bytes in chunks of two bytes, whose last chunk cannot be read, and of an empty
-- file.
use axxx.Prelude.{ℕ, ◌≡◌, refl, true, false, List, [], ◌∷◌, map, some, nat_beq, arith}
use axxx.Writer.{Bytes}
use axxx.Writer.Order.{Contiguous, contents_of}
use axxx.Download.Chunks.{chunk_of}
use axxx.Prelude.{none, inl}
use axxx.Prelude.Int.{pos}
use axxx.Status.{started}
use axxx.Folders.Creation.{overwrite_true}
use axxx.Download.{JobPartTransferMgr}
use axxx.Download.Run.{Event, chunk_done}
use axxx.Upload.Epilogue.{Sender, Calls, absent}
use axxx.Upload.{Source, Answers, Sent, get_num_chunks, schedule_send_chunks}
use axxx.Upload.Outcome.{Sends, schedule_send_chunks-whole}

abbrev source_of : Bytes → ℕ → ℕ → Source
source_of content size count = record {
  is_local = true;
  put_md5 = true;
  src_size = size;
  chunk_size = 2;
  num_chunks = count;
  content = content;
}

abbrev five_bytes : Source
five_bytes = source_of (5 ∷ 6 ∷ 7 ∷ 8 ∷ 9 ∷ []) 5 3

abbrev last_fails : Answers
last_fails = record {
  was_canceled = λ start. false;
  prefetch_fails = λ start. nat_beq start 4;
  prologue = λ leading. true;
}

three : 3 ≡ get_num_chunks 5 2
unfolding get_num_chunks
three = refl

schedule_send_chunks-whole_example :
    (ids : List (ℕ × ℕ)) × (sent : Sent) × (schedule_send_chunks five_bytes last_fails ≡ some sent)
    × Contiguous 0 (map (chunk_of five_bytes.content) ids)
    × (contents_of (map (chunk_of five_bytes.content) ids) ≡ five_bytes.content)
    × Sends five_bytes last_fails ids sent
schedule_send_chunks-whole_example =
    schedule_send_chunks-whole five_bytes last_fails refl refl refl (omega arith) (omega arith)
      (omega arith) three

abbrev empty_file : Source
empty_file = source_of [] 0 1

one : 1 ≡ get_num_chunks 0 2
unfolding get_num_chunks
one = refl

-- A sender that nothing fails but the length at the destination.
abbrev short_sender : Sender
short_sender = record {
  overwrite_option = overwrite_true;
  last_modified_time = 7;
  expected_length = 5;
  is_s2s_copier = false;
  s2s_source_change_validation = false;
  dest_length_validation = true;
  deletes = false;
  provider_fails = false;
  provider_is_of_file = true;
  sender_fails = false;
  remote_file = absent;
  prompter_says = true;
  open_fails = false;
  lmt_before = inl 7;
  lock_fails = false;
  lmt_after = inl 7;
  commit = none;
  destination_length = inl 4;
}

abbrev new_transfer : JobPartTransferMgr
new_transfer = record {
  atomic_successful_bytes = 0;
  atomic_chunks_done = 0;
  atomic_completion_indicator = false;
  atomic_dest_modified_indicator = false;
  atomic_dest_lock_held_indicator = false;
  job_part_plan_transfer = record { atomic_transfer_status = started; atomic_error_code = pos 0 };
  canceled = false;
  num_chunks = 0;
  action_after_last_chunk = false;
  chunks_notified = [];
  bytes_in_active_files = 0;
  reports = [];
}

-- The chunks are done in another order, and the length at the destination is wrong.
abbrev events : List Event
events = chunk_done 2 ∷ chunk_done 0 ∷ chunk_done 1 ∷ []

abbrev no_calls : Calls
no_calls = record { epilogues = 0; cleanups = 0 }
