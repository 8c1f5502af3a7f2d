-- ===== src/Upload.antt =====
-- ste/xfer-anyToRemote-file.go: the loop that schedules the chunks of an upload or a copy. For an
-- upload it reads each chunk ahead and hashes it. Offsets are int64 and the count of chunks an
-- int32, held as their bits; the hash is kept as the bytes that were given to the hasher.
pub mod Rounds
pub mod Laws
pub mod Outcome
pub mod Epilogue
pub mod Start
pub mod Verdict
pub mod Completion
pub mod EpilogueLaws
pub mod Transfer
use axxx.Prelude.{
  ℕ, zero, suc, ◌+◌, ◌/◌, ◌%◌, ◌^◌, Bool, true, false, ◌&&◌, ◌||◌, not, List, [], ◌∷◌, ◌++◌, Option,
  none, some, nat_beq, ltb, if◌then◌else◌, take,
}
use axxx.Limiter.{add64}
use axxx.Writer.{Bytes, FileChunk}
use axxx.Download.Chunks.{lt64, adjusted_chunk_size, rounds, chunk_of}

-- The source with what its sender says; `put_md5` is `ShouldPutMd5`.
pub record Source : Type 0 where
  pub is_local : Bool
  pub put_md5 : Bool
  pub src_size : ℕ
  pub chunk_size : ℕ
  pub num_chunks : ℕ
  pub content : Bytes

-- What calls of other components answer, by the offset of the chunk: whether the transfer was
-- canceled when the chunk's turn came, and whether reading it ahead failed. `prologue` tells
-- whether the prologue modified the destination, by the leading bytes that it was given.
pub record Answers : Type 0 where
  pub was_canceled : ℕ → Bool
  pub prefetch_fails : ℕ → Bool
  pub prologue : Bytes → Bool

-- What is scheduled for a chunk: its offset and its size, and for an upload or a copy its number
-- and whether it is the whole file.
pub data ChunkFunc : Type 0 where
  upload : ℕ × ℕ → ℕ → Bytes → Bool → ChunkFunc
  fails : ℕ × ℕ → ChunkFunc
  copy : ℕ × ℕ → ℕ → Bool → ChunkFunc

-- The variables of the loop; `prefetch_err` is whether the error is not nil.
pub record Sending : Type 0 where
  pub prefetch_err : Bool
  pub safe_to_use_hash : Bool
  pub hashed : Bytes
  pub ps : Bytes
  pub dest_modified : Bool
  pub chunk_id_count : ℕ

-- What was scheduled, the hash that was sent, and whether the destination was marked as modified.
pub record Sent : Type 0 where
  pub scheduled : List ChunkFunc
  pub md5 : Option Bytes
  pub modified : Bool

-- `getNumChunks` of ste/sender.go, for a chunk size that is not 0.
unfoldable pub get_num_chunks : ℕ → ℕ → ℕ
get_num_chunks file_size chunk_size =
    if nat_beq file_size 0
    then 1
    else if nat_beq (file_size % chunk_size) 0
    then file_size / chunk_size % 2 ^ 32
    else (file_size / chunk_size + 1) % 2 ^ 32

unfoldable pub is_dummy_chunk_in_empty_file : ℕ → ℕ → Bool
is_dummy_chunk_in_empty_file start_index file_size = nat_beq start_index 0 && nat_beq file_size 0

abbrev pub write_buffer_to : Source → Bytes → Bytes → Bytes
write_buffer_to src buffer hashed = if src.put_md5 then hashed ++ buffer else hashed

-- The chunk is read ahead, unless there was an error already.
unfoldable pub prefetch : Source → Answers → ℕ × ℕ → Sending → Sending
prefetch src a (start, size) st =
    let buffer = (chunk_of src.content (start, size)).contents in
    if not src.is_local
    then st
    else if a.was_canceled start
    then record st { prefetch_err = true }
    else if st.prefetch_err
    then st
    else if a.prefetch_fails start
    then record st { prefetch_err = true; safe_to_use_hash = false }
    else record st { hashed = write_buffer_to src buffer st.hashed; ps = take 512 buffer }

unfoldable pub run_prologue : Answers → ℕ → Sending → Sending
run_prologue a start st =
    if nat_beq start 0
    then record st { dest_modified = st.dest_modified || a.prologue st.ps }
    else st

unfoldable pub chunk_func : Source → ℕ × ℕ → Sending → ChunkFunc
chunk_func src id st =
    let is_whole_file = nat_beq src.num_chunks 1 in
    if not src.is_local
    then copy id st.chunk_id_count is_whole_file
    else if st.prefetch_err
    then fails id
    else upload id st.chunk_id_count (chunk_of src.content id).contents is_whole_file

unfoldable pub count_chunk_id : Sending → Sending
count_chunk_id st = record st { chunk_id_count = (st.chunk_id_count + 1) % 2 ^ 32 }

-- One round of the loop.
unfoldable pub send_chunk : Source → Answers → ℕ × ℕ → Sending → ChunkFunc × Sending
send_chunk src a (start, size) st =
    let ready = run_prologue a start (prefetch src a (start, size) st) in
    (chunk_func src (start, size) ready, count_chunk_id ready)

abbrev pub put_first :
    ChunkFunc → Option (List ChunkFunc × Sending) → Option (List ChunkFunc × Sending)
put_first cf none = none
put_first cf (some (cfs, st)) = some (cf ∷ cfs, st)

-- The loop, on fuel.
unfoldable pub send_loop : Source → Answers → ℕ → ℕ → Sending → Option (List ChunkFunc × Sending)
send_loop src a zero start st = none
send_loop src a (suc fuel) start st =
    let id : ℕ × ℕ = (start, adjusted_chunk_size src.src_size src.chunk_size start) in
    let sent = send_chunk src a id st in
    let rest = send_loop src a fuel (add64 start src.chunk_size) sent.1 in
    if lt64 start src.src_size || is_dummy_chunk_in_empty_file start src.src_size
    then put_first sent.0 rest
    else some ([], st)

abbrev pub new_sending : Sending
new_sending = record {
  prefetch_err = false;
  safe_to_use_hash = true;
  hashed = [];
  ps = [];
  dest_modified = false;
  chunk_id_count = 0;
}

-- What follows the loop.
abbrev pub check_sent : Source → Option (List ChunkFunc × Sending) → Option Sent
check_sent src none = none
check_sent src (some (cfs, st)) =
    if nat_beq st.chunk_id_count src.num_chunks
    then some (record {
      scheduled = cfs;
      md5 = (if src.is_local && st.safe_to_use_hash then some st.hashed else none);
      modified = st.dest_modified;
    })
    else none

-- `scheduleSendChunks`; `none` is its panic.
unfoldable pub schedule_send_chunks : Source → Answers → Option Sent
schedule_send_chunks src a =
    check_sent src (send_loop src a (rounds src.src_size src.chunk_size) 0 new_sending)
