-- ===== src/Writer.antt =====
-- common/chunkedFileWriter.go: chunks of a download arrive in any order and are written to the file
-- one after another. The channel between `EnqueueChunk` and `workerRoutine` is the list of messages
-- that the worker takes from its `select`. `write_fails content slice` tells whether the file's
-- `Write` of a slice has an error when the file holds `content`; a write that has none appends the
-- slice. The hash is kept as the bytes that were given to the hasher, which are none for
-- `nullHasher`. `activeChunkCount` is an
-- int32 and `currentReservedCapacity` an int64, both held as bits.
pub mod Order
pub mod Contents
pub mod Arrivals
pub mod Books
use axxx.Prelude.{
  ℕ, zero, suc, ◌+◌, ◌-◌, ◌*◌, ◌%◌, ◌^◌, Bool, true, false, List, [], ◌∷◌, ◌++◌, Option, none, some,
  ◌||◌, not, ◌⊎◌, inl, inr, map, leb, ltb, nat_eq, if◌then◌else◌, length, take, drop,
}
use axxx.Prelude.Assoc.{lookup, insert, delete}
use axxx.Limiter.{add64, sub64, CacheLimiter, remove, wait_until_add}

abbrev pub Bytes : Type 0
Bytes = List ℕ

-- `length` is that of the chunk's id.
pub record FileChunk : Type 0 where
  pub offset_in_file : ℕ
  pub id_length : ℕ
  pub contents : Bytes

-- The worker's `md5Hasher`: a real one, or `nullHasher`, whose sum is empty.
pub data Hasher : Type 0 where
  md5 null_hasher : Hasher

-- `no_check` is whether the validation option is `NoCheck`.
unfoldable pub new_hasher : Bool → Bool → Hasher
new_hasher no_check source_md5_exists =
    if no_check || not source_md5_exists then null_hasher else md5

-- `Sum`, given all that was written to the hasher.
abbrev pub sum : Hasher → Bytes → Bytes
sum md5 written = written
sum null_hasher written = []

pub data WriterError : Type 0 where
  write_error context_done read_error chunk_writer_already_failed : WriterError

-- What the worker and the public methods share.
pub record Booking : Type 0 where
  pub limiter : CacheLimiter
  pub current_reserved_capacity : ℕ
  pub active_chunk_count : ℕ

pub record ChunkedFileWriter : Type 0 where
  pub file : Bytes
  pub hashed : Bytes
  pub next_offset_to_save : ℕ
  pub unsaved_chunks_by_file_offset : List (ℕ × FileChunk)
  pub booking : Booking

abbrev pub sub32 : ℕ → ℕ → ℕ
sub32 a b = (a + 2 ^ 32 - b) % 2 ^ 32

abbrev pub add32 : ℕ → ℕ → ℕ
add32 a b = (a + b) % 2 ^ 32

-- `maxWriteSize`.
pub max_write_size : ℕ
max_write_size = 1024 * 1024

-- The bytes `limited` go back to the limiter and `reserved` from the capacity of this file.
unfoldable pub release : ℕ → ℕ → Booking → Booking
unfolding remove
release limited reserved b = record {
  limiter = remove limited b.limiter;
  current_reserved_capacity = sub64 b.current_reserved_capacity reserved;
  active_chunk_count = sub32 b.active_chunk_count 1;
}

unfoldable pub new_writer : Booking → ChunkedFileWriter
new_writer b = record {
  file = [];
  hashed = [];
  next_offset_to_save = 0;
  unsaved_chunks_by_file_offset = [];
  booking = b;
}

-- What the worker finds in its `select`: a chunk, with the number of rounds that the loop of
-- `sequentiallyProcessAvailableChunks` makes before the context is done, if that happens meanwhile;
-- a closed channel; a context that is done.
pub data Message : Type 0 where
  chunk : FileChunk → Option ℕ → Message
  closed : Message
  done : Message

-- The worker still runs, or has ended with an error or with its hasher's sum.
pub data State : Type 0 where
  running : ChunkedFileWriter → State
  failed : WriterError → ChunkedFileWriter → State
  finished : Bytes → ChunkedFileWriter → State

unfoldable pub release_all : List (ℕ × FileChunk) → Booking → Booking
unfolding release
release_all [] b = b
release_all ((_, c) ∷ m) b = release_all m (release c.id_length c.id_length b)

-- The deferred function of `workerRoutine`.
unfoldable pub clean_up : ChunkedFileWriter → ChunkedFileWriter
unfolding release_all
clean_up w = record w {
  booking = release_all w.unsaved_chunks_by_file_offset w.booking;
  unsaved_chunks_by_file_offset = [];
}

-- Each round removes a chunk, so one round more than there are chunks is enough.
unfoldable pub rounds_for : Option ℕ → ChunkedFileWriter → ℕ
rounds_for none w = suc (length w.unsaved_chunks_by_file_offset)
rounds_for (some k) w = k

module _ (write_fails : Bytes → Bytes → Bool) where
  -- The loop of `saveOneChunk` over slices of at most `size` bytes, on fuel. The result says
  -- whether all was written.
  unfoldable pub write_slices : ℕ → ℕ → Bytes → ChunkedFileWriter → ChunkedFileWriter × Bool
  write_slices zero size rest w = (w, true)
  write_slices (suc fuel) size [] w = (w, true)
  write_slices (suc fuel) size (b ∷ rest) w =
      let slice = take size (b ∷ rest) in
      let hashing = record w { hashed = w.hashed ++ slice } in
      let later =
        write_slices fuel size (drop size (b ∷ rest)) (record hashing { file = w.file ++ slice }) in
      if write_fails w.file slice then (hashing, false) else later

  unfoldable pub save_one_chunk : FileChunk → ChunkedFileWriter → ChunkedFileWriter × Bool
  unfolding write_slices
  save_one_chunk c w =
      let (w', saved) = write_slices (length c.contents) max_write_size c.contents w in
      (record w' { booking = release (length c.contents) c.id_length w'.booking }, saved)

  -- At most `rounds` rounds are made before the context is seen to be done, which is no error here.
  unfoldable pub sequentially_process_available_chunks :
      ℕ → ChunkedFileWriter → ChunkedFileWriter × Bool
  sequentially_process_available_chunks zero w = (w, true)
  sequentially_process_available_chunks (suc rounds) w =
      elim (lookup w.next_offset_to_save w.unsaved_chunks_by_file_offset) [
        | none ↦ (w, true)
        | some c ↦
            let taken = record w {
              unsaved_chunks_by_file_offset =
                  delete w.next_offset_to_save w.unsaved_chunks_by_file_offset;
              next_offset_to_save = add64 w.next_offset_to_save (length c.contents);
            } in
            let (w', saved) = save_one_chunk c taken in
            let rest = sequentially_process_available_chunks rounds w' in
            if saved then rest else (w', false)
      ]

  -- One message. On every way out the chunks that are still unsaved are given up.
  unfoldable pub handle : Hasher → Message → ChunkedFileWriter → State
  unfolding rounds_for sequentially_process_available_chunks clean_up
  handle hasher (chunk c cancelled_after) w =
      let indexed = record w {
        unsaved_chunks_by_file_offset = insert c.offset_in_file c w.unsaved_chunks_by_file_offset;
      } in
      let (w', saved) =
        sequentially_process_available_chunks (rounds_for cancelled_after indexed) indexed in
      if saved then running w' else failed write_error (clean_up w')
  handle hasher closed w = finished (sum hasher w.hashed) (clean_up w)
  handle hasher done w = failed context_done (clean_up w)

  unfoldable pub worker_routine : Hasher → List Message → State → State
  unfolding handle
  worker_routine hasher [] s = s
  worker_routine hasher (msg ∷ msgs) (running w) = worker_routine hasher msgs (handle hasher msg w)
  worker_routine hasher (msg ∷ msgs) s = s

-- `shouldUseRelaxedRamThreshold`; a count with its top bit set is negative.
unfoldable pub should_use_relaxed_ram_threshold : ℕ → Bool
should_use_relaxed_ram_threshold active = leb active 20 || leb (2 ^ 31) active

-- `seen` are the numbers of active chunks at the tries of the limiter, up to one that succeeds or
-- to the end of the context.
unfoldable pub wait_to_schedule_chunk : (ℕ → ℕ) → ℕ → List ℕ → Booking → Booking × Bool
wait_to_schedule_chunk strict chunk_size seen b =
    let (l, added) =
      wait_until_add strict chunk_size (map should_use_relaxed_ram_threshold seen) b.limiter in
    if added
    then (
      record {
        limiter = l;
        current_reserved_capacity = add64 b.current_reserved_capacity chunk_size;
        active_chunk_count = add32 b.active_chunk_count 1;
      },
      true,
    )
    else (record b { limiter = l }, false)

-- What `EnqueueChunk` meets: its reader fails, the worker has ended (with its error, if any), or
-- the worker takes the chunk.
pub data Enqueue : Type 0 where
  read_fails : Enqueue
  worker_ended : Option WriterError → Enqueue
  taken : Enqueue

unfoldable pub enqueue_chunk : ℕ → Enqueue → Booking → Booking × Option WriterError
unfolding release
enqueue_chunk chunk_size read_fails b = (release chunk_size chunk_size b, some read_error)
enqueue_chunk chunk_size (worker_ended (some e)) b = (release chunk_size chunk_size b, some e)
enqueue_chunk chunk_size (worker_ended none) b =
    (release chunk_size chunk_size b, some chunk_writer_already_failed)
enqueue_chunk chunk_size taken b = (b, none)

-- `Flush`, when the worker has ended: what is still reserved goes back to the limiter.
unfoldable pub flush : State → Option (Booking × (Bytes ⊎ WriterError))
flush (running w) = none
flush (failed e w) = some (
  record (w.booking) { limiter = remove w.booking.current_reserved_capacity w.booking.limiter },
  inr e,
)
flush (finished hash w) = some (
  record (w.booking) { limiter = remove w.booking.current_reserved_capacity w.booking.limiter },
  inl hash,
)
