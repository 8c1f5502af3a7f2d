-- ===== src/ChunkReader.antt =====
-- common/singleChunkReader.go: the reader of one chunk of a local file. It reads the chunk into
-- memory when that is needed, gives the memory back at the end of the chunk or when it is closed,
-- and reads the file again if it is rewound after that. Offsets are int64, held as their bits;
-- `none` is a panic. `Close` may run while another method waits for the disk; every other method is
-- one step.
pub mod Holding
pub mod Calls
pub mod Requests
pub mod Content
pub mod Cursor
use axxx.Prelude.{
  ℕ, ◌+◌, ◌-◌, ◌^◌, Bool, true, false, ◌&&◌, ◌||◌, not, List, [], ◌∷◌, Option, none, some, nat_beq,
  leb, ltb, if◌then◌else◌, length, take, drop,
}
use axxx.Limiter.{add64, sub64}
use axxx.Writer.{Bytes}

-- `in_ram` is the count of the cache limiter and `rented` how many slices are taken from the pool,
-- both shared with other readers; `reader_length` is not negative.
pub record ChunkReader : Type 0 where
  pub reader_length : ℕ
  pub position_in_chunk : ℕ
  pub buffer : Option Bytes
  pub is_closed : Bool
  pub in_ram : ℕ
  pub rented : ℕ

pub data ReadError : Type 0 where
  cannot_open wait_cancelled disk_error closed_while_reading context_done wrong_length : ReadError

-- What happens when the chunk is to be fetched: whether the file cannot be opened again, whether
-- the wait for memory is cancelled, what the disk gives, if it does, and whether the reader is
-- closed and the context cancelled in the meantime.
pub record Fetch : Type 0 where
  pub open_fails : Bool
  pub wait_fails : Bool
  pub disk : Option Bytes
  pub closed_meanwhile : Bool
  pub cancelled_meanwhile : Bool

-- What a read gives: bytes, perhaps the last ones, or an error.
pub data ReadResult : Type 0 where
  got : Bytes → ReadResult
  eof : Bytes → ReadResult
  failed : ReadError → ReadResult

pub data Whence : Type 0 where
  seek_start seek_current seek_end : Whence

-- A new reader of a chunk with this content; an empty chunk has a reader of its own kind, which
-- gives the end at once.
abbrev pub new_reader : ℕ → ℕ → Bytes → ChunkReader
new_reader in_ram rented content = record {
  reader_length = length content;
  position_in_chunk = 0;
  buffer = none;
  is_closed = false;
  in_ram = in_ram;
  rented = rented;
}

abbrev pub all_zero : Bytes → Bool
all_zero [] = true
all_zero (b ∷ bytes) = nat_beq b 0 && all_zero bytes

unfoldable pub has_prefetched_entirely_zeros : ChunkReader → Bool
has_prefetched_entirely_zeros cr = elim cr.buffer [ none ↦ false | some bytes ↦ all_zero bytes ]

unfoldable pub return_slice : ChunkReader → ChunkReader
return_slice cr = record cr { in_ram = sub64 cr.in_ram cr.reader_length; rented = cr.rented - 1 }

unfoldable pub close_buffer : ChunkReader → ChunkReader
close_buffer cr = elim cr.buffer [ none ↦ cr | some _ ↦ record (return_slice cr) { buffer = none } ]

unfoldable pub close : ChunkReader → ChunkReader
close cr = record (close_buffer cr) { is_closed = true }

-- Memory and a slice are taken for the chunk.
unfoldable pub rent_slice : ChunkReader → ChunkReader
rent_slice cr = record cr { in_ram = add64 cr.in_ram cr.reader_length; rented = cr.rented + 1 }

-- What is found when the disk has answered.
unfoldable pub check_read : Fetch → ChunkReader → Option ReadError
check_read f cr = elim f.disk [
  | none ↦ some disk_error
  | some bytes ↦
      if cr.is_closed
      then some closed_while_reading
      else if f.cancelled_meanwhile
      then some context_done
      else if nat_beq (length bytes) cr.reader_length
      then none
      else some wrong_length
]

abbrev pub or_empty : Option Bytes → Bytes
or_empty none = []
or_empty (some bytes) = bytes

-- The buffer is kept, or given back with the error.
unfoldable pub keep_buffer : Fetch → ChunkReader → Option ReadError → Option ReadError × ChunkReader
keep_buffer f cr none = (none, record cr { buffer = some (or_empty f.disk) })
keep_buffer f cr (some err) = (some err, return_slice cr)

-- The chunk is read from the disk; `none` is the error nil.
unfoldable pub fetch : Fetch → ChunkReader → Option ReadError × ChunkReader
fetch f cr =
    let renting = rent_slice cr in
    let after = if f.closed_meanwhile then close renting else renting in
    keep_buffer f after (check_read f after)

unfoldable pub blocking_prefetch : Fetch → ChunkReader → Option ReadError × ChunkReader
blocking_prefetch f cr = elim cr.buffer [
  | some _ ↦ (none, cr)
  | none ↦ if f.wait_fails then (some wait_cancelled, cr) else fetch f cr
]

unfoldable pub retry_blocking_prefetch_if_necessary :
    Fetch → ChunkReader → Option ReadError × ChunkReader
retry_blocking_prefetch_if_necessary f cr = elim cr.buffer [
  | some _ ↦ (none, cr)
  | none ↦ if f.open_fails then (some cannot_open, cr) else blocking_prefetch f cr
]

-- `Seek`; `none` is its error, and the position stays.
unfoldable pub new_position : ℕ → Whence → ChunkReader → ℕ
new_position offset seek_start cr = offset
new_position offset seek_current cr = add64 cr.position_in_chunk offset
new_position offset seek_end cr = sub64 cr.reader_length offset

unfoldable pub seek : ℕ → Whence → ChunkReader → Option ℕ × ChunkReader
seek offset whence cr =
    let position = new_position offset whence cr in
    let clamped = if ltb cr.reader_length position then cr.reader_length else position in
    if leb (2 ^ 63) position
    then (none, cr)
    else (some clamped, record cr { position_in_chunk = clamped })

-- Bytes are copied from the buffer; at the end of the chunk the buffer may be freed.
unfoldable pub copy_out : ℕ → Bool → Bytes → ChunkReader → ReadResult × ChunkReader
copy_out n free_buffer_on_eof buffer cr =
    let bytes = take n (drop cr.position_in_chunk buffer) in
    let moved = record cr { position_in_chunk = cr.position_in_chunk + length bytes } in
    if leb cr.reader_length moved.position_in_chunk
    then (eof bytes, (if free_buffer_on_eof then close_buffer moved else moved))
    else (got bytes, moved)

-- The checks after the fetch, two of which repeat what was checked before.
unfoldable pub after_fetch :
    ℕ → Bool → Option ReadError → ChunkReader → Option (ReadResult × ChunkReader)
after_fetch n free_buffer_on_eof (some err) cr = some (failed err, cr)
after_fetch n free_buffer_on_eof none cr = elim cr.buffer [
  | none ↦ none
  | some buffer ↦
      if leb cr.reader_length cr.position_in_chunk
      then none
      else if nat_beq cr.reader_length (length buffer)
      then some (copy_out n free_buffer_on_eof buffer cr)
      else none
]

-- `doRead` into `n` bytes.
unfoldable pub do_read : Fetch → ℕ → Bool → ChunkReader → Option (ReadResult × ChunkReader)
do_read f n free_buffer_on_eof cr =
    let fetched = retry_blocking_prefetch_if_necessary f cr in
    if leb cr.reader_length cr.position_in_chunk
    then some (eof [], cr)
    else after_fetch n free_buffer_on_eof fetched.0 fetched.1

abbrev pub read : Fetch → ℕ → ChunkReader → Option (ReadResult × ChunkReader)
read f n cr = do_read f n true cr

-- The leading bytes, and a rewind, unless they cannot be read.
unfoldable pub rewind : Option (ReadResult × ChunkReader) → Option (Bytes × ChunkReader)
rewind none = none
rewind (some (failed _, cr)) = some ([], cr)
rewind (some (got bytes, cr)) = some (bytes, (seek 0 seek_start cr).1)
rewind (some (eof bytes, cr)) = some (bytes, (seek 0 seek_start cr).1)

unfoldable pub get_prologue_state : Fetch → ChunkReader → Option (Bytes × ChunkReader)
get_prologue_state f cr = rewind (do_read f 512 false cr)

-- What is written to the hasher.
unfoldable pub write_buffer_to : ChunkReader → Option Bytes
write_buffer_to cr = cr.buffer
