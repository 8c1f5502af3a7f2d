-- ===== src/Download/Chunks.antt =====
-- The loop of ste/xfer-remoteToLocal-file.go that schedules the chunks of a download, and the
-- number of chunks that is computed beforehand. Offsets are int64, held as their bits.
use axxx.Prelude.{
  ℕ, zero, suc, ◌+◌, ◌/◌, ◌%◌, ◌^◌, Bool, ◌||◌, List, [], ◌∷◌, Option, none, some, ltb, leb,
  nat_beq, if◌then◌else◌, take, drop,
}
use axxx.Limiter.{add64, sub64, le64}
use axxx.Writer.{Bytes, FileChunk}

-- `a < b` for an int64 `a` and a `b` that is not negative.
abbrev pub lt64 : ℕ → ℕ → Bool
lt64 a b = leb (2 ^ 63) a || ltb a b

-- `numChunks`, for a chunk size that is not 0.
unfoldable pub number_of_chunks : ℕ → ℕ → ℕ
number_of_chunks file_size download_chunk_size =
    if nat_beq (file_size % download_chunk_size) 0
    then file_size / download_chunk_size % 2 ^ 32
    else (file_size / download_chunk_size + 1) % 2 ^ 32

unfoldable pub adjusted_chunk_size : ℕ → ℕ → ℕ → ℕ
adjusted_chunk_size file_size download_chunk_size start_index =
    if le64 (add64 start_index download_chunk_size) file_size
    then download_chunk_size
    else sub64 file_size start_index

-- The loop, on fuel: offset and size of each chunk that is scheduled.
unfoldable pub schedule_chunks : ℕ → ℕ → ℕ → ℕ → Option (List (ℕ × ℕ))
schedule_chunks zero file_size download_chunk_size start_index = none
schedule_chunks (suc fuel) file_size download_chunk_size start_index =
    let rest =
      schedule_chunks fuel file_size download_chunk_size (add64 start_index download_chunk_size) in
    if lt64 start_index file_size
    then elim rest [
      | none ↦ none
      | some ids ↦
          some ((start_index, adjusted_chunk_size file_size download_chunk_size start_index) ∷ ids)
    ]
    else some []

-- One round more than there are chunks.
unfoldable pub rounds : ℕ → ℕ → ℕ
rounds file_size download_chunk_size = suc (suc (file_size / download_chunk_size))

-- The chunk of a source's content that has this offset and size.
abbrev pub chunk_of : Bytes → ℕ × ℕ → FileChunk
chunk_of content (offset, size) = record {
  offset_in_file = offset;
  id_length = size;
  contents = take size (drop offset content);
}
