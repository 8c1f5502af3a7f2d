-- ===== src/Plan/Reading.antt =====
-- The readers of ste/JobPartPlan.go: what a run finds in the file of a job part.
use axxx.Prelude.{
  ℕ, ◌+◌, ◌*◌, ◌^◌, ◌&&◌, [], Option, none, some, ltb, leb, nat_beq, if◌then◌else◌, length, take,
  drop,
}
use axxx.Writer.{Bytes}
use axxx.Prelude.{◌>>=◌}
use axxx.Plan.File.{Texts, TransferHeader, FileHeader, Image, int64_of_int16, align8}

-- `getString`. A length below zero and an end behind the mapped file are faults.
unfoldable pub get_string : Bytes → ℕ → ℕ → Option Bytes
get_string file offset text_length =
    if ltb text_length (2 ^ 15) && leb (offset + text_length) (length file)
    then some (take text_length (drop offset file))
    else none

-- One of the strings that are read if their length is not zero, and the offset behind it.
unfoldable pub next_string : Bytes → ℕ → ℕ → Option (Bytes × ℕ)
unfolding get_string
next_string file offset text_length =
    let found = get_string file offset text_length in
    if nat_beq text_length 0
    then some ([], offset)
    else (do s ← found; some (s, offset + int64_of_int16 text_length))

-- The strings of `TransferSrcDstRelatives`, source and destination.
unfoldable pub relatives_of : Bytes → TransferHeader → Option (Bytes × Bytes)
relatives_of file t = do
  source ← get_string file t.src_offset t.lengths.source
  destination ←
      get_string file (t.src_offset + int64_of_int16 t.lengths.source) t.lengths.destination
  some (source, destination)

-- The strings of `TransferSrcPropertiesAndMetadata`, before metadata and tags are parsed; those of
-- the paths are taken from `relatives_of`.
unfoldable pub texts_of : Bytes → TransferHeader → Option (Texts Bytes)
texts_of file t = do
  (source, destination) ← relatives_of file t
  let start = t.src_offset + int64_of_int16 t.lengths.source + int64_of_int16 t.lengths.destination
  (content_type, o1) ← next_string file start t.lengths.content_type
  (content_encoding, o2) ← next_string file o1 t.lengths.content_encoding
  (content_language, o3) ← next_string file o2 t.lengths.content_language
  (content_disposition, o4) ← next_string file o3 t.lengths.content_disposition
  (cache_control, o5) ← next_string file o4 t.lengths.cache_control
  (content_md5, o6) ← next_string file o5 t.lengths.content_md5
  (metadata, o7) ← next_string file o6 t.lengths.metadata
  (blob_type, o8) ← next_string file o7 t.lengths.blob_type
  (blob_tier, o9) ← next_string file o8 t.lengths.blob_tier
  (blob_version_id, o10) ← next_string file o9 t.lengths.blob_version_id
  (blob_snapshot_id, o11) ← next_string file o10 t.lengths.blob_snapshot_id
  (blob_tags, _) ← next_string file o11 t.lengths.blob_tags
  some (record {
    source = source;
    destination = destination;
    content_type = content_type;
    content_encoding = content_encoding;
    content_language = content_language;
    content_disposition = content_disposition;
    cache_control = cache_control;
    content_md5 = content_md5;
    metadata = metadata;
    blob_type = blob_type;
    blob_tier = blob_tier;
    blob_version_id = blob_version_id;
    blob_snapshot_id = blob_snapshot_id;
    blob_tags = blob_tags;
  })

module _ (header_layout : Image FileHeader) (transfer_layout : Image TransferHeader) where
  unfoldable pub header : Bytes → FileHeader
  header file = header_layout.view (take header_layout.size file)

  -- `Transfer(transferIndex)`.
  unfoldable pub transfer_header : Bytes → ℕ → Option TransferHeader
  unfolding header
  transfer_header file transfer_index =
      let jpph = header file in
      let transfers_offset = align8 (header_layout.size + jpph.command_string_length) in
      if ltb transfer_index jpph.num_transfers
      then some (
          transfer_layout.view (
            take transfer_layout.size
              (drop (transfers_offset + transfer_layout.size * transfer_index) file)))
      else none

  -- The command string, read back.
  unfoldable pub command_string : Bytes → Bytes
  unfolding header
  command_string file = take (header file).command_string_length (drop header_layout.size file)

  -- All strings of one transfer.
  unfoldable pub transfer_texts : Bytes → ℕ → Option (Texts Bytes)
  unfolding transfer_header texts_of
  transfer_texts file transfer_index = do
    jppt ← transfer_header file transfer_index
    texts_of file jppt
