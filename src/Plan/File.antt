-- ===== src/Plan/File.antt =====
-- ste/JobPartPlanFileName.go and the readers of ste/JobPartPlan.go: the file of a job part, which
-- `Create` writes and later runs map into memory. A string is its bytes; the metadata and the tags
-- of a transfer are held as their text (both renderings of the tags that the code makes have the
-- same length). An int16 and an int64 are held as their bits. `none` is a panic. How Go lays a
-- struct out in memory is a parameter, `Image`. Of the header, the fields that only copy a string
-- or a setting of the order are left out.
use axxx.Prelude.{
  ℕ, ◌+◌, ◌-◌, ◌*◌, ◌/◌, ◌%◌, ◌^◌, ◌≡◌, Bool, true, ◌&&◌, List, [], ◌∷◌, ◌++◌, Option, none, some,
  ltb, leb, nat_beq, if◌then◌else◌, length, replicate,
}
use axxx.Prelude.{◌>>=◌}
use axxx.Prelude.Int.{pos}
use axxx.Status.{started}
use axxx.Object.{EntityType}
use axxx.Plan.{JobPartPlanTransfer}
use axxx.Writer.{Bytes}
use axxx.Limiter.{add64}

-- The strings of a transfer, in the order of the file, or their lengths.
pub record Texts (A : Type 0) : Type 0 where
  pub source : A
  pub destination : A
  pub content_type : A
  pub content_encoding : A
  pub content_language : A
  pub content_disposition : A
  pub cache_control : A
  pub content_md5 : A
  pub metadata : A
  pub blob_type : A
  pub blob_tier : A
  pub blob_version_id : A
  pub blob_snapshot_id : A
  pub blob_tags : A

-- A transfer of the order.
pub record OrderedTransfer : Type 0 where
  pub texts : Texts Bytes
  pub entity_type : EntityType
  pub last_modified_time : ℕ
  pub source_size : ℕ

-- `JobPartPlanTransfer`; `changing` are the fields that change while the job runs.
pub record TransferHeader : Type 0 where
  pub src_offset : ℕ
  pub lengths : Texts ℕ
  pub entity_type : EntityType
  pub modified_time : ℕ
  pub source_size : ℕ
  pub completion_time : ℕ
  pub changing : JobPartPlanTransfer

-- `JobPartPlanHeader`.
pub record FileHeader : Type 0 where
  pub command_string_length : ℕ
  pub num_transfers : ℕ

-- `attributes` are the seven strings of the blob attributes, each with the size of its array.
pub record PartOrder : Type 0 where
  pub source_root : Bytes
  pub source_extra_query : Bytes
  pub destination_root : Bytes
  pub dest_extra_query : Bytes
  pub attributes : List (Bytes × ℕ)
  pub command_string : Bytes
  pub transfers : List OrderedTransfer

-- The bytes of a struct in memory.
pub record Image (A : Type 0) : Type 0 where
  pub size : ℕ
  pub image : A → Bytes
  pub view : Bytes → A
  pub length_image : (a : A) → length (image a) ≡ size
  pub view_image : (a : A) → view (image a) ≡ a

-- `int16(n)`, and `int64(n)` of an int16.
abbrev pub int16 : ℕ → ℕ
int16 n = n % 2 ^ 16

abbrev pub int64_of_int16 : ℕ → ℕ
int64_of_int16 n = if ltb n (2 ^ 15) then n else n + (2 ^ 64 - 2 ^ 16)

-- `(n + 7) & ^7`.
abbrev pub align8 : ℕ → ℕ
align8 n = (n + 7) / 8 * 8

abbrev pub max_int16 : ℕ
max_int16 = 32767

unfoldable pub lengths_of : Texts Bytes → Texts ℕ
lengths_of t = record {
  source = int16 (length t.source);
  destination = int16 (length t.destination);
  content_type = int16 (length t.content_type);
  content_encoding = int16 (length t.content_encoding);
  content_language = int16 (length t.content_language);
  content_disposition = int16 (length t.content_disposition);
  cache_control = int16 (length t.cache_control);
  content_md5 = int16 (length t.content_md5);
  metadata = int16 (length t.metadata);
  blob_type = int16 (length t.blob_type);
  blob_tier = int16 (length t.blob_tier);
  blob_version_id = int16 (length t.blob_version_id);
  blob_snapshot_id = int16 (length t.blob_snapshot_id);
  blob_tags = int16 (length t.blob_tags);
}

-- The sum of the lengths, which the code computes as an int16.
unfoldable pub total_length : Texts ℕ → ℕ
total_length n = int16 (
    n.source
    + (n.destination
        + (n.content_type
            + (n.content_encoding
                + (n.content_language
                    + (n.content_disposition
                        + (n.cache_control
                            + (n.content_md5
                                + (n.metadata
                                    + (n.blob_type
                                        + (n.blob_tier
                                            + (n.blob_version_id
                                                + (n.blob_snapshot_id + n.blob_tags)))))))))))))

unfoldable pub new_transfer_header : ℕ → OrderedTransfer → Option TransferHeader
unfolding lengths_of
new_transfer_header current_src_string_offset t =
    if leb (length t.texts.source) max_int16
      && (leb (length t.texts.destination) max_int16
          && (leb (length t.texts.metadata) max_int16 && leb (length t.texts.blob_tags) max_int16))
    then some (record {
      src_offset = current_src_string_offset;
      lengths = lengths_of t.texts;
      entity_type = t.entity_type;
      modified_time = t.last_modified_time;
      source_size = t.source_size;
      completion_time = 0;
      changing = record { atomic_transfer_status = started; atomic_error_code = pos 0 };
    })
    else none

-- The loop that makes the headers of the transfers, from the offset of the first one's strings.
unfoldable pub transfer_headers : ℕ → List OrderedTransfer → Option (List TransferHeader)
transfer_headers current_src_string_offset [] = some []
transfer_headers current_src_string_offset (t ∷ ts) = do
  jppt ← new_transfer_header current_src_string_offset t
  rest ←
      transfer_headers
        (add64 current_src_string_offset (int64_of_int16 (total_length jppt.lengths))) ts
  some (jppt ∷ rest)

unfoldable pub write_string : Bytes → Bytes → Bytes
write_string s file = if nat_beq (length s) 0 then file else file ++ s

unfoldable pub write_transfer_strings : Texts Bytes → Bytes → Bytes
write_transfer_strings t file =
    let named = (file ++ t.source) ++ t.destination in
    let typed =
      write_string t.content_language
        (write_string t.content_encoding (write_string t.content_type named)) in
    let hashed =
      write_string t.content_md5
        (write_string t.cache_control (write_string t.content_disposition typed)) in
    let tiered =
      write_string t.blob_tier (write_string t.blob_type (write_string t.metadata hashed)) in
    write_string t.blob_tags
      (write_string t.blob_snapshot_id (write_string t.blob_version_id tiered))

-- The loop that writes the strings; `eof` is the length of the file.
unfoldable pub write_strings : List OrderedTransfer → List TransferHeader → Bytes → Option Bytes
unfolding write_transfer_strings
write_strings (t ∷ ts) (jppt ∷ jppts) file =
    let rest = write_strings ts jppts (write_transfer_strings t.texts file) in
    if nat_beq (length file) jppt.src_offset then rest else none
write_strings _ _ file = some file

unfoldable pub attributes_fit : List (Bytes × ℕ) → Bool
attributes_fit [] = true
attributes_fit ((s, capacity) ∷ rest) = leb (length s) capacity && attributes_fit rest

unfoldable pub strings_fit : PartOrder → Bool
unfolding attributes_fit
strings_fit order =
    leb (length order.source_root) 1000
    && (leb (length order.source_extra_query) 1000
        && (leb (length order.destination_root) 1000
            && (leb (length order.dest_extra_query) 1000 && attributes_fit order.attributes)))

unfoldable pub new_header : PartOrder → FileHeader
new_header order = record {
  command_string_length = length order.command_string % 2 ^ 32;
  num_transfers = length order.transfers % 2 ^ 32;
}

-- Images one after another.
unfoldable pub images : {A : Type 0} → Image A → List A → Bytes
images layout [] = []
images layout (a ∷ as') = layout.image a ++ images layout as'

module _ (header_layout : Image FileHeader) (transfer_layout : Image TransferHeader) where
  -- `Create`; `exists` is whether the file is there before.
  unfoldable pub create : Bool → PartOrder → Option Bytes
  unfolding strings_fit new_header images transfer_headers write_strings
  create exists order =
      let start = header_layout.image (new_header order) ++ order.command_string in
      let padded = start ++ replicate (align8 (length start) - length start) 0 in
      let file = (do
        jppts ←
            transfer_headers (length padded + transfer_layout.size * length order.transfers)
              order.transfers
        write_strings order.transfers jppts (padded ++ images transfer_layout jppts)) in
      if exists then none else if strings_fit order then file else none
