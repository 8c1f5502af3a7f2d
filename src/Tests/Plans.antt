-- ===== src/Tests/Plans.antt =====
-- Small plan files: a layout of the two structs, and orders of one and of two transfers.
use axxx.Prelude.{
  ℕ, ◌+◌, ◌*◌, ◌^◌, ◌<◌, ◌≡◌, refl, true, false, List, [], ◌∷◌, ◌++◌, none, some, arith, length,
  replicate, length-replicate, length-append, nat_beq, if◌then◌else◌, zero, suc,
}
use axxx.Prelude.Int.{ℤ, pos, negsuc}
use axxx.Status.{
  TransferStatus, not_started, started, success, folder_created, failed, blob_tier_failure,
  skipped_entity_already_exists, skipped_blob_has_snapshots, tier_availability_check_failure,
  cancelled,
}
use axxx.Object.{EntityType, file, folder}
use axxx.Writer.{Bytes}
use axxx.Plan.File.{
  Texts, OrderedTransfer, TransferHeader, FileHeader, PartOrder, Image, create, strings_fit,
  attributes_fit,
}
use axxx.Plan.Reading.{transfer_texts, transfer_header, command_string}
use axxx.Plan.FileLaws.{strings_of}
use axxx.Plan.RoundTrip.{create-transfer_texts}
use axxx.Plan.Overflow.{create-overflow}

abbrev header_image : FileHeader → Bytes
header_image h = h.command_string_length ∷ h.num_transfers ∷ []

abbrev header_view : Bytes → FileHeader
header_view (a ∷ b ∷ []) = record { command_string_length = a; num_transfers = b }
header_view _ = record { command_string_length = 0; num_transfers = 0 }

abbrev header_layout : Image FileHeader
header_layout = record {
  size = 2;
  image = header_image;
  view = header_view;
  length_image = λ h. refl;
  view_image = λ h. refl;
}

abbrev status_byte : TransferStatus → ℕ
status_byte not_started = 0
status_byte started = 1
status_byte success = 2
status_byte folder_created = 3
status_byte failed = 4
status_byte blob_tier_failure = 5
status_byte skipped_entity_already_exists = 6
status_byte skipped_blob_has_snapshots = 7
status_byte tier_availability_check_failure = 8
status_byte cancelled = 9

abbrev byte_status : ℕ → TransferStatus
byte_status n =
    if nat_beq n 0
    then not_started
    else if nat_beq n 1
    then started
    else if nat_beq n 2
    then success
    else if nat_beq n 3
    then folder_created
    else if nat_beq n 4
    then failed
    else if nat_beq n 5
    then blob_tier_failure
    else if nat_beq n 6
    then skipped_entity_already_exists
    else if nat_beq n 7
    then skipped_blob_has_snapshots
    else if nat_beq n 8
    then tier_availability_check_failure
    else cancelled

byte_status_lem : (s : TransferStatus) → byte_status (status_byte s) ≡ s
byte_status_lem not_started = refl
byte_status_lem started = refl
byte_status_lem success = refl
byte_status_lem folder_created = refl
byte_status_lem failed = refl
byte_status_lem blob_tier_failure = refl
byte_status_lem skipped_entity_already_exists = refl
byte_status_lem skipped_blob_has_snapshots = refl
byte_status_lem tier_availability_check_failure = refl
byte_status_lem cancelled = refl

abbrev sign_of : ℤ → ℕ
sign_of (pos n) = 0
sign_of (negsuc n) = 1

abbrev size_of : ℤ → ℕ
size_of (pos n) = n
size_of (negsuc n) = n

abbrev int_of : ℕ → ℕ → ℤ
int_of s n = if nat_beq s 0 then pos n else negsuc n

int_of_lem : (i : ℤ) → int_of (sign_of i) (size_of i) ≡ i
int_of_lem (pos n) = refl
int_of_lem (negsuc n) = refl

abbrev kind_byte : EntityType → ℕ
kind_byte file = 0
kind_byte folder = 1

abbrev byte_kind : ℕ → EntityType
byte_kind n = if nat_beq n 0 then file else folder

byte_kind_lem : (k : EntityType) → byte_kind (kind_byte k) ≡ k
byte_kind_lem file = refl
byte_kind_lem folder = refl

abbrev texts_image : Texts ℕ → Bytes → Bytes
texts_image t rest =
    t.source ∷ t.destination ∷ t.content_type ∷ t.content_encoding ∷ t.content_language
    ∷ t.content_disposition ∷ t.cache_control ∷ t.content_md5 ∷ t.metadata ∷ t.blob_type
    ∷ t.blob_tier ∷ t.blob_version_id ∷ t.blob_snapshot_id ∷ t.blob_tags ∷ rest

abbrev transfer_image : TransferHeader → Bytes
transfer_image h =
    h.src_offset
    ∷ kind_byte h.entity_type
    ∷ h.modified_time
    ∷ h.source_size
    ∷ h.completion_time
    ∷ status_byte h.changing.atomic_transfer_status
    ∷ sign_of h.changing.atomic_error_code
    ∷ size_of h.changing.atomic_error_code
    ∷ texts_image h.lengths []

abbrev nth : ℕ → Bytes → ℕ
nth n [] = 0
nth zero (b ∷ bytes) = b
nth (suc n) (b ∷ bytes) = nth n bytes

abbrev transfer_view : Bytes → TransferHeader
transfer_view b = record {
  src_offset = nth 0 b;
  entity_type = byte_kind (nth 1 b);
  modified_time = nth 2 b;
  source_size = nth 3 b;
  completion_time = nth 4 b;
  changing = record {
    atomic_transfer_status = byte_status (nth 5 b);
    atomic_error_code = int_of (nth 6 b) (nth 7 b);
  };
  lengths = record {
    source = nth 8 b;
    destination = nth 9 b;
    content_type = nth 10 b;
    content_encoding = nth 11 b;
    content_language = nth 12 b;
    content_disposition = nth 13 b;
    cache_control = nth 14 b;
    content_md5 = nth 15 b;
    metadata = nth 16 b;
    blob_type = nth 17 b;
    blob_tier = nth 18 b;
    blob_version_id = nth 19 b;
    blob_snapshot_id = nth 20 b;
    blob_tags = nth 21 b;
  };
}

transfer_view_image : (h : TransferHeader) → transfer_view (transfer_image h) ≡ h
transfer_view_image h =
    rw
      (
        byte_kind_lem h.entity_type,
        byte_status_lem h.changing.atomic_transfer_status,
        int_of_lem h.changing.atomic_error_code,
      )
      refl

abbrev transfer_layout : Image TransferHeader
transfer_layout = record {
  size = 22;
  image = transfer_image;
  view = transfer_view;
  length_image = λ h. refl;
  view_image = transfer_view_image;
}

abbrev texts : Bytes → Bytes → Bytes → Texts Bytes
texts source destination content_type = record {
  source = source;
  destination = destination;
  content_type = content_type;
  content_encoding = [];
  content_language = [];
  content_disposition = [];
  cache_control = [];
  content_md5 = 9 ∷ 9 ∷ [];
  metadata = [];
  blob_type = [];
  blob_tier = [];
  blob_version_id = [];
  blob_snapshot_id = [];
  blob_tags = 5 ∷ [];
}

abbrev transfer_of : Texts Bytes → OrderedTransfer
transfer_of t = record { texts = t; entity_type = file; last_modified_time = 7; source_size = 100 }

abbrev short : OrderedTransfer
short = transfer_of (texts (1 ∷ 2 ∷ []) (3 ∷ []) [])

abbrev typed : OrderedTransfer
typed = transfer_of (texts (4 ∷ []) (3 ∷ []) (8 ∷ []))

abbrev order_of : List OrderedTransfer → PartOrder
order_of transfers = record {
  source_root = 47 ∷ [];
  source_extra_query = [];
  destination_root = 47 ∷ 98 ∷ [];
  dest_extra_query = [];
  attributes = ((1 ∷ []), 256) ∷ [];
  command_string = 99 ∷ [];
  transfers = transfers;
}

fits_both : strings_fit (order_of (short ∷ typed ∷ [])) ≡ true
unfolding strings_fit attributes_fit
fits_both = refl

create-transfer_texts_example :
    (stored : Bytes) × (create header_layout transfer_layout false (order_of (short ∷ typed ∷ []))
      ≡ some stored)
    × (command_string header_layout transfer_layout stored ≡ 99 ∷ [])
    × (transfer_texts header_layout transfer_layout stored 1 ≡ some typed.texts)
    × ((jppt : TransferHeader) × (transfer_header header_layout transfer_layout stored 1
          ≡ some jppt)
        × (jppt.entity_type ≡ file)
        × (jppt.modified_time ≡ 7)
        × (jppt.source_size ≡ 100))
create-transfer_texts_example =
    create-transfer_texts header_layout transfer_layout (order_of (short ∷ typed ∷ [])) 1 typed
      fits_both (omega arith, (omega arith, tt)) (omega arith) (omega arith) (omega arith) refl

-- A path of 20000 bytes.
unfoldable long_path : Bytes
long_path = replicate 20000 97

length-long_path : length long_path ≡ 20000
unfolding long_path
length-long_path = length-replicate {A = ℕ} 20000 97

abbrev long : OrderedTransfer
long = transfer_of (texts long_path long_path [])

length-long : length (strings_of long.texts) ≡ 40003
length-long = omega (
  arith,
  length-append long_path (long_path ++ 9 ∷ 9 ∷ 5 ∷ []),
  length-append long_path (9 ∷ 9 ∷ 5 ∷ []),
  length-long_path,
)

small_file : 2 + 1 + 8 + 22 * 2 + length (strings_of long.texts ++ []) < 2 ^ 63
small_file = omega (arith, length-long, length-append (strings_of long.texts) [])

-- Two paths of 20000 bytes each are within the limit of 32767 that is checked.
create-overflow_example :
    create header_layout transfer_layout false (order_of (long ∷ short ∷ [])) ≡ none
create-overflow_example =
    create-overflow header_layout transfer_layout (order_of (long ∷ short ∷ [])) [] long short []
      refl tt (omega (arith, length-long)) small_file
