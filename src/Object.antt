-- ===== src/Object.antt =====
-- cmd/zc_enumerator.go: what an enumeration finds, a file or a folder, and the transfer made of it.
-- A `time.Time` is a number, 0 for the zero time; Azure's string types are strings.
use axxx.Prelude.{
  ℕ, Bool, true, false, List, Option, none, some, String, ltb, nat_beq, ◌==◌, ◌&&◌, not,
  if◌then◌else◌, string_eq,
}

pub data EntityType : Type 0 where
  file folder : EntityType

pub data FolderPropertyOption : Type 0 where
  no_folders all_folders_except_root all_folders : FolderPropertyOption

abbrev pub Metadata : Type 0
Metadata = List (String × String)

pub record StoredObject : Type 0 where
  pub name : String
  pub entity_type : EntityType
  pub last_modified_time : ℕ
  pub smb_last_modified_time : ℕ
  pub size : ℕ
  pub md5 : List ℕ
  pub blob_type : String
  pub content_disposition : String
  pub cache_control : String
  pub content_language : String
  pub content_encoding : String
  pub content_type : String
  pub relative_path : String
  pub container_name : String
  pub dst_container_name : String
  pub blob_access_tier : String
  pub archive_status : String
  pub metadata : Metadata
  pub blob_version_id : String
  pub blob_tags : Metadata
  pub blob_snapshot_id : String
  pub blob_deleted : Bool
  pub lease_state : String
  pub lease_status : String
  pub lease_duration : String

pub record CopyTransfer : Type 0 where
  pub source : String
  pub destination : String
  pub entity_type : EntityType
  pub last_modified_time : ℕ
  pub source_size : ℕ
  pub content_type : String
  pub content_encoding : String
  pub content_disposition : String
  pub content_language : String
  pub cache_control : String
  pub content_md5 : List ℕ
  pub metadata : Metadata
  pub blob_type : String
  pub blob_tier : String
  pub blob_version_id : String
  pub blob_tags : Metadata
  pub blob_snapshot_id : String

unfoldable pub is_file : EntityType → Bool
is_file file = true
is_file folder = false

-- The last-modified time that counts: the one of SMB if there is one.
unfoldable pub effective_time : StoredObject → ℕ
effective_time s =
    if not (nat_beq s.smb_last_modified_time 0)
    then s.smb_last_modified_time
    else s.last_modified_time

unfoldable pub is_more_recent_than : StoredObject → StoredObject → Bool
unfolding effective_time
is_more_recent_than s stored_object2 = ltb (effective_time stored_object2) (effective_time s)

unfoldable pub is_single_source_file : StoredObject → Bool
unfolding is_file
is_single_source_file s = s.relative_path == "" && is_file s.entity_type

unfoldable pub is_source_root_folder : StoredObject → Bool
unfolding is_file
is_source_root_folder s = s.relative_path == "" && not (is_file s.entity_type)

-- `Unspecified`, for which the source panics on a folder, is not a value of the option here.
unfoldable pub is_compatible_with_fpo : FolderPropertyOption → StoredObject → Bool
unfolding is_source_root_folder is_file
is_compatible_with_fpo fpo s = if is_file s.entity_type then true else elim fpo [
  | no_folders ↦ false
  | all_folders_except_root ↦ not (is_source_root_folder s)
  | all_folders ↦ true
]

-- `ToNewCopyTransfer` with `steWillAutoDecompress` off, as the processor of sync, remove and
-- set-properties calls it; `none` is the false `shouldSendToSte`.
unfoldable pub to_new_copy_transfer :
    String → String → Bool → FolderPropertyOption → StoredObject → Option CopyTransfer
unfolding is_compatible_with_fpo
to_new_copy_transfer source destination preserve_blob_tier folder_property_option s =
    if not (is_compatible_with_fpo folder_property_option s)
    then none
    else some (record {
      source = source;
      destination = destination;
      entity_type = s.entity_type;
      last_modified_time = s.last_modified_time;
      source_size = s.size;
      content_type = s.content_type;
      content_encoding = s.content_encoding;
      content_disposition = s.content_disposition;
      content_language = s.content_language;
      cache_control = s.cache_control;
      content_md5 = s.md5;
      metadata = s.metadata;
      blob_type = s.blob_type;
      blob_tier = if preserve_blob_tier then s.blob_access_tier else "";
      blob_version_id = s.blob_version_id;
      blob_tags = s.blob_tags;
      blob_snapshot_id = s.blob_snapshot_id;
    })
