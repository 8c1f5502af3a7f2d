-- ===== src/Scheduler.antt =====
-- cmd/zc_processor.go: `copyTransferProcessor`, which gathers transfers into parts of a job of a
-- given length and sends each to the engine. The engine, called through `Rpc`, is the parameter
-- `respond`: what it answers to a part after the parts it was sent before. `path_encode_rules` and
-- the branch of set-properties (a `FromTo` to `None`) are not modelled, and a dry run prints
-- nothing.
pub mod Parts
pub mod Final
use axxx.Prelude.{
  ℕ, ◌+◌, ◌%◌, ◌^◌, Bool, true, false, List, [], ◌∷◌, ◌++◌, Option, none, some, String, length,
  nat_beq, not, ◌&&◌, ◌==◌, string_eq, if◌then◌else◌,
}
use axxx.Object.{StoredObject, CopyTransfer, FolderPropertyOption, is_file, to_new_copy_transfer}

pub record Transfers : Type 0 where
  pub items : List CopyTransfer
  pub total_size_in_bytes : ℕ
  pub file_transfer_count : ℕ
  pub folder_transfer_count : ℕ

-- The fields of the request that the processor writes.
pub record CopyJobPartOrderRequest : Type 0 where
  pub part_num : ℕ
  pub is_final_part : Bool
  pub transfers : Transfers

pub record CopyJobPartOrderResponse : Type 0 where
  pub error_msg : String
  pub job_started : Bool

-- The processor, with the parts it has sent and the calls of its two reporting functions, both of
-- which are given. Sizes are not negative.
pub record CopyTransferProcessor : Type 0 where
  pub num_of_transfers_per_part : ℕ
  pub copy_job_template : CopyJobPartOrderRequest
  pub preserve_access_tier : Bool
  pub folder_properties_option : FolderPropertyOption
  pub dryrun_mode : Bool
  pub sent : List CopyJobPartOrderRequest
  pub first_part_dispatched : List Bool
  pub final_part_dispatched : ℕ

pub data DispatchError : Type 0 where
  nothing_scheduled : DispatchError
  failed : String → DispatchError

abbrev pub no_transfers_scheduled_err : String
no_transfers_scheduled_err = "NoTransfersScheduledErr"

abbrev pub no_transfers : Transfers
no_transfers = record {
  items = [];
  total_size_in_bytes = 0;
  file_transfer_count = 0;
  folder_transfer_count = 0;
}

unfoldable pub new_copy_transfer_processor :
    ℕ → FolderPropertyOption → Bool → Bool → CopyTransferProcessor
new_copy_transfer_processor num_of_transfers_per_part fpo preserve_access_tier dryrun_mode =
    record {
      num_of_transfers_per_part = num_of_transfers_per_part;
      copy_job_template = record { part_num = 0; is_final_part = false; transfers = no_transfers };
      preserve_access_tier = preserve_access_tier;
      folder_properties_option = fpo;
      dryrun_mode = dryrun_mode;
      sent = [];
      first_part_dispatched = [];
      final_part_dispatched = 0;
    }

-- Appends a transfer and counts it: lines 176-182 of `scheduleCopyTransfer`.
unfoldable pub append_transfer : CopyTransfer → Transfers → Transfers
unfolding is_file
append_transfer t ts = record {
  items = ts.items ++ (t ∷ []);
  total_size_in_bytes = (ts.total_size_in_bytes + t.source_size) % 2 ^ 64;
  file_transfer_count =
      if is_file t.entity_type
      then (ts.file_transfer_count + 1) % 2 ^ 32
      else ts.file_transfer_count;
  folder_transfer_count =
      if is_file t.entity_type
      then ts.folder_transfer_count
      else (ts.folder_transfer_count + 1) % 2 ^ 32;
}

unfoldable pub append_copy_transfer : CopyTransfer → CopyTransferProcessor → CopyTransferProcessor
unfolding append_transfer
append_copy_transfer t s = record s {
  copy_job_template = record s.copy_job_template {
    transfers = append_transfer t s.copy_job_template.transfers;
  };
}

-- The reset of the buffer after a part was sent: lines 170-171.
unfoldable pub next_part : CopyTransferProcessor → CopyTransferProcessor
next_part s = record s {
  copy_job_template = record s.copy_job_template {
    transfers = no_transfers;
    part_num = (s.copy_job_template.part_num + 1) % 2 ^ 32;
  };
}

module _
    (respond : List CopyJobPartOrderRequest → CopyJobPartOrderRequest → CopyJobPartOrderResponse)
    (path_encode_rules : Bool → String → String) where
  unfoldable pub send_part_to_ste :
      CopyTransferProcessor → CopyTransferProcessor × CopyJobPartOrderResponse
  send_part_to_ste s =
      let resp = respond s.sent s.copy_job_template in
      (
        record s {
          sent = s.sent ++ (s.copy_job_template ∷ []);
          first_part_dispatched =
              if nat_beq s.copy_job_template.part_num 0
              then s.first_part_dispatched ++ (resp.job_started ∷ [])
              else s.first_part_dispatched;
        },
        resp,
      )

  unfoldable pub copy_transfer_of : CopyTransferProcessor → StoredObject → Option CopyTransfer
  copy_transfer_of s stored_object =
      to_new_copy_transfer (path_encode_rules true stored_object.relative_path)
        (path_encode_rules false stored_object.relative_path) s.preserve_access_tier
        s.folder_properties_option stored_object

  -- `none` is success, `some` the error message of the engine.
  unfoldable pub schedule_copy_transfer :
      StoredObject → CopyTransferProcessor → CopyTransferProcessor × Option String
  unfolding copy_transfer_of send_part_to_ste
  schedule_copy_transfer stored_object s = elim (copy_transfer_of s stored_object) [
    | none ↦ (s, none)
    | some t ↦
        if s.dryrun_mode
        then (s, none)
        else if nat_beq (length s.copy_job_template.transfers.items) s.num_of_transfers_per_part
        then (let (s', resp) = send_part_to_ste s in
            if not (resp.error_msg == "")
            then (s', some resp.error_msg)
            else (append_copy_transfer t (next_part s'), none))
        else (append_copy_transfer t s, none)
  ]

  unfoldable pub dispatch_final_part :
      CopyTransferProcessor → CopyTransferProcessor × Option DispatchError
  unfolding send_part_to_ste
  dispatch_final_part s =
      let s1 = record s {
        copy_job_template = record s.copy_job_template { is_final_part = true };
      } in
      let (s', resp) = send_part_to_ste s1 in
      if not resp.job_started
      then (if resp.error_msg == no_transfers_scheduled_err
          then (s', some nothing_scheduled)
          else (s', some (failed resp.error_msg)))
      else (record s' { final_part_dispatched = s'.final_part_dispatched + 1 }, none)

  -- An enumeration that hands each object to `schedule_copy_transfer`, up to the first error.
  unfoldable pub schedule_all :
      List StoredObject → CopyTransferProcessor → CopyTransferProcessor × Option String
  unfolding schedule_copy_transfer
  schedule_all [] s = (s, none)
  schedule_all (o ∷ os) s =
      let (s', err) = schedule_copy_transfer o s in
      let rest = schedule_all os s' in elim err [ none ↦ rest | some e ↦ (s', some e) ]
