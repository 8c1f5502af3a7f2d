-- ===== src/Scheduler/Final.antt =====
-- All the parts of a job, from the first object scheduled to the final part.
use axxx.Prelude.{
  ℕ, ◌%◌, ◌^◌, ◌≤◌, ◌<◌, ◌≡◌, Bool, true, List, [], ◌∷◌, ◌++◌, String, length, arith,
}
use axxx.Object.{CopyTransfer, FolderPropertyOption}
use axxx.Scheduler.{
  CopyJobPartOrderRequest, CopyJobPartOrderResponse, CopyTransferProcessor, send_part_to_ste,
  dispatch_final_part,
}
use axxx.Scheduler.Parts.{items_of, FullParts}

-- A job of the transfers `ts`: full parts numbered from 0, then a last part that alone is marked as
-- final and that is not empty unless there is no transfer at all.
pub record IsJob (n : ℕ) (ts : List CopyTransfer) (rs : List CopyJobPartOrderRequest) : Type 0 where
  pub parts : List CopyJobPartOrderRequest
  pub last : CopyJobPartOrderRequest
  pub sent : rs ≡ parts ++ (last ∷ [])
  pub full : FullParts n 0 parts
  pub number : last.part_num ≡ length parts % 2 ^ 32
  pub final : last.is_final_part ≡ true
  pub room : length last.transfers.items ≤ n
  pub order : items_of rs ≡ ts
  pub nonempty : 0 < length ts → 0 < length last.transfers.items

module _
    (respond : List CopyJobPartOrderRequest → CopyJobPartOrderRequest → CopyJobPartOrderResponse)
    (path_encode_rules : Bool → String → String) (p : Bool) (f : FolderPropertyOption) where
  pub sent-dispatch :
      (s : CopyTransferProcessor)
      → (dispatch_final_part respond path_encode_rules s).0.sent
        ≡ s.sent ++ (record s.copy_job_template { is_final_part = true } ∷ [])
  unfolding dispatch_final_part send_part_to_ste
  sent-dispatch s = ground arith
