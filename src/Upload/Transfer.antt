-- ===== src/Upload/Transfer.antt =====
-- An upload or a copy from its start to its report.
use axxx.Prelude.{◌≡◌, true, false, ◌&&◌, none, if◌then◌else◌}
use axxx.Download.{JobPartTransferMgr, set_destination_is_modified}
use axxx.Download.Transfer.{New}
use axxx.Upload.{Source, Answers, Sent}
use axxx.Upload.Epilogue.{Sender}
use axxx.Upload.Start.{check_overwrite, source_changed}

-- Nothing speaks against the transfer before its chunks.
pub record Goes (src : Source) (s : Sender) : Type 0 where
  pub provided : s.provider_fails ≡ false
  pub of_file : s.provider_is_of_file ≡ true
  pub sender_made : s.sender_fails ≡ false
  pub overwrites : check_overwrite s ≡ none
  pub opens : (src.is_local && s.open_fails) ≡ false
  pub unchanged : source_changed src s ≡ false
  pub locks : s.lock_fails ≡ false

module _ (src : Source) (a : Answers) (s : Sender) (jptm : JobPartTransferMgr) (goes : Goes src s)
    (new : New jptm) where
  locked : JobPartTransferMgr
  locked = record jptm { atomic_dest_lock_held_indicator = true }

  -- The transfer manager once its chunks are scheduled.
  modified : Sent → JobPartTransferMgr
  modified sent = if sent.modified then set_destination_is_modified locked else locked
