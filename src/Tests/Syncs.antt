-- ===== src/Tests/Syncs.antt =====
-- Syncs of three objects to a destination that has two of them and another one, which the user is
-- asked about: a download and an upload.
use axxx.Prelude.{true, List, Option, none, String, string_eq, if◌then◌else◌}
use axxx.Object.{StoredObject}
use axxx.Scheduler.{CopyJobPartOrderRequest, CopyJobPartOrderResponse}
use axxx.Sync.Delete.{Response, answer_yes, answer_no}

abbrev respond : List CopyJobPartOrderRequest → CopyJobPartOrderRequest → CopyJobPartOrderResponse
respond past r = record { error_msg = ""; job_started = true }

-- The user agrees to delete the object of that name.
abbrev prompt : StoredObject → Response
prompt o = if string_eq.same o.name "z" then answer_yes else answer_no

abbrev deletes : StoredObject → Option String
deletes o = none
