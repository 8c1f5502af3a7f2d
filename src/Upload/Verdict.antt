-- ===== src/Upload/Verdict.antt =====
-- The status that an upload or a copy ends with, and what its checks do to it.
use axxx.Prelude.{
  ◌≡◌, refl, Bool, true, false, ◌||◌, not, Option, none, some, inl, inr, nat_beq, if◌then◌else◌,
  arith, Bool-cases, Option-cases,
}
use axxx.Prelude.Int.{ℤ, pos}
use axxx.Status.{TransferStatus, success, failed}
use axxx.Download.{JobPartTransferMgr, is_live, fail_active_transfer, int_beq}
use axxx.Download.EpilogueLaws.{Keeps, status_of, fail_live}
use axxx.Download.Checks.{Fresh, flush_cases, is_live-Fresh, not_live_stopped}
use axxx.Upload.Epilogue.{
  Sender, validates_source, check_source, sender_epilogue, check_destination_length, is_not_started,
}

-- What an independent look at the answers says: the source is as it was, and the length is right.
abbrev pub source_same : Bool → Sender → Bool
source_same is_local s =
    not (validates_source is_local s)
    || elim s.lmt_after [ inl lmt ↦ nat_beq lmt s.last_modified_time | inr _ ↦ false ]

abbrev pub length_right : Sender → Bool
length_right s = not s.dest_length_validation || elim s.destination_length [
  | inl length ↦ nat_beq length s.expected_length
  | inr status ↦ int_beq status (pos 403)
]

abbrev pub committed_status : Bool → Option (ℤ × TransferStatus) → TransferStatus
committed_status right none = if right then success else failed
committed_status right (some failure) = failure.1

-- The status of a transfer that reached the epilogue without harm.
abbrev pub send_verdict : Bool → Sender → TransferStatus
send_verdict is_local s =
    if source_same is_local s then committed_status (length_right s) s.commit else failed

-- The sender's epilogue sets a status of its own, never that of a transfer that has not begun.
abbrev pub starts : Option (ℤ × TransferStatus) → Bool
starts none = true
starts (some failure) = not (is_not_started failure.1)

-- A transfer that stopped in the epilogue with this status.
pub record Stopped (before jptm : JobPartTransferMgr) (st : TransferStatus) : Type 0 where
  pub stopped : jptm.canceled ≡ true
  pub status : status_of jptm ≡ st
  pub keeps : Keeps before jptm

pub stops :
    (c : ℤ) (st : TransferStatus) (jptm : JobPartTransferMgr)
    → Fresh jptm
    → Stopped jptm (fail_active_transfer c st jptm) st
stops c st jptm h =
    let (stopped, status, keeps) = fail_live c st jptm h.going h.status in
    record { stopped = stopped; status = status; keeps = keeps }

pub check_source_same :
    (is_local : Bool) (s : Sender) (jptm : JobPartTransferMgr)
    → source_same is_local s ≡ true
    → check_source is_local s jptm ≡ jptm
unfolding check_source
check_source_same is_local s jptm h = elim (Bool-cases (validates_source is_local s)) [
  | inr off ↦ elim (Bool-cases (is_live jptm)) [
    | inl live ↦ rw (live, off) refl
    | inr dead ↦ rw dead refl
  ]
  | inl on ↦ elim (flush_cases s.lmt_after) [
    | inr (status, e) ↦ ground (arith, rw (on, e) at h)
    | inl (lmt, e) ↦
        let same : nat_beq lmt s.last_modified_time ≡ true = rw (on, e) at h in
        elim (Bool-cases (is_live jptm)) [
          | inl live ↦ rw (live, on, e, same) refl
          | inr dead ↦ rw dead refl
        ]
  ]
]

pub check_source_changed :
    (is_local : Bool) (s : Sender) (jptm : JobPartTransferMgr)
    → Fresh jptm
    → source_same is_local s ≡ false
    → Stopped jptm (check_source is_local s jptm) failed
unfolding check_source
check_source_changed is_local s jptm fresh h =
    let live = is_live-Fresh jptm fresh in
    elim (Bool-cases (validates_source is_local s)) [
      | inr off ↦ ground (arith, rw off at h)
      | inl on ↦ elim (flush_cases s.lmt_after) [
        | inr (status, e) ↦ rw (live, on, e) (stops status failed jptm fresh)
        | inl (lmt, e) ↦
            let other : nat_beq lmt s.last_modified_time ≡ false = rw (on, e) at h in
            rw (live, on, e, other) (stops (pos 0) failed jptm fresh)
      ]
    ]

pub sender_epilogue_stopped :
    (s : Sender) (jptm : JobPartTransferMgr) → jptm.canceled ≡ true → sender_epilogue s jptm ≡ jptm
unfolding sender_epilogue
sender_epilogue_stopped s jptm h = elim (Option-cases s.commit) [
  | inl e ↦ rw e refl
  | inr (failure, e) ↦ rw (e, not_live_stopped jptm h) refl
]

pub check_length_stopped :
    (s : Sender) (jptm : JobPartTransferMgr)
    → jptm.canceled ≡ true
    → check_destination_length s jptm ≡ jptm
unfolding check_destination_length
check_length_stopped s jptm h = rw (not_live_stopped jptm h) refl

pub check_length_right :
    (s : Sender) (jptm : JobPartTransferMgr)
    → length_right s ≡ true
    → check_destination_length s jptm ≡ jptm
unfolding check_destination_length
check_length_right s jptm h = elim (Bool-cases (is_live jptm)) [
  | inr dead ↦ rw dead refl
  | inl live ↦ elim (Bool-cases s.dest_length_validation) [
    | inr off ↦ rw (live, off) refl
    | inl on ↦ elim (flush_cases s.destination_length) [
      | inl (length, e) ↦
          let right : nat_beq length s.expected_length ≡ true = rw (on, e) at h in
          rw (live, on, e, right) refl
      | inr (status, e) ↦
          let forbidden : int_beq status (pos 403) ≡ true = rw (on, e) at h in
          rw (live, on, e, forbidden) refl
    ]
  ]
]

pub check_length_wrong :
    (s : Sender) (jptm : JobPartTransferMgr)
    → Fresh jptm
    → length_right s ≡ false
    → Stopped jptm (check_destination_length s jptm) failed
unfolding check_destination_length
check_length_wrong s jptm fresh h =
    let live = is_live-Fresh jptm fresh in
    elim (Bool-cases s.dest_length_validation) [
      | inr off ↦ ground (arith, rw off at h)
      | inl on ↦ elim (flush_cases s.destination_length) [
        | inl (length, e) ↦
            let wrong : nat_beq length s.expected_length ≡ false = rw (on, e) at h in
            rw (live, on, e, wrong) (stops (pos 0) failed jptm fresh)
        | inr (status, e) ↦
            let other : int_beq status (pos 403) ≡ false = rw (on, e) at h in
            rw (live, on, e, other) (stops status failed jptm fresh)
      ]
    ]
