-- ===== src/Download/Checks.antt =====
-- What flushing, closing and the checks of the length do to a transfer at its end.
use axxx.Prelude.{
  ◌≡◌, refl, Bool, true, false, ◌&&◌, not, none, some, ◌⊎◌, inl, inr, nat_beq, if◌then◌else◌, arith,
  Bool-cases, Option-cases,
}
use axxx.Prelude.Int.{ℤ, pos}
use axxx.Status.{started, failed, code}
use axxx.Download.{JobPartTransferMgr, is_dead, is_live}
use axxx.Download.Md5.{Checked, passed, panic, check}
use axxx.Download.Epilogue.{
  Ending, flush_and_close, downloader_epilogue, md5_of_file_as_written, check_length,
  fail_active_download,
}
use axxx.Download.EpilogueLaws.{Keeps, status_of, fail_canceled, fail_live}

-- What an independent look at the answers says: the file was saved, its hash passed, its length is
-- right, its attributes were kept.
abbrev pub saved : Ending → Bool
saved e =
    (elim e.flush [ inl _ ↦ true | inr _ ↦ false ])
    && (elim e.close [ none ↦ true | some _ ↦ false ])

abbrev pub hash_passed : Ending → Bool
hash_passed e = elim (check e.md5_validation_option e.expected_md5 (md5_of_file_as_written e)) [
  | passed ↦ true
  | _ ↦ false
]

abbrev pub is_panic : Checked → Bool
is_panic panic = true
is_panic _ = false

abbrev pub hash_panics : Ending → Bool
hash_panics e = is_panic (check e.md5_validation_option e.expected_md5 (md5_of_file_as_written e))

abbrev pub length_right : Ending → Bool
length_right e =
    if e.dest_length_validation && (not e.is_dev_null && not e.should_decompress)
    then elim e.stat [ inl size ↦ nat_beq size e.source_size | inr _ ↦ false ]
    else true

-- What Azure Files keeps of a file was kept.
abbrev pub attributes_kept : Ending → Bool
attributes_kept e = elim e.preserve_attributes [ none ↦ true | some _ ↦ false ]

-- A transfer that nothing has happened to, and one that just failed.
pub record Fresh (jptm : JobPartTransferMgr) : Type 0 where
  pub going : jptm.canceled ≡ false
  pub status : status_of jptm ≡ started

pub record Failed (before jptm : JobPartTransferMgr) : Type 0 where
  pub stopped : jptm.canceled ≡ true
  pub status : status_of jptm ≡ failed
  pub keeps : Keeps before jptm

pub Keeps-refl : (jptm : JobPartTransferMgr) → Keeps jptm jptm
Keeps-refl jptm = record {
  same_reports = refl;
  same_chunks = refl;
  same_number = refl;
  same_done = refl;
  same_action = refl;
}

pub fails :
    (c : ℤ) (jptm : JobPartTransferMgr) → Fresh jptm → Failed jptm (fail_active_download c jptm)
fails c jptm h =
    let (stopped, status, keeps) = fail_live c failed jptm h.going h.status in
    record { stopped = stopped; status = status; keeps = keeps }

pub is_live-Fresh : (jptm : JobPartTransferMgr) → Fresh jptm → is_live jptm ≡ true
unfolding is_live is_dead code
is_live-Fresh jptm h = rw (h.status, h.going)

pub dead_stopped : (jptm : JobPartTransferMgr) → jptm.canceled ≡ true → is_dead jptm ≡ true
unfolding is_dead
dead_stopped jptm h = ground (arith, h)

pub not_live_stopped : (jptm : JobPartTransferMgr) → jptm.canceled ≡ true → is_live jptm ≡ false
unfolding is_live
not_live_stopped jptm h = rw (dead_stopped jptm h)

pub flush_cases : {A B : Type 0} (o : A ⊎ B) → ((a : A) × (o ≡ inl a)) ⊎ ((b : B) × (o ≡ inr b))
flush_cases (inl a) = inl (a, refl)
flush_cases (inr b) = inr (b, refl)

pub flush_and_close_stopped :
    (e : Ending) (jptm : JobPartTransferMgr) → jptm.canceled ≡ true → flush_and_close e jptm ≡ jptm
unfolding flush_and_close
flush_and_close_stopped e jptm h =
    let still = λ (c : ℤ). fail_canceled c failed jptm h in
    elim (flush_cases e.flush) [
      | inl (hash, f) ↦ elim (Option-cases e.close) [
        | inl c ↦ rw (f, c) refl
        | inr (status, c) ↦ rw (f, c) (still status)
      ]
      | inr (code', f) ↦ elim (Option-cases e.close) [
        | inl c ↦ rw (f, c) (still code')
        | inr (status, c) ↦ rw (f, c, still code') (still status)
      ]
    ]

pub flush_and_close_saved :
    (e : Ending) (jptm : JobPartTransferMgr) → saved e ≡ true → flush_and_close e jptm ≡ jptm
unfolding flush_and_close
flush_and_close_saved e jptm h = elim (flush_cases e.flush) [
  | inl (hash, f) ↦ elim (Option-cases e.close) [
    | inl c ↦ rw (f, c) refl
    | inr (status, c) ↦ ground (arith, rw (f, c) at h)
  ]
  | inr (code', f) ↦ ground (arith, rw f at h)
]

pub flush_and_close_fails :
    (e : Ending) (jptm : JobPartTransferMgr)
    → Fresh jptm
    → saved e ≡ false
    → Failed jptm (flush_and_close e jptm)
unfolding flush_and_close
flush_and_close_fails e jptm fresh h = elim (flush_cases e.flush) [
  | inl (hash, f) ↦ elim (Option-cases e.close) [
    | inl c ↦ ground (arith, rw (f, c) at h)
    | inr (status, c) ↦ rw (f, c) (fails status jptm fresh)
  ]
  | inr (code', f) ↦
      let failure = fails code' jptm fresh in
      elim (Option-cases e.close) [
        | inl c ↦ rw (f, c) failure
        | inr (status, c) ↦
            rw (f, c, fail_canceled status failed (fail_active_download code' jptm) failure.stopped)
              failure
      ]
]

pub check_length_stopped :
    (e : Ending) (jptm : JobPartTransferMgr) → jptm.canceled ≡ true → check_length e jptm ≡ jptm
unfolding check_length
check_length_stopped e jptm h =
    let v = e.dest_length_validation && (not e.is_dev_null && not e.should_decompress) in
    elim (Bool-cases v) [
      | inr off ↦ rw off refl
      | inl on ↦ elim (flush_cases e.stat) [
        | inr (status, st) ↦ rw (on, st) (fail_canceled status failed jptm h)
        | inl (size, st) ↦ elim (Bool-cases (nat_beq size e.source_size)) [
          | inl right ↦ rw (on, st, right) refl
          | inr wrong ↦ rw (on, st, wrong) (fail_canceled (pos 0) failed jptm h)
        ]
      ]
    ]

pub check_length_right :
    (e : Ending) (jptm : JobPartTransferMgr) → length_right e ≡ true → check_length e jptm ≡ jptm
unfolding check_length
check_length_right e jptm h =
    let v = e.dest_length_validation && (not e.is_dev_null && not e.should_decompress) in
    elim (Bool-cases v) [
      | inr off ↦ rw off refl
      | inl on ↦ elim (flush_cases e.stat) [
        | inr (status, st) ↦ ground (arith, rw (on, st) at h)
        | inl (size, st) ↦ elim (Bool-cases (nat_beq size e.source_size)) [
          | inl right ↦ rw (on, st, right) refl
          | inr wrong ↦ ground (arith, rw (on, st, wrong) at h)
        ]
      ]
    ]

pub check_length_fails :
    (e : Ending) (jptm : JobPartTransferMgr)
    → Fresh jptm
    → length_right e ≡ false
    → Failed jptm (check_length e jptm)
unfolding check_length
check_length_fails e jptm fresh h =
    let v = e.dest_length_validation && (not e.is_dev_null && not e.should_decompress) in
    elim (Bool-cases v) [
      | inr off ↦ ground (arith, rw off at h)
      | inl on ↦ elim (flush_cases e.stat) [
        | inr (status, st) ↦ rw (on, st) (fails status jptm fresh)
        | inl (size, st) ↦ elim (Bool-cases (nat_beq size e.source_size)) [
          | inl right ↦ ground (arith, rw (on, st, right) at h)
          | inr wrong ↦ rw (on, st, wrong) (fails (pos 0) jptm fresh)
        ]
      ]
    ]

pub downloader_epilogue_stopped :
    (e : Ending) (jptm : JobPartTransferMgr)
    → jptm.canceled ≡ true
    → downloader_epilogue e jptm ≡ jptm
unfolding downloader_epilogue
downloader_epilogue_stopped e jptm h = rw (not_live_stopped jptm h) refl

pub downloader_epilogue_kept :
    (e : Ending) (jptm : JobPartTransferMgr)
    → attributes_kept e ≡ true
    → downloader_epilogue e jptm ≡ jptm
unfolding downloader_epilogue
downloader_epilogue_kept e jptm h = elim (Option-cases e.preserve_attributes) [
  | inl kept ↦ elim (Bool-cases (is_live jptm)) [
    | inl live ↦ rw (live, kept) refl
    | inr dead ↦ rw dead refl
  ]
  | inr (status, lost) ↦ ground (arith, rw lost at h)
]

pub downloader_epilogue_fails :
    (e : Ending) (jptm : JobPartTransferMgr)
    → Fresh jptm
    → attributes_kept e ≡ false
    → Failed jptm (downloader_epilogue e jptm)
unfolding downloader_epilogue
downloader_epilogue_fails e jptm fresh h = elim (Option-cases e.preserve_attributes) [
  | inl kept ↦ ground (arith, rw kept at h)
  | inr (status, lost) ↦ rw (is_live-Fresh jptm fresh, lost) (fails status jptm fresh)
]
