-- ===== src/Pacer/Steps.antt =====
-- Any number of goroutines and the body of one pacer, each atomic operation a step of its own.
use axxx.Prelude.{
  ℕ, ◌+◌, ◌/◌, ◌^◌, ◌≤◌, ◌<◌, ◌≡◌, Bool, true, false, not, List, some, get_elem?, set, replicate,
  total,
}
use axxx.Limiter.{le64}
use axxx.Pacer.{
  TokenBucketPacer, new_token_bucket_pacer, is_null, take_tokens, below_zero, put_tokens,
  record_issued, deduct_issued, set_target_bytes_per_second, max_allowed_unsent_bytes, trim,
}

-- A goroutine is outside of the pacer; it is about to take tokens, has taken more than there are,
-- waits after putting them back, or has its tokens, which are not recorded yet; it passes a null
-- pacer; or it has put unused tokens back, which are not deducted yet.
pub data Requester : Type 0 where
  outside : Requester
  trying : ℕ → Requester
  overdrawn : ℕ → Requester
  waiting : ℕ → Requester
  granted : ℕ → Requester
  passing : ℕ → Requester
  undoing : ℕ → Requester

abbrev pub overdraft : Requester → ℕ
overdraft (overdrawn n) = n
overdraft _ = 0

abbrev pub unrecorded : Requester → ℕ
unrecorded (granted n) = n
unrecorded _ = 0

abbrev pub undone : Requester → ℕ
undone (undoing n) = n
undone _ = 0

-- `released` is what the body has put into the bucket so far, with what was there at the start, and
-- `free` what passed a null pacer; neither is a field of the pacer. `trims` is whether the body has
-- found the bucket too full.
pub record System : Type 0 where
  pub pacer : TokenBucketPacer
  pub requesters : List Requester
  pub trims : Bool
  pub released : ℕ
  pub free : ℕ

abbrev pub go : System → TokenBucketPacer → ℕ → Requester → System
go s p i r = record s { pacer = p; requesters = set s.requesters i r }

abbrev pub go_free : System → TokenBucketPacer → ℕ → ℕ → System
go_free s p i n = record s { pacer = p; requesters = set s.requesters i outside; free = s.free + n }

module _ (overpopulation : ℕ → ℕ) where
  -- The steps of a goroutine are those of `RequestTrafficAllocation` and of `UndoRequest`, and
  -- `fill`, `trimmed` and `retarget` those of `pacerBody`. No counter overflows, and a goroutine
  -- gives back no more than is recorded.
  pub data Step (s : System) : System → Type 0 where
    enter :
        (i n : ℕ)
        → get_elem? s.requesters i ≡ some outside
        → is_null s.pacer ≡ false
        → Step s (go s s.pacer i (trying n))
    enter_null :
        (i n : ℕ)
        → get_elem? s.requesters i ≡ some outside
        → is_null s.pacer ≡ true
        → Step s (go s s.pacer i (passing n))
    take_enough :
        (i n : ℕ)
        → get_elem? s.requesters i ≡ some (trying n)
        → total overdraft s.requesters + n < 2 ^ 63
        → below_zero (take_tokens n s.pacer) ≡ false
        → Step s (go s (take_tokens n s.pacer) i (granted n))
    take_too_much :
        (i n : ℕ)
        → get_elem? s.requesters i ≡ some (trying n)
        → total overdraft s.requesters + n < 2 ^ 63
        → below_zero (take_tokens n s.pacer) ≡ true
        → Step s (go s (take_tokens n s.pacer) i (overdrawn n))
    put_back :
        (i n : ℕ)
        → get_elem? s.requesters i ≡ some (overdrawn n)
        → Step s (go s (put_tokens n s.pacer) i (waiting n))
    give_up :
        (i n : ℕ) → get_elem? s.requesters i ≡ some (waiting n) → Step s (go s s.pacer i outside)
    wake :
        (i n : ℕ)
        → get_elem? s.requesters i ≡ some (waiting n)
        → is_null s.pacer ≡ false
        → Step s (go s s.pacer i (trying n))
    wake_null :
        (i n : ℕ)
        → get_elem? s.requesters i ≡ some (waiting n)
        → is_null s.pacer ≡ true
        → Step s (go s s.pacer i (passing n))
    issue :
        (i n : ℕ)
        → get_elem? s.requesters i ≡ some (granted n)
        → s.pacer.grand_total + n < 2 ^ 63
        → Step s (go s (record_issued n s.pacer) i outside)
    pass :
        (i n : ℕ)
        → get_elem? s.requesters i ≡ some (passing n)
        → s.pacer.grand_total + n < 2 ^ 63
        → s.released + s.free + n < 2 ^ 63
        → Step s (go_free s (record_issued n s.pacer) i n)
    undo :
        (i n : ℕ)
        → get_elem? s.requesters i ≡ some outside
        → total undone s.requesters + n ≤ s.pacer.grand_total
        → Step s (go s (put_tokens n s.pacer) i (undoing n))
    deduct :
        (i n : ℕ)
        → get_elem? s.requesters i ≡ some (undoing n)
        → Step s (go s (deduct_issued n s.pacer) i outside)
    fill :
        (bytes : ℕ)
        → s.trims ≡ false
        → s.released + s.free + bytes < 2 ^ 63
        → (too_full : Bool)
        → le64
            (put_tokens bytes s.pacer).token_bucket
            (max_allowed_unsent_bytes overpopulation s.pacer)
          ≡ not too_full
        → Step s (record s {
          pacer = put_tokens bytes s.pacer;
          trims = too_full;
          released = s.released + bytes;
        })
    trimmed :
        s.trims ≡ true → Step s (record s { pacer = trim overpopulation s.pacer; trims = false })
    retarget :
        (value : ℕ)
        → s.trims ≡ false
        → Step s (record s { pacer = set_target_bytes_per_second value s.pacer })

  pub data Reach (s : System) : System → Type 0 where
    here : Reach s s
    next : {t u : System} → Reach s t → Step t u → Reach s u

-- `n` goroutines outside of a new pacer.
abbrev pub start : ℕ → ℕ → ℕ → System
start bytes_per_second expected n = record {
  pacer = new_token_bucket_pacer bytes_per_second expected;
  requesters = replicate n outside;
  trims = false;
  released = bytes_per_second / 4;
  free = 0;
}
