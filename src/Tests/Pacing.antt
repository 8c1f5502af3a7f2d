-- ===== src/Tests/Pacing.antt =====
-- A request for five bytes from a pacer that starts with two and is refilled with eight.
use axxx.Prelude.{ℕ, ◌+◌, ◌*◌, ◌/◌, ◌≤◌, ◌≡◌, refl, false, arith, total}
use axxx.Limiter.{sub64}
use axxx.Pacer.{
  new_token_bucket_pacer, is_null, take_tokens, below_zero, put_tokens, record_issued,
  max_allowed_unsent_bytes,
}
use axxx.Pacer.Steps.{
  outside, trying, overdrawn, waiting, granted, overdraft, unrecorded, undone, System, enter,
  take_too_much, put_back, fill, wake, take_enough, issue, Reach, here, next, start, go,
}
use axxx.Pacer.Supply.{issued-le-released}

abbrev overpopulation : ℕ → ℕ
overpopulation n = n * 5 / 2

abbrev s0 : System
s0 = start 8 4 2

abbrev s1 : System
s1 = go s0 s0.pacer 0 (trying 5)

abbrev s2 : System
s2 = go s1 (take_tokens 5 s1.pacer) 0 (overdrawn 5)

abbrev s3 : System
s3 = go s2 (put_tokens 5 s2.pacer) 0 (waiting 5)

abbrev s4 : System
s4 = record s3 { pacer = put_tokens 8 s3.pacer; trims = false; released = s3.released + 8 }

abbrev s5 : System
s5 = go s4 s4.pacer 0 (trying 5)

abbrev s6 : System
s6 = go s5 (take_tokens 5 s5.pacer) 0 (granted 5)

abbrev s7 : System
s7 = go s6 (record_issued 5 s6.pacer) 0 outside

steps : Reach overpopulation s0 s7
unfolding new_token_bucket_pacer is_null take_tokens below_zero put_tokens record_issued
    max_allowed_unsent_bytes total
steps =
    next
      (next
        (next
          (next
            (next
              (next (next here (enter 0 5 refl refl)) (take_too_much 0 5 refl (omega arith) refl))
              (put_back 0 5 refl))
            (fill 8 refl (omega arith) false refl))
          (wake 0 5 refl refl))
        (take_enough 0 5 refl (omega arith) refl))
      (issue 0 5 refl (omega arith))

issued-le-released_example :
    (s7.pacer.grand_total ≤ s7.released + s7.free + total undone s7.requesters)
    × (credit : ℕ) × (s7.pacer.token_bucket ≡ sub64 credit (total overdraft s7.requesters))
    × (credit + total unrecorded s7.requesters + s7.pacer.grand_total
        ≤ s7.released + s7.free + total undone s7.requesters)
issued-le-released_example = issued-le-released overpopulation 8 4 2 (omega arith) steps
