-- ===== src/Pacer.antt =====
-- ste/pacer-tokenBucketPacer.go: the bucket of tokens that keeps transfers to a rate. Counters are
-- int64, held as their bits. What floating-point arithmetic on the time that has gone by gives, the
-- bytes to release and the most bytes to keep unsent, is a parameter.
pub mod Steps
pub mod Supply
use axxx.Prelude.{
  ℕ, ◌/◌, ◌^◌, Bool, true, false, not, Option, none, some, nat_beq, ltb, leb, if◌then◌else◌,
}
use axxx.Limiter.{add64, sub64, le64}

-- `atomicWaitCount`, which only varies how long a goroutine sleeps, is left out.
pub record TokenBucketPacer : Type 0 where
  pub token_bucket : ℕ
  pub target_bytes_per_second : ℕ
  pub grand_total : ℕ
  pub expected_bytes_per_request : ℕ

unfoldable pub new_token_bucket_pacer : ℕ → ℕ → TokenBucketPacer
new_token_bucket_pacer bytes_per_second expected_bytes_per_coarse_request = record {
  token_bucket = bytes_per_second / 4;
  target_bytes_per_second = bytes_per_second;
  grand_total = 0;
  expected_bytes_per_request = expected_bytes_per_coarse_request;
}

-- Whether the pacer is a null pacer, which only counts.
unfoldable pub is_null : TokenBucketPacer → Bool
is_null p = nat_beq p.target_bytes_per_second 0

-- The atomic operations of a request: tokens are taken, put back if there were not enough, and what
-- is issued is recorded.
unfoldable pub take_tokens : ℕ → TokenBucketPacer → TokenBucketPacer
take_tokens byte_count p = record p { token_bucket = sub64 p.token_bucket byte_count }

unfoldable pub below_zero : TokenBucketPacer → Bool
below_zero p = leb (2 ^ 63) p.token_bucket

unfoldable pub put_tokens : ℕ → TokenBucketPacer → TokenBucketPacer
put_tokens byte_count p = record p { token_bucket = add64 p.token_bucket byte_count }

unfoldable pub record_issued : ℕ → TokenBucketPacer → TokenBucketPacer
record_issued byte_count p = record p { grand_total = add64 p.grand_total byte_count }

unfoldable pub deduct_issued : ℕ → TokenBucketPacer → TokenBucketPacer
deduct_issued byte_count p = record p { grand_total = sub64 p.grand_total byte_count }

unfoldable pub set_target_bytes_per_second : ℕ → TokenBucketPacer → TokenBucketPacer
set_target_bytes_per_second value p = record p { target_bytes_per_second = value }

module _ (overpopulation : ℕ → ℕ) where
  -- The most tokens that may pile up unused.
  unfoldable pub max_allowed_unsent_bytes : TokenBucketPacer → ℕ
  max_allowed_unsent_bytes p =
      let most = overpopulation p.target_bytes_per_second in
      if ltb most p.expected_bytes_per_request then p.expected_bytes_per_request else most

  -- The function that is morphed into the bucket when it was found too full.
  unfoldable pub trim : TokenBucketPacer → TokenBucketPacer
  trim p =
      let most = max_allowed_unsent_bytes p in
      if le64 p.token_bucket most then p else record p { token_bucket = most }
