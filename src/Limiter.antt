-- ===== src/Limiter.antt =====
-- common/cacheLimiter.go: a limit on the amount of something, such as bytes in memory, with a
-- stricter limit for ordinary requests. The counter is an int64, held here as its 64 bits.
-- `strict` stands for `int64(float32(lim) * 0.75)`, which is floating-point arithmetic.
pub mod Concurrent
pub mod Sequential
use axxx.Prelude.{ℕ, ◌+◌, ◌-◌, ◌%◌, ◌^◌, Bool, true, false, ◌||◌, List, [], ◌∷◌, leb, if◌then◌else◌}

-- int64 addition and subtraction, and a comparison with a number that is not negative.
abbrev pub add64 : ℕ → ℕ → ℕ
add64 a b = (a + b) % 2 ^ 64

abbrev pub sub64 : ℕ → ℕ → ℕ
sub64 a b = (a + 2 ^ 64 - b) % 2 ^ 64

abbrev pub le64 : ℕ → ℕ → Bool
le64 a b = leb (2 ^ 63) a || leb a b

pub record CacheLimiter : Type 0 where
  pub value : ℕ
  pub limit : ℕ

unfoldable pub new_cache_limiter : ℕ → CacheLimiter
new_cache_limiter limit = record { value = 0; limit = limit }

unfoldable pub remove : ℕ → CacheLimiter → CacheLimiter
remove count c = record c { value = sub64 c.value count }

module _ (strict : ℕ → ℕ) where
  unfoldable pub effective_limit : Bool → CacheLimiter → ℕ
  effective_limit use_relaxed_limit c = if use_relaxed_limit then c.limit else strict c.limit

  -- The counter is raised, and put back if it is then over the limit.
  unfoldable pub try_add : ℕ → Bool → CacheLimiter → CacheLimiter × Bool
  unfolding effective_limit
  try_add count use_relaxed_limit c =
      let raised = add64 c.value count in
      if le64 raised (effective_limit use_relaxed_limit c)
      then (record c { value = raised }, true)
      else (record c { value = sub64 raised count }, false)

  -- The tries of `WaitUntilAdd`, each with what the predicate `useRelaxedLimit` says at the time,
  -- until one succeeds or the context is done, which here is the end of the list.
  unfoldable pub wait_until_add : ℕ → List Bool → CacheLimiter → CacheLimiter × Bool
  unfolding try_add
  wait_until_add count [] c = (c, false)
  wait_until_add count (relaxed ∷ tries) c =
      let (c', added) = try_add count relaxed c in
      let rest = wait_until_add count tries c' in if added then (c', true) else rest
