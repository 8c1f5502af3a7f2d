-- ===== src/Limiter/Sequential.antt =====
-- What a request does to a limiter that no other goroutine uses meanwhile.
use axxx.Prelude.{
  ℕ, ◌+◌, ◌^◌, ◌≤◌, ◌<◌, ◌≡◌, ◌⊎◌, refl, Bool, true, false, List, [], ◌∷◌, arith, inl, inr,
}
use axxx.Limiter.{CacheLimiter, effective_limit, try_add, wait_until_add, remove}

module _ (strict : ℕ → ℕ) (c : CacheLimiter) (count : ℕ) (fits : c.value + count < 2 ^ 63) where
  pub try_add_iff :
      (relaxed : Bool)
      → let (c', added) = try_add strict count relaxed c in
        ((added ≡ true)
          × (c.value + count ≤ effective_limit strict relaxed c)
          × (c'.value ≡ c.value + count)
          × (remove count c' ≡ c))
        ⊎ ((added ≡ false) × (effective_limit strict relaxed c < c.value + count) × (c' ≡ c))
  unfolding try_add remove
  try_add_iff relaxed = ground arith

  limit-try_add : (relaxed : Bool) → (try_add strict count relaxed c).0.limit ≡ c.limit
  unfolding try_add
  limit-try_add relaxed = ground arith

  -- A wait that ends without success leaves the limiter as it was.
  pub wait_until_add_gives_up :
      (tries : List Bool)
      → (wait_until_add strict count tries c).1 ≡ false
      → (wait_until_add strict count tries c).0 ≡ c
  unfolding wait_until_add
  wait_until_add_gives_up [] h = refl
  wait_until_add_gives_up (relaxed ∷ tries) h = elim (try_add_iff relaxed) [
    | inl granted ↦ absurd (ground (arith, granted))
    | inr refused ↦ ground (arith, refused, wait_until_add_gives_up tries)
  ]

  -- A wait that succeeds has added the amount once, and changed nothing else.
  pub wait_until_add_grants :
      (tries : List Bool)
      → (wait_until_add strict count tries c).1 ≡ true
      → (wait_until_add strict count tries c).0 ≡ record c { value = c.value + count }
  unfolding wait_until_add
  wait_until_add_grants [] h = cc
  wait_until_add_grants (relaxed ∷ tries) h = elim (try_add_iff relaxed) [
    | inl granted ↦ ground (arith, granted, limit-try_add relaxed)
    | inr refused ↦ ground (arith, refused, wait_until_add_grants tries)
  ]
