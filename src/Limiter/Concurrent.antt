-- ===== src/Limiter/Concurrent.antt =====
-- Any number of goroutines use one limiter, each atomic operation a step of its own.
use axxx.Prelude.{
  ℕ, ◌+◌, ◌^◌, ◌≤◌, ◌<◌, ◌≡◌, refl, Bool, true, false, List, some, arith, get_elem?, set, replicate,
  sym, total, total-set, total-le, total-replicate,
}
use axxx.Limiter.{CacheLimiter, add64, sub64, le64, effective_limit, new_cache_limiter}

-- A goroutine is outside of the limiter, has an amount, or has raised the counter over the limit
-- and is about to put it back.
pub data Goroutine : Type 0 where
  outside : Goroutine
  holding : ℕ → Goroutine
  backing_out : ℕ → Goroutine

abbrev pub held : Goroutine → ℕ
held (holding n) = n
held _ = 0

abbrev pub in_counter : Goroutine → ℕ
in_counter outside = 0
in_counter (holding n) = n
in_counter (backing_out n) = n

pub record System : Type 0 where
  pub limiter : CacheLimiter
  pub goroutines : List Goroutine

abbrev pub with_value : System → ℕ → ℕ → Goroutine → System
with_value s value i g = record {
  limiter = record (s.limiter) { value = value };
  goroutines = set s.goroutines i g;
}

module _ (strict : ℕ → ℕ) where
  -- `grant` and `refuse` are the two outcomes of the atomic addition in `TryAdd`; `put_back` is the
  -- subtraction after a refusal and `release` is `Remove`. No amount makes the counter overflow.
  pub data Step (s : System) : System → Type 0 where
    grant :
        (i count : ℕ) (relaxed : Bool)
        → get_elem? s.goroutines i ≡ some outside
        → s.limiter.value + count < 2 ^ 63
        → le64 (add64 s.limiter.value count) (effective_limit strict relaxed s.limiter) ≡ true
        → Step s (with_value s (add64 s.limiter.value count) i (holding count))
    refuse :
        (i count : ℕ) (relaxed : Bool)
        → get_elem? s.goroutines i ≡ some outside
        → s.limiter.value + count < 2 ^ 63
        → le64 (add64 s.limiter.value count) (effective_limit strict relaxed s.limiter) ≡ false
        → Step s (with_value s (add64 s.limiter.value count) i (backing_out count))
    put_back :
        (i count : ℕ)
        → get_elem? s.goroutines i ≡ some (backing_out count)
        → Step s (with_value s (sub64 s.limiter.value count) i outside)
    release :
        (i count : ℕ)
        → get_elem? s.goroutines i ≡ some (holding count)
        → Step s (with_value s (sub64 s.limiter.value count) i outside)

  pub data Reach (s : System) : System → Type 0 where
    here : Reach s s
    next : {t u : System} → Reach s t → Step t u → Reach s u

held-le-in_counter : (g : Goroutine) → held g ≤ in_counter g
held-le-in_counter outside = omega arith
held-le-in_counter (holding n) = omega arith
held-le-in_counter (backing_out n) = omega arith

pub record Inv (limit : ℕ) (s : System) : Type 0 where
  pub same_limit : s.limiter.limit ≡ limit
  pub counter : s.limiter.value ≡ total in_counter s.goroutines
  pub small : s.limiter.value < 2 ^ 63
  pub within : total held s.goroutines ≤ limit

-- `n` goroutines that start outside of a new limiter.
abbrev pub start : ℕ → ℕ → System
start limit n = record { limiter = new_cache_limiter limit; goroutines = replicate n outside }

module _ (strict : ℕ → ℕ) (strict-le : (n : ℕ) → strict n ≤ n) (limit : ℕ) where
  Step-Inv : {s t : System} → Step strict s t → Inv limit s → Inv limit t
  unfolding effective_limit
  Step-Inv {s} (grant i count relaxed g fits under) v = ground (
    arith,
    strict-le limit,
    total-le held in_counter s.goroutines held-le-in_counter,
    total-set held s.goroutines i outside (holding count) g,
    total-set in_counter s.goroutines i outside (holding count) g,
  )
  Step-Inv {s} (refuse i count relaxed g fits over) v = ground (
    arith,
    total-set held s.goroutines i outside (backing_out count) g,
    total-set in_counter s.goroutines i outside (backing_out count) g,
  )
  Step-Inv {s} (put_back i count g) v = ground (
    arith,
    total-set held s.goroutines i (backing_out count) outside g,
    total-set in_counter s.goroutines i (backing_out count) outside g,
  )
  Step-Inv {s} (release i count g) v = ground (
    arith,
    total-set held s.goroutines i (holding count) outside g,
    total-set in_counter s.goroutines i (holding count) outside g,
  )

  pub Reach-Inv : {s t : System} → Inv limit s → Reach strict s t → Inv limit t
  Reach-Inv v here = v
  Reach-Inv v (next r st) = Step-Inv st (Reach-Inv v r)

  -- In every interleaving of any number of goroutines on a new limiter, what they hold together
  -- never exceeds the limit, and the counter is what they hold or are about to put back. The
  -- stricter limit is assumed not to exceed the limit, and no request to overflow the counter.
  pub held-le-limit :
      (n : ℕ) {t : System}
      → limit < 2 ^ 63
      → Reach strict (start limit n) t
      → (total held t.goroutines ≤ limit) × (t.limiter.value ≡ total in_counter t.goroutines)
  unfolding new_cache_limiter
  held-le-limit n small r =
      let v =
        Reach-Inv
          (record {
            same_limit = refl;
            counter = sym (total-replicate in_counter n outside refl);
            small = omega arith;
            within = omega (arith, total-replicate held n outside refl);
          })
          r in
      (v.within, v.counter)
