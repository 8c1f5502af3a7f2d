-- ===== src/Pacer/Supply.antt =====
-- No more is issued than has been released: no tokens are made by the interleaving of requests,
-- waits, returns and refills.
use axxx.Prelude.{
  ℕ, ◌+◌, ◌-◌, ◌/◌, ◌^◌, ◌≤◌, ◌<◌, ◌≡◌, refl, inl, inr, Bool-cases, false, some, arith, get_elem?,
  set, total, total-set, total-replicate, if◌then◌else◌,
}
use axxx.Limiter.{sub64, le64}
use axxx.Pacer.{
  new_token_bucket_pacer, take_tokens, below_zero, put_tokens, record_issued, deduct_issued,
  set_target_bytes_per_second, max_allowed_unsent_bytes, trim,
}
use axxx.Pacer.Steps.{
  Requester, outside, trying, overdrawn, waiting, granted, passing, undoing, overdraft, unrecorded,
  undone, System, Step, enter, enter_null, take_enough, take_too_much, put_back, give_up, wake,
  wake_null, issue, pass, undo, deduct, fill, trimmed, retarget, Reach, here, next, start,
}

-- `credit` is what would be in the bucket if nobody had taken too much.
record Inv (credit : ℕ) (s : System) : Type 0 where
  bucket : s.pacer.token_bucket ≡ sub64 credit (total overdraft s.requesters)
  few : total overdraft s.requesters < 2 ^ 63
  conserved :
      credit + total unrecorded s.requesters + s.pacer.grand_total
      ≤ s.released + s.free + total undone s.requesters
  recorded : total undone s.requesters ≤ s.pacer.grand_total
  small_total : s.pacer.grand_total < 2 ^ 63
  small_supply : s.released + s.free < 2 ^ 63

-- What changes when this goroutine goes from one state to another.
moves :
    (s : System) (i : ℕ) (old new : Requester)
    → get_elem? s.requesters i ≡ some old
    → (total overdraft (set s.requesters i new) + overdraft old
        ≡ total overdraft s.requesters + overdraft new)
      × (total unrecorded (set s.requesters i new) + unrecorded old
          ≡ total unrecorded s.requesters + unrecorded new)
      × (total undone (set s.requesters i new) + undone old
          ≡ total undone s.requesters + undone new)
moves s i old new g = (
  total-set overdraft s.requesters i old new g,
  total-set unrecorded s.requesters i old new g,
  total-set undone s.requesters i old new g,
)

-- Some credit fits.
abbrev Fits : System → Type 0
Fits s = (credit : ℕ) × Inv credit s

-- What the bucket holds beyond `most` is lost.
trim-Inv :
    (most : ℕ) (s : System) (credit : ℕ)
    → Inv credit s
    → Fits (record s {
      pacer =
          (if le64 s.pacer.token_bucket most
            then s.pacer
            else record (s.pacer) { token_bucket = most });
      trims = false;
    })
trim-Inv most s c v = elim (Bool-cases (le64 s.pacer.token_bucket most)) [
  | inl fits ↦ (c, ground (arith, fits))
  | inr over ↦ (most + total overdraft s.requesters, ground (arith, over))
]

module _ (overpopulation : ℕ → ℕ) where
  Step-Inv : {s t : System} (credit : ℕ) → Step overpopulation s t → Inv credit s → Fits t
  unfolding take_tokens below_zero put_tokens record_issued deduct_issued
      set_target_bytes_per_second trim
  Step-Inv {s} c (enter i n g _) v = (c, ground (arith, moves s i outside (trying n) g))
  Step-Inv {s} c (enter_null i n g _) v = (c, ground (arith, moves s i outside (passing n) g))
  Step-Inv {s} c (take_enough i n g few fits) v =
      (c - n, ground (arith, moves s i (trying n) (granted n) g))
  Step-Inv {s} c (take_too_much i n g few over) v =
      (c, ground (arith, moves s i (trying n) (overdrawn n) g))
  Step-Inv {s} c (put_back i n g) v = (c, ground (arith, moves s i (overdrawn n) (waiting n) g))
  Step-Inv {s} c (give_up i n g) v = (c, ground (arith, moves s i (waiting n) outside g))
  Step-Inv {s} c (wake i n g _) v = (c, ground (arith, moves s i (waiting n) (trying n) g))
  Step-Inv {s} c (wake_null i n g _) v = (c, ground (arith, moves s i (waiting n) (passing n) g))
  Step-Inv {s} c (issue i n g fits) v = (c, ground (arith, moves s i (granted n) outside g))
  Step-Inv {s} c (pass i n g fits supply) v = (c, ground (arith, moves s i (passing n) outside g))
  Step-Inv {s} c (undo i n g given) v = (c + n, ground (arith, moves s i outside (undoing n) g))
  Step-Inv {s} c (deduct i n g) v = (c, ground (arith, moves s i (undoing n) outside g))
  Step-Inv {s} c (fill bytes _ supply _ _) v = (c + bytes, ground arith)
  Step-Inv {s} c (trimmed _) v = trim-Inv (max_allowed_unsent_bytes overpopulation s.pacer) s c v
  Step-Inv {s} c (retarget value _) v = (c, ground arith)

  Reach-Inv : {s t : System} (credit : ℕ) → Inv credit s → Reach overpopulation s t → Fits t
  Reach-Inv c v here = (c, v)
  Reach-Inv c v (next r st) = let (d, w) = Reach-Inv c v r in Step-Inv d st w

  -- In every interleaving of any number of goroutines on a new pacer, with the refills and changes
  -- of the rate by its body, the total that is recorded as issued never exceeds what has been
  -- released into the bucket, what passed while the rate was zero, and what is being given back.
  -- The bucket is a credit, less what goroutines that found too little are about to put back; with
  -- the credit and what is granted and not yet recorded the total still does not exceed that. No
  -- request, refill or total is assumed to overflow its counter, and nobody gives back more than is
  -- recorded.
  pub issued-le-released :
      (bytes_per_second expected n : ℕ) {t : System}
      → bytes_per_second < 2 ^ 63
      → Reach overpopulation (start bytes_per_second expected n) t
      → (t.pacer.grand_total ≤ t.released + t.free + total undone t.requesters)
        × (credit : ℕ) × (t.pacer.token_bucket ≡ sub64 credit (total overdraft t.requesters))
        × (credit + total unrecorded t.requesters + t.pacer.grand_total
            ≤ t.released + t.free + total undone t.requesters)
  unfolding new_token_bucket_pacer
  issued-le-released bytes expected n small r =
      let (c, v) =
        Reach-Inv (bytes / 4)
          (ground (
            arith,
            total-replicate overdraft n outside refl,
            total-replicate unrecorded n outside refl,
            total-replicate undone n outside refl,
          ))
          r in
      (omega (arith, v.conserved), c, v.bucket, v.conserved)
