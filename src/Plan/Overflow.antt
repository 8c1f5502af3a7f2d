-- ===== src/Plan/Overflow.antt =====
-- ste/JobPartPlanFileName.go adds the lengths of a transfer's strings as int16 numbers. When the
-- sum does not fit, the next transfer's offset is wrong, which the sanity check of the second loop
-- finds.
use axxx.Prelude.{
  ℕ, ◌+◌, ◌*◌, ◌^◌, ◌<◌, ◌≤◌, ◌≡◌, refl, ap, Bool, true, false, List, [], ◌∷◌, ◌++◌, Option, none,
  some, inl, inr, arith, length, length-append, All, if◌then◌else◌, nat_beq, Option-cases,
}
use axxx.Writer.{Bytes}
use axxx.Limiter.{add64}
use axxx.Prelude.{◌>>=◌}
use axxx.Plan.File.{
  OrderedTransfer, TransferHeader, FileHeader, PartOrder, Image, images, total_length,
  int64_of_int16, transfer_headers, write_strings, strings_fit, create,
}
use axxx.Plan.FileLaws.{
  Fits, header_of, header_of_lem, new_transfer_header-cases, next_offset, strings_of, all_strings,
  total_length_lem, write_transfer_strings_lem,
}
use axxx.Plan.Located.{length-images}
use axxx.Plan.RoundTrip.{padded, length-padded}

-- The offset behind the strings of a transfer, as the code computes it.
next : ℕ → OrderedTransfer → ℕ
next o t = add64 o (int64_of_int16 (total_length (header_of o t).lengths))

-- The headers of a list that is not empty, if the lengths of each string are in bounds.
transfer_headers-some :
    (o : ℕ) (t : OrderedTransfer) (ts : List OrderedTransfer) (jppts : List TransferHeader)
    → transfer_headers o (t ∷ ts) ≡ some jppts
    → (rest : List TransferHeader) × (jppts ≡ header_of o t ∷ rest)
      × (transfer_headers (next o t) ts ≡ some rest)
unfolding transfer_headers next
transfer_headers-some o t ts jppts e = elim (new_transfer_header-cases o t) [
  | inr failed ↦ (let bad = rw failed at e in cc)
  | inl made ↦ elim (Option-cases (transfer_headers (next o t) ts)) [
    | inl failed ↦ (let bad = rw (made, failed) at e in cc)
    | inr (rest, made') ↦ (let good = rw (made, made') at e in (rest, cc, made'))
  ]
]

no_headers : (o : ℕ) (jppts : List TransferHeader) → transfer_headers o [] ≡ some jppts → jppts ≡ []
unfolding transfer_headers
no_headers o jppts made = cc

length-transfer_headers :
    (o : ℕ) (ts : List OrderedTransfer) (jppts : List TransferHeader)
    → transfer_headers o ts ≡ some jppts
    → length jppts ≡ length ts
length-transfer_headers o [] jppts made = rw (no_headers o jppts made)
length-transfer_headers o (t ∷ ts) jppts made =
    let (rest, first, made') = transfer_headers-some o t ts jppts made in
    rw first (omega (arith, length-transfer_headers (next o t) ts rest made'))

wrong_offset :
    (o : ℕ) (t : OrderedTransfer)
    → 2 ^ 15 ≤ length (strings_of t.texts)
    → o + length (strings_of t.texts) < 2 ^ 63
    → nat_beq (o + length (strings_of t.texts)) (next o t) ≡ false
unfolding next
wrong_offset o t long small =
    let (_, lengths, _, _, _) = header_of_lem o t in
    ground (arith, ap total_length lengths, total_length_lem t.texts)

if_none : {A : Type 0} (b : Bool) (o : Option A) → o ≡ none → (if b then o else none) ≡ none
if_none true o h = h
if_none false o h = refl

-- The check fails at the transfer behind the one that does not fit.
write_strings-panics :
    (ts : List OrderedTransfer) (t u : OrderedTransfer) (us : List OrderedTransfer) (o : ℕ)
    (file : Bytes) (jppts : List TransferHeader)
    → All Fits ts
    → 2 ^ 15 ≤ length (strings_of t.texts)
    → o + length (all_strings (ts ++ t ∷ [])) < 2 ^ 63
    → length file ≡ o
    → transfer_headers o (ts ++ t ∷ u ∷ us) ≡ some jppts
    → write_strings (ts ++ t ∷ u ∷ us) jppts file ≡ none
unfolding write_strings next
write_strings-panics [] t u us o file jppts fits long small e made =
    let (rest, first, made') = transfer_headers-some o t (u ∷ us) jppts made in
    let (rest', second, made'') = transfer_headers-some (next o t) u us rest made' in
    let written = length-append file (strings_of t.texts) in
    let wrong =
      wrong_offset o t long (omega (arith, small, length-append (strings_of t.texts) [])) in
    rw
      (
        first,
        second,
        write_transfer_strings_lem t.texts file,
        written,
        e,
        (header_of_lem (next o t) u).0,
        wrong,
      )
      (if_none _ none refl)
write_strings-panics (t' ∷ ts) t u us o file jppts (fit, fits) long small e made =
    let (rest, first, made') = transfer_headers-some o t' (ts ++ t ∷ u ∷ us) jppts made in
    let written = length-append file (strings_of t'.texts) in
    let here =
      next_offset o t' fit
        (omega (arith, small, length-append (strings_of t'.texts) (all_strings (ts ++ t ∷ [])))) in
    rw (first, write_transfer_strings_lem t'.texts file)
      (if_none _ _ (
        write_strings-panics ts t u us (next o t') (file ++ strings_of t'.texts) rest fits long
          (omega
            (arith, small, here, length-append (strings_of t'.texts) (all_strings (ts ++ t ∷ []))))
          (omega (arith, written, e, here)) made'))

-- The two loops, behind any bytes `start`.
loops-panic :
    (layout : Image TransferHeader) (start : Bytes) (all ts : List OrderedTransfer)
    (t u : OrderedTransfer) (us : List OrderedTransfer)
    → all ≡ ts ++ t ∷ u ∷ us
    → All Fits ts
    → 2 ^ 15 ≤ length (strings_of t.texts)
    → length start + layout.size * length all + length (all_strings (ts ++ t ∷ [])) < 2 ^ 63
    → (transfer_headers (length start + layout.size * length all) all >>= λ jppts.
        write_strings all jppts (start ++ images layout jppts))
      ≡ none
loops-panic layout start all ts t u us e fits long small =
    elim (Option-cases (transfer_headers (length start + layout.size * length all) all)) [
      | inl failed ↦ rw failed
      | inr (jppts, made) ↦
          let before = length start + layout.size * length all in
          let same : transfer_headers before (ts ++ t ∷ u ∷ us) ≡ some jppts = rw (← e) made in
          let count = length-transfer_headers before all jppts made in
          let written : length (start ++ images layout jppts) ≡ before =
            rw (length-append start (images layout jppts), length-images layout jppts, count) in
          rw made (
            rw e (
              write_strings-panics ts t u us before (start ++ images layout jppts) jppts fits long
                small written same))
    ]

module _ (header_layout : Image FileHeader) (transfer_layout : Image TransferHeader) where
  -- A transfer that is not the last of its order and whose strings have 2^15 bytes or more in all,
  -- the strings of each transfer before it having fewer: `Create` panics, even if the source, the
  -- destination, the metadata and the tags are each within the limits that it checks. The file up
  -- to there is shorter than 2^63 bytes.
  pub create-overflow :
      (order : PartOrder) (ts : List OrderedTransfer) (t u : OrderedTransfer)
      (us : List OrderedTransfer)
      → order.transfers ≡ ts ++ t ∷ u ∷ us
      → All Fits ts
      → 2 ^ 15 ≤ length (strings_of t.texts)
      → header_layout.size
          + length order.command_string
          + 8
          + transfer_layout.size * length order.transfers
          + length (all_strings (ts ++ t ∷ []))
        < 2 ^ 63
      → create header_layout transfer_layout false order ≡ none
  unfolding create padded
  create-overflow order ts t u us e fits long small = if_none (strings_fit order) _ (
      loops-panic transfer_layout (padded header_layout transfer_layout order) order.transfers ts t
        u us e fits long (omega (arith, length-padded header_layout transfer_layout order)))
