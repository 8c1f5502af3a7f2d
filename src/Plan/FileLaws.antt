-- ===== src/Plan/FileLaws.antt =====
-- What `Create` writes is what the readers of the plan find.
use axxx.Prelude.{
  ℕ, zero, suc, ◌+◌, ◌%◌, ◌^◌, ◌<◌, ◌≡◌, refl, ap, sym, List, [], ◌∷◌, ◌++◌, none, some,
  append_assoc, append-nil, arith, length, get_elem?, length-append, All, Bool, true, false, ◌⊎◌,
  inl, inr, if◌then◌else◌,
}
use axxx.Status.{started}
use axxx.Prelude.Int.{pos}
use axxx.Writer.{Bytes}
use axxx.Limiter.{add64}
use axxx.Plan.File.{
  Texts, OrderedTransfer, TransferHeader, lengths_of, total_length, int64_of_int16,
  new_transfer_header, transfer_headers, write_string, write_transfer_strings, write_strings,
}
use axxx.Plan.Reading.{relatives_of, texts_of}
use axxx.Plan.Located.{At, Stored, cut, int64_of_int16_lem, get_string_lem, next_string_lem}

-- The strings of a transfer, one after another.
abbrev pub strings_of : Texts Bytes → Bytes
strings_of t =
    t.source
    ++ (t.destination
        ++ (t.content_type
            ++ (t.content_encoding
                ++ (t.content_language
                    ++ (t.content_disposition
                        ++ (t.cache_control
                            ++ (t.content_md5
                                ++ (t.metadata
                                    ++ (t.blob_type
                                        ++ (t.blob_tier
                                            ++ (t.blob_version_id
                                                ++ (t.blob_snapshot_id ++ t.blob_tags))))))))))))

abbrev pub all_strings : List OrderedTransfer → Bytes
all_strings [] = []
all_strings (t ∷ ts) = strings_of t.texts ++ all_strings ts

-- The strings of the transfer together are shorter than 2^15 bytes.
abbrev pub Fits : OrderedTransfer → Type 0
Fits t = length (strings_of t.texts) < 2 ^ 15

-- The sum of the lengths, as a number.
sum_of : Texts Bytes → ℕ
sum_of t =
    length t.source
    + (length t.destination
        + (length t.content_type
            + (length t.content_encoding
                + (length t.content_language
                    + (length t.content_disposition
                        + (length t.cache_control
                            + (length t.content_md5
                                + (length t.metadata
                                    + (length t.blob_type
                                        + (length t.blob_tier
                                            + (length t.blob_version_id
                                                + (length t.blob_snapshot_id
                                                    + length t.blob_tags))))))))))))

length-strings_of : (t : Texts Bytes) → length (strings_of t) ≡ sum_of t
unfolding sum_of
length-strings_of t = simp length-append

-- The header of a transfer whose strings stand at the offset.
pub header_of : ℕ → OrderedTransfer → TransferHeader
unfolding lengths_of
header_of offset t = record {
  src_offset = offset;
  lengths = lengths_of t.texts;
  entity_type = t.entity_type;
  modified_time = t.last_modified_time;
  source_size = t.source_size;
  completion_time = 0;
  changing = record { atomic_transfer_status = started; atomic_error_code = pos 0 };
}

pub headers_of : ℕ → List OrderedTransfer → List TransferHeader
headers_of offset [] = []
headers_of offset (t ∷ ts) =
    header_of offset t ∷ headers_of (offset + length (strings_of t.texts)) ts

pub length-headers_of : (o : ℕ) (ts : List OrderedTransfer) → length (headers_of o ts) ≡ length ts
unfolding headers_of
length-headers_of o [] = refl
length-headers_of o (t ∷ ts) = omega (arith, length-headers_of (o + length (strings_of t.texts)) ts)

some_if :
    {A : Type 0} (b : Bool) (a : A)
    → ((if b then some a else none) ≡ some a) ⊎ ((if b then some a else none) ≡ none)
some_if true a = inl refl
some_if false a = inr refl

pub new_transfer_header-cases :
    (offset : ℕ) (t : OrderedTransfer)
    → (new_transfer_header offset t ≡ some (header_of offset t))
      ⊎ (new_transfer_header offset t ≡ none)
unfolding new_transfer_header header_of
new_transfer_header-cases offset t = some_if _ _

pub new_transfer_header_lem :
    (offset : ℕ) (t : OrderedTransfer)
    → Fits t
    → new_transfer_header offset t ≡ some (header_of offset t)
unfolding new_transfer_header header_of sum_of
new_transfer_header_lem offset t fits = ground (arith, length-strings_of t.texts)

pub total_length_lem :
    (t : Texts Bytes) → total_length (lengths_of t) ≡ length (strings_of t) % 2 ^ 16
unfolding total_length lengths_of sum_of
total_length_lem t = omega (arith, length-strings_of t)

write_string_lem : (s file : Bytes) → write_string s file ≡ file ++ s
unfolding write_string
write_string_lem [] file = sym (append-nil file)
write_string_lem (b ∷ s) file = ground arith

pub write_transfer_strings_lem :
    (t : Texts Bytes) (file : Bytes) → write_transfer_strings t file ≡ file ++ strings_of t
unfolding write_transfer_strings
write_transfer_strings_lem t file = simp (write_string_lem, append_assoc)

pub next_offset :
    (offset : ℕ) (t : OrderedTransfer)
    → Fits t
    → offset + length (strings_of t.texts) < 2 ^ 63
    → add64 offset (int64_of_int16 (total_length (header_of offset t).lengths))
      ≡ offset + length (strings_of t.texts)
unfolding header_of
next_offset offset t fits small = ground (arith, total_length_lem t.texts)

pub transfer_headers_lem :
    (offset : ℕ) (ts : List OrderedTransfer)
    → All Fits ts
    → offset + length (all_strings ts) < 2 ^ 63
    → transfer_headers offset ts ≡ some (headers_of offset ts)
unfolding transfer_headers headers_of
transfer_headers_lem offset [] fits small = refl
transfer_headers_lem offset (t ∷ ts) (fit, fits) small =
    let room = length-append (strings_of t.texts) (all_strings ts) in
    rw (
      new_transfer_header_lem offset t fit,
      next_offset offset t fit (omega (arith, room)),
      transfer_headers_lem (offset + length (strings_of t.texts)) ts fits (omega (arith, room)),
    )

pub header_of_lem :
    (offset : ℕ) (t : OrderedTransfer)
    → ((header_of offset t).src_offset ≡ offset)
      × ((header_of offset t).lengths ≡ lengths_of t.texts)
      × ((header_of offset t).entity_type ≡ t.entity_type)
      × ((header_of offset t).modified_time ≡ t.last_modified_time)
      × ((header_of offset t).source_size ≡ t.source_size)
unfolding header_of
header_of_lem offset t = (refl, refl, refl, refl, refl)

pub write_strings_lem :
    (ts : List OrderedTransfer) (file : Bytes) (eof : ℕ)
    → length file ≡ eof
    → write_strings ts (headers_of eof ts) file ≡ some (file ++ all_strings ts)
unfolding write_strings headers_of
write_strings_lem [] file eof e = rw (append-nil file)
write_strings_lem (t ∷ ts) file eof e =
    let later =
      write_strings_lem ts (file ++ strings_of t.texts) (eof + length (strings_of t.texts))
        (omega (arith, e, length-append file (strings_of t.texts))) in
    rw ((header_of_lem eof t).0, write_transfer_strings_lem t.texts file, later, append_assoc)
      (ground arith)

-- Of the transfers whose strings stand behind `before`, one and its strings.
pub located :
    (before after : Bytes) (offset : ℕ) (ts : List OrderedTransfer) (i : ℕ) (t : OrderedTransfer)
    → length before ≡ offset
    → get_elem? ts i ≡ some t
    → (o : ℕ) × (get_elem? (headers_of offset ts) i ≡ some (header_of o t))
      × At (before ++ (all_strings ts ++ after)) o (strings_of t.texts)
unfolding headers_of
located before after offset [] i t e h = cc
located before after offset (t' ∷ ts) zero t e h =
    let same : t' ≡ t = ground arith in
    (
      offset,
      ap (λ x. some (header_of offset x)) same,
      (before, all_strings ts ++ after, rw (same, append_assoc), e),
    )
located before after offset (t' ∷ ts) (suc i) t e h =
    let (o, found, (b, r, here, n)) =
      located (before ++ strings_of t'.texts) after (offset + length (strings_of t'.texts)) ts i t
        (omega (arith, e, length-append before (strings_of t'.texts))) h in
    (o, found, (b, r, simp append_assoc (simp append_assoc at here), n))

-- The strings of a header are found where they stand.
pub read_strings :
    (file : Bytes) (o : ℕ) (t : Texts Bytes) (jppt : TransferHeader)
    → jppt.src_offset ≡ o
    → jppt.lengths ≡ lengths_of t
    → Stored file o (strings_of t)
    → texts_of file jppt ≡ some t
unfolding texts_of relatives_of lengths_of
read_strings file o t jppt e n h =
    let (s0, r0) = cut file _ t.source _ h in
    let (s1, r1) = cut file _ t.destination _ r0 in
    let (s2, r2) = cut file _ t.content_type _ r1 in
    let (s3, r3) = cut file _ t.content_encoding _ r2 in
    let (s4, r4) = cut file _ t.content_language _ r3 in
    let (s5, r5) = cut file _ t.content_disposition _ r4 in
    let (s6, r6) = cut file _ t.cache_control _ r5 in
    let (s7, r7) = cut file _ t.content_md5 _ r6 in
    let (s8, r8) = cut file _ t.metadata _ r7 in
    let (s9, r9) = cut file _ t.blob_type _ r8 in
    let (s10, r10) = cut file _ t.blob_tier _ r9 in
    let (s11, r11) = cut file _ t.blob_version_id _ r10 in
    let (s12, r12) = cut file _ t.blob_snapshot_id _ r11 in
    rw (
      e,
      n,
      get_string_lem file _ t.source s0,
      int64_of_int16_lem t.source s0.1,
      get_string_lem file _ t.destination s1,
      int64_of_int16_lem t.destination s1.1,
      next_string_lem file _ t.content_type s2,
      next_string_lem file _ t.content_encoding s3,
      next_string_lem file _ t.content_language s4,
      next_string_lem file _ t.content_disposition s5,
      next_string_lem file _ t.cache_control s6,
      next_string_lem file _ t.content_md5 s7,
      next_string_lem file _ t.metadata s8,
      next_string_lem file _ t.blob_type s9,
      next_string_lem file _ t.blob_tier s10,
      next_string_lem file _ t.blob_version_id s11,
      next_string_lem file _ t.blob_snapshot_id s12,
      next_string_lem file _ t.blob_tags r12,
    )
