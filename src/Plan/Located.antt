-- ===== src/Plan/Located.antt =====
-- Where bytes stand in a file.
use axxx.Prelude.{
  ℕ, zero, suc, ◌+◌, ◌*◌, ◌^◌, ◌<◌, ◌≡◌, ap, List, [], ◌∷◌, ◌++◌, some, append_assoc, arith, length,
  take, drop, get_elem?, length-append, take-length-append, drop-length-append,
}
use axxx.Writer.{Bytes}
use axxx.Plan.File.{Image, images, int16, int64_of_int16}
use axxx.Plan.Reading.{get_string, next_string}

-- The bytes `s` stand at the offset.
abbrev pub At : Bytes → ℕ → Bytes → Type 0
At file offset s =
    (before : Bytes) × (after : Bytes) × (file ≡ before ++ (s ++ after)) × (length before ≡ offset)

pub take-drop-At :
    (file : Bytes) (offset : ℕ) (s : Bytes)
    → At file offset s
    → take (length s) (drop offset file) ≡ s
take-drop-At file offset s (before, after, e, n) =
    rw (e, ← n, drop-length-append before (s ++ after), take-length-append s after)

pub length-At :
    (file : Bytes) (offset : ℕ) (s : Bytes)
    → At file offset s
    → (rest : ℕ) × (length file ≡ offset + length s + rest)
length-At file offset s (before, after, e, n) = (
  length after,
  omega (arith, ap length e, n, length-append before (s ++ after), length-append s after),
)

pub At-left : (file : Bytes) (offset : ℕ) (s t : Bytes) → At file offset (s ++ t) → At file offset s
At-left file offset s t (before, after, e, n) = (before, t ++ after, rw (e, append_assoc), n)

pub At-right :
    (file : Bytes) (offset : ℕ) (s t : Bytes)
    → At file offset (s ++ t)
    → At file (offset + length s) t
At-right file offset s t (before, after, e, n) =
    (before ++ s, after, simp (e, append_assoc), omega (arith, length-append before s, n))

-- A string that stands at the offset and whose length fits an int16.
abbrev pub Stored : Bytes → ℕ → Bytes → Type 0
Stored file offset s = At file offset s × (length s < 2 ^ 15)

pub cut :
    (file : Bytes) (offset : ℕ) (s t : Bytes)
    → Stored file offset (s ++ t)
    → Stored file offset s × Stored file (offset + length s) t
cut file offset s t (h, small) = (
  (At-left file offset s t h, omega (arith, small, length-append s t)),
  (At-right file offset s t h, omega (arith, small, length-append s t)),
)

pub int64_of_int16_lem :
    (s : Bytes) → length s < 2 ^ 15 → int64_of_int16 (int16 (length s)) ≡ length s
int64_of_int16_lem s small = ground arith

pub get_string_lem :
    (file : Bytes) (offset : ℕ) (s : Bytes)
    → Stored file offset s
    → get_string file offset (int16 (length s)) ≡ some s
unfolding get_string
get_string_lem file offset s (h, small) =
    let (rest, long) = length-At file offset s h in
    let whole : int16 (length s) ≡ length s = omega arith in
    rw whole (ground (arith, take-drop-At file offset s h))

pub next_string_lem :
    (file : Bytes) (offset : ℕ) (s : Bytes)
    → Stored file offset s
    → next_string file offset (int16 (length s)) ≡ some (s, offset + length s)
unfolding next_string
next_string_lem file offset [] h = ground arith
next_string_lem file offset (b ∷ s) (h, small) =
    rw (get_string_lem file offset (b ∷ s) (h, small)) (ground arith)

-- An element of a list of images stands where the images before it end.
pub At-images :
    {A : Type 0} (layout : Image A) (before after : Bytes) (as' : List A) (i : ℕ) (a : A)
    → get_elem? as' i ≡ some a
    → At (before ++ (images layout as' ++ after)) (length before + layout.size * i) (layout.image a)
unfolding images
At-images layout before after [] i a h = cc
At-images layout before after (a' ∷ as') zero a h =
    let same : a' ≡ a = ground arith in
    (before, images layout as' ++ after, rw (same, append_assoc), omega arith)
At-images layout before after (a' ∷ as') (suc i) a h =
    let (b, r, e, n) = At-images layout (before ++ layout.image a') after as' i a h in
    (
      b,
      r,
      simp append_assoc (simp append_assoc at e),
      omega (arith, n, length-append before (layout.image a'), layout.length_image a'),
    )

pub length-images :
    {A : Type 0} (layout : Image A) (as' : List A)
    → length (images layout as') ≡ layout.size * length as'
unfolding images
length-images layout [] = omega arith
length-images layout (a ∷ as') = omega (
  arith,
  length-images layout as',
  layout.length_image a,
  length-append (layout.image a) (images layout as'),
)
