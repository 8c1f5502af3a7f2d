-- ===== src/Writer/Order.antt =====
-- The chunks of a file in order, and the longest run of them that has arrived.
use axxx.Prelude.{
  ℕ, ◌+◌, ◌<◌, ◌≡◌, refl, Bool, true, false, ◌||◌, List, [], ◌∷◌, ◌++◌, Option, none, some,
  append_assoc, arith, nat_beq, if◌then◌else◌, length, All,
}
use axxx.Writer.{Bytes, FileChunk}

-- Each chunk is not empty and starts where the one before it ends, the first at `a`.
abbrev pub Contiguous : ℕ → List FileChunk → Type 0
Contiguous a [] = Unit
Contiguous a (c ∷ cs) =
    (c.offset_in_file ≡ a) × (0 < length c.contents) × Contiguous (a + length c.contents) cs

abbrev pub contents_of : List FileChunk → Bytes
contents_of [] = []
contents_of (c ∷ cs) = c.contents ++ contents_of cs

abbrev pub has : ℕ → List ℕ → Bool
has o [] = false
has o (p ∷ ps) = nat_beq p o || has o ps

abbrev pub chunk_at : ℕ → List FileChunk → Option FileChunk
chunk_at o [] = none
chunk_at o (c ∷ cs) = if nat_beq c.offset_in_file o then some c else chunk_at o cs

-- The chunks up to the first one whose offset has not arrived.
abbrev pub longest_run : List ℕ → List FileChunk → List FileChunk
longest_run arrived [] = []
longest_run arrived (c ∷ cs) =
    if has c.offset_in_file arrived then c ∷ longest_run arrived cs else []

abbrev pub HaveArrived : List ℕ → List FileChunk → Type 0
HaveArrived arrived = All (λ c. has c.offset_in_file arrived ≡ true)

pub longest_run-append :
    (arrived : List ℕ) (done rest : List FileChunk)
    → HaveArrived arrived done
    → longest_run arrived (done ++ rest) ≡ done ++ longest_run arrived rest
longest_run-append arrived [] rest h = refl
longest_run-append arrived (c ∷ done) rest (h, hs) = rw (h, longest_run-append arrived done rest hs)

pub longest_run_all :
    (arrived : List ℕ) (cs : List FileChunk) → HaveArrived arrived cs → longest_run arrived cs ≡ cs
longest_run_all arrived [] h = refl
longest_run_all arrived (c ∷ cs) (h, hs) = rw (h, longest_run_all arrived cs hs)

pub HaveArrived-more :
    (o : ℕ) (arrived : List ℕ) (cs : List FileChunk)
    → HaveArrived arrived cs
    → HaveArrived (o ∷ arrived) cs
HaveArrived-more o arrived [] h = tt
HaveArrived-more o arrived (c ∷ cs) (h, hs) = (ground arith, HaveArrived-more o arrived cs hs)

pub HaveArrived-snoc :
    (arrived : List ℕ) (cs : List FileChunk) (c : FileChunk)
    → HaveArrived arrived cs
    → has c.offset_in_file arrived ≡ true
    → HaveArrived arrived (cs ++ c ∷ [])
HaveArrived-snoc arrived [] c h e = (e, tt)
HaveArrived-snoc arrived (d ∷ cs) c (h, hs) e = (h, HaveArrived-snoc arrived cs c hs e)

pub contents_of-append :
    (xs ys : List FileChunk) → contents_of (xs ++ ys) ≡ contents_of xs ++ contents_of ys
contents_of-append [] ys = refl
contents_of-append (c ∷ xs) ys = rw (contents_of-append xs ys, append_assoc)
