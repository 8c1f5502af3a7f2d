-- ===== src/ChunkReader/Requests.antt =====
-- Everything that may be asked of a chunk reader, with the writing of its buffer to a hasher, which
-- panics when there is none.
use axxx.Prelude.{
  ℕ, ◌≡◌, refl, ap, ◌∙◌, List, [], ◌∷◌, ◌++◌, Option, none, some, ◌⊎◌, inl, inr, Option-cases,
  ◌>>=◌,
}
use axxx.ChunkReader.{ChunkReader, write_buffer_to}
use axxx.ChunkReader.Calls.{Operation, perform, perform-Holds}
use axxx.ChunkReader.Holding.{Holds}

pub data Request : Type 0 where
  operation : Operation → Request
  hashing : Request

unfoldable pub ask : Request → ChunkReader → Option ChunkReader
ask (operation o) cr = perform o cr
ask hashing cr = write_buffer_to cr >>= λ _. some cr

unfoldable pub ask_all : List Request → ChunkReader → Option ChunkReader
ask_all [] cr = some cr
ask_all (r ∷ rs) cr = ask r cr >>= ask_all rs

-- Some request is to write a buffer that is not there, and those before it went well.
pub record HashesNothing (rs : List Request) (cr : ChunkReader) : Type 0 where
  pub earlier : List Request
  pub later : List Request
  pub found : ChunkReader
  pub split : rs ≡ earlier ++ hashing ∷ later
  pub reached : ask_all earlier cr ≡ some found
  pub missing : found.buffer ≡ none

module _ (base others : ℕ) where
  abbrev Goes : List Request → ChunkReader → Type 0
  Goes rs cr =
      ((after : ChunkReader) × (ask_all rs cr ≡ some after) × Holds base others after)
      ⊎ ((ask_all rs cr ≡ none) × HashesNothing rs cr)

  next-Goes :
      (r : Request) (rs : List Request) (cr next : ChunkReader)
      → ask r cr ≡ some next
      → Goes rs next
      → Goes (r ∷ rs) cr
  unfolding ask_all
  next-Goes r rs cr next e goes =
      let moves = ap (λ o. o >>= ask_all rs) e in
      elim goes [
        | inl (after, ran, holds) ↦ inl (after, moves ∙ ran, holds)
        | inr (panics, h) ↦ inr (
          moves ∙ panics,
          record {
            earlier = r ∷ h.earlier;
            later = h.later;
            found = h.found;
            split = ap (λ rest. r ∷ rest) h.split;
            reached = ap (λ o. o >>= ask_all h.earlier) e ∙ h.reached;
            missing = h.missing;
          },
        )
      ]

  -- Whatever is asked of a reader, whichever fetches fail or find it closed in the meantime, the
  -- only panic is that of `WriteBufferTo` when there is no buffer, because none was fetched or it
  -- was given back. Without it, the position stays inside the chunk, and what is booked is the
  -- memory and the slice of the buffer when there is one, which has the length of the chunk, and
  -- nothing otherwise, as after `Close`.
  pub ask_all-Holds :
      (rs : List Request) (cr : ChunkReader)
      → Holds base others cr
      → ((after : ChunkReader) × (ask_all rs cr ≡ some after) × Holds base others after)
        ⊎ ((ask_all rs cr ≡ none) × HashesNothing rs cr)
  unfolding ask_all ask write_buffer_to
  ask_all-Holds [] cr h = inl (cr, refl, h)
  ask_all-Holds (operation o ∷ rs) cr h =
      let (next, e, holds) = perform-Holds base others o cr h in
      next-Goes (operation o) rs cr next e (ask_all-Holds rs next holds)
  ask_all-Holds (hashing ∷ rs) cr h = elim (Option-cases cr.buffer) [
    | inl gone ↦ inr (
      ap (λ (o : Option (List ℕ)). (o >>= λ _. some cr) >>= ask_all rs) gone,
      record { earlier = []; later = rs; found = cr; split = refl; reached = refl; missing = gone },
    )
    | inr (b, there) ↦
        next-Goes hashing rs cr cr (ap (λ (o : Option (List ℕ)). o >>= λ _. some cr) there)
          (ask_all-Holds rs cr h)
  ]
