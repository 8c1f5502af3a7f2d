-- ===== src/Writer/Contents.antt =====
-- What the worker has written at any time: the longest run of chunks that has arrived.
use axxx.Prelude.{
  ℕ, zero, suc, ◌+◌, ◌^◌, ◌≤◌, ◌<◌, ◌≡◌, ◌∙◌, refl, sym, ap, Bool, true, false, List, [], ◌∷◌, ◌++◌,
  none, some, append-nil, append_assoc, arith, nat_eq, if◌then◌else◌, length, take, drop,
  take-append-drop, length-append, inl, inr, Bool-cases,
}
use axxx.Prelude.Assoc.{lookup, delete, lookup-delete, length-delete_lt}
use axxx.Limiter.{add64}
use axxx.Writer.{
  Bytes, FileChunk, ChunkedFileWriter, release, max_write_size, write_slices, save_one_chunk,
  sequentially_process_available_chunks,
}
use axxx.Writer.Order.{
  Contiguous, contents_of, has, chunk_at, longest_run, HaveArrived, HaveArrived-snoc,
  contents_of-append,
}

length-drop-le : (n : ℕ) (xs : Bytes) → length (drop n xs) ≤ length xs
length-drop-le zero xs = omega arith
length-drop-le (suc n) [] = omega arith
length-drop-le (suc n) (x ∷ xs) = omega (arith, length-drop-le n xs)

max_write_size_pos : (k : ℕ) × (max_write_size ≡ suc k)
unfolding max_write_size
max_write_size_pos = (1048575, refl)

abbrev written : Bytes → ChunkedFileWriter → ChunkedFileWriter
written bs w = record w { file = w.file ++ bs; hashed = w.hashed ++ bs }

module _ (write_fails : Bytes → Bytes → Bool)
    (never : (content slice : Bytes) → write_fails content slice ≡ false) where
  write_slices_lem :
      (fuel k : ℕ) (rest : Bytes) (w : ChunkedFileWriter)
      → length rest ≤ fuel
      → write_slices write_fails fuel (suc k) rest w ≡ (written rest w, true)
  unfolding write_slices
  write_slices_lem zero k [] w h = simp append-nil
  write_slices_lem zero k (b ∷ rest) w h = absurd (omega arith)
  write_slices_lem (suc fuel) k [] w h = simp append-nil
  write_slices_lem (suc fuel) k (b ∷ rest) w h = rw (never w.file (b ∷ take k rest)) (
      rw (write_slices_lem fuel k (drop k rest) _ (omega (arith, length-drop-le k rest)))
        (simp (append_assoc, take-append-drop)))

  save_one_chunk_lem :
      (c : FileChunk) (w : ChunkedFileWriter)
      → save_one_chunk write_fails c w ≡ (
        record (written c.contents w) {
          booking = release (length c.contents) c.id_length w.booking;
        },
        true,
      )
  unfolding save_one_chunk
  save_one_chunk_lem c w =
      let (k, e) = max_write_size_pos in
      rw e (rw (write_slices_lem (length c.contents) k c.contents w (omega arith)))

-- The writer's state when the chunks `done` are written, which all have arrived, and `rest` are
-- not.
pub record Tracks (arrived : List ℕ) (cs done rest : List FileChunk) (w : ChunkedFileWriter)
    : Type 0 where
  pub split : cs ≡ done ++ rest
  pub all_arrived : HaveArrived arrived done
  pub saved : w.file ≡ contents_of done
  pub same_hash : w.hashed ≡ w.file
  pub ordered : Contiguous w.next_offset_to_save rest
  pub small : w.next_offset_to_save + length (contents_of rest) < 2 ^ 63
  pub later : (o : ℕ) → w.next_offset_to_save ≤ o → chunk_at o cs ≡ chunk_at o rest
  pub waiting :
      (o : ℕ)
      → w.next_offset_to_save ≤ o
      → lookup o w.unsaved_chunks_by_file_offset ≡ (if has o arrived then chunk_at o rest else none)

-- The same, when the first of `rest` has not arrived.
pub record Settled (arrived : List ℕ) (cs : List FileChunk) (w : ChunkedFileWriter) : Type 0 where
  pub done : List FileChunk
  pub rest : List FileChunk
  pub tracks : Tracks arrived cs done rest w
  pub stuck : longest_run arrived rest ≡ []

abbrev take_chunk : FileChunk → ChunkedFileWriter → ChunkedFileWriter
take_chunk c w = record w {
  unsaved_chunks_by_file_offset = delete w.next_offset_to_save w.unsaved_chunks_by_file_offset;
  next_offset_to_save = add64 w.next_offset_to_save (length c.contents);
  file = w.file ++ c.contents;
  hashed = w.hashed ++ c.contents;
  booking = release (length c.contents) c.id_length w.booking;
}

Tracks-take_chunk :
    (arrived : List ℕ) (cs done rest : List FileChunk) (c : FileChunk) (w : ChunkedFileWriter)
    → Tracks arrived cs done (c ∷ rest) w
    → has c.offset_in_file arrived ≡ true
    → Tracks arrived cs (done ++ c ∷ []) rest (take_chunk c w)
Tracks-take_chunk arrived cs done rest c w t e =
    let n : ℕ = w.next_offset_to_save in
    let next' : add64 n (length c.contents) ≡ n + length c.contents =
      omega (arith, t.small, length-append c.contents (contents_of rest)) in
    record {
      split = t.split ∙ sym (append_assoc done (c ∷ []) rest);
      all_arrived = HaveArrived-snoc arrived done c t.all_arrived e;
      saved = simp (contents_of-append, append-nil) (ap (λ (f : Bytes). f ++ c.contents) t.saved);
      same_hash = ap (λ (f : Bytes). f ++ c.contents) t.same_hash;
      ordered = rw next' t.ordered.2;
      small = omega (arith, t.small, next', length-append c.contents (contents_of rest));
      later = λ o le. ground (arith, t.later o (omega (arith, le, next')), t.ordered, le, next');
      waiting = λ o le. ground (
        arith,
        lookup-delete n o w.unsaved_chunks_by_file_offset,
        t.waiting o (omega (arith, le, next')),
        t.ordered,
        le,
        next',
      );
    }

module _ (write_fails : Bytes → Bytes → Bool)
    (never : (content slice : Bytes) → write_fails content slice ≡ false) where
  process_stop :
      (rounds : ℕ) (w : ChunkedFileWriter)
      → lookup w.next_offset_to_save w.unsaved_chunks_by_file_offset ≡ none
      → sequentially_process_available_chunks write_fails (suc rounds) w ≡ (w, true)
  unfolding sequentially_process_available_chunks
  process_stop rounds w e = ground (arith, e)

  process_go :
      (rounds : ℕ) (c : FileChunk) (w : ChunkedFileWriter)
      → lookup w.next_offset_to_save w.unsaved_chunks_by_file_offset ≡ some c
      → sequentially_process_available_chunks write_fails (suc rounds) w
        ≡ sequentially_process_available_chunks write_fails rounds (take_chunk c w)
  unfolding sequentially_process_available_chunks
  process_go rounds c w e =
      rw (e, sequentially_process_available_chunks) (rw (save_one_chunk_lem write_fails never c))

  pub process_lem :
      (rounds : ℕ) (arrived : List ℕ) (cs done rest : List FileChunk) (w : ChunkedFileWriter)
      → Tracks arrived cs done rest w
      → length w.unsaved_chunks_by_file_offset < rounds
      → ((sequentially_process_available_chunks write_fails rounds w).1 ≡ true)
        × Settled arrived cs (sequentially_process_available_chunks write_fails rounds w).0
  process_lem zero arrived cs done rest w t lt = absurd (omega arith)
  process_lem (suc rounds) arrived cs done [] w t lt =
      rw (process_stop rounds w (ground (arith, t.waiting w.next_offset_to_save (omega arith))))
        (refl, record { done = done; rest = []; tracks = t; stuck = refl })
  process_lem (suc rounds) arrived cs done (c ∷ rest) w t lt =
      let found = t.waiting w.next_offset_to_save (omega arith) in
      elim (Bool-cases (has c.offset_in_file arrived)) [
        | inl here ↦
            let e : lookup w.next_offset_to_save w.unsaved_chunks_by_file_offset ≡ some c =
              ground (arith, found, here, t.ordered) in
            rw (process_go rounds c w e) (
              process_lem rounds arrived cs (done ++ c ∷ []) rest (take_chunk c w)
                (Tracks-take_chunk arrived cs done rest c w t here)
                (omega (
                  arith,
                  lt,
                  length-delete_lt w.next_offset_to_save c w.unsaved_chunks_by_file_offset e,
                )))
        | inr missing ↦
            rw (process_stop rounds w (ground (arith, found, missing, t.ordered)))
              (refl, record { done = done; rest = c ∷ rest; tracks = t; stuck = rw missing })
      ]
