-- ===== src/Writer/Arrivals.antt =====
-- The worker over a whole download, whatever the order in which the chunks arrive.
use axxx.Prelude.{
  ℕ, ◌^◌, ◌<◌, ◌≡◌, ◌∙◌, refl, sym, ap, Bool, false, ◌||◌, not, if◌then◌else◌, List, [], ◌∷◌, ◌++◌,
  none, some, append-nil, arith, nat_eq, length, All,
}
use axxx.Prelude.Assoc.{lookup, insert, lookup-insert}
use axxx.Writer.{
  Bytes, FileChunk, Booking, ChunkedFileWriter, Message, chunk, closed, State, running, failed,
  finished, WriterError, rounds_for, handle, worker_routine, new_writer, clean_up, Hasher,
  new_hasher, sum,
}
use axxx.Writer.Order.{
  Contiguous, contents_of, has, chunk_at, longest_run, HaveArrived, longest_run-append,
  longest_run_all, HaveArrived-more,
}
use axxx.Writer.Contents.{Tracks, Settled, process_lem}

Tracks-insert :
    (arrived : List ℕ) (cs done rest : List FileChunk) (c : FileChunk) (w : ChunkedFileWriter)
    → Tracks arrived cs done rest w
    → chunk_at c.offset_in_file cs ≡ some c
    → Tracks (c.offset_in_file ∷ arrived) cs done rest (record w {
      unsaved_chunks_by_file_offset = insert c.offset_in_file c w.unsaved_chunks_by_file_offset;
    })
Tracks-insert arrived cs done rest c w t e = record {
  split = t.split;
  all_arrived = HaveArrived-more c.offset_in_file arrived done t.all_arrived;
  saved = t.saved;
  same_hash = t.same_hash;
  ordered = t.ordered;
  small = t.small;
  later = t.later;
  waiting = λ o le. ground (
    arith,
    lookup-insert c.offset_in_file o c w.unsaved_chunks_by_file_offset,
    t.waiting o le,
    t.later o le,
    e,
  );
}

-- The offsets of the chunks that arrived, on top of those that had before.
offsets : List ℕ → List FileChunk → List ℕ
offsets arrived [] = arrived
offsets arrived (c ∷ cs) = offsets (c.offset_in_file ∷ arrived) cs

-- The messages of a worker that gets the chunks in this order and is never cancelled.
abbrev pub arrivals : List FileChunk → List Message
arrivals [] = []
arrivals (c ∷ cs) = chunk c none ∷ arrivals cs

abbrev pub offsets_of : List FileChunk → List ℕ
offsets_of [] = []
offsets_of (c ∷ cs) = c.offset_in_file ∷ offsets_of cs

-- The chunks are chunks of the file `cs`.
abbrev pub ChunksOf : List FileChunk → List FileChunk → Type 0
ChunksOf cs = All (λ c. chunk_at c.offset_in_file cs ≡ some c)

has-offsets :
    (o : ℕ) (arrived : List ℕ) (cs : List FileChunk)
    → has o (offsets arrived cs) ≡ (has o (offsets_of cs) || has o arrived)
unfolding offsets
has-offsets o arrived [] = refl
has-offsets o arrived (c ∷ cs) = ground (arith, has-offsets o (c.offset_in_file ∷ arrived) cs)

longest_run_cong :
    (xs ys : List ℕ) (cs : List FileChunk)
    → ((o : ℕ) → has o xs ≡ has o ys)
    → longest_run xs cs ≡ longest_run ys cs
longest_run_cong xs ys [] h = refl
longest_run_cong xs ys (c ∷ cs) h = rw (h c.offset_in_file, longest_run_cong xs ys cs h)

longest_run_none : (cs : List FileChunk) → longest_run [] cs ≡ []
longest_run_none [] = refl
longest_run_none (c ∷ cs) = refl

worker_failed :
    (write_fails : Bytes → Bytes → Bool) (hasher : Hasher) (ys : List Message) (e : WriterError)
    (w : ChunkedFileWriter)
    → worker_routine write_fails hasher ys (failed e w) ≡ failed e w
unfolding worker_routine
worker_failed write_fails hasher [] e w = refl
worker_failed write_fails hasher (y ∷ ys) e w = refl

worker_finished :
    (write_fails : Bytes → Bytes → Bool) (hasher : Hasher) (ys : List Message) (h : Bytes)
    (w : ChunkedFileWriter)
    → worker_routine write_fails hasher ys (finished h w) ≡ finished h w
unfolding worker_routine
worker_finished write_fails hasher [] h w = refl
worker_finished write_fails hasher (y ∷ ys) h w = refl

worker_routine-append :
    (write_fails : Bytes → Bytes → Bool) (hasher : Hasher) (xs ys : List Message) (s : State)
    → worker_routine write_fails hasher (xs ++ ys) s
      ≡ worker_routine write_fails hasher ys (worker_routine write_fails hasher xs s)
unfolding worker_routine
worker_routine-append write_fails hasher [] ys s = refl
worker_routine-append write_fails hasher (x ∷ xs) ys (running w) =
    worker_routine-append write_fails hasher xs ys (handle write_fails hasher x w)
worker_routine-append write_fails hasher (x ∷ xs) ys (failed e w) =
    sym (worker_failed write_fails hasher ys e w)
worker_routine-append write_fails hasher (x ∷ xs) ys (finished h w) =
    sym (worker_finished write_fails hasher ys h w)

file-Settled :
    (arrived : List ℕ) (cs : List FileChunk) (w : ChunkedFileWriter)
    → Settled arrived cs w
    → w.file ≡ contents_of (longest_run arrived cs)
file-Settled arrived cs w s =
    let t = s.tracks in
    rw (t.split, longest_run-append arrived s.done s.rest t.all_arrived, s.stuck, append-nil)
      t.saved

module _ (write_fails : Bytes → Bytes → Bool) (no_check source_md5_exists : Bool)
    (never : (content slice : Bytes) → write_fails content slice ≡ false) where
  abbrev hasher : Hasher
  hasher = new_hasher no_check source_md5_exists

  handle_chunk :
      (arrived : List ℕ) (cs : List FileChunk) (c : FileChunk) (w : ChunkedFileWriter)
      → Settled arrived cs w
      → chunk_at c.offset_in_file cs ≡ some c
      → (w' : ChunkedFileWriter) × (handle write_fails hasher (chunk c none) w ≡ running w')
        × Settled (c.offset_in_file ∷ arrived) cs w'
  unfolding handle
  handle_chunk arrived cs c w s e =
      let indexed = record w {
        unsaved_chunks_by_file_offset = insert c.offset_in_file c w.unsaved_chunks_by_file_offset;
      } in
      let (saved, settled) =
        process_lem write_fails never (rounds_for none indexed) (c.offset_in_file ∷ arrived) cs
          s.done s.rest indexed (Tracks-insert arrived cs s.done s.rest c w s.tracks e)
          (unfold rounds_for in omega arith) in
      (_, rw saved, settled)

  run_arrivals :
      (arrived : List ℕ) (cs cs' : List FileChunk) (w : ChunkedFileWriter)
      → Settled arrived cs w
      → ChunksOf cs cs'
      → (w' : ChunkedFileWriter) × (worker_routine write_fails hasher (arrivals cs') (running w)
          ≡ running w')
        × Settled (offsets arrived cs') cs w'
  unfolding worker_routine offsets
  run_arrivals arrived cs [] w s h = (w, refl, s)
  run_arrivals arrived cs (c ∷ cs') w s (e, h) =
      let (w1, r1, s1) = handle_chunk arrived cs c w s e in
      let (w2, r2, s2) = run_arrivals (c.offset_in_file ∷ arrived) cs cs' w1 s1 h in
      (w2, ap (worker_routine write_fails hasher (arrivals cs')) r1 ∙ r2, s2)

  new_writer-Settled :
      (cs : List FileChunk) (b : Booking)
      → Contiguous 0 cs
      → length (contents_of cs) < 2 ^ 63
      → Settled [] cs (new_writer b)
  unfolding new_writer lookup
  new_writer-Settled cs b h small = record {
    done = [];
    rest = cs;
    tracks = record {
      split = refl;
      all_arrived = tt;
      saved = refl;
      same_hash = refl;
      ordered = h;
      small = omega arith;
      later = λ o le. refl;
      waiting = λ o le. refl;
    };
    stuck = longest_run_none cs;
  }

  sum_lem :
      (written : Bytes)
      → sum (new_hasher no_check source_md5_exists) written
        ≡ (if no_check || not source_md5_exists then [] else written)
  unfolding new_hasher
  sum_lem written = ground arith

  -- At any time before the end, in whatever order chunks of a contiguous file have arrived, and
  -- even if some arrived twice, the worker is running and has written the longest run of chunks
  -- from the start of the file that has arrived, in the file's order, and given just that to its
  -- hasher, be it the real one or `nullHasher`. The file's `Write` has no error, and no
  -- cancellation comes.
  pub file-arrivals :
      (cs arrived : List FileChunk) (b : Booking)
      → Contiguous 0 cs
      → length (contents_of cs) < 2 ^ 63
      → ChunksOf cs arrived
      → (w : ChunkedFileWriter) × (worker_routine write_fails
            (new_hasher no_check source_md5_exists)
            (arrivals arrived)
            (running (new_writer b))
          ≡ running w)
        × (w.file ≡ contents_of (longest_run (offsets_of arrived) cs))
        × (w.hashed ≡ w.file)
  file-arrivals cs arrived b h small of_file =
      let (w, r, s) =
        run_arrivals [] cs arrived (new_writer b) (new_writer-Settled cs b h small) of_file in
      let same : longest_run (offsets [] arrived) cs ≡ longest_run (offsets_of arrived) cs =
        longest_run_cong _ _ cs (λ o. ground (arith, has-offsets o [] arrived)) in
      (w, r, rw (← same) (file-Settled (offsets [] arrived) cs w s), s.tracks.same_hash)

  -- When every chunk of a contiguous file has arrived, in any order, and the channel is closed,
  -- where the file's `Write` has no error and no cancellation comes, the worker has written the
  -- whole file. It ends with the hash of exactly the file's bytes if the hash is checked and the
  -- source has one to compare with, and else with an empty one.
  pub file_complete :
      (cs arrived : List FileChunk) (b : Booking)
      → Contiguous 0 cs
      → length (contents_of cs) < 2 ^ 63
      → ChunksOf cs arrived
      → HaveArrived (offsets_of arrived) cs
      → (w : ChunkedFileWriter) × (worker_routine write_fails
            (new_hasher no_check source_md5_exists)
            (arrivals arrived ++ closed ∷ [])
            (running (new_writer b))
          ≡ finished (if no_check || not source_md5_exists then [] else contents_of cs) w)
        × (w.file ≡ contents_of cs)
  unfolding worker_routine handle clean_up
  file_complete cs arrived b h small of_file all =
      let (w, r, f, hashed) = file-arrivals cs arrived b h small of_file in
      let whole : w.file ≡ contents_of cs =
        rw f (rw (longest_run_all (offsets_of arrived) cs all)) in
      (
        clean_up w,
        worker_routine-append write_fails hasher (arrivals arrived) (closed ∷ [])
              (running (new_writer b))
            ∙ ap (worker_routine write_fails (new_hasher no_check source_md5_exists) (closed ∷ []))
                r
            ∙ ap (λ (f : Bytes). finished f (clean_up w))
                (ap (sum hasher) (hashed ∙ whole) ∙ sum_lem (contents_of cs)),
        whole,
      )
