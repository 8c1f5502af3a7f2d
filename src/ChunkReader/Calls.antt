-- ===== src/ChunkReader/Calls.antt =====
-- Sequences of calls on a chunk reader: none panics, and each keeps what the reader holds.
use axxx.Prelude.{
  ℕ, ◌+◌, ◌^◌, ◌<◌, ◌≤◌, ◌≡◌, refl, ap, sym, ◌∙◌, Bool, true, false, List, [], ◌∷◌, Option, none,
  some, leb, ltb, if◌then◌else◌, arith, length, take, drop, take-drop-bound, ◌>>=◌,
}
use axxx.Writer.{Bytes}
use axxx.ChunkReader.{
  ChunkReader, Fetch, ReadError, ReadResult, got, eof, failed, Whence, seek_start, close_buffer,
  close, blocking_prefetch, retry_blocking_prefetch_if_necessary, new_position, seek, copy_out,
  after_fetch, do_read, rewind, get_prologue_state,
}
use axxx.ChunkReader.Holding.{
  Holds, Fetched, with_buffer, close-Holds_with, blocking_prefetch-Fetched, retry-Fetched,
}

-- What may be asked of a reader, besides writing its buffer to a hasher.
pub data Operation : Type 0 where
  prefetching : Fetch → Operation
  reading : Fetch → ℕ → Operation
  seeking : ℕ → Whence → Operation
  leading : Fetch → Operation
  closing : Operation

unfoldable pub perform : Operation → ChunkReader → Option ChunkReader
perform (prefetching f) cr = some (blocking_prefetch f cr).1
perform (reading f n) cr = do_read f n true cr >>= λ (r : ReadResult × ChunkReader). some r.1
perform (seeking offset whence) cr = some (seek offset whence cr).1
perform (leading f) cr = get_prologue_state f cr >>= λ (r : Bytes × ChunkReader). some r.1
perform closing cr = some (close cr)

unfoldable pub perform_all : List Operation → ChunkReader → Option ChunkReader
perform_all [] cr = some cr
perform_all (o ∷ os) cr = perform o cr >>= perform_all os

module _ (base others : ℕ) where
  -- The position may be moved, inside the chunk.
  move-Holds :
      (p : ℕ) (cr : ChunkReader)
      → p ≤ cr.reader_length
      → Holds base others cr
      → Holds base others (record cr { position_in_chunk = p })
  move-Holds p cr inside h = record {
    inside = inside;
    small = h.small;
    base_small = h.base_small;
    booked = h.booked;
  }

  close_buffer-Holds :
      (cr : ChunkReader) → Holds base others cr → Holds base others (close_buffer cr)
  close_buffer-Holds cr h = (close-Holds_with base others cr.buffer cr h).0

  close-Holds : (cr : ChunkReader) → Holds base others cr → Holds base others (close cr)
  close-Holds cr h = (close-Holds_with base others cr.buffer cr h).2

  copy_out-Holds :
      (n : ℕ) (free_at_eof : Bool) (b : Bytes) (cr : ChunkReader)
      → Holds base others cr
      → length b ≡ cr.reader_length
      → Holds base others (copy_out n free_at_eof b cr).1
  unfolding copy_out
  copy_out-Holds n free_at_eof b cr h right =
      let bytes = take n (drop cr.position_in_chunk b) in
      let moved = record cr { position_in_chunk = cr.position_in_chunk + length bytes } in
      let holds =
        move-Holds (cr.position_in_chunk + length bytes) cr
          (omega (arith, take-drop-bound n cr.position_in_chunk b, right, h.inside)) h in
      elim (leb cr.reader_length moved.position_in_chunk)
        as (λ (c : Bool).
          Holds base others
            (if◌then◌else◌ {A = ReadResult × ChunkReader} c
              (eof bytes, (if free_at_eof then close_buffer moved else moved))
              (got bytes, moved)).1) [
                | true ↦
                    elim free_at_eof
                      as (λ (c : Bool).
                        Holds base others (if c then close_buffer moved else moved)) [
                          | true ↦ close_buffer-Holds moved holds
                          | false ↦ holds
                        ]
                | false ↦ holds
              ]

  -- The checks before the copy hold when there is a buffer and the position is before the end.
  after_fetch-copy :
      (n : ℕ) (free_at_eof : Bool) (b : Bytes) (cr : ChunkReader)
      → length b ≡ cr.reader_length
      → cr.position_in_chunk < cr.reader_length
      → after_fetch n free_at_eof none (with_buffer (some b) cr)
        ≡ some (copy_out n free_at_eof b (with_buffer (some b) cr))
  unfolding after_fetch
  after_fetch-copy n free_at_eof b cr right lt = ground arith

  -- After a fetch without an error, bytes are copied.
  pub after_fetch-copies :
      (n : ℕ) (free_at_eof : Bool) (before cr : ChunkReader)
      → Fetched base others before (none, cr)
      → before.position_in_chunk < before.reader_length
      → (b : Bytes) × (cr.buffer ≡ some b)
        × (length b ≡ cr.reader_length)
        × (after_fetch n free_at_eof none cr ≡ some (copy_out n free_at_eof b cr))
  unfolding after_fetch
  after_fetch-copies n free_at_eof before cr fetched lt =
      let (b, e, right) = fetched.found refl in
      let same = ap (λ o. after_fetch n free_at_eof none (with_buffer o cr)) e in
      (
        b,
        e,
        right,
        same
            ∙ after_fetch-copy n free_at_eof b cr right
                (omega (arith, lt, fetched.same_position, fetched.same_length))
            ∙ ap (λ o. some (copy_out n free_at_eof b (with_buffer o cr))) (sym e),
      )

  -- A read neither panics nor leaves memory booked that has no buffer.
  pub after_fetch-Holds :
      (n : ℕ) (free_at_eof : Bool) (before cr : ChunkReader) (err : Option ReadError)
      → Fetched base others before (err, cr)
      → before.position_in_chunk < before.reader_length
      → (r : ReadResult × ChunkReader) × (after_fetch n free_at_eof err cr ≡ some r)
        × Holds base others r.1
  unfolding after_fetch
  after_fetch-Holds n free_at_eof before cr (some err) fetched lt =
      ((failed err, cr), refl, fetched.holds)
  after_fetch-Holds n free_at_eof before cr none fetched lt =
      let (b, e, right, copies) = after_fetch-copies n free_at_eof before cr fetched lt in
      (copy_out n free_at_eof b cr, copies, copy_out-Holds n free_at_eof b cr fetched.holds right)

  pub do_read-Holds :
      (f : Fetch) (n : ℕ) (free_at_eof : Bool) (cr : ChunkReader)
      → Holds base others cr
      → (r : ReadResult × ChunkReader) × (do_read f n free_at_eof cr ≡ some r)
        × Holds base others r.1
  unfolding do_read
  do_read-Holds f n free_at_eof cr h =
      let fetched = retry_blocking_prefetch_if_necessary f cr in
      elim (leb cr.reader_length cr.position_in_chunk)
          as (λ (c : Bool).
            (leb cr.reader_length cr.position_in_chunk ≡ c)
            → (r : ReadResult × ChunkReader) × ((if c
                  then some (eof [], cr)
                  else after_fetch n free_at_eof fetched.0 fetched.1)
                ≡ some r)
              × Holds base others r.1) [
                | true ↦ λ _. ((eof [], cr), refl, h)
                | false ↦ λ e.
                    after_fetch-Holds n free_at_eof cr fetched.1 fetched.0
                      (retry-Fetched base others f cr.buffer cr h) (ground arith)
              ]
        refl

  seek-Holds :
      (offset : ℕ) (whence : Whence) (cr : ChunkReader)
      → Holds base others cr
      → Holds base others (seek offset whence cr).1
  unfolding seek
  seek-Holds offset whence cr h =
      let position = new_position offset whence cr in
      let clamped = if ltb cr.reader_length position then cr.reader_length else position in
      elim (leb (2 ^ 63) position)
        as (λ (c : Bool).
          Holds base others
            (if◌then◌else◌ {A = Option ℕ × ChunkReader} c (none, cr)
              (some clamped, record cr { position_in_chunk = clamped })).1) [
                | true ↦ h
                | false ↦ move-Holds clamped cr (ground arith) h
              ]

  rewind-Holds :
      (r : ReadResult) (cr : ChunkReader)
      → Holds base others cr
      → (after : Bytes × ChunkReader) × (rewind (some (r, cr)) ≡ some after)
        × Holds base others after.1
  unfolding rewind
  rewind-Holds (failed err) cr h = (([], cr), refl, h)
  rewind-Holds (got bytes) cr h =
      ((bytes, (seek 0 seek_start cr).1), refl, seek-Holds 0 seek_start cr h)
  rewind-Holds (eof bytes) cr h =
      ((bytes, (seek 0 seek_start cr).1), refl, seek-Holds 0 seek_start cr h)

  leading-Holds :
      (f : Fetch) (cr : ChunkReader)
      → Holds base others cr
      → (r : Bytes × ChunkReader) × (get_prologue_state f cr ≡ some r) × Holds base others r.1
  unfolding get_prologue_state
  leading-Holds f cr h =
      let ((r, read), e, holds) = do_read-Holds f 512 false cr h in
      let (after, rewound, held) = rewind-Holds r read holds in (after, ap rewind e ∙ rewound, held)

  pub perform-Holds :
      (o : Operation) (cr : ChunkReader)
      → Holds base others cr
      → (after : ChunkReader) × (perform o cr ≡ some after) × Holds base others after
  unfolding perform
  perform-Holds (prefetching f) cr h = (
    (blocking_prefetch f cr).1,
    refl,
    (blocking_prefetch-Fetched base others f cr.buffer cr h).holds,
  )
  perform-Holds (reading f n) cr h =
      let (r, e, holds) = do_read-Holds f n true cr h in (r.1, rw e refl, holds)
  perform-Holds (seeking offset whence) cr h =
      ((seek offset whence cr).1, refl, seek-Holds offset whence cr h)
  perform-Holds (leading f) cr h =
      let (r, e, holds) = leading-Holds f cr h in (r.1, rw e refl, holds)
  perform-Holds closing cr h = (close cr, refl, close-Holds cr h)

  -- Whatever of these operations is asked of a reader, whichever fetches fail or find it closed in
  -- the meantime, nothing panics, the position stays inside the chunk, and what is booked is the
  -- memory and the slice of the buffer when there is one, which has the length of the chunk, and
  -- nothing otherwise, as after `Close`.
  pub perform_all-Holds :
      (os : List Operation) (cr : ChunkReader)
      → Holds base others cr
      → (after : ChunkReader) × (perform_all os cr ≡ some after) × Holds base others after
  unfolding perform_all
  perform_all-Holds [] cr h = (cr, refl, h)
  perform_all-Holds (o ∷ os) cr h =
      let (next, e, holds) = perform-Holds o cr h in
      let (after, es, held) = perform_all-Holds os next holds in (after, rw e es, held)
