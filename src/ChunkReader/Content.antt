-- ===== src/ChunkReader/Content.antt =====
-- The buffer of a chunk reader holds the content of the chunk, whatever is called, when the disk
-- gives it.
use axxx.Prelude.{
  ℕ, ◌+◌, ◌^◌, ◌≡◌, refl, sym, ◌∙◌, Bool, true, false, List, [], ◌∷◌, Option, none, some, nat_beq,
  leb, ltb, ◌>>=◌, if◌then◌else◌, length, take, drop, All, if-either,
}
use axxx.Writer.{Bytes}
use axxx.ChunkReader.{
  ChunkReader, Fetch, ReadError, ReadResult, got, eof, failed, Whence, seek_start, return_slice,
  close_buffer, close, rent_slice, check_read, or_empty, keep_buffer, fetch, blocking_prefetch,
  retry_blocking_prefetch_if_necessary, wait_cancelled, cannot_open, new_position, seek, copy_out,
  after_fetch, do_read, rewind, get_prologue_state,
}
use axxx.ChunkReader.Holding.{with_buffer, check_read-none}
use axxx.ChunkReader.Calls.{
  Operation, prefetching, reading, seeking, leading, closing, perform, perform_all,
}

-- The disk gives the content of the chunk when it gives as many bytes.
pub record Faithful (content : Bytes) (f : Fetch) : Type 0 where
  pub same : (bytes : Bytes) → f.disk ≡ some bytes → length bytes ≡ length content → bytes ≡ content

abbrev pub Asks : Bytes → Operation → Type 0
Asks content (prefetching f) = Faithful content f
Asks content (reading f n) = Faithful content f
Asks content (leading f) = Faithful content f
Asks content _ = Unit

-- A buffer holds the content.
abbrev pub Kept : Bytes → Option Bytes → Type 0
Kept content none = Unit
Kept content (some buffer) = buffer ≡ content

abbrev pub Keeps : Bytes → ChunkReader → Type 0
Keeps content cr = (length content ≡ cr.reader_length) × Kept content cr.buffer

abbrev pub KeepsIn : {A : Type 0} → Bytes → Option (A × ChunkReader) → Type 0
KeepsIn content none = Unit
KeepsIn content (some r) = Keeps content r.1

abbrev pub KeepsSome : Bytes → Option ChunkReader → Type 0
KeepsSome content none = Unit
KeepsSome content (some cr) = Keeps content cr

module _ (content : Bytes) where
  check_read-Kept :
      (f : Fetch) (disk : Option Bytes) (cr : ChunkReader)
      → Faithful content (record f { disk = disk })
      → length content ≡ cr.reader_length
      → check_read (record f { disk = disk }) cr ≡ none
      → or_empty disk ≡ content
  unfolding check_read
  check_read-Kept f none cr same l e = absurd cc
  check_read-Kept f (some bytes) cr same l e =
      same.same bytes refl ((check_read-none 0 0 f cr (some bytes) e).1 ∙ sym l)

  keep_buffer-Keeps :
      (f : Fetch) (cr : ChunkReader) (err : Option ReadError)
      → cr.buffer ≡ none
      → length content ≡ cr.reader_length
      → (err ≡ none → or_empty f.disk ≡ content)
      → Keeps content (keep_buffer f cr err).1
  unfolding keep_buffer return_slice
  keep_buffer-Keeps f cr none e l right = (l, right refl)
  keep_buffer-Keeps f cr (some err) e l right = (l, rw e tt)

  fetch-Keeps :
      (f : Fetch) (cr : ChunkReader)
      → Faithful content f
      → length content ≡ cr.reader_length
      → Keeps content (fetch f (with_buffer none cr)).1
  unfolding fetch rent_slice close close_buffer
  fetch-Keeps f cr same l =
      let renting = rent_slice (with_buffer none cr) in
      elim f.closed_meanwhile
        as (λ (c : Bool).
          let after = if c then close renting else renting in
          Keeps content (keep_buffer f after (check_read f after)).1) [
            | true ↦
                keep_buffer-Keeps f (close renting) (check_read f (close renting)) refl l
                  (check_read-Kept f f.disk (close renting) same l)
            | false ↦
                keep_buffer-Keeps f renting (check_read f renting) refl l
                  (check_read-Kept f f.disk renting same l)
          ]

  blocking_prefetch-Keeps :
      (f : Fetch) (b : Option Bytes) (cr : ChunkReader)
      → Faithful content f
      → Keeps content (with_buffer b cr)
      → Keeps content (blocking_prefetch f (with_buffer b cr)).1
  unfolding blocking_prefetch
  blocking_prefetch-Keeps f (some b) cr same k = k
  blocking_prefetch-Keeps f none cr same k =
      if-either (λ r. Keeps content r.1) f.wait_fails (some wait_cancelled, with_buffer none cr)
        (fetch f (with_buffer none cr)) (λ _. k) (λ _. fetch-Keeps f cr same k.0)

  pub retry-Keeps :
      (f : Fetch) (b : Option Bytes) (cr : ChunkReader)
      → Faithful content f
      → Keeps content (with_buffer b cr)
      → Keeps content (retry_blocking_prefetch_if_necessary f (with_buffer b cr)).1
  unfolding retry_blocking_prefetch_if_necessary
  retry-Keeps f (some b) cr same k = k
  retry-Keeps f none cr same k =
      if-either (λ r. Keeps content r.1) f.open_fails (some cannot_open, with_buffer none cr)
        (blocking_prefetch f (with_buffer none cr)) (λ _. k)
        (λ _. blocking_prefetch-Keeps f none cr same k)

  close_buffer-Keeps :
      (b : Option Bytes) (cr : ChunkReader)
      → Keeps content (with_buffer b cr)
      → Keeps content (close_buffer (with_buffer b cr))
  unfolding close_buffer return_slice
  close_buffer-Keeps none cr k = k
  close_buffer-Keeps (some b) cr k = (k.0, tt)

  close-Keeps : (cr : ChunkReader) → Keeps content cr → Keeps content (close cr)
  unfolding close
  close-Keeps cr k = close_buffer-Keeps cr.buffer cr k

  copy_out-Keeps :
      (n : ℕ) (free_at_eof : Bool) (b : Bytes) (cr : ChunkReader)
      → Keeps content cr
      → Keeps content (copy_out n free_at_eof b cr).1
  unfolding copy_out
  copy_out-Keeps n free_at_eof b cr k =
      let bytes = take n (drop cr.position_in_chunk b) in
      let moved = record cr { position_in_chunk = cr.position_in_chunk + length bytes } in
      if-either (λ (r : ReadResult × ChunkReader). Keeps content r.1)
        (leb cr.reader_length moved.position_in_chunk)
        (eof bytes, (if free_at_eof then close_buffer moved else moved)) (got bytes, moved)
        (λ _.
          if-either (Keeps content) free_at_eof (close_buffer moved) moved
            (λ _. close_buffer-Keeps cr.buffer moved k) (λ _. k))
        (λ _. k)

  after_fetch-Keeps :
      (n : ℕ) (free_at_eof : Bool) (err : Option ReadError) (b : Option Bytes) (cr : ChunkReader)
      → Keeps content (with_buffer b cr)
      → KeepsIn content (after_fetch n free_at_eof err (with_buffer b cr))
  unfolding after_fetch
  after_fetch-Keeps n free_at_eof (some err) b cr k = k
  after_fetch-Keeps n free_at_eof none none cr k = tt
  after_fetch-Keeps n free_at_eof none (some b) cr k =
      let copied = some (copy_out n free_at_eof b (with_buffer (some b) cr)) in
      if-either (KeepsIn content) (leb cr.reader_length cr.position_in_chunk) none
        (if nat_beq cr.reader_length (length b) then copied else none) (λ _. tt)
        (λ _.
          if-either (KeepsIn content) (nat_beq cr.reader_length (length b)) copied none
            (λ _. copy_out-Keeps n free_at_eof b (with_buffer (some b) cr) k) (λ _. tt))

  pub do_read-Keeps :
      (f : Fetch) (n : ℕ) (free_at_eof : Bool) (cr : ChunkReader)
      → Faithful content f
      → Keeps content cr
      → KeepsIn content (do_read f n free_at_eof cr)
  unfolding do_read
  do_read-Keeps f n free_at_eof cr same k =
      let fetched = retry_blocking_prefetch_if_necessary f cr in
      if-either (KeepsIn content) (leb cr.reader_length cr.position_in_chunk) (some (eof [], cr))
        (after_fetch n free_at_eof fetched.0 fetched.1) (λ _. k)
        (λ _.
          after_fetch-Keeps n free_at_eof fetched.0 fetched.1.buffer fetched.1
            (retry-Keeps f cr.buffer cr same k))

  seek-Keeps :
      (offset : ℕ) (whence : Whence) (cr : ChunkReader)
      → Keeps content cr
      → Keeps content (seek offset whence cr).1
  unfolding seek
  seek-Keeps offset whence cr k =
      let position = new_position offset whence cr in
      let clamped = if ltb cr.reader_length position then cr.reader_length else position in
      if-either (λ (r : Option ℕ × ChunkReader). Keeps content r.1) (leb (2 ^ 63) position)
        (none, cr) (some clamped, record cr { position_in_chunk = clamped }) (λ _. k) (λ _. k)

  rewind-Keeps :
      (r : Option (ReadResult × ChunkReader)) → KeepsIn content r → KeepsIn content (rewind r)
  unfolding rewind
  rewind-Keeps none k = tt
  rewind-Keeps (some (failed err, cr)) k = k
  rewind-Keeps (some (got bytes, cr)) k = seek-Keeps 0 seek_start cr k
  rewind-Keeps (some (eof bytes, cr)) k = seek-Keeps 0 seek_start cr k

  last_keeps :
      {A : Type 0} (r : Option (A × ChunkReader))
      → KeepsIn content r
      → KeepsSome content (r >>= λ x. some x.1)
  last_keeps none k = tt
  last_keeps (some r) k = k

  perform-Keeps :
      (o : Operation) (cr : ChunkReader)
      → Asks content o
      → Keeps content cr
      → KeepsSome content (perform o cr)
  unfolding perform get_prologue_state
  perform-Keeps (prefetching f) cr same k = blocking_prefetch-Keeps f cr.buffer cr same k
  perform-Keeps (reading f n) cr same k =
      last_keeps (do_read f n true cr) (do_read-Keeps f n true cr same k)
  perform-Keeps (seeking offset whence) cr _ k = seek-Keeps offset whence cr k
  perform-Keeps (leading f) cr same k =
      last_keeps (rewind (do_read f 512 false cr))
        (rewind-Keeps (do_read f 512 false cr) (do_read-Keeps f 512 false cr same k))
  perform-Keeps closing cr _ k = close-Keeps cr k

  next-Keeps :
      (r : Option ChunkReader) (go : ChunkReader → Option ChunkReader)
      → KeepsSome content r
      → ((cr : ChunkReader) → Keeps content cr → KeepsSome content (go cr))
      → KeepsSome content (r >>= go)
  next-Keeps none go k h = tt
  next-Keeps (some cr) go k h = h cr k

  pub perform_all-Keeps :
      (os : List Operation) (cr : ChunkReader)
      → All (Asks content) os
      → Keeps content cr
      → KeepsSome content (perform_all os cr)
  unfolding perform_all
  perform_all-Keeps [] cr _ k = k
  perform_all-Keeps (o ∷ os) cr (asks, all) k =
      next-Keeps (perform o cr) (perform_all os) (perform-Keeps o cr asks k)
        (λ next kept. perform_all-Keeps os next all kept)
