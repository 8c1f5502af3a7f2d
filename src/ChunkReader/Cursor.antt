-- ===== src/ChunkReader/Cursor.antt =====
-- What a chunk reader reads: the bytes of the chunk, in order, as a cursor over them would.
use mathlib.Core.Path.{subst}
use axxx.Prelude.{
  ℕ, ◌+◌, ◌<◌, ◌≤◌, ◌^◌, ◌≡◌, refl, ap, sym, ◌∙◌, Bool, true, false, List, [], ◌∷◌, Option, none,
  some, nat_beq, leb, if◌then◌else◌, arith, length, take, drop, take-drop-bound, All, if-either,
}
use axxx.Writer.{Bytes}
use axxx.ChunkReader.{
  ChunkReader, Fetch, ReadError, ReadResult, got, eof, failed, return_slice, close_buffer, close,
  rent_slice, check_read, keep_buffer, fetch, blocking_prefetch,
  retry_blocking_prefetch_if_necessary, new_reader, copy_out, after_fetch, do_read,
}
use axxx.ChunkReader.Holding.{Holds, Fetched, with_buffer, retry-Fetched}
use axxx.ChunkReader.Calls.{Operation, perform_all, perform_all-Holds, after_fetch-copies}
use axxx.ChunkReader.Content.{
  Faithful, Asks, Kept, Keeps, KeepsSome, retry-Keeps, perform_all-Keeps,
}

-- What a read into `n` bytes at this position may give, and the position after it.
abbrev pub Serves : Bytes → ℕ → ℕ → ReadResult → ℕ → Type 0
Serves content n p (failed err) after = after ≡ p
Serves content n p (got bytes) after =
    (bytes ≡ take n (drop p content)) × (after ≡ p + length bytes) × (after < length content)
Serves content n p (eof bytes) after =
    (bytes ≡ take n (drop p content)) × (after ≡ p + length bytes) × (length content ≤ after)

abbrev pub Succeeds : ReadResult → Type 0
Succeeds (failed err) = ⊥
Succeeds _ = Unit

-- The file can be opened and read, and the reader is not closed.
pub record Works (content : Bytes) (f : Fetch) (cr : ChunkReader) : Type 0 where
  pub opens : f.open_fails ≡ false
  pub has_memory : f.wait_fails ≡ false
  pub on_disk : f.disk ≡ some content
  pub is_open : cr.is_closed ≡ false
  pub stays_open : f.closed_meanwhile ≡ false
  pub goes_on : f.cancelled_meanwhile ≡ false

leb-le : (a b : ℕ) → leb a b ≡ true → a ≤ b
leb-le a b = ground arith

nothing_left : {A : Type 0} (xs : List A) → length xs ≤ 0 → [] ≡ xs
nothing_left [] h = refl
nothing_left (x ∷ xs) h = absurd (omega (arith, h))

nat_beq_refl : (n : ℕ) → nat_beq n n ≡ true
nat_beq_refl n = ground arith

module _ (content : Bytes) where
  retry-Works :
      (f : Fetch) (b : Option Bytes) (cr : ChunkReader)
      → Works content f cr
      → length content ≡ cr.reader_length
      → (retry_blocking_prefetch_if_necessary f (with_buffer b cr)).0 ≡ none
  unfolding retry_blocking_prefetch_if_necessary blocking_prefetch fetch check_read keep_buffer
      rent_slice close close_buffer
  retry-Works f (some b) cr w l = refl
  retry-Works f none cr w l =
      ap
        (λ (x : Fetch × ChunkReader).
          (retry_blocking_prefetch_if_necessary x.0 (with_buffer none x.1)).0)
        (λ i. (
          record {
            open_fails = w.opens i;
            wait_fails = w.has_memory i;
            disk = w.on_disk i;
            closed_meanwhile = w.stays_open i;
            cancelled_meanwhile = w.goes_on i;
          },
          record cr { is_closed = w.is_open i; reader_length = sym l i },
        ))
      ∙ rw (nat_beq_refl (length content)) refl

  close_buffer_position :
      (b : Option Bytes) (cr : ChunkReader)
      → (close_buffer (with_buffer b cr)).position_in_chunk ≡ cr.position_in_chunk
  unfolding close_buffer return_slice
  close_buffer_position none cr = refl
  close_buffer_position (some b) cr = refl

  freed_position :
      (free_at_eof : Bool) (cr : ChunkReader)
      → (if free_at_eof then close_buffer cr else cr).position_in_chunk ≡ cr.position_in_chunk
  freed_position true cr = close_buffer_position cr.buffer cr
  freed_position false cr = refl

  copy_out-Serves :
      (n : ℕ) (free_at_eof : Bool) (cr : ChunkReader)
      → length content ≡ cr.reader_length
      → Serves content n cr.position_in_chunk
          (copy_out n free_at_eof content cr).0
          (copy_out n free_at_eof content cr).1.position_in_chunk
        × Succeeds (copy_out n free_at_eof content cr).0
  unfolding copy_out
  copy_out-Serves n free_at_eof cr l =
      let bytes = take n (drop cr.position_in_chunk content) in
      let moved = record cr { position_in_chunk = cr.position_in_chunk + length bytes } in
      if-either
        (λ (r : ReadResult × ChunkReader).
          Serves content n cr.position_in_chunk r.0 r.1.position_in_chunk × Succeeds r.0)
        (leb cr.reader_length moved.position_in_chunk)
        (eof bytes, (if free_at_eof then close_buffer moved else moved)) (got bytes, moved)
        (λ past.
          let same = freed_position free_at_eof moved in
          (
            (
              refl,
              same,
              omega (arith, same, l, leb-le cr.reader_length moved.position_in_chunk past),
            ),
            tt,
          ))
        (λ before. ((refl, refl, ground arith), tt))

module _ (content : Bytes) (base others : ℕ) where
  after_fetch-Serves :
      (n : ℕ) (free_at_eof : Bool) (before cr : ChunkReader) (err : Option ReadError)
      → Fetched base others before (err, cr)
      → Keeps content cr
      → before.position_in_chunk < before.reader_length
      → (r : ReadResult × ChunkReader) × (after_fetch n free_at_eof err cr ≡ some r)
        × Serves content n before.position_in_chunk r.0 r.1.position_in_chunk
        × (err ≡ none → Succeeds r.0)
  unfolding after_fetch
  after_fetch-Serves n free_at_eof before cr (some err) fetched k lt =
      ((failed err, cr), refl, fetched.same_position, λ absurd. cc)
  after_fetch-Serves n free_at_eof before cr none fetched k lt =
      let (b, e, right, copies) =
        after_fetch-copies base others n free_at_eof before cr fetched lt in
      let whole = subst (Kept content) e k.1 in
      let (serves, succeeds) = copy_out-Serves content n free_at_eof cr k.0 in
      (
        copy_out n free_at_eof content cr,
        copies ∙ ap (λ c. some (copy_out n free_at_eof c cr)) whole,
        subst
            (λ p.
              Serves content n p (copy_out n free_at_eof content cr).0
                (copy_out n free_at_eof content cr).1.position_in_chunk)
            fetched.same_position serves,
        λ _. succeeds,
      )

  do_read-Serves :
      (f : Fetch) (n : ℕ) (free_at_eof : Bool) (cr : ChunkReader)
      → Faithful content f
      → Holds base others cr
      → Keeps content cr
      → (r : ReadResult × ChunkReader) × (do_read f n free_at_eof cr ≡ some r)
        × Serves content n cr.position_in_chunk r.0 r.1.position_in_chunk
        × (Works content f cr → Succeeds r.0)
  unfolding do_read
  do_read-Serves f n free_at_eof cr same h k =
      let fetched = retry_blocking_prefetch_if_necessary f cr in
      if-either
        (λ (o : Option (ReadResult × ChunkReader)).
          (r : ReadResult × ChunkReader) × (o ≡ some r)
          × Serves content n cr.position_in_chunk r.0 r.1.position_in_chunk
          × (Works content f cr → Succeeds r.0))
        (leb cr.reader_length cr.position_in_chunk) (some (eof [], cr))
        (after_fetch n free_at_eof fetched.0 fetched.1)
        (λ past. (
          (eof [], cr),
          refl,
          (
            nothing_left (take n (drop cr.position_in_chunk content)) (
                omega (
                  arith,
                  take-drop-bound n cr.position_in_chunk content,
                  leb-le cr.reader_length cr.position_in_chunk past,
                  k.0,
                )),
            omega arith,
            omega (arith, leb-le cr.reader_length cr.position_in_chunk past, k.0),
          ),
          λ _. tt,
        ))
        (λ before.
          let (r, e, serves, succeeds) =
            after_fetch-Serves n free_at_eof cr fetched.1 fetched.0
              (retry-Fetched base others f cr.buffer cr h)
              (retry-Keeps content f cr.buffer cr same k) (ground arith) in
          (r, e, serves, λ w. succeeds (retry-Works content f cr.buffer cr w k.0)))

-- When the disk gives the content of the chunk whenever it gives as many bytes, then after any
-- calls on a new reader a read does not panic, and gives the bytes of the content from the position
-- on, moves the position past them, and says that the end is reached exactly when it is; or it
-- fails and the position stays. It does not fail when the file can be opened and read and the
-- reader is open and stays open.
pub do_read-content :
    (content : Bytes) (base others : ℕ) (os : List Operation) (f : Fetch) (n : ℕ)
    (free_at_eof : Bool)
    → length content < 2 ^ 63
    → base < 2 ^ 64
    → All (Asks content) os
    → Faithful content f
    → (cr : ChunkReader) × (perform_all os (new_reader base others content) ≡ some cr)
      × (r : ReadResult × ChunkReader) × (do_read f n free_at_eof cr ≡ some r)
      × Serves content n cr.position_in_chunk r.0 r.1.position_in_chunk
      × (Works content f cr → Succeeds r.0)
do_read-content content base others os f n free_at_eof small base_small asks same =
    let start = new_reader base others content in
    let (cr, e, holds) = perform_all-Holds base others os start (record {
      inside = omega arith;
      small = small;
      base_small = base_small;
      booked = (refl, refl);
    }) in
    let kept = subst (KeepsSome content) e (perform_all-Keeps content os start asks (refl, tt)) in
    let (r, read, serves, succeeds) =
      do_read-Serves content base others f n free_at_eof cr same holds kept in
    (cr, e, r, read, serves, succeeds)
