-- ===== src/ChunkReader/Holding.antt =====
-- The memory that a chunk reader holds: that of its buffer, and nothing once it is closed.
use axxx.Prelude.{
  ℕ, ◌+◌, ◌^◌, ◌<◌, ◌≤◌, ◌≡◌, refl, ap, Bool, true, false, Option, none, some, nat_beq,
  if◌then◌else◌, arith, length,
}
use axxx.Limiter.{add64}
use axxx.Writer.{Bytes}
use axxx.ChunkReader.{
  ChunkReader, Fetch, ReadError, return_slice, close_buffer, close, rent_slice, wait_cancelled,
  cannot_open, closed_while_reading, context_done, wrong_length, check_read, or_empty, keep_buffer,
  fetch, blocking_prefetch, retry_blocking_prefetch_if_necessary,
}

-- What is booked for this buffer, on top of what others have booked.
abbrev pub Booked : ℕ → ℕ → Bool → Option Bytes → ℕ → ℕ → ℕ → Type 0
Booked base others closed none reader_length in_ram rented = (in_ram ≡ base) × (rented ≡ others)
Booked base others closed (some buffer) reader_length in_ram rented =
    (in_ram ≡ add64 base reader_length)
    × (rented ≡ others + 1)
    × (length buffer ≡ reader_length)
    × (closed ≡ false)

pub record Holds (base others : ℕ) (cr : ChunkReader) : Type 0 where
  pub inside : cr.position_in_chunk ≤ cr.reader_length
  pub small : cr.reader_length < 2 ^ 63
  pub base_small : base < 2 ^ 64
  pub booked : Booked base others cr.is_closed cr.buffer cr.reader_length cr.in_ram cr.rented

-- A reader with this buffer; any reader is one with its own.
abbrev pub with_buffer : Option Bytes → ChunkReader → ChunkReader
with_buffer b cr = record cr { buffer = b }

module _ (base others : ℕ) where
  return_slice-Holds :
      (cr : ChunkReader) (closed : Bool)
      → cr.position_in_chunk ≤ cr.reader_length
      → cr.reader_length < 2 ^ 63
      → base < 2 ^ 64
      → cr.in_ram ≡ add64 base cr.reader_length
      → cr.rented ≡ others + 1
      → cr.buffer ≡ none
      → Holds base others (record (return_slice cr) { is_closed = closed })
  unfolding return_slice
  return_slice-Holds cr closed inside small base_small ram rented e = record {
    inside = inside;
    small = small;
    base_small = base_small;
    booked = rw e (omega (arith, ram), omega (arith, rented));
  }

  pub close-Holds_with :
      (b : Option Bytes) (cr : ChunkReader)
      → Holds base others (with_buffer b cr)
      → Holds base others (close_buffer (with_buffer b cr))
        × ((close_buffer (with_buffer b cr)).buffer ≡ none)
        × Holds base others (close (with_buffer b cr))
  unfolding close_buffer close return_slice
  close-Holds_with none cr h = (
    h,
    refl,
    record { inside = h.inside; small = h.small; base_small = h.base_small; booked = h.booked },
  )
  close-Holds_with (some buffer) cr h =
      let (ram, rented, _, _) = h.booked in
      let back = return_slice-Holds (record cr { buffer = none }) in
      (
        record {
          inside = h.inside;
          small = h.small;
          base_small = h.base_small;
          booked = (omega (arith, ram, h.small, h.base_small), omega (arith, rented));
        },
        refl,
        record {
          inside = h.inside;
          small = h.small;
          base_small = h.base_small;
          booked = (omega (arith, ram, h.small, h.base_small), omega (arith, rented));
        },
      )

  -- While the disk is read, the memory is booked and there is no buffer yet.
  record Waits (cr : ChunkReader) : Type 0 where
    inside : cr.position_in_chunk ≤ cr.reader_length
    small : cr.reader_length < 2 ^ 63
    base_small : base < 2 ^ 64
    ram : cr.in_ram ≡ add64 base cr.reader_length
    slices : cr.rented ≡ others + 1

  -- Without an error there is a buffer, and the position is as before.
  pub record Fetched (cr : ChunkReader) (r : Option ReadError × ChunkReader) : Type 0 where
    pub holds : Holds base others r.1
    pub found : r.0 ≡ none → (b : Bytes) × (r.1.buffer ≡ some b) × (length b ≡ r.1.reader_length)
    pub same_position : r.1.position_in_chunk ≡ cr.position_in_chunk
    pub same_length : r.1.reader_length ≡ cr.reader_length

  keep_buffer-Fetched :
      (f : Fetch) (before cr : ChunkReader) (err : Option ReadError)
      → Waits cr
      → cr.buffer ≡ none
      → cr.position_in_chunk ≡ before.position_in_chunk
      → cr.reader_length ≡ before.reader_length
      → (err ≡ none → (cr.is_closed ≡ false) × (length (or_empty f.disk) ≡ cr.reader_length))
      → Fetched before (keep_buffer f cr err)
  unfolding keep_buffer return_slice
  keep_buffer-Fetched f before cr none w e p l good =
      let (open', right) = good refl in
      record {
        holds = record {
          inside = w.inside;
          small = w.small;
          base_small = w.base_small;
          booked = (w.ram, w.slices, right, open');
        };
        found = λ _. (or_empty f.disk, refl, right);
        same_position = p;
        same_length = l;
      }
  keep_buffer-Fetched f before cr (some err) w e p l good = record {
    holds = return_slice-Holds cr cr.is_closed w.inside w.small w.base_small w.ram w.slices e;
    found = λ absurd. cc;
    same_position = p;
    same_length = l;
  }

  checks_pass :
      (bytes : Bytes) (closed cancelled : Bool) (n : ℕ)
      → (if closed
          then some closed_while_reading
          else if cancelled
          then some context_done
          else if nat_beq (length bytes) n
          then none
          else some wrong_length)
        ≡ none
      → (closed ≡ false) × (length bytes ≡ n)
  checks_pass bytes closed cancelled n h = ground arith

  pub check_read-none :
      (f : Fetch) (cr : ChunkReader) (disk : Option Bytes)
      → check_read (record f { disk = disk }) cr ≡ none
      → (cr.is_closed ≡ false) × (length (or_empty disk) ≡ cr.reader_length)
  unfolding check_read
  check_read-none f cr none h = absurd cc
  check_read-none f cr (some bytes) h =
      checks_pass bytes cr.is_closed f.cancelled_meanwhile cr.reader_length h

  asking :
      (cr : ChunkReader) (closed : Bool)
      → Holds base others (with_buffer none cr)
      → Waits (record (rent_slice (with_buffer none cr)) { is_closed = closed })
  unfolding rent_slice
  asking cr closed h =
      let (ram, rented) = h.booked in
      record {
        inside = h.inside;
        small = h.small;
        base_small = h.base_small;
        ram = ap (λ n. add64 n cr.reader_length) ram;
        slices = ap (λ n. n + 1) rented;
      }

  -- Without a buffer, memory is booked and a slice taken, and then the disk is asked.
  fetch-Fetched :
      (f : Fetch) (cr : ChunkReader)
      → Holds base others (with_buffer none cr)
      → Fetched cr (fetch f (with_buffer none cr))
  unfolding fetch rent_slice close close_buffer
  fetch-Fetched f cr h =
      let renting = rent_slice (with_buffer none cr) in
      elim f.closed_meanwhile
        as (λ (c : Bool).
          let after = if c then close renting else renting in
          Fetched cr (keep_buffer f after (check_read f after))) [
            | true ↦
                keep_buffer-Fetched f cr (close renting) (check_read f (close renting))
                  (asking cr true h) refl refl refl (check_read-none f (close renting) f.disk)
            | false ↦
                keep_buffer-Fetched f cr renting (check_read f renting) (asking cr cr.is_closed h)
                  refl refl refl (check_read-none f renting f.disk)
          ]

  either-Fetched :
      (c : Bool) (cr : ChunkReader) (x y : Option ReadError × ChunkReader)
      → Fetched cr x
      → Fetched cr y
      → Fetched cr (if c then x else y)
  either-Fetched true cr x y p q = p
  either-Fetched false cr x y p q = q

  -- With a buffer nothing is done.
  already-Fetched :
      (b : Bytes) (cr : ChunkReader)
      → Holds base others (with_buffer (some b) cr)
      → Fetched cr (none, with_buffer (some b) cr)
  already-Fetched b cr h =
      let (_, _, right, _) = h.booked in
      record { holds = h; found = λ _. (b, refl, right); same_position = refl; same_length = refl }

  -- Without a buffer and with an error nothing is done.
  fails-Fetched :
      (err : ReadError) (cr : ChunkReader)
      → Holds base others (with_buffer none cr)
      → Fetched cr (some err, with_buffer none cr)
  fails-Fetched err cr h = record {
    holds = h;
    found = λ e. absurd cc;
    same_position = refl;
    same_length = refl;
  }

  pub blocking_prefetch-Fetched :
      (f : Fetch) (b : Option Bytes) (cr : ChunkReader)
      → Holds base others (with_buffer b cr)
      → Fetched cr (blocking_prefetch f (with_buffer b cr))
  unfolding blocking_prefetch
  blocking_prefetch-Fetched f (some b) cr h = already-Fetched b cr h
  blocking_prefetch-Fetched f none cr h =
      either-Fetched f.wait_fails cr (some wait_cancelled, with_buffer none cr)
        (fetch f (with_buffer none cr)) (fails-Fetched wait_cancelled cr h) (fetch-Fetched f cr h)

  pub retry-Fetched :
      (f : Fetch) (b : Option Bytes) (cr : ChunkReader)
      → Holds base others (with_buffer b cr)
      → Fetched cr (retry_blocking_prefetch_if_necessary f (with_buffer b cr))
  unfolding retry_blocking_prefetch_if_necessary
  retry-Fetched f (some b) cr h = already-Fetched b cr h
  retry-Fetched f none cr h =
      either-Fetched f.open_fails cr (some cannot_open, with_buffer none cr)
        (blocking_prefetch f (with_buffer none cr)) (fails-Fetched cannot_open cr h)
        (blocking_prefetch-Fetched f none cr h)
