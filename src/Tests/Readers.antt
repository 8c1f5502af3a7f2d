-- ===== src/Tests/Readers.antt =====
-- A reader of a chunk of three bytes: a fetch that fails, one that works, a rewind, and a fetch
-- that finds the reader closed.
use axxx.Prelude.{◌≡◌, refl, true, false, List, [], ◌∷◌, some, none, arith, Option, ◌⊎◌}
use axxx.Writer.{Bytes}
use axxx.Limiter.{add64, sub64}
use axxx.ChunkReader.{
  ChunkReader, Fetch, ReadResult, new_reader, do_read, seek_start, after_fetch,
  retry_blocking_prefetch_if_necessary, blocking_prefetch, fetch, check_read, keep_buffer,
  rent_slice, return_slice, close_buffer, close, copy_out, seek, new_position, rewind,
  get_prologue_state,
}
use axxx.ChunkReader.Holding.{Holds}
use axxx.ChunkReader.Calls.{Operation, prefetching, reading, seeking, leading, perform, perform_all}
use axxx.ChunkReader.Requests.{Request, operation, hashing, ask_all, HashesNothing, ask_all-Holds}
use axxx.ChunkReader.Content.{Faithful}
use axxx.ChunkReader.Cursor.{Serves, Succeeds, Works, do_read-content}

abbrev three_bytes : Bytes
three_bytes = 5 ∷ 6 ∷ 7 ∷ []

abbrev fetch_of : Option Bytes → Fetch
fetch_of disk = record {
  open_fails = false;
  wait_fails = false;
  disk = disk;
  closed_meanwhile = false;
  cancelled_meanwhile = false;
}

abbrev good_fetch : Fetch
good_fetch = fetch_of (some three_bytes)

abbrev bad_fetch : Fetch
bad_fetch = fetch_of none

abbrev closed_fetch : Fetch
closed_fetch = record good_fetch { closed_meanwhile = true }

abbrev calls : List Operation
calls =
    prefetching bad_fetch
    ∷ leading good_fetch
    ∷ reading bad_fetch 2
    ∷ reading bad_fetch 2
    ∷ seeking 1 seek_start
    ∷ reading closed_fetch 2
    ∷ []

-- The last read finds the reader closed, and nothing is held.
after_calls :
    perform_all calls (new_reader 100 4 three_bytes)
    ≡ some (record (new_reader 100 4 three_bytes) { position_in_chunk = 1; is_closed = true })
unfolding perform_all perform do_read after_fetch retry_blocking_prefetch_if_necessary
    blocking_prefetch fetch check_read keep_buffer rent_slice return_slice close_buffer close
    copy_out seek new_position rewind get_prologue_state add64 sub64
after_calls = refl

abbrev requests : List Request
requests =
    operation (leading good_fetch) ∷ hashing ∷ operation (reading good_fetch 3) ∷ hashing ∷ []

ask_all-Holds_example :
    ((after : ChunkReader) × (ask_all requests (new_reader 100 4 three_bytes) ≡ some after)
      × Holds 100 4 after)
    ⊎ ((ask_all requests (new_reader 100 4 three_bytes) ≡ none)
        × HashesNothing requests (new_reader 100 4 three_bytes))
ask_all-Holds_example = ask_all-Holds 100 4 requests (new_reader 100 4 three_bytes) (record {
  inside = omega arith;
  small = omega arith;
  base_small = omega arith;
  booked = (refl, refl);
})

good-Faithful : Faithful three_bytes good_fetch
good-Faithful = record { same = λ bytes e l. cc }

bad-Faithful : Faithful three_bytes bad_fetch
bad-Faithful = record { same = λ bytes e l. absurd cc }

do_read-content_example :
    (cr : ChunkReader) × (perform_all
        (prefetching bad_fetch ∷ reading good_fetch 2 ∷ [])
        (new_reader 100 4 three_bytes)
      ≡ some cr)
    × (r : ReadResult × ChunkReader) × (do_read good_fetch 2 true cr ≡ some r)
    × Serves three_bytes 2 cr.position_in_chunk r.0 r.1.position_in_chunk
    × (Works three_bytes good_fetch cr → Succeeds r.0)
do_read-content_example =
    do_read-content three_bytes 100 4 (prefetching bad_fetch ∷ reading good_fetch 2 ∷ []) good_fetch
      2 true (omega arith) (omega arith) (bad-Faithful, (good-Faithful, tt)) good-Faithful
