-- ===== src/Download/Whole.antt =====
-- A download from the chunk loop to the file: what the writer's worker has written when the chunks
-- that the loop scheduled have arrived.
use axxx.Prelude.{
  some-injective, ℕ, ◌+◌, ◌^◌, ◌<◌, ◌≤◌, ◌≡◌, refl, ap, sym, ◌∙◌, Bool, false, ◌||◌, not,
  if◌then◌else◌, List, [], ◌∷◌, ◌++◌, map, some, arith, length, All,
}
use mathlib.Core.List.{Permᴰ}
use axxx.Writer.{
  Bytes, FileChunk, Booking, ChunkedFileWriter, closed, running, finished, worker_routine,
  new_writer, new_hasher,
}
use axxx.Writer.Order.{Contiguous, contents_of, has, HaveArrived, HaveArrived-more}
use axxx.Writer.Arrivals.{arrivals, offsets_of, ChunksOf, file_complete}
use axxx.Download.Chunks.{schedule_chunks, rounds, chunk_of}
use axxx.Download.ChunkLaws.{schedule_chunks-whole}

All-both :
    {P Q R : FileChunk → Type 0} (cs : List FileChunk)
    → ((c : FileChunk) → P c → Q c → R c)
    → All P cs
    → All Q cs
    → All R cs
All-both [] f ps qs = tt
All-both (c ∷ cs) f (p, ps) (q, qs) = (f c p q, All-both cs f ps qs)

All-Perm : (P : FileChunk → Type 0) {xs ys : List FileChunk} → Permᴰ xs ys → All P xs → All P ys
All-Perm P Permᴰ.nil h = tt
All-Perm P (Permᴰ.cons e p) (h, hs) = (rw (← e) h, All-Perm P p hs)
All-Perm P (Permᴰ.swap e e') (h, (h', hs)) = (rw (← e') h', (rw (← e) h, hs))
All-Perm P (Permᴰ.trans p q) h = All-Perm P q (All-Perm P p h)

has-Perm :
    {xs ys : List FileChunk} (o : ℕ) → Permᴰ xs ys → has o (offsets_of xs) ≡ has o (offsets_of ys)
has-Perm o Permᴰ.nil = refl
has-Perm o (Permᴰ.cons e p) = rw (e, has-Perm o p)
has-Perm o (Permᴰ.swap e e') = rw (e, e') (ground arith)
has-Perm o (Permᴰ.trans p q) = has-Perm o p ∙ has-Perm o q

not_before :
    (a b : ℕ) (cs : List FileChunk) → Contiguous a cs → b ≤ a → All (λ c. b ≤ c.offset_in_file) cs
not_before a b [] h le = tt
not_before a b (c ∷ cs) (e, some_bytes, h) le =
    (omega (arith, e), not_before (a + length c.contents) b cs h (omega arith))

chunk_at-own : (a : ℕ) (cs : List FileChunk) → Contiguous a cs → ChunksOf cs cs
chunk_at-own a [] h = tt
chunk_at-own a (c ∷ cs) (e, some_bytes, h) = (
  ground arith,
  All-both cs (λ d later found. ground (arith, e))
      (not_before _ (a + length c.contents) cs h (omega arith))
      (chunk_at-own (a + length c.contents) cs h),
)

HaveArrived-own : (cs : List FileChunk) → HaveArrived (offsets_of cs) cs
HaveArrived-own [] = tt
HaveArrived-own (c ∷ cs) =
    (ground arith, HaveArrived-more c.offset_in_file (offsets_of cs) cs (HaveArrived-own cs))

-- A source with this content is downloaded with chunks that are not empty, within int64. Once the
-- chunks that the loop scheduled have all arrived at the writer, in any order, and the channel is
-- closed, where the file's `Write` has no error and no cancellation comes, the worker has written
-- the source's content to the file. It ends with the hash of exactly that content if the hash is
-- checked and the source has one to compare with, and else with an empty one.
pub download-worker_routine :
    (write_fails : Bytes → Bytes → Bool) (no_check source_md5_exists : Bool) (chunk : ℕ)
    (content : Bytes) (ids : List (ℕ × ℕ)) (arrived : List FileChunk) (b : Booking)
    → ((saved slice : Bytes) → write_fails saved slice ≡ false)
    → 0 < chunk
    → length content + chunk < 2 ^ 63
    → schedule_chunks (rounds (length content) chunk) (length content) chunk 0 ≡ some ids
    → Permᴰ (map (chunk_of content) ids) arrived
    → (w : ChunkedFileWriter) × (worker_routine write_fails
          (new_hasher no_check source_md5_exists)
          (arrivals arrived ++ closed ∷ [])
          (running (new_writer b))
        ≡ finished (if no_check || not source_md5_exists then [] else content) w)
      × (w.file ≡ content)
download-worker_routine write_fails no_check source_md5_exists chunk content ids arrived b never
      positive small made perm =
    let (ids', made', _, _, contiguous, whole) =
      schedule_chunks-whole chunk content positive small in
    let same : ids' ≡ ids = some-injective (sym made' ∙ made) in
    let cs = map (chunk_of content) ids in
    let ordered : Contiguous 0 cs = rw (← same) contiguous in
    let all : contents_of cs ≡ content = rw (← same) whole in
    let own = HaveArrived-own cs in
    let found : HaveArrived (offsets_of arrived) cs =
      All-both cs (λ c here _. sym (has-Perm c.offset_in_file perm) ∙ here) own own in
    rw (← all) (
      file_complete write_fails no_check source_md5_exists never cs arrived b ordered
        (omega (arith, ap length all)) (All-Perm _ perm (chunk_at-own 0 cs ordered)) found)
