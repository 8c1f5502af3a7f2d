-- ===== src/Upload/Outcome.antt =====
-- The whole of `scheduleSendChunks` for the upload of a local file.
use axxx.Prelude.{
  ℕ, ◌+◌, ◌%◌, ◌^◌, ◌<◌, ◌≡◌, refl, ap, sym, ◌∙◌, Bool, true, false, ◌||◌, ◌&&◌, List, [], ◌∷◌,
  ◌++◌, map, none, some, nat_beq, if◌then◌else◌, arith, length,
}
use axxx.Limiter.{add64}
use axxx.Writer.{Bytes}
use axxx.Writer.Order.{Contiguous, contents_of}
use axxx.Download.Chunks.{lt64, adjusted_chunk_size, rounds, chunk_of, number_of_chunks}
use axxx.Download.ChunkLaws.{schedule_chunks-whole}
use axxx.Upload.{
  Source, Answers, fails, Sending, Sent, get_num_chunks, is_dummy_chunk_in_empty_file, send_chunk,
  put_first, send_loop, new_sending, check_sent, schedule_send_chunks,
}
use axxx.Upload.Rounds.{
  when, unless, before_trouble, from_trouble, read_fails, uploads, send_all,
  send_loop-schedule_chunks,
}
use axxx.Upload.Laws.{send_all-number, send_all-reference}

-- What is scheduled and sent, by the ids of the chunks.
pub record Sends (src : Source) (a : Answers) (ids : List (ℕ × ℕ)) (sent : Sent) : Type 0 where
  pub funcs :
      sent.scheduled ≡ uploads src 0 (before_trouble a ids) ++ map fails (from_trouble a ids)
  pub hash : sent.md5 ≡ (
      if read_fails a ids
      then none
      else some (contents_of (map (chunk_of src.content) (before_trouble a ids))))

send_hash :
    (b : Bool) (x y : Bytes) (safe : Bool)
    → x ≡ y
    → safe ≡ (if b then false else true)
    → (if safe then some x else none) ≡ (if b then none else some y)
send_hash true x y safe e s = rw s refl
send_hash false x y safe e s = rw (s, e) refl

check_sent_lem :
    (src : Source) (a : Answers) (ids : List (ℕ × ℕ))
    → src.is_local ≡ true
    → src.put_md5 ≡ true
    → length ids % 2 ^ 32 ≡ src.num_chunks
    → (sent : Sent) × (check_sent src (some (send_all src a ids new_sending)) ≡ some sent)
      × Sends src a ids sent
check_sent_lem src a ids l m count =
    let (funcs, hashed, safe) = send_all-reference src a ids new_sending l m refl in
    let number = send_all-number src a ids new_sending (omega arith) in
    let st = (send_all src a ids new_sending).1 in
    let announced : nat_beq st.chunk_id_count src.num_chunks ≡ true =
      ground (arith, number, count) in
    (
      record {
        scheduled = (send_all src a ids new_sending).0;
        md5 = (if src.is_local && st.safe_to_use_hash then some st.hashed else none);
        modified = st.dest_modified;
      },
      rw announced refl,
      record {
        funcs = funcs;
        hash =
            ap (λ b. if b && st.safe_to_use_hash then some st.hashed else none) l
            ∙ send_hash (read_fails a ids) _ _ _ hashed safe;
      },
    )

pub same_number :
    (size chunk : ℕ) → 0 < size → get_num_chunks size chunk ≡ number_of_chunks size chunk
unfolding get_num_chunks number_of_chunks
same_number size chunk h = ground arith

-- The upload of a local file that is not empty, with a hash, in chunks that are not empty, within
-- int64, and with the number of chunks that is computed beforehand: whatever cancellations and
-- failures of reading ahead come, the loop ends, the sanity check passes, and the chunks follow one
-- another without gap or overlap and are the file. Each chunk before the first trouble is scheduled
-- with its content and its number, each other one to fail. The hash that is sent is that of the
-- content before the first trouble, all of it if there is none; it is not sent if the first trouble
-- is a failure to read.
pub schedule_send_chunks-whole :
    (src : Source) (a : Answers)
    → src.is_local ≡ true
    → src.put_md5 ≡ true
    → src.src_size ≡ length src.content
    → 0 < src.src_size
    → 0 < src.chunk_size
    → src.src_size + src.chunk_size < 2 ^ 63
    → src.num_chunks ≡ get_num_chunks src.src_size src.chunk_size
    → (ids : List (ℕ × ℕ)) × (sent : Sent) × (schedule_send_chunks src a ≡ some sent)
      × Contiguous 0 (map (chunk_of src.content) ids)
      × (contents_of (map (chunk_of src.content) ids) ≡ src.content)
      × Sends src a ids sent
unfolding schedule_send_chunks
schedule_send_chunks-whole src a l m size some_bytes positive small number =
    let (ids, made, count, _, contiguous, whole) =
      schedule_chunks-whole src.chunk_size src.content positive (rw size at small) in
    let scheduled = rw (← size) at made in
    let counted : length ids % 2 ^ 32 ≡ src.num_chunks =
      count
      ∙ ap (λ n. number_of_chunks n src.chunk_size) (sym size)
      ∙ sym (same_number src.src_size src.chunk_size some_bytes)
      ∙ sym number in
    let looped =
      send_loop-schedule_chunks src a (rounds src.src_size src.chunk_size) 0 new_sending ids
        some_bytes scheduled in
    let (sent, checked, sends) = check_sent_lem src a ids l m counted in
    (ids, sent, ap (check_sent src) looped ∙ checked, contiguous, whole, sends)

no_bytes :
    (size chunk : ℕ) → size ≡ 0 → 0 < chunk → chunk < 2 ^ 63 → adjusted_chunk_size size chunk 0 ≡ 0
unfolding adjusted_chunk_size
no_bytes size chunk e positive small = ground (arith, e)

begins_once :
    (size chunk : ℕ)
    → size ≡ 0
    → 0 < chunk
    → chunk < 2 ^ 63
    → ((lt64 0 size || is_dummy_chunk_in_empty_file 0 size) ≡ true)
      × ((lt64 (add64 0 chunk) size || is_dummy_chunk_in_empty_file (add64 0 chunk) size) ≡ false)
unfolding is_dummy_chunk_in_empty_file
begins_once size chunk e positive small = (ground (arith, e), ground (arith, e))

pub send_loop-empty :
    (src : Source) (a : Answers) (st : Sending)
    → src.src_size ≡ 0
    → 0 < src.chunk_size
    → src.chunk_size < 2 ^ 63
    → send_loop src a (rounds src.src_size src.chunk_size) 0 st
      ≡ some (send_all src a ((0, 0) ∷ []) st)
unfolding send_loop send_all rounds
send_loop-empty src a st e positive small =
    let (first, second) = begins_once src.src_size src.chunk_size e positive small in
    let id : ℕ × ℕ = (0, adjusted_chunk_size src.src_size src.chunk_size 0) in
    when _ _ first
    ∙ ap (put_first (send_chunk src a id st).0) (unless _ _ second)
    ∙ ap (λ (size : ℕ). some (send_all src a ((0, size) ∷ []) st))
        (no_bytes src.src_size src.chunk_size e positive small)

-- The upload of an empty local file, with a hash, in chunks that are not empty, within int64, and
-- with the number of chunks that is computed beforehand: one chunk without bytes is scheduled, and
-- the hash of nothing is sent, unless the chunk could not be read.
pub schedule_send_chunks-empty :
    (src : Source) (a : Answers)
    → src.is_local ≡ true
    → src.put_md5 ≡ true
    → src.src_size ≡ 0
    → 0 < src.chunk_size
    → src.chunk_size < 2 ^ 63
    → src.num_chunks ≡ get_num_chunks src.src_size src.chunk_size
    → (sent : Sent) × (schedule_send_chunks src a ≡ some sent) × Sends src a ((0, 0) ∷ []) sent
unfolding schedule_send_chunks get_num_chunks
schedule_send_chunks-empty src a l m e positive small number =
    let one : src.num_chunks ≡ 1 = number ∙ rw e refl in
    let (sent, checked, sends) = check_sent_lem src a ((0, 0) ∷ []) l m (sym one) in
    (
      sent,
      ap (check_sent src) (send_loop-empty src a new_sending e positive small) ∙ checked,
      sends,
    )
