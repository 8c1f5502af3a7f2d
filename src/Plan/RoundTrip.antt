-- ===== src/Plan/RoundTrip.antt =====
-- The whole file of a job part: what `Create` writes and what the readers give back.
use axxx.Prelude.{
  ℕ, zero, suc, ◌+◌, ◌-◌, ◌*◌, ◌^◌, ◌<◌, ◌≡◌, refl, true, false, List, [], ◌∷◌, ◌++◌, some,
  append_assoc, append-nil, arith, length, get_elem?, length-append, All, replicate,
  length-replicate, lt→ltb,
}
use native.Mathlib.Nat.{zero-add}
use axxx.Writer.{Bytes}
use axxx.Plan.File.{
  OrderedTransfer, TransferHeader, FileHeader, PartOrder, Image, images, align8, strings_fit,
  new_header, create,
}
use axxx.Plan.Reading.{header, transfer_header, command_string, transfer_texts}
use axxx.Plan.FileLaws.{
  Fits, all_strings, strings_of, header_of, header_of_lem, headers_of, length-headers_of,
  transfer_headers_lem, write_strings_lem, located, read_strings,
}
use axxx.Plan.Located.{At, take-drop-At, At-left, At-right, At-images, length-images}

get_elem?-Fits :
    (ts : List OrderedTransfer) (i : ℕ) (t : OrderedTransfer)
    → All Fits ts
    → get_elem? ts i ≡ some t
    → Fits t
get_elem?-Fits [] i t fits h = cc
get_elem?-Fits (t' ∷ ts) zero t (fit, fits) h = let same : t' ≡ t = ground arith in rw (← same) fit
get_elem?-Fits (t' ∷ ts) (suc i) t (fit, fits) h = get_elem?-Fits ts i t fits h

get_elem?-lt : {A : Type 0} (xs : List A) (i : ℕ) (x : A) → get_elem? xs i ≡ some x → i < length xs
get_elem?-lt [] i x h = cc
get_elem?-lt (y ∷ xs) zero x h = omega arith
get_elem?-lt (y ∷ xs) (suc i) x h = omega (arith, get_elem?-lt xs i x h)

module _ (header_layout : Image FileHeader) (transfer_layout : Image TransferHeader) where
  -- The file up to the headers of the transfers.
  unfoldable pub padded : PartOrder → Bytes
  padded order =
      let start = header_layout.image (new_header order) ++ order.command_string in
      start ++ replicate (align8 (length start) - length start) 0

  pub length-padded :
      (order : PartOrder)
      → length (padded order) ≡ align8 (header_layout.size + length order.command_string)
  unfolding padded
  length-padded order =
      let start = header_layout.image (new_header order) ++ order.command_string in
      omega (
        arith,
        length-append start (replicate (align8 (length start) - length start) 0),
        length-append (header_layout.image (new_header order)) order.command_string,
        header_layout.length_image (new_header order),
        length-replicate {A = ℕ} (align8 (length start) - length start) 0,
      )

  -- The file of an order whose transfers fit.
  file_of : PartOrder → Bytes
  unfolding padded
  file_of order =
      let base = length (padded order) + transfer_layout.size * length order.transfers in
      (padded order ++ images transfer_layout (headers_of base order.transfers))
      ++ all_strings order.transfers

  module _ (order : PartOrder) (fit : strings_fit order ≡ true) (fits : All Fits order.transfers)
      (small_command : length order.command_string < 2 ^ 32) (few : length order.transfers < 2 ^ 32)
      (small : header_layout.size
          + length order.command_string
          + 8
          + transfer_layout.size * length order.transfers
          + length (all_strings order.transfers)
        < 2 ^ 63) where
    base : ℕ
    base = length (padded order) + transfer_layout.size * length order.transfers

    length-before :
        length (padded order ++ images transfer_layout (headers_of base order.transfers)) ≡ base
    unfolding base
    length-before = rw (
      length-append (padded order) (images transfer_layout (headers_of base order.transfers)),
      length-images transfer_layout (headers_of base order.transfers),
      length-headers_of base order.transfers,
    )

    in_int64 : base + length (all_strings order.transfers) < 2 ^ 63
    unfolding base
    in_int64 = omega (arith, length-padded order)

    created : create header_layout transfer_layout false order ≡ some (file_of order)
    unfolding create file_of base padded
    created =
        rw (fit, transfer_headers_lem base order.transfers fits in_int64)
          (write_strings_lem order.transfers _ base length-before)

    start-At : At (file_of order) 0 (header_layout.image (new_header order) ++ order.command_string)
    unfolding file_of padded base
    start-At =
        let start = header_layout.image (new_header order) ++ order.command_string in
        (
          [],
          replicate (align8 (length start) - length start) 0
              ++ (images transfer_layout (headers_of base order.transfers)
                  ++ all_strings order.transfers),
          simp append_assoc,
          refl,
        )

    header-file_of : header header_layout transfer_layout (file_of order) ≡ new_header order
    unfolding header
    header-file_of =
        let image = header_layout.image (new_header order) in
        let found =
          take-drop-At (file_of order) 0 image
            (At-left (file_of order) 0 image order.command_string start-At) in
        rw (← header_layout.length_image (new_header order), found)
          (header_layout.view_image (new_header order))

    command_string_length-new_header :
        (new_header order).command_string_length ≡ length order.command_string
    unfolding new_header
    command_string_length-new_header = omega arith

    num_transfers-new_header : (new_header order).num_transfers ≡ length order.transfers
    unfolding new_header
    num_transfers-new_header = omega arith

    command_string-file_of :
        command_string header_layout transfer_layout (file_of order) ≡ order.command_string
    unfolding command_string
    command_string-file_of =
        let image = header_layout.image (new_header order) in
        let found =
          take-drop-At (file_of order) (0 + length image) order.command_string
            (At-right (file_of order) 0 image order.command_string start-At) in
        rw
          (
            header-file_of,
            command_string_length-new_header,
            ← header_layout.length_image (new_header order),
            ← zero-add (length image),
          )
          found

    module _ (i : ℕ) (t : OrderedTransfer) (chosen : get_elem? order.transfers i ≡ some t) where
      strings-At :
          (o : ℕ) × (get_elem? (headers_of base order.transfers) i ≡ some (header_of o t))
          × At (file_of order) o (strings_of t.texts)
      unfolding file_of base
      strings-At =
          let (o, found, here) =
            located (padded order ++ images transfer_layout (headers_of base order.transfers)) []
              base order.transfers i t length-before chosen in
          (o, found, simp append-nil at here)

      header-At :
          At
            (file_of order)
            (length (padded order) + transfer_layout.size * i)
            (transfer_layout.image (header_of strings-At.0 t))
      unfolding file_of base
      header-At = rw (append_assoc (padded order)) (
          At-images transfer_layout (padded order) (all_strings order.transfers)
            (headers_of base order.transfers) i (header_of strings-At.0 t) strings-At.1)

      transfer_header-file_of :
          transfer_header header_layout transfer_layout (file_of order) i
          ≡ some (header_of strings-At.0 t)
      unfolding transfer_header
      transfer_header-file_of =
          let jppt = header_of strings-At.0 t in
          let found = take-drop-At (file_of order) _ (transfer_layout.image jppt) header-At in
          rw (
            header-file_of,
            command_string_length-new_header,
            num_transfers-new_header,
            lt→ltb i (length order.transfers) (get_elem?-lt order.transfers i t chosen),
            ← length-padded order,
            rw (transfer_layout.length_image jppt) at found,
            transfer_layout.view_image jppt,
          )

  -- An order whose fixed strings fit their fields and each of whose transfers has, in all, strings
  -- of fewer than 2^15 bytes, with fewer than 2^32 transfers and bytes of command string and a file
  -- that is shorter than 2^63 bytes: `Create` does not panic, and of the file that it writes a
  -- later run reads back the command string and, for each transfer, all of its strings, its entity
  -- type, its modification time and its size.
  pub create-transfer_texts :
      (order : PartOrder) (i : ℕ) (t : OrderedTransfer)
      → strings_fit order ≡ true
      → All Fits order.transfers
      → length order.command_string < 2 ^ 32
      → length order.transfers < 2 ^ 32
      → header_layout.size
          + length order.command_string
          + 8
          + transfer_layout.size * length order.transfers
          + length (all_strings order.transfers)
        < 2 ^ 63
      → get_elem? order.transfers i ≡ some t
      → (file : Bytes) × (create header_layout transfer_layout false order ≡ some file)
        × (command_string header_layout transfer_layout file ≡ order.command_string)
        × (transfer_texts header_layout transfer_layout file i ≡ some t.texts)
        × ((jppt : TransferHeader) × (transfer_header header_layout transfer_layout file i
              ≡ some jppt)
            × (jppt.entity_type ≡ t.entity_type)
            × (jppt.modified_time ≡ t.last_modified_time)
            × (jppt.source_size ≡ t.source_size))
  unfolding transfer_texts
  create-transfer_texts order i t fit fits small_command few small chosen =
      let (o, found, here) = strings-At order fit fits small_command few small i t chosen in
      let read = transfer_header-file_of order fit fits small_command few small i t chosen in
      let (offset, lengths, entity, modified, size) = header_of_lem o t in
      (
        file_of order,
        created order fit fits small_command few small,
        command_string-file_of order fit fits small_command few small,
        rw read (
            read_strings (file_of order) o t.texts (header_of o t) offset lengths
              (here, get_elem?-Fits order.transfers i t fits chosen)),
        (header_of o t, read, entity, modified, size),
      )
