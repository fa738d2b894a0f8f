-- ===== src/Client/Received.antt =====
-- What the worker writes the client reads (device/core/src/wire.rs, cli/src/lib.rs).
use donkeywork_desktop.Base.{
  ℕ, ◌%◌, ◌≤◌, ◌<◌, ◌≡◌, refl, sym, ap, ◌∙◌, true, false, ◌||◌, ◌⊎◌, inl, inr, some, List, [], ◌∷◌,
  ◌++◌, ok, ok_or, ltb, ◌==◌, length, arith,
}
use mathlib.Core.List.{append_assoc}
use donkeywork_desktop.Base.Actions.{Act, continue, pure, lift, ensure, ◌>>=◌, ◌>>◌}
use donkeywork_desktop.Console.Records.{to_be_bytes, from_be_bytes, to_vec, from_slice}
use donkeywork_desktop.Console.Framing.{
  framed, reads, from_be_bytes-to_be_bytes, length-to_be_bytes,
}
use donkeywork_desktop.Wire.Messages.{
  Reply, Failure, invalid_record, max_header, max_png, with_failure, write_reply,
}
use donkeywork_desktop.Wire.Exchange.{no_flush}
use donkeywork_desktop.Wire.Replies.{write_reply_lem}
use donkeywork_desktop.Client.Png.{Decoder, validate_png}
use donkeywork_desktop.Client.Calls.{
  Messages, Socket, body_size, check_body, read_binary, read_header, read_record,
}

-- A stream of bytes: what is read is taken from the front, and what is written is put at the end.
abbrev pub bytes_socket : Socket (List ℕ)
bytes_socket = record {
  write_all = to_vec;
  flush = no_flush;
  read_exact = from_slice;
  shutdown = λ w. w;
  new_id = λ w. (w, 0);
}

with_reads :
    (n : ℕ) (xs ys : List ℕ) → length xs ≡ n → with_failure (from_slice n) (xs ++ ys) ≡ (ys, ok xs)
with_reads n xs ys e =
    ap (λ k. with_failure (from_slice k) (xs ++ ys)) (sym e)
    ∙ ap (λ r. with_failure {W = List ℕ} (λ s. r) (xs ++ ys)) (reads xs ys)

module _ {V P : Type 0} (M : Messages V P) (D : Decoder) where
  -- What follows the bytes of the header, and those of the picture.
  abbrev take_header : List ℕ → Act (List ℕ) Failure V
  take_header bytes = do
    header ← lift (ok_or (M.json.parse_json bytes) invalid_record)
    ensure (M.json.validates header) invalid_record
    pure header

  taken :
      (bytes rest : List ℕ) (header : V)
      → M.json.parse_json bytes ≡ some header
      → M.json.validates header ≡ true
      → take_header bytes rest ≡ (rest, ok header)
  taken bytes rest header parsed valid = rw (parsed, valid) refl

  abbrev take_binary : V → ℕ → List ℕ → Act (List ℕ) Failure (Reply V)
  take_binary header size binary = do
    lift (check_body M bytes_socket D header size binary)
    pure (record { header = header; binary = binary })

  taken_binary :
      (header : V) (binary rest : List ℕ)
      → check_body M bytes_socket D header (length binary) binary ≡ ok tt
      → take_binary header (length binary) binary rest
        ≡ (rest, ok (record { header = header; binary = binary }))
  taken_binary header binary rest checked =
      ap (λ c. continue c (λ u. pure (record { header = header; binary = binary })) rest) checked

  -- The header, once its length is known.
  read_header-lem :
      (bytes rest : List ℕ) (header : V)
      → 0 < length bytes
      → length bytes ≤ max_header
      → M.json.parse_json bytes ≡ some header
      → M.json.validates header ≡ true
      → read_header M bytes_socket D (length bytes) (bytes ++ rest) ≡ (rest, ok header)
  read_header-lem bytes rest header p n parsed valid =
      let fits : (length bytes == 0 || ltb max_header (length bytes)) ≡ false =
        ground (arith, p, n) in
      rw fits (
        ap (λ r. continue r.1 (take_header) r.0) (with_reads (length bytes) bytes rest refl)
        ∙ taken bytes rest header parsed valid)

  read_binary-lem :
      (header : V) (binary rest : List ℕ)
      → length binary ≤ max_png
      → check_body M bytes_socket D header (length binary) binary ≡ ok tt
      → read_binary M bytes_socket D header (length binary) (binary ++ rest)
        ≡ (rest, ok (record { header = header; binary = binary }))
  read_binary-lem header binary rest n checked =
      let fits : ltb max_png (length binary) ≡ false = ground (arith, n) in
      rw fits (
        ap (λ r. continue r.1 (take_binary header (length binary)) r.0)
          (with_reads (length binary) binary rest refl)
        ∙ taken_binary header binary rest checked)

  checked_body :
      (header : V) (binary : List ℕ)
      → (binary ≡ []) ⊎ (validate_png D binary (M.width header) (M.height header) ≡ ok tt)
      → check_body M bytes_socket D header (length binary) binary ≡ ok tt
  checked_body header [] h = refl
  checked_body header (b ∷ binary) (inl e) = cc
  checked_body header (b ∷ binary) (inr e) = e

  body_size-lem :
      (header : V) (binary : List ℕ)
      → ((M.json.is_screenshot header ≡ true)
          × (M.json.payload_bytes header ≡ some (length binary)))
        ⊎ ((M.json.is_screenshot header ≡ false) × (binary ≡ []))
      → body_size M bytes_socket D header ≡ ok (length binary)
  unfolding body_size
  body_size-lem header binary (inl (s, e)) = rw (s, e) refl
  body_size-lem header binary (inr (s, e)) = rw (s, e) refl

  -- From the header on.
  abbrev after_header : V → Act (List ℕ) Failure (Reply V)
  after_header header = do
    size ← lift (body_size M bytes_socket D header)
    read_binary M bytes_socket D header size

  read_record-lem :
      (bytes binary rest : List ℕ) (header : V)
      → 0 < length bytes
      → length bytes ≤ max_header
      → length binary ≤ max_png
      → M.json.parse_json bytes ≡ some header
      → M.json.validates header ≡ true
      → body_size M bytes_socket D header ≡ ok (length binary)
      → check_body M bytes_socket D header (length binary) binary ≡ ok tt
      → read_record M bytes_socket D (framed bytes ++ (binary ++ rest))
        ≡ (rest, ok (record { header = header; binary = binary }))
  unfolding read_record
  read_record-lem bytes binary rest header p n m parsed valid size checked =
      let k = length bytes % 4294967296 in
      let small : k ≡ length bytes = omega (arith, n) in
      let value : from_be_bytes (to_be_bytes k) ≡ length bytes =
        from_be_bytes-to_be_bytes k (omega (arith, small, n)) ∙ small in
      ap (λ w. read_record M bytes_socket D w) (append_assoc (to_be_bytes k) bytes (binary ++ rest))
      ∙ ap
          (λ r.
            continue r.1
              (λ prefix. read_header M bytes_socket D (from_be_bytes prefix) >>= after_header) r.0)
          (with_reads 4 (to_be_bytes k) (bytes ++ (binary ++ rest)) (length-to_be_bytes k))
      ∙ ap (λ s. (read_header M bytes_socket D s >>= after_header) (bytes ++ (binary ++ rest)))
          value
      ∙ ap (λ r. continue r.1 after_header r.0)
          (read_header-lem bytes (binary ++ rest) header p n parsed valid)
      ∙ ap (λ r. continue r (λ s. read_binary M bytes_socket D header s) (binary ++ rest)) size
      ∙ read_binary-lem header binary rest m checked

  -- A reply that the worker writes is read by the client as it is, header and binary data, whatever
  -- follows it, where the schema of the client allows the header, the JSON parser inverts the printer
  -- at it, and the binary data is empty or a picture that the client accepts.
  pub write_reply-read_record :
      (reply : Reply V) (written rest : List ℕ)
      → ((bytes : List ℕ)
          → M.json.to_vec reply.header ≡ some bytes
          → M.json.parse_json bytes ≡ some reply.header)
      → M.json.validates reply.header ≡ true
      → (reply.binary ≡ [])
        ⊎ (validate_png D reply.binary (M.width reply.header) (M.height reply.header) ≡ ok tt)
      → (write_reply M.json to_vec no_flush reply written).1 ≡ ok tt
      → (sent : List ℕ) × ((write_reply M.json to_vec no_flush reply written).0 ≡ written ++ sent)
        × (read_record M bytes_socket D (sent ++ rest) ≡ (rest, ok reply))
  write_reply-read_record reply written rest inverse valid picture is_ok =
      let (bytes, text, p, n, m, e, whole) = write_reply_lem M.json reply written is_ok in
      (
        framed bytes ++ reply.binary,
        e,
        ap (λ w. read_record M bytes_socket D w) (append_assoc (framed bytes) reply.binary rest)
            ∙ read_record-lem bytes reply.binary rest reply.header p n m (inverse bytes text) valid
                (body_size-lem reply.header reply.binary whole)
                (checked_body reply.header reply.binary picture),
      )
