-- ===== src/Wire/Exchange.antt =====
-- What one end writes the other end reads (device/core/src/wire.rs, cli/src/lib.rs).
use donkeywork_desktop.Base.{
  ℕ, ◌%◌, ◌≤◌, ◌<◌, ◌≡◌, refl, ap, ◌∙◌, Bool, true, false, ◌||◌, Option, none, some, List, [], ◌∷◌,
  ◌++◌, ok, ok_or, ltb, length, is_empty, arith,
}
use mathlib.Core.List.{append_assoc}
use donkeywork_desktop.Base.Actions.{Act, pure, lift, ensure, continue, ◌>>=◌, ◌>>◌}
use donkeywork_desktop.Console.Records.{IoError, invalid_data, to_be_bytes, to_vec, from_slice}
use donkeywork_desktop.Console.Framing.{framed, framed-read_record}
use donkeywork_desktop.Wire.Messages.{
  Json, invalid_record, max_header, valid_request, read_request, write_request, write_sized,
}

-- A `Vec<u8>` needs no flush.
abbrev pub no_flush : Act (List ℕ) IoError (Unit {0})
no_flush = pure tt

is_empty-false : (xs : List ℕ) → is_empty xs ≡ false → 0 < length xs
is_empty-false [] h = cc
is_empty-false (x ∷ xs) h = omega arith

sent_sized :
    {V : Type 0} (J : Json V) (bytes written : List ℕ)
    → (write_sized J to_vec no_flush bytes written).1 ≡ ok tt
    → (0 < length bytes)
      × (length bytes ≤ max_header)
      × (write_sized J to_vec no_flush bytes written ≡ (written ++ framed bytes, ok tt))
sent_sized J bytes written h =
    let fits : (is_empty bytes || ltb max_header (length bytes)) ≡ false = ground (arith, h) in
    let full : is_empty bytes ≡ false = ground (arith, fits) in
    (
      is_empty-false bytes full,
      ground (arith, fits),
      rw fits (
          ap (λ out. (out, ok tt))
            (append_assoc written (to_be_bytes (length bytes % 4294967296)) bytes)),
    )

sent_by :
    {V : Type 0} (J : Json V) (valid : Bool) (text : Option (List ℕ)) (written : List ℕ)
    → ((ensure valid invalid_record
          >> (lift (ok_or text invalid_record) >>= write_sized J to_vec no_flush))
        written).1
      ≡ ok tt
    → (bytes : List ℕ) × (text ≡ some bytes)
      × (0 < length bytes)
      × (length bytes ≤ max_header)
      × ((ensure valid invalid_record
              >> (lift (ok_or text invalid_record) >>= write_sized J to_vec no_flush))
            written
          ≡ (written ++ framed bytes, ok tt))
sent_by J false text written h = cc
sent_by J true none written h = cc
sent_by J true (some bytes) written h =
    let (p, n, e) = sent_sized J bytes written h in (bytes, refl, p, n, e)

-- What follows the record of a request.
abbrev taken : {V : Type 0} → Json V → List ℕ → Act (List ℕ) IoError V
taken J bytes = do
  message ← lift (ok_or (J.parse_json bytes) invalid_data)
  ensure (valid_request J message) invalid_data
  pure message

taken_lem :
    {V : Type 0} (J : Json V) (bytes rest : List ℕ) (message : V)
    → J.parse_json bytes ≡ some message
    → valid_request J message ≡ true
    → taken J bytes rest ≡ (rest, ok message)
taken_lem J bytes rest message known valid = rw (known, valid) refl

module _ {V : Type 0} (J : Json V) where
  -- A message that the client writes is read by the worker as it is, whatever follows it, where it
  -- is a valid request to the worker and the JSON parser inverts the printer at it.
  pub write_request-read_request :
      (message : V) (written rest : List ℕ)
      → ((bytes : List ℕ) → J.to_vec message ≡ some bytes → J.parse_json bytes ≡ some message)
      → valid_request J message ≡ true
      → (write_request J to_vec no_flush message written).1 ≡ ok tt
      → (sent : List ℕ) × ((write_request J to_vec no_flush message written).0 ≡ written ++ sent)
        × (read_request J from_slice (sent ++ rest) ≡ (rest, ok message))
  unfolding write_request read_request
  write_request-read_request message written rest inverse asked is_ok =
      let (bytes, text, p, n, e) =
        sent_by J (J.validates message) (J.to_vec message) written is_ok in
      (
        framed bytes,
        ap (λ r. r.0) e,
        ap (λ r. continue r.1 (taken J) r.0)
              (framed-read_record bytes rest max_header p n (omega (arith, n)))
            ∙ taken_lem J bytes rest message (inverse bytes text) asked,
      )
