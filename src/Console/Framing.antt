-- ===== src/Console/Framing.antt =====
-- Records and headers of a console stream come back as they were written
-- (device/console/src/lib.rs).
use donkeywork_desktop.Base.{
  ℕ, ◌%◌, ◌≤◌, ◌<◌, ◌≡◌, refl, sym, ap, ◌∙◌, false, ◌||◌, Option, none, some, List, [], ◌∷◌, ◌++◌,
  ok, ok_or, ltb, ◌==◌, length, take, drop, length-append, arith,
}
use mathlib.Core.List.{append_assoc}
use donkeywork_desktop.Base.Actions.{Act, pure, lift, continue, ◌>>=◌, ◌>>◌, >>=-eq_ok}
use donkeywork_desktop.Console.Records.{
  IoError, invalid_data, to_be_bytes, from_be_bytes, write_record, read_record, read_body, to_vec,
  from_slice,
}
use donkeywork_desktop.Console.Headers.{
  StreamHeader, max_header, validate, write_header, read_header,
}

pub from_be_bytes-to_be_bytes : (n : ℕ) → n < 4294967296 → from_be_bytes (to_be_bytes n) ≡ n
unfolding from_be_bytes to_be_bytes
from_be_bytes-to_be_bytes n h = omega (arith, h)

drop-append : (xs ys : List ℕ) → drop (length xs) (xs ++ ys) ≡ ys
drop-append [] ys = refl
drop-append (x ∷ xs) ys = drop-append xs ys

take-append : (xs ys : List ℕ) → take (length xs) (xs ++ ys) ≡ xs
take-append [] ys = refl
take-append (x ∷ xs) ys = ap (λ zs. x ∷ zs) (take-append xs ys)

-- What a record is on the wire.
abbrev pub framed : List ℕ → List ℕ
framed bytes = to_be_bytes (length bytes % 4294967296) ++ bytes

pub reads : (xs ys : List ℕ) → from_slice (length xs) (xs ++ ys) ≡ (ys, ok xs)
reads xs ys =
    let enough : ltb (length (xs ++ ys)) (length xs) ≡ false =
      ground (arith, length-append xs ys) in
    rw (enough, drop-append xs ys, take-append xs ys) refl

write_record_lem :
    (bytes written : List ℕ) (maximum : ℕ)
    → 0 < length bytes
    → length bytes ≤ maximum
    → length bytes < 4294967296
    → write_record to_vec bytes maximum written ≡ (written ++ framed bytes, ok tt)
unfolding write_record
write_record_lem bytes written maximum p h w =
    let fits : (length bytes == 0 || ltb maximum (length bytes) || ltb 4294967295 (length bytes))
        ≡ false =
      ground (arith, p, h, w) in
    rw fits (
      ap (λ out. (out, ok tt))
        (append_assoc written (to_be_bytes (length bytes % 4294967296)) bytes))

read_record_lem :
    (prefix bytes rest : List ℕ) (maximum : ℕ)
    → length prefix ≡ 4
    → from_be_bytes prefix ≡ length bytes
    → 0 < length bytes
    → length bytes ≤ maximum
    → read_record from_slice maximum (prefix ++ (bytes ++ rest)) ≡ (rest, ok bytes)
unfolding read_record
read_record_lem prefix bytes rest maximum four value p h =
    let wire = prefix ++ (bytes ++ rest) in
    let first : from_slice 4 wire ≡ (bytes ++ rest, ok prefix) =
      ap (λ n. from_slice n wire) (sym four) ∙ reads prefix (bytes ++ rest) in
    let fits : (length bytes == 0 || ltb maximum (length bytes)) ≡ false = ground (arith, p, h) in
    let body : read_body from_slice maximum (length bytes) (bytes ++ rest) ≡ (rest, ok bytes) =
      rw fits (reads bytes rest) in
    ap (λ r. continue r.1 (λ b. read_body from_slice maximum (from_be_bytes b)) r.0) first
    ∙ ap (λ n. read_body from_slice maximum n (bytes ++ rest)) value
    ∙ body

pub length-to_be_bytes : (n : ℕ) → length (to_be_bytes n) ≡ 4
unfolding to_be_bytes
length-to_be_bytes n = refl

pub framed-read_record :
    (bytes rest : List ℕ) (maximum : ℕ)
    → 0 < length bytes
    → length bytes ≤ maximum
    → length bytes < 4294967296
    → read_record from_slice maximum (framed bytes ++ rest) ≡ (rest, ok bytes)
framed-read_record bytes rest maximum p h w =
    let n = length bytes % 4294967296 in
    let whole : n ≡ length bytes = omega (arith, w) in
    let value = from_be_bytes-to_be_bytes n (omega (arith, whole, w)) ∙ whole in
    ap (read_record from_slice maximum) (append_assoc (to_be_bytes n) bytes rest)
    ∙ read_record_lem (to_be_bytes n) bytes rest maximum (length-to_be_bytes n) value p h

-- A record of 1 to `maximum` bytes, fewer than 2 ^ 32, is written, and reading what was written
-- gives its bytes and leaves what follows.
pub write_record-read_record :
    (bytes written rest : List ℕ) (maximum : ℕ)
    → 0 < length bytes
    → length bytes ≤ maximum
    → length bytes < 4294967296
    → (sent : List ℕ) × (write_record to_vec bytes maximum written ≡ (written ++ sent, ok tt))
      × (read_record from_slice maximum (sent ++ rest) ≡ (rest, ok bytes))
write_record-read_record bytes written rest maximum p h w = (
  framed bytes,
  write_record_lem bytes written maximum p h w,
  framed-read_record bytes rest maximum p h w,
)

write_record-fits :
    (bytes written : List ℕ) (maximum : ℕ)
    → (write_record to_vec bytes maximum written).1 ≡ ok tt
    → (0 < length bytes) × (length bytes ≤ maximum) × (length bytes < 4294967296)
unfolding write_record
write_record-fits bytes written maximum h = ground (arith, h)

ok_or-some : {A : Type 0} (o : Option A) (e : IoError) (a : A) → ok_or o e ≡ ok a → o ≡ some a
ok_or-some none e a h = cc
ok_or-some (some b) e a h = ground (arith, h)

-- What follows the record of a header.
abbrev parsed : (List ℕ → Option StreamHeader) → List ℕ → Act (List ℕ) IoError StreamHeader
parsed parse bytes = do h ← lift (ok_or (parse bytes) invalid_data); lift (validate h); pure h

parsed_lem :
    (parse : List ℕ → Option StreamHeader) (bytes rest : List ℕ) (h : StreamHeader)
    → parse bytes ≡ some h
    → validate h ≡ ok tt
    → parsed parse bytes rest ≡ (rest, ok h)
parsed_lem parse bytes rest h known valid = rw (known, valid) refl

module _ (serialize : StreamHeader → Option (List ℕ)) (parse : List ℕ → Option StreamHeader) where
  -- Where the parser of the JSON codec inverts its printer at a header, the header that is written is
  -- read back, whatever follows it.
  pub write_header-read_header :
      (h : StreamHeader) (written rest : List ℕ)
      → ((bytes : List ℕ) → serialize h ≡ some bytes → parse bytes ≡ some h)
      → (write_header serialize to_vec h written).1 ≡ ok tt
      → (sent : List ℕ) × ((write_header serialize to_vec h written).0 ≡ written ++ sent)
        × (read_header parse from_slice (sent ++ rest) ≡ (rest, ok h))
  unfolding write_header read_header
  write_header-read_header h written rest inverse is_ok =
      let print : Act (List ℕ) IoError (Unit {0}) =
        lift (ok_or (serialize h) invalid_data) >>= λ bytes. write_record to_vec bytes max_header in
      let (u, valid, begun) = >>=-eq_ok (lift (validate h)) (λ _. print) written is_ok in
      let printed : (print written).1 ≡ ok tt = sym (ap (λ r. r.1) begun) ∙ is_ok in
      let (bytes, known, same) =
        >>=-eq_ok (lift (ok_or (serialize h) invalid_data))
          (λ bytes. write_record to_vec bytes max_header) written printed in
      let (p, n, w) =
        write_record-fits bytes written max_header (sym (ap (λ r. r.1) same) ∙ printed) in
      let (sent, sends, back) = write_record-read_record bytes written rest max_header p n w in
      let text = inverse bytes (ok_or-some (serialize h) invalid_data bytes known) in
      (
        sent,
        ap (λ r. r.0) begun ∙ ap (λ r. r.0) same ∙ ap (λ r. r.0) sends,
        ap (λ r. continue r.1 (parsed parse) r.0) back ∙ parsed_lem parse bytes rest h text valid,
      )
