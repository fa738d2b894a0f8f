-- ===== src/Wire/Examples.antt =====
-- Runs of the wire format (device/core/src/wire.rs, cli/src/lib.rs), on messages that are numbers.
use donkeywork_desktop.Base.{
  ℕ, ◌-◌, ◌≡◌, refl, sym, ap, true, Option, none, some, List, [], ◌∷◌, ◌++◌, ok, ◌==◌, ltb,
}
use donkeywork_desktop.Console.Records.{to_vec, from_slice}
use donkeywork_desktop.Wire.Messages.{
  Json, Reply, valid_request, read_request, is_whole, is_sized, write_reply, write_request,
}
use donkeywork_desktop.Wire.Exchange.{no_flush, write_request-read_request}

-- A message is a number: 1 is a request, and from 10 on it is a screenshot of as many bytes less 10.
abbrev parse : List ℕ → Option ℕ
parse [] = none
parse (n ∷ bytes) = some n

abbrev numbers : Json ℕ
numbers = record {
  conforms = λ n. ltb n 100;
  validates = λ n. ltb n 100;
  to_vec = λ n. some (n ∷ []);
  parse_json = parse;
  is_request = λ n. n == 1;
  is_screenshot = λ n. ltb 9 n;
  payload_bytes = λ n. some (n - 10);
}

abbrev parse_some : Option (List ℕ) → Option ℕ
parse_some none = none
parse_some (some bytes) = parse bytes

inverse : (bytes : List ℕ) → numbers.to_vec 1 ≡ some bytes → parse bytes ≡ some 1
inverse bytes e = sym (ap parse_some e)

asks : valid_request numbers 1 ≡ true
unfolding valid_request
asks = refl

sends : (write_request numbers to_vec no_flush 1 (7 ∷ [])).1 ≡ ok tt
unfolding write_request
sends = refl

write_request-read_request_example :
    (sent : List ℕ) × ((write_request numbers to_vec no_flush 1 (7 ∷ [])).0 ≡ 7 ∷ sent)
    × (read_request numbers from_slice (sent ++ (9 ∷ [])) ≡ (9 ∷ [], ok 1))
write_request-read_request_example =
    write_request-read_request numbers 1 (7 ∷ []) (9 ∷ []) inverse asks sends

abbrev shot : Reply ℕ
shot = record { header = 12; binary = 5 ∷ 6 ∷ [] }

replies : (write_reply numbers to_vec no_flush shot []).1 ≡ ok tt
unfolding write_reply is_sized is_whole
replies = refl
