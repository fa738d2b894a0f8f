-- ===== src/Console/Streams.antt =====
-- Runs of the console's stream records (device/console/src/lib.rs), on the data of its tests.
use donkeywork_desktop.Base.{
  ℕ, ◌+◌, ◌*◌, ◌<◌, ◌≡◌, refl, true, Option, some, List, [], ◌∷◌, ◌++◌, ok, length, get_elem?, ◌↔◌,
  arith,
}
use donkeywork_desktop.Console.Records.{
  write_record, read_record, to_vec, from_slice, repack_bgr0, contains_annex_b_start_code,
}
use donkeywork_desktop.Console.Headers.{StreamHeader, is_invalid, validate, write_header}
use donkeywork_desktop.Console.Framing.{write_record-read_record}
use donkeywork_desktop.Console.Repacked.{repack_bgr0_lem}
use donkeywork_desktop.Console.StartCodes.{Occurs, contains_annex_b_start_code_iff}

abbrev abc : List ℕ
abc = b'a' ∷ b'b' ∷ b'c' ∷ []

write_record-read_record_example :
    (sent : List ℕ) × (write_record to_vec abc 3 (7 ∷ []) ≡ (7 ∷ sent, ok tt))
    × (read_record from_slice 3 (sent ++ (9 ∷ [])) ≡ (9 ∷ [], ok abc))
write_record-read_record_example =
    write_record-read_record abc (7 ∷ []) (9 ∷ []) 3 (omega arith) (omega arith) (omega arith)

abbrev header : StreamHeader
header = record {
  protocol = "dwconsole.stream";
  version = "0.1.0";
  codec = "h264";
  bitstream = "annex-b";
  encoder = "e";
  display_id = "1";
  device = "d";
  width = 640;
  height = 480;
  frames_per_second = 30;
  pixel_format = "bgr0";
}

-- A printer of the rate only.
abbrev serialize : StreamHeader → Option (List ℕ)
serialize h = some (h.frames_per_second ∷ [])

writes : (write_header serialize to_vec header (7 ∷ [])).1 ≡ ok tt
unfolding write_header validate is_invalid write_record
writes = refl

abbrev padded : List ℕ
padded =
    1 ∷ 2 ∷ 3 ∷ 4 ∷ 5 ∷ 6 ∷ 7 ∷ 8 ∷ 99 ∷ 99 ∷ 9 ∷ 10 ∷ 11 ∷ 12 ∷ 13 ∷ 14 ∷ 15 ∷ 16 ∷ 99 ∷ 99 ∷ []

repack_bgr0_lem_example :
    (packed : List ℕ) × (repack_bgr0 padded 2 2 10 ≡ ok packed)
    × (length packed ≡ 2 * (2 * 4))
    × ((y i : ℕ)
        → y < 2
        → i < 2 * 4
        → get_elem? packed (y * (2 * 4) + i) ≡ get_elem? padded (y * 10 + i))
repack_bgr0_lem_example =
    repack_bgr0_lem padded 2 2 10 (omega arith) (omega arith) (omega arith) (omega arith)
      (omega arith) (omega arith) (omega arith)

abbrev stream : List ℕ
stream = 7 ∷ 0 ∷ 0 ∷ 0 ∷ 1 ∷ 103 ∷ []

contains_annex_b_start_code_iff_example :
    contains_annex_b_start_code stream ≡ true ↔ Occurs (0 ∷ 0 ∷ 1 ∷ []) stream
contains_annex_b_start_code_iff_example = contains_annex_b_start_code_iff stream
