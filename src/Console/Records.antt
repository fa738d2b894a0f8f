-- ===== src/Console/Records.antt =====
-- The records of a console stream: write_record, read_record and the repacking of frames
-- (device/console/src/lib.rs).
use donkeywork_desktop.Base.{
  ℕ, suc, zero, ◌+◌, ◌*◌, ◌/◌, ◌%◌, ◌^◌, Bool, true, false, not, ◌||◌, List, [], ◌∷◌, ◌++◌, Result,
  ok, err, leb, ltb, ◌==◌, if◌then◌else◌, length, take, drop,
}
use donkeywork_desktop.Base.Actions.{Act, ensure, ◌>>=◌, ◌>>◌}

-- The kinds of `io::Error` in use.
pub data IoError : Type 0 where
  invalid_input invalid_data unexpected_eof other : IoError

-- `u32::to_be_bytes`
unfoldable pub to_be_bytes : ℕ → List ℕ
to_be_bytes n = n / 16777216 % 256 ∷ n / 65536 % 256 ∷ n / 256 % 256 ∷ n % 256 ∷ []

-- `u32::from_be_bytes`
unfoldable pub from_be_bytes : List ℕ → ℕ
from_be_bytes [] = 0
from_be_bytes (b ∷ bytes) = b * 256 ^ length bytes + from_be_bytes bytes

-- `impl Write` and `impl Read`, as the calls in use.
abbrev pub Write : Type 0 → Type 0
Write W = List ℕ → Act W IoError (Unit {0})

abbrev pub Read : Type 0 → Type 0
Read R = ℕ → Act R IoError (List ℕ)

unfoldable pub write_record : {W : Type 0} → Write W → List ℕ → ℕ → Act W IoError (Unit {0})
write_record write_all bytes maximum = do
  ensure (not (length bytes == 0 || ltb maximum (length bytes) || ltb 4294967295 (length bytes)))
      invalid_input
  write_all (to_be_bytes (length bytes % 4294967296))
  write_all bytes

-- What follows the length.
abbrev pub read_body : {R : Type 0} → Read R → ℕ → ℕ → Act R IoError (List ℕ)
read_body read_exact maximum size = do
  ensure (not (size == 0 || ltb maximum size)) invalid_data
  read_exact size

unfoldable pub read_record : {R : Type 0} → Read R → ℕ → Act R IoError (List ℕ)
read_record read_exact maximum = do
  prefix ← read_exact 4
  read_body read_exact maximum (from_be_bytes prefix)

-- `impl Write for Vec<u8>`
abbrev pub to_vec : Write (List ℕ)
to_vec bytes written = (written ++ bytes, ok tt)

-- `impl Read for &[u8]`
abbrev pub from_slice : Read (List ℕ)
from_slice n unread =
    if ltb (length unread) n then ([], err unexpected_eof) else (drop n unread, ok (take n unread))

-- The rows of a frame from row `y` on, without their padding.
unfoldable pub pack_rows : List ℕ → ℕ → ℕ → ℕ → ℕ → List ℕ
pack_rows pixels stride row zero y = []
pack_rows pixels stride row (suc left) y =
    take row (drop (y * stride) pixels) ++ pack_rows pixels stride row left (y + 1)

unfoldable pub repack_bgr0 : List ℕ → ℕ → ℕ → ℕ → Result IoError (List ℕ)
repack_bgr0 pixels width height stride =
    if leb (2 ^ 64) (width * 4) || leb (2 ^ 64) (stride * height)
    then err invalid_data
    else if width == 0
        || height == 0
        || ltb 4096 width
        || ltb 4096 height
        || ltb stride (width * 4)
        || ltb (length pixels) (stride * height)
    then err invalid_data
    else if stride == width * 4
    then ok (take (stride * height) pixels)
    else ok (pack_rows pixels stride (width * 4) height 0)

-- `windows(n).any(..)`: a window is equal to the bytes.
unfoldable pub starts_with : List ℕ → List ℕ → Bool
starts_with [] xs = true
starts_with (b ∷ bytes) [] = false
starts_with (b ∷ bytes) (x ∷ xs) = if b == x then starts_with bytes xs else false

unfoldable pub any_window : List ℕ → List ℕ → Bool
any_window bytes [] = false
any_window bytes (x ∷ xs) = starts_with bytes (x ∷ xs) || any_window bytes xs

unfoldable pub contains_annex_b_start_code : List ℕ → Bool
contains_annex_b_start_code bytes =
    any_window (0 ∷ 0 ∷ 0 ∷ 1 ∷ []) bytes || any_window (0 ∷ 0 ∷ 1 ∷ []) bytes
