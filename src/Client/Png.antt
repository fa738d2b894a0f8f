-- ===== src/Client/Png.antt =====
-- `validate_png` of the client (cli/src/lib.rs): the scan over the chunks before the decoder runs.
-- Offsets do not wrap: they are below 2^26, and a chunk's length is below 2^32.
use donkeywork_desktop.Base.{
  ℕ, zero, suc, ◌+◌, ◌-◌, ◌*◌, Bool, true, false, not, ◌&&◌, ◌||◌, Option, none, some, List, [],
  ◌∷◌, Result, ok, err, ltb, leb, ◌==◌, if◌then◌else◌, length, take, drop,
}
use donkeywork_desktop.Console.Records.{from_be_bytes}
use donkeywork_desktop.Wire.Messages.{Failure, invalid_record, unfinished, max_png}

-- Equality of byte strings.
abbrev pub is_same : List ℕ → List ℕ → Bool
is_same [] [] = true
is_same [] (y ∷ ys) = false
is_same (x ∷ xs) [] = false
is_same (x ∷ xs) (y ∷ ys) = (x == y) && is_same xs ys

-- `bytes.get(a..b)`
abbrev pub get_range : List ℕ → ℕ → ℕ → Option (List ℕ)
get_range bytes a b = if leb b (length bytes) then some (take (b - a) (drop a bytes)) else none

abbrev pub signature : List ℕ
signature = 137 ∷ 80 ∷ 78 ∷ 71 ∷ 13 ∷ 10 ∷ 26 ∷ 10 ∷ []

abbrev pub ihdr : List ℕ
ihdr = 73 ∷ 72 ∷ 68 ∷ 82 ∷ []

abbrev pub idat : List ℕ
idat = 73 ∷ 68 ∷ 65 ∷ 84 ∷ []

abbrev pub iend : List ℕ
iend = 73 ∷ 69 ∷ 78 ∷ 68 ∷ []

abbrev pub srgb : List ℕ
srgb = 115 ∷ 82 ∷ 71 ∷ 66 ∷ []

abbrev pub gama : List ℕ
gama = 103 ∷ 65 ∷ 77 ∷ 65 ∷ []

abbrev pub chrm : List ℕ
chrm = 99 ∷ 72 ∷ 82 ∷ 77 ∷ []

unfoldable pub is_allowed : List ℕ → Bool
is_allowed kind =
    is_same kind ihdr
    || is_same kind idat
    || is_same kind iend
    || is_same kind srgb
    || is_same kind gama
    || is_same kind chrm

-- The header of a picture of 8 bits RGBA without interlace.
unfoldable pub is_header : ℕ → ℕ → List ℕ → Bool
is_header width height ihdr =
    (from_be_bytes (take 4 ihdr) == width)
    && (from_be_bytes (take 4 (drop 4 ihdr)) == height)
    && is_same (drop 8 ihdr) (8 ∷ 6 ∷ 0 ∷ 0 ∷ 0 ∷ [])

module _ (width height : ℕ) (bytes : List ℕ) where
  -- The tests of the first chunk, and those of a later one.
  unfoldable pub is_misplaced : Bool → ℕ → List ℕ → ℕ → Bool
  is_misplaced true offset kind len =
      not (is_same kind ihdr)
      || not (len == 13)
      || not (is_header width height (take 13 (drop (offset + 8) bytes)))
  is_misplaced false offset kind len = is_same kind ihdr

  -- The tests of a chunk of a kind and a length, at an offset; the answer says whether it is the end.
  unfoldable pub check_chunk : Bool → ℕ → List ℕ → ℕ → Result Failure Bool
  check_chunk first offset kind len =
      if ltb (length bytes) (offset + 12 + len)
      then err invalid_record
      else if is_misplaced first offset kind len
      then err invalid_record
      else if not (is_allowed kind)
      then err invalid_record
      else if not (is_same kind idat) && ltb 32 len
      then err invalid_record
      else if is_same kind iend && (not (len == 0) || not (offset + 12 + len == length bytes))
      then err invalid_record
      else ok (is_same kind iend)

  abbrev pub follow :
      (Bool → ℕ → Result Failure Bool) → Bool → ℕ → Result Failure Bool → Result Failure Bool
  follow go ended end (err e) = err e
  follow go ended end (ok at_end) = go (ended || at_end) end

  -- One chunk, with its eight bytes of length and kind, and then the rest of the loop.
  abbrev pub with_head :
      (Bool → ℕ → Result Failure Bool) → Bool → Bool → ℕ → Option (List ℕ) → Result Failure Bool
  with_head go first ended offset none = err invalid_record
  with_head go first ended offset (some h) =
      follow go ended (offset + 12 + from_be_bytes (take 4 h))
        (check_chunk first offset (drop 4 h) (from_be_bytes (take 4 h)))

  -- The loop over the chunks: whether the end was seen.
  unfoldable pub scan : ℕ → Bool → Bool → ℕ → Result Failure Bool
  scan zero first ended offset =
      if not (ltb offset (length bytes)) then ok ended else err unfinished
  scan (suc rounds) first ended offset =
      if not (ltb offset (length bytes))
      then ok ended
      else with_head (λ e end. scan rounds false e end) first ended offset
          (get_range bytes offset (offset + 8))

-- What the decoder says of a picture.
pub record FrameInfo : Type 0 where
  pub width : ℕ
  pub height : ℕ
  pub buffer_size : ℕ
  pub is_rgba : Bool
  pub is_eight : Bool

-- The decoder, with the limit that it is given: the size of its output, the first frame, and
-- whether the rest of the data is well formed.
pub record Decoder : Type 0 where
  pub read_info : ℕ → List ℕ → Option ℕ
  pub next_frame : ℕ → List ℕ → Option FrameInfo
  pub finish : ℕ → List ℕ → Bool

abbrev pub limit : ℕ
limit = max_png + 4096

abbrev pub is_info : ℕ → ℕ → ℕ → FrameInfo → Bool
is_info width height pixel_bytes i =
    (i.width == width)
    && (i.height == height)
    && (i.buffer_size == pixel_bytes)
    && i.is_rgba
    && i.is_eight

abbrev pub is_frame : ℕ → ℕ → ℕ → Option FrameInfo → Bool
is_frame width height pixel_bytes none = false
is_frame width height pixel_bytes (some i) = is_info width height pixel_bytes i

abbrev pub is_output : ℕ → Option ℕ → Bool
is_output pixel_bytes none = false
is_output pixel_bytes (some size) = size == pixel_bytes

-- The decoder's part.
unfoldable pub decode : Decoder → ℕ → ℕ → ℕ → List ℕ → Result Failure (Unit {0})
decode D width height pixel_bytes bytes =
    if not (is_output pixel_bytes (D.read_info limit bytes))
      || not (is_frame width height pixel_bytes (D.next_frame limit bytes))
      || not (D.finish limit bytes)
    then err invalid_record
    else ok tt

abbrev pub after_scan : Decoder → ℕ → ℕ → List ℕ → Result Failure Bool → Result Failure (Unit {0})
after_scan D width height bytes (err e) = err e
after_scan D width height bytes (ok ended) =
    if not ended then err invalid_record else decode D width height (width * height * 4) bytes

-- `validate_png`, with the fields of the metadata; the loop has a round for each byte.
unfoldable pub validate_png : Decoder → List ℕ → Option ℕ → Option ℕ → Result Failure (Unit {0})
validate_png D bytes none height = err invalid_record
validate_png D bytes (some width) none = err invalid_record
validate_png D bytes (some width) (some height) =
    if ltb max_png (length bytes) || not (is_same (take 8 bytes) signature)
    then err invalid_record
    else if width == 0 || height == 0 || ltb 4096 width || ltb 4096 height
    then err invalid_record
    else if ltb max_png (width * height * 4)
    then err invalid_record
    else after_scan D width height bytes (scan width height bytes (length bytes) true false 8)
