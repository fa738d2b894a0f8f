-- ===== src/Capture/Image.antt =====
-- Frames and their encoding (device/capture/src/image.rs). The PNG encoder is a library: it is
-- seen as the writes that it makes and whether it then succeeds. A failed allocation is left out.
use Prim.Native.Nat.{bit_and}
use donkeywork_desktop.Base.{
  ℕ, zero, suc, ◌+◌, ◌-◌, ◌*◌, ◌/◌, ◌%◌, ◌^◌, min, Bool, true, false, not, ◌&&◌, ◌||◌, List, [],
  ◌∷◌, ◌++◌, ok, err, ltb, ◌==◌, if◌then◌else◌, any, length, take, drop,
}
use donkeywork_desktop.Capture.Types.{
  FrameLimits, NativeFrame, Fallible, resource_exhausted, invalid_argument, capture_failed,
  unsupported,
}

abbrev pub max_bytes : ℕ
max_bytes = 67108864

-- The products cannot overflow 64 bits, as the dimensions are checked first.
unfoldable pub rgba_len : ℕ → ℕ → FrameLimits → Fallible ℕ
rgba_len width height limits =
    if width == 0
      || height == 0
      || ltb (min limits.max_dimension 4096) width
      || ltb (min limits.max_dimension 4096) height
    then err resource_exhausted
    else if ltb (min limits.max_rgba_bytes max_bytes) (width * height * 4)
    then err resource_exhausted
    else ok (width * height * 4)

pub record CappedWriter : Type 0 where
  pub written : List ℕ
  pub limit : ℕ
  pub exceeded : Bool

-- `CappedWriter::write`, and whether it succeeds.
unfoldable pub write : CappedWriter → List ℕ → CappedWriter × Bool
write w bytes =
    if ltb (w.limit - length w.written) (length bytes)
    then (record w { exceeded = true }, false)
    else (record w { written = w.written ++ bytes }, true)

-- The writes of the encoder, which stops at the first that fails.
unfoldable pub write_all : CappedWriter → List (List ℕ) → CappedWriter × Bool
write_all w [] = (w, true)
write_all w (bytes ∷ rest) =
    let more = write_all (write w bytes).0 rest in
    if (write w bytes).1 then more else ((write w bytes).0, false)

pub record Encoding : Type 0 where
  pub writes : List (List ℕ)
  pub succeeds : Bool

unfoldable pub encode_png : (NativeFrame → Encoding) → NativeFrame → FrameLimits → Fallible (List ℕ)
encode_png encoder frame limits = elim (rgba_len frame.width frame.height limits) [
  | err e ↦ err e
  | ok size ↦
      let start : CappedWriter = record {
        written = [];
        limit = min limits.max_png_bytes max_bytes;
        exceeded = false;
      } in
      let (output, all_written) = write_all start (encoder frame).writes in
      if not (length frame.rgba == size)
      then err invalid_argument
      else if output.exceeded
      then err resource_exhausted
      else if not (encoder frame).succeeds
      then err capture_failed
      else ok output.written
]

pub record PixelFormat : Type 0 where
  pub bits_per_pixel : ℕ
  pub scanline_pad : ℕ
  pub little_endian : Bool
  pub red : ℕ
  pub green : ℕ
  pub blue : ℕ

-- `u32::trailing_zeros`, over 32 bits.
unfoldable pub trailing_zeros : ℕ → ℕ → ℕ
trailing_zeros zero n = 0
trailing_zeros (suc bits) n =
    let more = trailing_zeros bits (n / 2) in if n % 2 == 1 then 0 else more + 1

-- `u32::count_ones`, over 32 bits.
unfoldable pub count_ones : ℕ → ℕ → ℕ
count_ones zero n = 0
count_ones (suc bits) n = n % 2 + count_ones bits (n / 2)

abbrev pub normalized : ℕ → ℕ
normalized mask = mask / 2 ^ min (trailing_zeros 32 mask) 31

-- The test on a mask, which the earlier ones must not share a bit with.
unfoldable pub is_bad_mask : ℕ → List ℕ → ℕ → Bool
is_bad_mask bits_per_pixel earlier mask =
    mask == 0
    || ltb 8 (count_ones 32 (normalized mask))
    || not (bit_and (normalized mask) ((normalized mask + 1) % 2 ^ 32) == 0)
    || (ltb bits_per_pixel 32 && not (mask / 2 ^ bits_per_pixel == 0))
    || any (λ m. not (bit_and m mask == 0)) earlier

abbrev pub are_bad_masks : PixelFormat → Bool
are_bad_masks f =
    is_bad_mask f.bits_per_pixel [] f.red
    || is_bad_mask f.bits_per_pixel (f.red ∷ []) f.green
    || is_bad_mask f.bits_per_pixel (f.red ∷ f.green ∷ []) f.blue

abbrev pub is_bad_packing : PixelFormat → Bool
is_bad_packing f =
    not (f.bits_per_pixel == 16 || f.bits_per_pixel == 24 || f.bits_per_pixel == 32)
    || not (f.scanline_pad == 8 || f.scanline_pad == 16 || f.scanline_pad == 32)

-- `div_ceil` by the pad, in bytes.
unfoldable pub stride_of : ℕ → PixelFormat → ℕ
stride_of width f =
    (width * f.bits_per_pixel + (f.scanline_pad - 1)) / f.scanline_pad * (f.scanline_pad / 8)

-- The value of a pixel of at most four bytes, each of which keeps its own bits.
unfoldable pub little_value : List ℕ → ℕ
little_value [] = 0
little_value (b ∷ bs) = b + 256 * little_value bs

unfoldable pub big_value : ℕ → List ℕ → ℕ
big_value value [] = value
big_value value (b ∷ bs) = big_value (value * 256 + b) bs

-- A channel of `max + 1` levels on the scale of a byte, to the nearest.
unfoldable pub scale_channel : ℕ → ℕ → ℕ
scale_channel level top = (level * 255 + top / 2) / top % 256

unfoldable pub channel : ℕ → ℕ → ℕ
channel value mask =
    let shift = trailing_zeros 32 mask in
    scale_channel (bit_and value mask / 2 ^ shift) (mask / 2 ^ shift)

unfoldable pub convert_pixel : PixelFormat → List ℕ → List ℕ
convert_pixel f pixel =
    let value = if f.little_endian then little_value pixel else big_value 0 pixel in
    channel value f.red ∷ channel value f.green ∷ channel value f.blue ∷ 255 ∷ []

-- `chunks_exact`, on a list that is no longer than the fuel.
unfoldable pub chunks_exact : ℕ → ℕ → List ℕ → List (List ℕ)
chunks_exact zero size xs = []
chunks_exact (suc fuel) size xs =
    let rest = chunks_exact fuel size (drop size xs) in
    if ltb (length xs) size then [] else take size xs ∷ rest

unfoldable pub convert_pixels : PixelFormat → List (List ℕ) → List ℕ
convert_pixels f [] = []
convert_pixels f (pixel ∷ pixels) = convert_pixel f pixel ++ convert_pixels f pixels

-- `for pixel in row[..width * pixel_bytes].chunks_exact(pixel_bytes)`
unfoldable pub convert_row : PixelFormat → ℕ → List ℕ → List ℕ
convert_row f width row =
    let used = take (width * (f.bits_per_pixel / 8)) row in
    convert_pixels f (chunks_exact (length used) (f.bits_per_pixel / 8) used)

unfoldable pub convert_rows : PixelFormat → ℕ → List (List ℕ) → List ℕ
convert_rows f width [] = []
convert_rows f width (row ∷ rows) = convert_row f width row ++ convert_rows f width rows

unfoldable pub x11_to_rgba : List ℕ → ℕ → ℕ → PixelFormat → FrameLimits → Fallible (List ℕ)
x11_to_rgba bytes width height f limits = elim (rgba_len width height limits) [
  | err e ↦ err e
  | ok size ↦
      let required = stride_of width f * height in
      if is_bad_packing f || are_bad_masks f
      then err unsupported
      else if ltb (length bytes) required || ltb (required + 3) (length bytes)
      then err capture_failed
      else let used = take required bytes in
        ok (convert_rows f width (chunks_exact (length used) (stride_of width f) used))
]
