-- ===== src/Capture/Images.antt =====
-- What the conversion and the encoding of frames promise (device/capture/src/image.rs).
use donkeywork_desktop.Base.{
  ℕ, zero, suc, ◌+◌, ◌*◌, ◌/◌, ◌%◌, ◌≤◌, ◌<◌, ◌≡◌, refl, false, List, [], ◌∷◌, ok, length, take,
  drop, length-append, length-take, length-drop, arith, inl, inr, Result-cases,
}
use native.Mathlib.Nat.{div-add-mod', mod-lt, le-mul_of_pos_right}
use donkeywork_desktop.Capture.Types.{FrameLimits}
use donkeywork_desktop.Capture.Image.{
  rgba_len, max_bytes, PixelFormat, is_bad_packing, stride_of, scale_channel, convert_pixel,
  chunks_exact, convert_pixels, convert_row, convert_rows, x11_to_rgba,
}

-- A channel is scaled to the nearest byte, and never wraps around.
pub scale_channel_nearest :
    (level top : ℕ)
    → level ≤ top
    → 0 < top
    → (2 * (scale_channel level top * top) ≤ 2 * (level * 255) + top)
      × (2 * (level * 255) ≤ 2 * (scale_channel level top * top) + top)
unfolding scale_channel
scale_channel_nearest level top h p =
    let q = (level * 255 + top / 2) / top in
    let parts = div-add-mod' (level * 255 + top / 2) top in
    let small : q < 256 = grind arith in
    let whole : q % 256 ≡ q = omega arith in
    rw whole (omega (arith, parts, mod-lt (level * 255 + top / 2) p))

length-chunks_exact :
    (n fuel size : ℕ) (xs : List ℕ)
    → 0 < size
    → n ≤ fuel
    → length xs ≡ n * size
    → length (chunks_exact fuel size xs) ≡ n
unfolding chunks_exact
length-chunks_exact zero zero size xs p h e = refl
length-chunks_exact zero (suc fuel) size xs p h e = ground arith
length-chunks_exact (suc n) zero size xs p h e = absurd (omega arith)
length-chunks_exact (suc n) (suc fuel) size xs p h e =
    ground (arith, length-chunks_exact n fuel size (drop size xs) p, length-drop size xs)

-- A pixel gives four bytes.
length-convert_pixels :
    (f : PixelFormat) (pixels : List (List ℕ))
    → length (convert_pixels f pixels) ≡ 4 * length pixels
unfolding convert_pixels convert_pixel
length-convert_pixels f [] = refl
length-convert_pixels f (p ∷ ps) = omega (arith, length-convert_pixels f ps)

length-convert_row :
    (f : PixelFormat) (width : ℕ) (row : List ℕ)
    → 0 < f.bits_per_pixel / 8
    → width * (f.bits_per_pixel / 8) ≤ length row
    → length (convert_row f width row) ≡ 4 * width
unfolding convert_row
length-convert_row f width row p h =
    let used = take (width * (f.bits_per_pixel / 8)) row in
    let n : length used ≡ width * (f.bits_per_pixel / 8) =
      omega (arith, length-take (width * (f.bits_per_pixel / 8)) row) in
    let count =
      length-chunks_exact width (length used) (f.bits_per_pixel / 8) used p
        (omega (arith, n, le-mul_of_pos_right width p)) n in
    omega (
      arith,
      count,
      length-convert_pixels f (chunks_exact (length used) (f.bits_per_pixel / 8) used),
    )

length-convert_rows :
    (f : PixelFormat) (width stride n fuel : ℕ) (xs : List ℕ)
    → 0 < f.bits_per_pixel / 8
    → 0 < stride
    → width * (f.bits_per_pixel / 8) ≤ stride
    → n ≤ fuel
    → length xs ≡ n * stride
    → length (convert_rows f width (chunks_exact fuel stride xs)) ≡ n * (4 * width)
unfolding convert_rows chunks_exact
length-convert_rows f width stride zero zero xs p q r h e = omega arith
length-convert_rows f width stride zero (suc fuel) xs p q r h e = ground arith
length-convert_rows f width stride (suc n) zero xs p q r h e = absurd (omega arith)
length-convert_rows f width stride (suc n) (suc fuel) xs p q r h e = ground (
  arith,
  length-convert_rows f width stride n fuel (drop stride xs) p q r,
  length-drop stride xs,
  length-take stride xs,
  length-convert_row f width (take stride xs) p,
  length-append (convert_row f width (take stride xs))
      (convert_rows f width (chunks_exact fuel stride (drop stride xs))),
)

-- A row is as long as its pixels, at least.
stride_of_covers :
    (width : ℕ) (f : PixelFormat)
    → is_bad_packing f ≡ false
    → 0 < width
    → (0 < f.bits_per_pixel / 8)
      × (0 < stride_of width f)
      × (width * (f.bits_per_pixel / 8) ≤ stride_of width f)
unfolding stride_of
stride_of_covers width f h p = ground arith

pub rgba_len-eq_ok :
    (width height : ℕ) (limits : FrameLimits) (n : ℕ)
    → rgba_len width height limits ≡ ok n
    → (n ≡ width * height * 4)
      × (0 < width)
      × (0 < height)
      × (width ≤ 4096)
      × (height ≤ 4096)
      × (n ≤ limits.max_rgba_bytes)
      × (n ≤ max_bytes)
unfolding rgba_len
rgba_len-eq_ok width height limits n h = ground arith

length-rows :
    (bytes : List ℕ) (width height : ℕ) (f : PixelFormat)
    → is_bad_packing f ≡ false
    → 0 < width
    → stride_of width f * height ≤ length bytes
    → let used = take (stride_of width f * height) bytes in
      length (convert_rows f width (chunks_exact (length used) (stride_of width f) used))
      ≡ height * (4 * width)
length-rows bytes width height f good p h =
    let stride = stride_of width f in
    let used = take (stride * height) bytes in
    let n : length used ≡ height * stride = omega (arith, length-take (stride * height) bytes) in
    let covers = stride_of_covers width f good p in
    length-convert_rows f width stride height (length used) used covers.0 covers.1 covers.2
      (omega (arith, n, le-mul_of_pos_right height covers.1)) n

-- A conversion that succeeds gives four bytes for each pixel of the frame, within the limits.
pub length-x11_to_rgba :
    (bytes : List ℕ) (width height : ℕ) (f : PixelFormat) (limits : FrameLimits) (rgba : List ℕ)
    → x11_to_rgba bytes width height f limits ≡ ok rgba
    → (length rgba ≡ width * height * 4)
      × (length rgba ≤ limits.max_rgba_bytes)
      × (length rgba ≤ max_bytes)
      × (0 < length rgba)
unfolding x11_to_rgba
length-x11_to_rgba bytes width height f limits rgba h =
    elim (Result-cases (rgba_len width height limits)) [
      | inl (n, e) ↦
          let facts = rgba_len-eq_ok width height limits n e in
          let positive : 0 < width * height * 4 =
            omega (arith, facts, le-mul_of_pos_right width facts.2) in
          let same : height * (4 * width) ≡ width * height * 4 = omega arith in
          ground (arith, e, length-rows bytes width height f)
      | inr (x, e) ↦ ground (arith, e)
    ]
