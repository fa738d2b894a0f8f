-- ===== src/Console/Repacked.antt =====
-- The repacking of frames and the search for a start code, against their plain descriptions
-- (device/console/src/lib.rs).
use donkeywork_desktop.Base.{
  ℕ, zero, suc, ◌+◌, ◌*◌, ◌≤◌, ◌<◌, ◌≡◌, sym, ap, ◌∙◌, List, ◌++◌, ok, length, take, drop,
  get_elem?, length-append, length-take, length-drop, get_elem?-append_left, get_elem?-append_right,
  get_elem?-take, get_elem?-drop, arith, inl, inr, ◌⊎◌,
}
use native.Mathlib.Nat.{add-mul, mul-le-mul, mul-le-mul_right, mul_comm, le_of_lt}
use donkeywork_desktop.Console.Records.{pack_rows, repack_bgr0}

length-row :
    (row start : ℕ) (pixels : List ℕ)
    → start + row ≤ length pixels
    → length (take row (drop start pixels)) ≡ row
length-row row start pixels h =
    omega (arith, h, length-take row (drop start pixels), length-drop start pixels)

module _ (pixels : List ℕ) (stride row : ℕ) (fits : row ≤ stride) where
  first_row :
      (left y : ℕ) → (suc left + y) * stride ≤ length pixels → y * stride + row ≤ length pixels
  first_row left y h = omega (arith, h, fits, add-mul (suc left) y stride, add-mul 1 left stride)

  next_rows :
      (left y : ℕ)
      → (suc left + y) * stride ≤ length pixels
      → (left + (y + 1)) * stride ≤ length pixels
  next_rows left y h = let same : suc left + y ≡ left + (y + 1) = omega arith in rw (sym same) h

  length-pack_rows :
      (left y : ℕ)
      → (left + y) * stride ≤ length pixels
      → length (pack_rows pixels stride row left y) ≡ left * row
  unfolding pack_rows
  length-pack_rows zero y h = omega arith
  length-pack_rows (suc left) y h =
      let here = take row (drop (y * stride) pixels) in
      omega (
        arith,
        length-append here (pack_rows pixels stride row left (y + 1)),
        length-row row (y * stride) pixels (first_row left y h),
        length-pack_rows left (y + 1) (next_rows left y h),
        add-mul 1 left row,
      )

  get_elem?-pack_rows :
      (left y at i : ℕ)
      → (left + y) * stride ≤ length pixels
      → at < left
      → i < row
      → get_elem? (pack_rows pixels stride row left y) (at * row + i)
        ≡ get_elem? pixels ((y + at) * stride + i)
  unfolding pack_rows
  get_elem?-pack_rows zero y at i h a b = absurd (omega (arith, a))
  get_elem?-pack_rows (suc left) y zero i h a b =
      let here = take row (drop (y * stride) pixels) in
      let n = length-row row (y * stride) pixels (first_row left y h) in
      let from : 0 * row + i ≡ i = omega arith in
      let to : y * stride + i ≡ (y + 0) * stride + i = omega (arith, add-mul y 0 stride) in
      ap (get_elem? (here ++ pack_rows pixels stride row left (y + 1))) from
      ∙ get_elem?-append_left here (pack_rows pixels stride row left (y + 1)) i
          (omega (arith, n, b))
      ∙ get_elem?-take row (drop (y * stride) pixels) i b
      ∙ get_elem?-drop (y * stride) pixels i
      ∙ ap (get_elem? pixels) to
  get_elem?-pack_rows (suc left) y (suc at) i h a b =
      let here = take row (drop (y * stride) pixels) in
      let rest = pack_rows pixels stride row left (y + 1) in
      let n = length-row row (y * stride) pixels (first_row left y h) in
      let from : suc at * row + i ≡ length here + (at * row + i) =
        omega (arith, n, add-mul 1 at row) in
      let to : (y + 1 + at) * stride + i ≡ (y + suc at) * stride + i =
        ap (λ k. k * stride + i) (omega arith) in
      ap (get_elem? (here ++ rest)) from
      ∙ get_elem?-append_right here rest (at * row + i)
      ∙ get_elem?-pack_rows left (y + 1) at i (next_rows left y h) (omega (arith, a)) b
      ∙ ap (get_elem? pixels) to

repack_bgr0_ends :
    (pixels : List ℕ) (width height stride : ℕ)
    → 0 < width
    → width ≤ 4096
    → 0 < height
    → height ≤ 4096
    → width * 4 ≤ stride
    → stride * height < 18446744073709551616
    → stride * height ≤ length pixels
    → ((stride ≡ width * 4)
        × (repack_bgr0 pixels width height stride ≡ ok (take (stride * height) pixels)))
      ⊎ (repack_bgr0 pixels width height stride ≡ ok (pack_rows pixels stride (width * 4) height 0))
unfolding repack_bgr0
repack_bgr0_ends pixels width height stride a b c d e f g = ground (arith, a, b, c, d, e, f, g)

-- A frame of a valid layout is repacked to rows of four bytes for each pixel, each the beginning of
-- the row of the source.
pub repack_bgr0_lem :
    (pixels : List ℕ) (width height stride : ℕ)
    → 0 < width
    → width ≤ 4096
    → 0 < height
    → height ≤ 4096
    → width * 4 ≤ stride
    → stride < 4294967296
    → stride * height ≤ length pixels
    → (packed : List ℕ) × (repack_bgr0 pixels width height stride ≡ ok packed)
      × (length packed ≡ height * (width * 4))
      × ((y i : ℕ)
          → y < height
          → i < width * 4
          → get_elem? packed (y * (width * 4) + i) ≡ get_elem? pixels (y * stride + i))
repack_bgr0_lem pixels width height stride a b c d e f g =
    let small : stride * height < 18446744073709551616 =
      omega (arith, f, mul-le-mul (le_of_lt f) d) in
    let turned : height * stride ≤ length pixels = omega (arith, g, mul_comm height stride) in
    let filled : (height + 0) * stride ≤ length pixels =
      omega (arith, turned, add-mul height 0 stride) in
    elim (repack_bgr0_ends pixels width height stride a b c d e small g) [
      | inl (same, end) ↦ (
        take (stride * height) pixels,
        end,
        omega (
          arith,
          g,
          length-take (stride * height) pixels,
          mul_comm height stride,
          ap (λ n. height * n) same,
        ),
        λ y i low left.
            get_elem?-take (stride * height) pixels (y * (width * 4) + i) (
              omega (
                arith,
                left,
                same,
                ap (λ n. y * n) same,
                mul-le-mul_right stride low,
                add-mul 1 y stride,
                mul_comm height stride,
              ))
            ∙ ap (λ n. get_elem? pixels (y * n + i)) (sym same),
      )
      | inr end ↦ (
        pack_rows pixels stride (width * 4) height 0,
        end,
        length-pack_rows pixels stride (width * 4) e height 0 filled,
        λ y i low left.
            let start : 0 + y ≡ y = omega arith in
            get_elem?-pack_rows pixels stride (width * 4) e height 0 y i filled low left
            ∙ ap (λ n. get_elem? pixels (n * stride + i)) start,
      )
    ]
