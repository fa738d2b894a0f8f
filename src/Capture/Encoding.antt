-- ===== src/Capture/Encoding.antt =====
-- What the encoding of a frame promises (device/capture/src/image.rs).
use mathlib.Core.List.{append_assoc, append-nil}
use donkeywork_desktop.Base.{
  ℕ, ◌*◌, ◌≤◌, ◌≡◌, sym, min, false, List, [], ◌∷◌, ◌++◌, ok, length, length-append, arith, inl,
  inr, Result-cases,
}
use donkeywork_desktop.Capture.Types.{FrameLimits, NativeFrame}
use donkeywork_desktop.Capture.Image.{
  rgba_len, max_bytes, CappedWriter, write, write_all, Encoding, encode_png,
}
use donkeywork_desktop.Capture.Images.{rgba_len-eq_ok}

unfoldable pub joined : List (List ℕ) → List ℕ
joined [] = []
joined (xs ∷ xss) = xs ++ joined xss

-- The writer never holds more than its limit; and it has taken every write, or has noted that one
-- was too much.
write_all_lem :
    (w : CappedWriter) (writes : List (List ℕ))
    → length w.written ≤ w.limit
    → (length (write_all w writes).0.written ≤ w.limit)
      × ((write_all w writes).0.exceeded ≡ false
          → (write_all w writes).0.written ≡ w.written ++ joined writes)
unfolding write_all write joined
write_all_lem w [] h = (h, λ e. sym (append-nil w.written))
write_all_lem w (bytes ∷ rest) h =
    let next : CappedWriter = record w { written = w.written ++ bytes } in
    (
      ground (arith, write_all_lem next rest, length-append w.written bytes),
      λ e. ground (
        arith,
        write_all_lem next rest,
        length-append w.written bytes,
        append_assoc w.written bytes (joined rest),
      ),
    )

-- An encoding that succeeds holds all that the encoder wrote, within both limits, of a frame with
-- four bytes for each pixel.
pub encode_png_lem :
    (encoder : NativeFrame → Encoding) (frame : NativeFrame) (limits : FrameLimits) (png : List ℕ)
    → encode_png encoder frame limits ≡ ok png
    → (png ≡ joined (encoder frame).writes)
      × (length png ≤ limits.max_png_bytes)
      × (length png ≤ max_bytes)
      × (length frame.rgba ≡ frame.width * frame.height * 4)
unfolding encode_png
encode_png_lem encoder frame limits png h =
    elim (Result-cases (rgba_len frame.width frame.height limits)) [
      | inl (n, e) ↦
          let start : CappedWriter = record {
            written = [];
            limit = min limits.max_png_bytes max_bytes;
            exceeded = false;
          } in
          ground (
            arith,
            e,
            rgba_len-eq_ok frame.width frame.height limits n e,
            write_all_lem start (encoder frame).writes,
          )
      | inr (x, e) ↦ ground (arith, e)
    ]
