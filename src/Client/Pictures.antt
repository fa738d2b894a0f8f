-- ===== src/Client/Pictures.antt =====
-- What `validate_png` of the client lets through, and that it ends (cli/src/lib.rs).
use donkeywork_desktop.Base.{
  ℕ, zero, suc, ◌+◌, ◌*◌, ◌≤◌, ◌≡◌, refl, ap, ◌∙◌, Bool, true, false, not, ◌||◌, Option, none, some,
  List, ◌++◌, Result, ok, err, ltb, if◌then◌else◌, length, take, drop, arith,
}
use donkeywork_desktop.Console.Records.{from_be_bytes}
use donkeywork_desktop.Wire.Messages.{Failure, unfinished, max_png}
use donkeywork_desktop.Client.Slices.{is_same-≡, take-drop}
use donkeywork_desktop.Client.Png.{
  Decoder, is_same, get_range, signature, check_chunk, follow, with_head, scan, is_frame, is_output,
  limit, decode, after_scan, validate_png,
}
use donkeywork_desktop.Client.Chunks.{IsChunks}
use donkeywork_desktop.Client.Scans.{scan-IsChunks}

module _ (width height : ℕ) (bytes : List ℕ) where
  check_chunk-ends :
      (first : Bool) (offset : ℕ) (kind : List ℕ) (len : ℕ)
      → ¬ (check_chunk width height bytes first offset kind len ≡ err unfinished)
  unfolding check_chunk
  check_chunk-ends first offset kind len h = ground (arith, h)

  follow-ends :
      (go : Bool → ℕ → Result Failure Bool) (ended : Bool) (end : ℕ) (r : Result Failure Bool)
      → ((e : Bool) → ¬ (go e end ≡ err unfinished))
      → ¬ (r ≡ err unfinished)
      → ¬ (follow width height bytes go ended end r ≡ err unfinished)
  follow-ends go ended end (ok at_end) ih c h = ih (ended || at_end) h
  follow-ends go ended end (err e) ih c h = c h

  head-ends :
      (go : Bool → ℕ → Result Failure Bool) (first ended : Bool) (offset : ℕ)
      (head : Option (List ℕ))
      → ((e : Bool) (end : ℕ) → offset + 12 ≤ end → ¬ (go e end ≡ err unfinished))
      → ¬ (with_head width height bytes go first ended offset head ≡ err unfinished)
  head-ends go first ended offset none ih h = cc
  head-ends go first ended offset (some head) ih h =
      follow-ends go ended (offset + 12 + from_be_bytes (take 4 head))
        (check_chunk width height bytes first offset (drop 4 head) (from_be_bytes (take 4 head)))
        (λ e. ih e (offset + 12 + from_be_bytes (take 4 head)) (omega arith))
        (check_chunk-ends first offset (drop 4 head) (from_be_bytes (take 4 head))) h

  -- A round for each byte that is left is enough.
  scan-ends :
      (rounds : ℕ) (first ended : Bool) (offset : ℕ)
      → length bytes ≤ offset + rounds
      → ¬ (scan width height bytes rounds first ended offset ≡ err unfinished)
  unfolding scan
  scan-ends zero first ended offset enough h = ground (arith, enough, h)
  scan-ends (suc rounds) first ended offset enough h =
      go (λ e end p. scan-ends rounds false e end p) (ltb offset (length bytes)) h
    where
      go :
          ((e : Bool) (end : ℕ)
            → length bytes ≤ end + rounds
            → ¬ (scan width height bytes rounds false e end ≡ err unfinished))
          → (b : Bool)
          → ¬ (
              (if not b
                then ok ended
                else with_head width height bytes
                    (λ e o. scan width height bytes rounds false e o)
                    first
                    ended
                    offset
                    (get_range bytes offset (offset + 8)))
              ≡ err unfinished)
      go ih false k = cc
      go ih true k =
          head-ends (λ e o. scan width height bytes rounds false e o) first ended offset
            (get_range bytes offset (offset + 8)) (λ e end p. ih e end (omega (arith, enough, p))) k

-- A picture that the client accepts, for the fields of its metadata.
pub record IsPicture (D : Decoder) (bytes : List ℕ) (width height : Option ℕ) : Type 0 where
  pub wide : ℕ
  pub high : ℕ
  pub width_is : width ≡ some wide
  pub height_is : height ≡ some high
  pub wide_bounds : (1 ≤ wide) × (wide ≤ 4096)
  pub high_bounds : (1 ≤ high) × (high ≤ 4096)
  pub size : length bytes ≤ max_png
  pub chunks : List ℕ
  pub signed : bytes ≡ signature ++ chunks
  pub chunked : IsChunks wide high true chunks
  pub sized : is_output (wide * high * 4) (D.read_info limit bytes) ≡ true
  pub framed : is_frame wide high (wide * high * 4) (D.next_frame limit bytes) ≡ true
  pub finished : D.finish limit bytes ≡ true

module _ (D : Decoder) (bytes : List ℕ) where
  -- The tests before the decoder.
  record IsTested (wide high : ℕ) : Type 0 where
    wide_bounds : (1 ≤ wide) × (wide ≤ 4096)
    high_bounds : (1 ≤ high) × (high ≤ 4096)
    size : length bytes ≤ max_png
    signed : is_same (take 8 bytes) signature ≡ true
    scanned :
        after_scan D wide high bytes (scan wide high bytes (length bytes) true false 8) ≡ ok tt

  validate_png-IsTested :
      (wide high : ℕ) → validate_png D bytes (some wide) (some high) ≡ ok tt → IsTested wide high
  unfolding validate_png
  validate_png-IsTested wide high h = record {
    wide_bounds = (ground (arith, h), ground (arith, h));
    high_bounds = (ground (arith, h), ground (arith, h));
    size = ground (arith, h);
    signed = ground (arith, h);
    scanned = ground (arith, h);
  }

  tested-IsPicture :
      (wide high : ℕ) (r : Result Failure Bool)
      → scan wide high bytes (length bytes) true false 8 ≡ r
      → after_scan D wide high bytes r ≡ ok tt
      → IsTested wide high
      → IsPicture D bytes (some wide) (some high)
  unfolding decode
  tested-IsPicture wide high (err e) s h t = cc
  tested-IsPicture wide high (ok false) s h t = cc
  tested-IsPicture wide high (ok true) s h t = record {
    wide = wide;
    high = high;
    width_is = refl;
    height_is = refl;
    wide_bounds = t.wide_bounds;
    high_bounds = t.high_bounds;
    size = t.size;
    chunks = drop 8 bytes;
    signed =
        take-drop 8 bytes
        ∙ ap (λ ys. ys ++ drop 8 bytes) (is_same-≡ (take 8 bytes) signature t.signed);
    chunked = scan-IsChunks wide high bytes (length bytes) true 8 s;
    sized = ground (arith, h);
    framed = ground (arith, h);
    finished = ground (arith, h);
  }

  after_scan-ends :
      (wide high : ℕ) (r : Result Failure Bool)
      → ¬ (r ≡ err unfinished)
      → ¬ (after_scan D wide high bytes r ≡ err unfinished)
  unfolding decode
  after_scan-ends wide high (err e) n h =
      let same : e ≡ unfinished = ground (arith, h) in n (ap err same)
  after_scan-ends wide high (ok ended) n h = ground (arith, h)

  accepted_png :
      (width height : Option ℕ)
      → validate_png D bytes width height ≡ ok tt
      → IsPicture D bytes width height
  unfolding validate_png
  accepted_png none height h = cc
  accepted_png (some wide) none h = cc
  accepted_png (some wide) (some high) h =
      let t = validate_png-IsTested wide high h in
      tested-IsPicture wide high (scan wide high bytes (length bytes) true false 8) refl t.scanned t

  validate_png-ends :
      (width height : Option ℕ) → ¬ (validate_png D bytes width height ≡ err unfinished)
  unfolding validate_png
  validate_png-ends none height h = cc
  validate_png-ends (some wide) none h = cc
  validate_png-ends (some wide) (some high) h =
      after_scan-ends wide high (scan wide high bytes (length bytes) true false 8)
        (scan-ends wide high bytes (length bytes) true false 8 (omega arith)) (ground (arith, h))

  -- What a result says of the bytes.
  abbrev pub Judged : Option ℕ → Option ℕ → Result Failure (Unit {0}) → Type 0
  Judged width height (ok u) = IsPicture D bytes width height
  Judged width height (err e) = ¬ (e ≡ unfinished)

  judge :
      (width height : Option ℕ) (r : Result Failure (Unit {0}))
      → validate_png D bytes width height ≡ r
      → Judged width height r
  judge width height (ok u) e = accepted_png width height e
  judge width height (err x) e = λ h. validate_png-ends width height (e ∙ ap err h)

  -- The check of a picture ends, and a picture that it accepts has the signature and then chunks: a
  -- header that states the width and the height of the metadata, each from 1 to 4096, allowed
  -- chunks, all but the image data of at most 32 bytes, and an empty end with nothing behind it; and
  -- the decoder gives a frame of that size.
  pub validate_png-Judged :
      (width height : Option ℕ) → Judged width height (validate_png D bytes width height)
  validate_png-Judged width height = judge width height (validate_png D bytes width height) refl
