-- ===== src/Client/Chunks.antt =====
-- The pictures that the scan of the client lets through (cli/src/lib.rs, `validate_png`).
use donkeywork_desktop.Base.{
  ℕ, ◌+◌, ◌≤◌, ◌≡◌, refl, sym, ap, ◌∙◌, Bool, true, false, ◌||◌, ◌⊎◌, inl, inr, List, [], ◌++◌, ok,
  leb, length, take, drop, length-take, length-drop, arith,
}
use mathlib.Core.List.{append-nil}
use donkeywork_desktop.Console.Records.{from_be_bytes}
use donkeywork_desktop.Client.Slices.{is_same-≡, drop-all, cut}
use donkeywork_desktop.Client.Png.{
  is_same, ihdr, idat, iend, is_allowed, is_header, is_misplaced, check_chunk,
}

-- A chunk: its length in four bytes, its kind, its data, and four bytes of a check sum.
pub record Chunk : Type 0 where
  pub size : List ℕ
  pub kind : List ℕ
  pub body : List ℕ
  pub crc : List ℕ

abbrev pub chunk_bytes : Chunk → List ℕ
chunk_bytes c = c.size ++ (c.kind ++ (c.body ++ c.crc))

pub record IsChunk (c : Chunk) : Type 0 where
  pub size_four : length c.size ≡ 4
  pub kind_four : length c.kind ≡ 4
  pub crc_four : length c.crc ≡ 4
  pub stated : from_be_bytes c.size ≡ length c.body
  pub allowed : is_allowed c.kind ≡ true
  pub small : (c.kind ≡ idat) ⊎ (length c.body ≤ 32)

-- A header of the size, any number of other chunks, and an empty end, with nothing behind it.
pub data IsChunks (width height : ℕ) : Bool → List ℕ → Type 0 where
  header :
      (c : Chunk) (bytes rest : List ℕ)
      → IsChunk c
      → c.kind ≡ ihdr
      → length c.body ≡ 13
      → is_header width height c.body ≡ true
      → bytes ≡ chunk_bytes c ++ rest
      → IsChunks width height false rest
      → IsChunks width height true bytes
  later :
      (c : Chunk) (bytes rest : List ℕ)
      → IsChunk c
      → is_same c.kind ihdr ≡ false
      → is_same c.kind iend ≡ false
      → bytes ≡ chunk_bytes c ++ rest
      → IsChunks width height false rest
      → IsChunks width height false bytes
  end :
      (c : Chunk) (bytes : List ℕ)
      → IsChunk c
      → c.kind ≡ iend
      → c.body ≡ []
      → bytes ≡ chunk_bytes c
      → IsChunks width height false bytes

small_cases :
    (kind : List ℕ) (len n : ℕ)
    → len ≡ n
    → (is_same kind idat || leb len 32) ≡ true
    → (kind ≡ idat) ⊎ (n ≤ 32)
small_cases kind len n e h = go (is_same kind idat) refl
  where
    go : (b : Bool) → is_same kind idat ≡ b → (kind ≡ idat) ⊎ (n ≤ 32)
    go true k = inl (is_same-≡ kind idat k)
    go false k = inr (ground (arith, e, h, k))

start_end : (kind : List ℕ) → is_same kind ihdr ≡ true → is_same kind iend ≡ false
start_end kind h = let same : kind ≡ ihdr = is_same-≡ kind ihdr h in rw same refl

module _ (width height : ℕ) (bytes : List ℕ) where
  -- The chunk at an offset.
  abbrev pub chunk_at : ℕ → Chunk
  chunk_at offset =
      let h = take 8 (drop offset bytes) in
      let len = from_be_bytes (take 4 h) in
      record {
        size = take 4 h;
        kind = drop 4 h;
        body = take len (drop (offset + 8) bytes);
        crc = take 4 (drop (offset + 8 + len) bytes);
      }

  pub record IsPassed (first : Bool) (offset : ℕ) (kind : List ℕ) (len : ℕ) (at_end : Bool)
      : Type 0 where
    pub fits : offset + 12 + len ≤ length bytes
    pub placed : is_misplaced width height bytes first offset kind len ≡ false
    pub allowed : is_allowed kind ≡ true
    pub small : (is_same kind idat || leb len 32) ≡ true
    pub flag : is_same kind iend ≡ at_end
    pub last : at_end ≡ true → (len ≡ 0) × (offset + 12 + len ≡ length bytes)

  pub check_chunk-IsPassed :
      (first : Bool) (offset : ℕ) (kind : List ℕ) (len : ℕ) (at_end : Bool)
      → check_chunk width height bytes first offset kind len ≡ ok at_end
      → IsPassed first offset kind len at_end
  unfolding check_chunk
  check_chunk-IsPassed first offset kind len at_end h = record {
    fits = ground (arith, h);
    placed = ground (arith, h);
    allowed = ground (arith, h);
    small = ground (arith, h);
    flag = ground (arith, h);
    last = λ e. (ground (arith, h, e), ground (arith, h, e));
  }

  -- A chunk that passes is one, and stands at its offset.
  passed-IsChunk :
      (first : Bool) (offset : ℕ) (at_end : Bool)
      → IsPassed first offset (chunk_at offset).kind (from_be_bytes (chunk_at offset).size) at_end
      → IsChunk (chunk_at offset)
  passed-IsChunk first offset at_end p =
      let h = take 8 (drop offset bytes) in
      let len = from_be_bytes (take 4 h) in
      let fits : offset + 12 + len ≤ length bytes = p.fits in
      let eight : length h ≡ 8 =
        omega (arith, fits, length-take 8 (drop offset bytes), length-drop offset bytes) in
      let body : length (take len (drop (offset + 8) bytes)) ≡ len =
        omega (
          arith,
          fits,
          length-take len (drop (offset + 8) bytes),
          length-drop (offset + 8) bytes,
        ) in
      record {
        size_four = omega (arith, eight, length-take 4 h);
        kind_four = omega (arith, eight, length-drop 4 h);
        crc_four = omega (
          arith,
          fits,
          length-take 4 (drop (offset + 8 + len) bytes),
          length-drop (offset + 8 + len) bytes,
        );
        stated = sym body;
        allowed = p.allowed;
        small =
            small_cases (drop 4 h) len (length (take len (drop (offset + 8) bytes))) (sym body)
              p.small;
      }

  abbrev pub len_at : ℕ → ℕ
  len_at offset = from_be_bytes (chunk_at offset).size

  abbrev pub Passed : Bool → ℕ → Bool → Type 0
  Passed first offset at_end = IsPassed first offset (chunk_at offset).kind (len_at offset) at_end

  -- The last chunk ends the picture.
  pub last-IsChunks :
      (first : Bool) (offset : ℕ)
      → Passed first offset true
      → IsChunks width height first (drop offset bytes)
  unfolding is_misplaced
  last-IsChunks true offset p =
      let kind : is_same (chunk_at offset).kind ihdr ≡ true = ground (arith, p.placed) in
      absurd (ground (arith, start_end (chunk_at offset).kind kind, p.flag))
  last-IsChunks false offset p =
      end (chunk_at offset) (drop offset bytes) (passed-IsChunk false offset true p)
        (is_same-≡ (chunk_at offset).kind iend p.flag)
        (ap (λ n. take n (drop (offset + 8) bytes)) (p.last refl).0)
        (cut offset (len_at offset) bytes
          ∙ ap (λ r. chunk_bytes (chunk_at offset) ++ r)
              (drop-all (offset + 12 + len_at offset) bytes (omega (arith, (p.last refl).1)))
          ∙ append-nil (chunk_bytes (chunk_at offset)))

  -- Another chunk, before the rest.
  pub next-IsChunks :
      (first : Bool) (offset : ℕ)
      → Passed first offset false
      → IsChunks width height false (drop (offset + 12 + len_at offset) bytes)
      → IsChunks width height first (drop offset bytes)
  unfolding is_misplaced
  next-IsChunks true offset p rest =
      let size : len_at offset ≡ 13 = ground (arith, p.placed) in
      let whole = passed-IsChunk true offset false p in
      header (chunk_at offset) (drop offset bytes) (drop (offset + 12 + len_at offset) bytes) whole
        (is_same-≡ (chunk_at offset).kind ihdr (ground (arith, p.placed))) (sym whole.stated ∙ size)
        (ap (λ n. is_header width height (take n (drop (offset + 8) bytes))) size
          ∙ ground (arith, p.placed))
        (cut offset (len_at offset) bytes) rest
  next-IsChunks false offset p rest =
      later (chunk_at offset) (drop offset bytes) (drop (offset + 12 + len_at offset) bytes)
        (passed-IsChunk false offset false p) (ground (arith, p.placed)) p.flag
        (cut offset (len_at offset) bytes) rest
