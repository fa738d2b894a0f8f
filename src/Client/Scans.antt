-- ===== src/Client/Scans.antt =====
-- The scan of the client goes over chunks (cli/src/lib.rs, `validate_png`).
use donkeywork_desktop.Base.{
  ℕ, zero, suc, ◌+◌, ◌-◌, ◌≡◌, refl, sym, ap, ◌∙◌, Bool, true, false, not, ◌⊎◌, inl, inr, Option,
  none, some, List, Result, ok, err, ltb, leb, if◌then◌else◌, length, take, drop, arith,
}
use mathlib.Core.Option.{some-injective}
use donkeywork_desktop.Wire.Messages.{Failure}
use donkeywork_desktop.Client.Png.{get_range, check_chunk, follow, with_head, scan}
use donkeywork_desktop.Client.Chunks.{
  IsChunks, chunk_at, len_at, check_chunk-IsPassed, last-IsChunks, next-IsChunks,
}

module _ (width height : ℕ) (bytes : List ℕ) where
  -- What follows a chunk whose tests have an answer.
  follow-IsChunks :
      (rounds : ℕ) (first : Bool) (offset : ℕ) (r : Result Failure Bool)
      → check_chunk width height bytes first offset
          (chunk_at width height bytes offset).kind
          (len_at width height bytes offset)
        ≡ r
      → ((o : ℕ)
          → scan width height bytes rounds false false o ≡ ok true
          → IsChunks width height false (drop o bytes))
      → follow width height bytes
          (λ e o. scan width height bytes rounds false e o)
          false
          (offset + 12 + len_at width height bytes offset)
          r
        ≡ ok true
      → IsChunks width height first (drop offset bytes)
  follow-IsChunks rounds first offset (err x) c ih h = cc
  follow-IsChunks rounds first offset (ok true) c ih h =
      last-IsChunks width height bytes first offset (
        check_chunk-IsPassed width height bytes first offset
          (chunk_at width height bytes offset).kind (len_at width height bytes offset) true c)
  follow-IsChunks rounds first offset (ok false) c ih h =
      next-IsChunks width height bytes first offset
        (check_chunk-IsPassed width height bytes first offset
          (chunk_at width height bytes offset).kind (len_at width height bytes offset) false c)
        (ih (offset + 12 + len_at width height bytes offset) h)

  head-IsChunks :
      (rounds : ℕ) (first : Bool) (offset : ℕ) (head : Option (List ℕ))
      → (head ≡ none) ⊎ (head ≡ some (take 8 (drop offset bytes)))
      → ((o : ℕ)
          → scan width height bytes rounds false false o ≡ ok true
          → IsChunks width height false (drop o bytes))
      → with_head width height bytes
          (λ e o. scan width height bytes rounds false e o)
          first
          false
          offset
          head
        ≡ ok true
      → IsChunks width height first (drop offset bytes)
  head-IsChunks rounds first offset none e ih h = cc
  head-IsChunks rounds first offset (some head) (inl e) ih h = cc
  head-IsChunks rounds first offset (some head) (inr e) ih h =
      let same : head ≡ take 8 (drop offset bytes) =
        some-injective head (take 8 (drop offset bytes)) e in
      follow-IsChunks rounds first offset
        (check_chunk width height bytes first offset (chunk_at width height bytes offset).kind
          (len_at width height bytes offset))
        refl ih
        (ap
            (λ k.
              with_head width height bytes (λ e o. scan width height bytes rounds false e o) first
                false offset (some k))
            (sym same)
          ∙ h)

  get_range_cases :
      (offset : ℕ)
      → (get_range bytes offset (offset + 8) ≡ none)
        ⊎ (get_range bytes offset (offset + 8) ≡ some (take 8 (drop offset bytes)))
  get_range_cases offset =
      let eight : offset + 8 - offset ≡ 8 = omega arith in
      go (leb (offset + 8) (length bytes)) (offset + 8 - offset) eight
    where
      go :
          (b : Bool) (n : ℕ)
          → n ≡ 8
          → ((if b then some (take n (drop offset bytes)) else none) ≡ none)
            ⊎ ((if b then some (take n (drop offset bytes)) else none)
                ≡ some (take 8 (drop offset bytes)))
      go true n e = inr (ap (λ k. some (take k (drop offset bytes))) e)
      go false n e = inl refl

  -- A scan that sees the end has gone over chunks.
  pub scan-IsChunks :
      (rounds : ℕ) (first : Bool) (offset : ℕ)
      → scan width height bytes rounds first false offset ≡ ok true
      → IsChunks width height first (drop offset bytes)
  unfolding scan
  scan-IsChunks zero first offset h = absurd (ground (arith, h))
  scan-IsChunks (suc rounds) first offset h =
      go (scan-IsChunks rounds false) (ltb offset (length bytes)) h
    where
      go :
          ((o : ℕ)
            → scan width height bytes rounds false false o ≡ ok true
            → IsChunks width height false (drop o bytes))
          → (b : Bool)
          → (if not b
              then ok false
              else with_head width height bytes
                  (λ e o. scan width height bytes rounds false e o)
                  first
                  false
                  offset
                  (get_range bytes offset (offset + 8)))
            ≡ ok true
          → IsChunks width height first (drop offset bytes)
      go ih false k = cc
      go ih true k =
          head-IsChunks rounds first offset (get_range bytes offset (offset + 8))
            (get_range_cases offset) ih k
