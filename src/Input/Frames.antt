-- ===== src/Input/Frames.antt =====
-- The frames that a peer's reader gives away (device/console/src/bin/input-daemon.rs, `FrameReader`).
use donkeywork_desktop.Base.{
  ℕ, zero, suc, ◌+◌, ◌-◌, ◌≤◌, ◌<◌, ◌≡◌, refl, ap, ◌∙◌, Bool, true, false, not, ◌||◌, Option, none,
  some, List, [], ◌∷◌, ◌++◌, Result, ok, err, ltb, ◌==◌, ◌⊎◌, arith, if◌then◌else◌, length, take,
  drop, length-drop, length-take, length-append,
}
use donkeywork_desktop.Console.Records.{from_be_bytes}
use donkeywork_desktop.Console.Owner.{Refusal}
use donkeywork_desktop.Input.Reader.{
  FrameReader, fresh, target, learn_total, take_frame, finish_read, as_ok, finish_known,
}

take-append : {A : Type 0} (n : ℕ) (xs ys : List A) → n ≤ length xs → take n (xs ++ ys) ≡ take n xs
take-append zero xs ys h = refl
take-append (suc n) [] ys h = ground (arith, h)
take-append (suc n) (x ∷ xs) ys h = ap (λ zs. x ∷ zs) (take-append n xs ys (omega (arith, h)))

take-all : {A : Type 0} (n : ℕ) (xs : List A) → length xs ≡ n → take n xs ≡ xs
take-all zero [] h = refl
take-all zero (x ∷ xs) h = ground (arith, h)
take-all (suc n) [] h = refl
take-all (suc n) (x ∷ xs) h = ap (λ zs. x ∷ zs) (take-all n xs (omega (arith, h)))

take-drop : {A : Type 0} (n : ℕ) (xs : List A) → xs ≡ take n xs ++ drop n xs
take-drop zero xs = refl
take-drop (suc n) [] = refl
take-drop (suc n) (x ∷ xs) = ap (λ zs. x ∷ zs) (take-drop n xs)

-- A frame: four bytes that state the length of the rest.
pub record IsFramed (bytes frame : List ℕ) : Type 0 where
  pub header : List ℕ
  pub whole : bytes ≡ header ++ frame
  pub four : length header ≡ 4
  pub stated : from_be_bytes header ≡ length frame
  pub least : 1 ≤ length frame
  pub most : length frame ≤ 4096

-- The start of a frame whose length is known.
pub record IsBegun (bytes : List ℕ) (total : ℕ) : Type 0 where
  pub four : 4 ≤ length bytes
  pub stated : from_be_bytes (take 4 bytes) + 4 ≡ total
  pub least : 5 ≤ total
  pub most : total ≤ 4100

-- A reader between two reads: the frame is not complete.
abbrev pub IsPartialAt : List ℕ → Option ℕ → Type 0
IsPartialAt bytes none = length bytes < 4
IsPartialAt bytes (some total) = IsBegun bytes total × (length bytes < total)

abbrev pub IsPartial : FrameReader → Type 0
IsPartial r = IsPartialAt r.bytes r.total

-- After a read of at most what is wanted.
abbrev pub IsFilled : List ℕ → Option ℕ → Type 0
IsFilled bytes none = length bytes ≤ 4
IsFilled bytes (some total) = IsBegun bytes total × (length bytes ≤ total)

-- What follows from the bytes up to now.
abbrev pub Progress : List ℕ → FrameReader × Result Refusal (Option (List ℕ)) → Type 0
Progress bytes (r, ok none) = IsPartial r × (r.bytes ≡ bytes)
Progress bytes (r, ok (some frame)) = (r ≡ fresh) × IsFramed bytes frame
Progress bytes (r, err e) =
    (length bytes ≡ 4) × ((from_be_bytes bytes ≡ 0) ⊎ (4096 < from_be_bytes bytes))

complete-IsFramed :
    (bytes : List ℕ) (total : ℕ)
    → IsBegun bytes total
    → total ≡ length bytes
    → IsFramed bytes (drop 4 bytes)
complete-IsFramed bytes total h e = record {
  header = take 4 bytes;
  whole = take-drop 4 bytes;
  four = omega (arith, length-take 4 bytes, h.four);
  stated = omega (arith, length-drop 4 bytes, h.stated, e);
  least = omega (arith, length-drop 4 bytes, h.least, e);
  most = omega (arith, length-drop 4 bytes, h.most, e);
}

abbrev given_if : Bool → FrameReader → FrameReader × Option (List ℕ)
given_if b r = if b then (fresh, some (drop 4 r.bytes)) else (r, none)

frame_if :
    (bytes : List ℕ) (total : ℕ) (deadline : Option ℕ)
    → IsBegun bytes total
    → length bytes ≤ total
    → (b : Bool) → (total == length bytes) ≡ b
    → Progress bytes
        (as_ok (given_if b (record { bytes = bytes; total = some total; deadline = deadline })))
frame_if bytes total deadline h l true e =
    (refl, complete-IsFramed bytes total h (ground (arith, e)))
frame_if bytes total deadline h l false e = ((h, ground (arith, e, l)), refl)

known-Progress :
    (bytes : List ℕ) (total : ℕ) (deadline : Option ℕ)
    → IsBegun bytes total
    → length bytes ≤ total
    → Progress bytes
        (as_ok (take_frame (record { bytes = bytes; total = some total; deadline = deadline })))
unfolding take_frame
known-Progress bytes total deadline h l =
    frame_if bytes total deadline h l (total == length bytes) refl

-- The four bytes are there, and state a length that a frame may have.
begun :
    (bytes : List ℕ)
    → length bytes ≡ 4
    → 1 ≤ from_be_bytes bytes
    → from_be_bytes bytes ≤ 4096
    → IsBegun bytes (from_be_bytes bytes + 4)
begun bytes h p q = record {
  four = omega (arith, h);
  stated = ap (λ bs. from_be_bytes bs + 4) (take-all 4 bytes h);
  least = omega (arith, p);
  most = omega (arith, q);
}

module _ (bytes : List ℕ) (deadline : Option ℕ) where
  abbrev start : FrameReader
  start = record { bytes = bytes; total = none; deadline = deadline }

  -- The length that is stated, where the four bytes are there.
  stated-Progress :
      (b : Bool)
      → length bytes ≡ 4
      → ((from_be_bytes bytes == 0) || ltb 4096 (from_be_bytes bytes)) ≡ b
      → Progress bytes (
          finish_known start (
            if b
            then err Refusal.invalid
            else ok (record start { total = some (from_be_bytes bytes + 4) })))
  stated-Progress true h e = (h, ground (arith, e))
  stated-Progress false h e =
      known-Progress bytes (from_be_bytes bytes + 4) deadline
        (begun bytes h (ground (arith, e)) (ground (arith, e))) (omega (arith, h))

  start-Progress :
      (b : Bool)
      → length bytes ≤ 4
      → (length bytes == 4) ≡ b
      → Progress bytes (
          finish_known start (
            if not b
            then ok start
            else if (from_be_bytes bytes == 0) || ltb 4096 (from_be_bytes bytes)
            then err Refusal.invalid
            else ok (record start { total = some (from_be_bytes bytes + 4) })))
  unfolding take_frame
  start-Progress true l e =
      stated-Progress ((from_be_bytes bytes == 0) || ltb 4096 (from_be_bytes bytes))
        (ground (arith, e)) refl
  start-Progress false l e = (ground (arith, e, l), refl)

  -- A read of at most what is wanted keeps the bytes, gives a frame away as soon as it is complete,
  -- and is refused exactly where the four bytes state a length that no frame has.
  pub finish_read-Progress :
      (total : Option ℕ)
      → IsFilled bytes total
      → Progress bytes (finish_read (record { bytes = bytes; total = total; deadline = deadline }))
  unfolding finish_read learn_total
  finish_read-Progress none h = start-Progress (length bytes == 4) h refl
  finish_read-Progress (some total) h = known-Progress bytes total deadline h.0 h.1

longer-IsBegun :
    (bytes chunk : List ℕ) (total : ℕ) → IsBegun bytes total → IsBegun (bytes ++ chunk) total
longer-IsBegun bytes chunk total h = record {
  four = omega (arith, length-append bytes chunk, h.four);
  stated = ap (λ bs. from_be_bytes bs + 4) (take-append 4 bytes chunk h.four) ∙ h.stated;
  least = h.least;
  most = h.most;
}

pub filled :
    (bytes chunk : List ℕ) (total : Option ℕ)
    → IsPartialAt bytes total
    → length chunk ≤ target total - length bytes
    → IsFilled (bytes ++ chunk) total
filled bytes chunk none p h = omega (arith, length-append bytes chunk, h, p)
filled bytes chunk (some total) p h =
    (longer-IsBegun bytes chunk total p.0, omega (arith, length-append bytes chunk, h, p.1))
