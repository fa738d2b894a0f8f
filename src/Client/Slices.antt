-- ===== src/Client/Slices.antt =====
-- Pieces of a list, for the chunks of a picture (cli/src/lib.rs, `validate_png`).
use donkeywork_desktop.Base.{
  ℕ, zero, suc, ◌+◌, ◌≤◌, ◌≡◌, refl, sym, ap, ◌∙◌, true, List, [], ◌∷◌, ◌++◌, length, take, drop,
  arith,
}
use mathlib.Core.List.{append_assoc}
use donkeywork_desktop.Client.Png.{is_same}

pub is_same-≡ : (xs ys : List ℕ) → is_same xs ys ≡ true → xs ≡ ys
is_same-≡ [] [] h = refl
is_same-≡ [] (y ∷ ys) h = cc
is_same-≡ (x ∷ xs) [] h = cc
is_same-≡ (x ∷ xs) (y ∷ ys) h =
    let same : x ≡ y = ground (arith, h) in
    rw same (ap (λ zs. y ∷ zs) (is_same-≡ xs ys (ground (arith, h))))

drop-nil : (n : ℕ) → drop {A = ℕ} n [] ≡ []
drop-nil zero = refl
drop-nil (suc n) = refl

drop-drop : (a n : ℕ) (xs : List ℕ) → drop n (drop a xs) ≡ drop (a + n) xs
drop-drop zero n xs = ap (λ k. drop k xs) (omega arith)
drop-drop (suc a) n [] = drop-nil n ∙ sym (drop-nil (suc a + n))
drop-drop (suc a) n (x ∷ xs) =
    let same : suc (a + n) ≡ suc a + n = omega arith in
    drop-drop a n xs ∙ ap (λ k. drop k (x ∷ xs)) same

pub take-drop : (n : ℕ) (xs : List ℕ) → xs ≡ take n xs ++ drop n xs
take-drop zero xs = refl
take-drop (suc n) [] = refl
take-drop (suc n) (x ∷ xs) = ap (λ zs. x ∷ zs) (take-drop n xs)

pub drop-all : (n : ℕ) (xs : List ℕ) → length xs ≤ n → drop n xs ≡ []
drop-all zero [] h = refl
drop-all zero (x ∷ xs) h = ground (arith, h)
drop-all (suc n) [] h = refl
drop-all (suc n) (x ∷ xs) h = drop-all n xs (omega (arith, h))

-- A piece of the bytes, and what follows it.
piece : (a n : ℕ) (xs : List ℕ) → drop a xs ≡ take n (drop a xs) ++ drop (a + n) xs
piece a n xs = take-drop n (drop a xs) ∙ ap (λ ys. take n (drop a xs) ++ ys) (drop-drop a n xs)

regroup : (a b c d rest : List ℕ) → (a ++ b) ++ (c ++ (d ++ rest)) ≡ (a ++ (b ++ (c ++ d))) ++ rest
regroup a b c d rest = simp append_assoc

-- Eight bytes in two halves, a piece, and four more bytes.
pub cut :
    (o len : ℕ) (xs : List ℕ)
    → drop o xs
      ≡ (take 4 (take 8 (drop o xs))
          ++ (drop 4 (take 8 (drop o xs))
              ++ (take len (drop (o + 8) xs) ++ take 4 (drop (o + 8 + len) xs))))
        ++ drop (o + 12 + len) xs
cut o len xs =
    let h = take 8 (drop o xs) in
    let c = take len (drop (o + 8) xs) in
    let d = take 4 (drop (o + 8 + len) xs) in
    let rest = drop (o + 12 + len) xs in
    let third : drop (o + 8 + len) xs ≡ d ++ rest =
      piece (o + 8 + len) 4 xs ∙ ap (λ k. d ++ drop k xs) (omega arith) in
    piece o 8 xs
    ∙ ap (λ ys. h ++ ys) (piece (o + 8) len xs ∙ ap (λ ys. c ++ ys) third)
    ∙ ap (λ ys. ys ++ (c ++ (d ++ rest))) (take-drop 4 h)
    ∙ regroup (take 4 h) (drop 4 h) c d rest
