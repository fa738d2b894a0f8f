-- ===== src/Input/Counts.antt =====
-- How often a number occurs in a list, and `swap_remove`
-- (device/console/src/bin/input-daemon.rs, `main`).
use donkeywork_desktop.Base.{
  ℕ, zero, suc, ◌+◌, ◌≡◌, refl, ap, List, [], ◌∷◌, ◌++◌, arith, ◌==◌, if◌then◌else◌, length, take,
  drop,
}
use donkeywork_desktop.Input.Peers.{all_but_last, last, moved_up}

-- How often a number occurs.
abbrev pub count : ℕ → List ℕ → ℕ
count a [] = 0
count a (w ∷ rest) = count a rest + (if w == a then 1 else 0)

pub count-append :
    (a : ℕ) (first second : List ℕ) → count a (first ++ second) ≡ count a second + count a first
count-append a [] second = omega arith
count-append a (w ∷ rest) second = omega (arith, count-append a rest second)

pub count-all_but_last :
    (a x : ℕ) (xs : List ℕ)
    → count a (all_but_last x xs) + (if last x xs == a then 1 else 0) ≡ count a (x ∷ xs)
count-all_but_last a x [] = omega arith
count-all_but_last a x (y ∷ ys) = omega (arith, count-all_but_last a y ys)

pub length-all_but_last : (x : ℕ) (xs : List ℕ) → length (all_but_last x xs) ≡ length xs
length-all_but_last x [] = refl
length-all_but_last x (y ∷ ys) = ap suc (length-all_but_last y ys)

pub count-moved_up : (a : ℕ) (xs : List ℕ) → count a (moved_up xs) ≡ count a xs
count-moved_up a [] = refl
count-moved_up a (x ∷ xs) = count-all_but_last a x xs

pub length-moved_up : (xs : List ℕ) → length (moved_up xs) ≡ length xs
length-moved_up [] = refl
length-moved_up (x ∷ xs) = ap suc (length-all_but_last x xs)

-- A list is what is taken and what is left, in number and in length.
pub count-take-drop :
    (a n : ℕ) (xs : List ℕ) → count a xs ≡ count a (take n xs) + count a (drop n xs)
count-take-drop a zero xs = omega arith
count-take-drop a (suc n) [] = omega arith
count-take-drop a (suc n) (x ∷ xs) = omega (arith, count-take-drop a n xs)

pub length-take-drop : (n : ℕ) (xs : List ℕ) → length xs ≡ length (take n xs) + length (drop n xs)
length-take-drop zero xs = omega arith
length-take-drop (suc n) [] = omega arith
length-take-drop (suc n) (x ∷ xs) = omega (arith, length-take-drop n xs)
