-- ===== src/Base/Sets.antt =====
-- `BTreeSet` of numbers: a list in ascending order, without repetition.
use Prim.Native.Nat.{ℕ}
use mathlib.Core.Path.{◌≡◌, refl}
use mathlib.Core.Bool.{Bool, false, not, ◌&&◌, ◌||◌}
use mathlib.Core.List.{List, [], ◌∷◌}
use native.Mathlib.Omega.{arith}
use donkeywork_desktop.Base.Tests.{ltb, ◌==◌, if◌then◌else◌}

unfoldable pub contains : ℕ → List ℕ → Bool
contains c [] = false
contains c (x ∷ xs) = x == c || contains c xs

unfoldable pub remove : ℕ → List ℕ → List ℕ
remove c [] = []
remove c (x ∷ xs) = let rest = remove c xs in if x == c then rest else x ∷ rest

-- `BTreeSet::insert`: a number that is there already stays as it is.
unfoldable pub insert : ℕ → List ℕ → List ℕ
insert c [] = c ∷ []
insert c (x ∷ xs) =
    let rest = insert c xs in if ltb c x then c ∷ x ∷ xs else if x == c then x ∷ xs else x ∷ rest

pub contains-remove :
    (c code : ℕ) (xs : List ℕ) → contains c (remove code xs) ≡ (contains c xs && not (c == code))
unfolding contains remove
contains-remove c code [] = refl
contains-remove c code (x ∷ xs) = ground (arith, contains-remove c code xs)

pub contains-insert :
    (c code : ℕ) (xs : List ℕ) → contains c (insert code xs) ≡ (code == c || contains c xs)
unfolding contains insert
contains-insert c code [] = ground arith
contains-insert c code (x ∷ xs) = ground (arith, contains-insert c code xs)
