-- ===== src/Capture/Plans.antt =====
-- What a plan to type a text is (device/capture/src/keyboard.rs).
use mathlib.Core.Path.{subst}
use donkeywork_desktop.Base.{
  get_elem?, Bool-cases, ℕ, zero, suc, ◌+◌, ◌*◌, ◌<◌, ◌≡◌, refl, sym, Bool, true, false, some, List,
  [], ◌∷◌, ok, err, ◌==◌, if◌then◌else◌, arith, inl, inr, Result-cases, Option-cases,
}
use donkeywork_desktop.Capture.Types.{Fallible}
use donkeywork_desktop.Capture.Keyboard.{
  keysym_of, find_key, pairs_of, plan_char, prepend_plan, plan_chars, text_plan,
}

abbrev level : Bool → ℕ × ℕ → ℕ
level shifted p = if shifted then p.1 else p.0

-- The key found is as far from the index as its pair from the start, and this has the symbol at
-- the level found.
find_key_lem :
    (keysym index : ℕ) (pairs : List (ℕ × ℕ)) (key : ℕ) (shifted : Bool)
    → find_key keysym index pairs ≡ some (key, shifted)
    → (i : ℕ) × (key ≡ index + i)
      × (p : ℕ × ℕ) × (get_elem? pairs i ≡ some p)
      × (level shifted p ≡ keysym)
unfolding find_key
find_key_lem keysym index [] key shifted h = cc
find_key_lem keysym index ((plain, upper) ∷ rest) key shifted h =
    elim (Bool-cases (plain == keysym)) [
      | inl a ↦ (0, ground (arith, a, h), (plain, upper), refl, ground (arith, a, h))
      | inr a ↦ elim (Bool-cases (upper == keysym)) [
        | inl b ↦ (0, ground (arith, a, b, h), (plain, upper), refl, ground (arith, a, b, h))
        | inr b ↦
            let (i, at, p, found, same) =
              find_key_lem keysym (index + 1) rest key shifted (rw (a, b) at h) in
            (suc i, omega (arith, at), p, found, same)
      ]
    ]

-- A pair stands at twice its index.
get_elem?-pairs_of :
    (i : ℕ) (xs : List ℕ) (p : ℕ × ℕ)
    → get_elem? (pairs_of xs) i ≡ some p
    → (get_elem? xs (2 * i) ≡ some p.0) × (get_elem? xs (2 * i + 1) ≡ some p.1)
unfolding pairs_of
get_elem?-pairs_of i [] p h = cc
get_elem?-pairs_of i (a ∷ []) p h = cc
get_elem?-pairs_of zero (a ∷ b ∷ rest) p h = (ground (arith, h), ground (arith, h))
get_elem?-pairs_of (suc i) (a ∷ b ∷ rest) p h =
    let twice : 2 * suc i ≡ suc (suc (2 * i)) = omega arith in
    let next : 2 * suc i + 1 ≡ suc (suc (2 * i + 1)) = omega arith in
    let ih = get_elem?-pairs_of i rest p h in (rw twice (ih.0), rw next (ih.1))

-- The key types the character: its symbol stands at the key's column, plain or shifted.
abbrev pub Types : ℕ → List ℕ → ℕ → ℕ × Bool → Type 0
Types min_keycode keysyms c (key, shifted) =
    (symbol : ℕ) × (keysym_of c ≡ ok symbol)
    × (i : ℕ) × (key ≡ min_keycode + i)
    × (key < 256)
    × (get_elem? keysyms (2 * i + (if shifted then 1 else 0)) ≡ some symbol)

-- The plan types the text, character by character.
abbrev pub TypesAll : ℕ → List ℕ → List ℕ → List (ℕ × Bool) → Type 0
TypesAll min_keycode keysyms [] [] = Unit {0}
TypesAll min_keycode keysyms (c ∷ cs) (k ∷ ks) =
    Types min_keycode keysyms c k × TypesAll min_keycode keysyms cs ks
TypesAll min_keycode keysyms [] (k ∷ ks) = ⊥
TypesAll min_keycode keysyms (c ∷ cs) [] = ⊥

at_level :
    (keysyms : List ℕ) (i : ℕ) (p : ℕ × ℕ) (symbol : ℕ) (shifted : Bool)
    → get_elem? keysyms (2 * i) ≡ some p.0
    → get_elem? keysyms (2 * i + 1) ≡ some p.1
    → level shifted p ≡ symbol
    → get_elem? keysyms (2 * i + (if shifted then 1 else 0)) ≡ some symbol
at_level keysyms i p symbol true a b e = rw (sym e) b
at_level keysyms i p symbol false a b e =
    let plain : 2 * i + 0 ≡ 2 * i = omega arith in rw (plain, sym e) a

plan_char-Types :
    (min_keycode : ℕ) (keysyms : List ℕ) (c : ℕ) (k : ℕ × Bool)
    → plan_char min_keycode keysyms c ≡ ok k
    → Types min_keycode keysyms c k
unfolding plan_char
plan_char-Types min_keycode keysyms c (key, shifted) h = elim (Result-cases (keysym_of c)) [
  | inr (e, bad) ↦ absurd (ground (arith, bad, h))
  | inl (symbol, good) ↦ elim (Option-cases (find_key symbol min_keycode (pairs_of keysyms))) [
    | inl none' ↦ absurd (ground (arith, good, none', h))
    | inr ((k, up), found) ↦
        let (i, at, p, there, same) =
          find_key_lem symbol min_keycode (pairs_of keysyms) k up found in
        let both = get_elem?-pairs_of i keysyms p there in
        (
          symbol,
          good,
          i,
          ground (arith, good, found, h, at),
          ground (arith, good, found, h),
          (let e : up ≡ shifted = ground (arith, good, found, h) in
              rw (sym e) (at_level keysyms i p symbol up both.0 both.1 same)),
        )
  ]
]

plan_chars-TypesAll :
    (min_keycode : ℕ) (keysyms text : List ℕ) (plan : List (ℕ × Bool))
    → plan_chars min_keycode keysyms text ≡ ok plan
    → TypesAll min_keycode keysyms text plan
unfolding plan_chars
plan_chars-TypesAll min_keycode keysyms [] [] h = tt
plan_chars-TypesAll min_keycode keysyms [] (k ∷ ks) h = cc
plan_chars-TypesAll min_keycode keysyms (c ∷ cs) plan h =
    both (plan_char min_keycode keysyms c) (plan_chars min_keycode keysyms cs) plan h
      (plan_char-Types min_keycode keysyms c) (λ ks. plan_chars-TypesAll min_keycode keysyms cs ks)
  where
    both :
        (first : Fallible (ℕ × Bool)) (rest : Fallible (List (ℕ × Bool))) (plan : List (ℕ × Bool))
        → prepend_plan first rest ≡ ok plan
        → ((k : ℕ × Bool) → first ≡ ok k → Types min_keycode keysyms c k)
        → ((ks : List (ℕ × Bool)) → rest ≡ ok ks → TypesAll min_keycode keysyms cs ks)
        → TypesAll min_keycode keysyms (c ∷ cs) plan
    both (ok k) (ok ks) plan h p q =
        let same : k ∷ ks ≡ plan = ground (arith, h) in
        subst (TypesAll min_keycode keysyms (c ∷ cs)) same (p k refl, q ks refl)
    both (ok k) (err e) plan h p q = absurd (ground (arith, h))
    both (err e) rest plan h p q = absurd (ground (arith, h))

-- A plan has one key for each character, in order, whose symbol at the level of the plan is the
-- character's.
pub text_plan-TypesAll :
    (text : List ℕ) (min_keycode : ℕ) (keysyms : List ℕ) (plan : List (ℕ × Bool))
    → text_plan text min_keycode keysyms ≡ ok plan
    → TypesAll min_keycode keysyms text plan
unfolding text_plan
text_plan-TypesAll text min_keycode keysyms plan h =
    plan_chars-TypesAll min_keycode keysyms text plan (ground (arith, h))
