-- ===== src/Console/StartCodes.antt =====
-- The search for a start code, against its plain description (device/console/src/lib.rs).
use donkeywork_desktop.Base.{
  ℕ, ◌≡◌, refl, sym, ap, ◌∙◌, Bool, true, false, ◌||◌, List, [], ◌∷◌, ◌++◌, arith, ◌↔◌, inl, inr,
  ◌⊎◌,
}
use mathlib.Core.List.{append_assoc}
use donkeywork_desktop.Console.Records.{starts_with, any_window, contains_annex_b_start_code}

-- The bytes stand somewhere in the list.
abbrev pub Occurs : List ℕ → List ℕ → Type 0
Occurs bytes xs = (before : List ℕ) × (after : List ℕ) × (xs ≡ before ++ (bytes ++ after))

starts_with-true :
    (bytes xs : List ℕ) → starts_with bytes xs ≡ true → (after : List ℕ) × (xs ≡ bytes ++ after)
unfolding starts_with
starts_with-true [] xs h = (xs, refl)
starts_with-true (b ∷ bytes) [] h = cc
starts_with-true (b ∷ bytes) (x ∷ xs) h =
    let same : b ≡ x = ground (arith, h) in
    let rest : starts_with bytes xs ≡ true = ground (arith, h) in
    let (after, e) = starts_with-true bytes xs rest in
    (after, ap (λ c. c ∷ xs) (sym same) ∙ ap (λ ys. b ∷ ys) e)

starts_with-append : (bytes after : List ℕ) → starts_with bytes (bytes ++ after) ≡ true
unfolding starts_with
starts_with-append [] after = refl
starts_with-append (b ∷ bytes) after = ground (arith, starts_with-append bytes after)

or-true : (a b : Bool) → (a || b) ≡ true → (a ≡ true) ⊎ (b ≡ true)
or-true true b h = inl refl
or-true false b h = inr h

any_window-Occurs : (bytes xs : List ℕ) → any_window bytes xs ≡ true → Occurs bytes xs
unfolding any_window
any_window-Occurs bytes [] h = cc
any_window-Occurs bytes (x ∷ xs) h =
    elim (or-true (starts_with bytes (x ∷ xs)) (any_window bytes xs) h) [
      | inl here ↦ let (after, e) = starts_with-true bytes (x ∷ xs) here in ([], after, e)
      | inr there ↦
          let (before, after, e) = any_window-Occurs bytes xs there in
          (x ∷ before, after, ap (λ ys. x ∷ ys) e)
    ]

any_window-append :
    (b : ℕ) (bytes before after : List ℕ)
    → any_window (b ∷ bytes) (before ++ ((b ∷ bytes) ++ after)) ≡ true
unfolding any_window
any_window-append b bytes [] after = ground (arith, starts_with-append (b ∷ bytes) after)
any_window-append b bytes (x ∷ before) after =
    ground (arith, any_window-append b bytes before after)

-- The search finds a start code exactly if the bytes 0, 0, 1 stand somewhere in the data: the form
-- with one more zero adds nothing.
pub contains_annex_b_start_code_iff :
    (xs : List ℕ) → contains_annex_b_start_code xs ≡ true ↔ Occurs (0 ∷ 0 ∷ 1 ∷ []) xs
unfolding contains_annex_b_start_code
contains_annex_b_start_code_iff xs = (find_code, has_code)
  where
    find_code : contains_annex_b_start_code xs ≡ true → Occurs (0 ∷ 0 ∷ 1 ∷ []) xs
    find_code h =
        elim (or-true (any_window (0 ∷ 0 ∷ 0 ∷ 1 ∷ []) xs) (any_window (0 ∷ 0 ∷ 1 ∷ []) xs) h) [
          | inl long ↦
              let (before, after, e) = any_window-Occurs (0 ∷ 0 ∷ 0 ∷ 1 ∷ []) xs long in
              (
                before ++ (0 ∷ []),
                after,
                e ∙ sym (append_assoc before (0 ∷ []) (0 ∷ 0 ∷ 1 ∷ after)),
              )
          | inr short ↦ any_window-Occurs (0 ∷ 0 ∷ 1 ∷ []) xs short
        ]

    has_code : Occurs (0 ∷ 0 ∷ 1 ∷ []) xs → contains_annex_b_start_code xs ≡ true
    has_code (before, after, e) =
        let found = any_window-append 0 (0 ∷ 1 ∷ []) before after in
        let here : any_window (0 ∷ 0 ∷ 1 ∷ []) xs ≡ true =
          ap (any_window (0 ∷ 0 ∷ 1 ∷ [])) e ∙ found in
        ground (arith, here)
