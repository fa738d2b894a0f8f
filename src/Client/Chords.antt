-- ===== src/Client/Chords.antt =====
-- A chord on a keyboard, and what is left of it (cli/src/main.rs, `Command::Key`).
use donkeywork_desktop.Base.{
  ℕ, ◌≡◌, refl, sym, ap, ◌∙◌, Bool, true, false, ◌||◌, Option, none, some, List, [], ◌∷◌, ◌++◌, ok,
  err, ◌==◌, if◌then◌else◌, arith,
}
use mathlib.Core.List.{append_assoc}
use donkeywork_desktop.Base.Sets.{contains}
use donkeywork_desktop.Wire.Messages.{invalid_argument}
use donkeywork_desktop.Client.Chord.{
  Modifier, usage_of, collect, reversed, KeyEvent, downs, ups, chord,
}

-- A keyboard that takes a key down only where it is up, and a key up only where it is the last that
-- went down: what is held, the last first.
abbrev pub type_keys : List KeyEvent → List ℕ → Option (List ℕ)
type_keys [] held = some held
type_keys ((u, true) ∷ events) held = if contains u held then none else type_keys events (u ∷ held)
type_keys ((u, false) ∷ events) [] = none
type_keys ((u, false) ∷ events) (h ∷ held) = if h == u then type_keys events held else none

reversed-append : (us : List ℕ) (u : ℕ) → reversed (us ++ (u ∷ [])) ≡ u ∷ reversed us
reversed-append [] u = refl
reversed-append (v ∷ us) u = ap (λ ws. ws ++ (v ∷ [])) (reversed-append us u)

downs-append : (us vs : List ℕ) → downs (us ++ vs) ≡ downs us ++ downs vs
downs-append [] vs = refl
downs-append (u ∷ us) vs = ap (λ es. (u, true) ∷ es) (downs-append us vs)

contains-append :
    (c : ℕ) (us vs : List ℕ) → contains c (us ++ vs) ≡ (contains c us || contains c vs)
unfolding contains
contains-append c [] vs = refl
contains-append c (u ∷ us) vs = ground (arith, contains-append c us vs)

contains-reversed : (c : ℕ) (us : List ℕ) → contains c (reversed us) ≡ contains c us
unfolding contains
contains-reversed c [] = refl
contains-reversed c (u ∷ us) =
    ground (arith, contains-append c (reversed us) (u ∷ []), contains-reversed c us)

-- Modifiers that go down from an empty keyboard, with the key still up.
record IsDown (usage : ℕ) (seen : List ℕ) : Type 0 where
  typed :
      (events : List KeyEvent)
      → type_keys (downs seen ++ events) [] ≡ type_keys events (reversed seen)
  up : contains usage seen ≡ false

IsDown-push :
    (usage u : ℕ) (seen : List ℕ)
    → IsDown usage seen
    → (contains u seen || (u == usage)) ≡ false
    → IsDown usage (seen ++ (u ∷ []))
unfolding contains
IsDown-push usage u seen d h = record {
  typed = λ events.
      let fresh : contains u (reversed seen) ≡ false =
        contains-reversed u seen ∙ ground (arith, h) in
      ap (λ es. type_keys (es ++ events) []) (downs-append seen (u ∷ []))
      ∙ ap (λ es. type_keys es []) (append_assoc (downs seen) ((u, true) ∷ []) events)
      ∙ d.typed ((u, true) ∷ events)
      ∙ ap (λ b. if b then none else type_keys events (u ∷ reversed seen)) fresh
      ∙ ap (type_keys events) (sym (reversed-append seen u));
  up = ground (arith, contains-append usage seen (u ∷ []), d.up, h);
}

collect-IsDown :
    (usage : ℕ) (ms : List Modifier) (seen usages : List ℕ)
    → IsDown usage seen
    → collect usage ms seen ≡ ok usages
    → IsDown usage usages
unfolding collect
collect-IsDown usage [] seen usages d h =
    let same : seen ≡ usages = ground (arith, h) in rw (sym same) d
collect-IsDown usage (m ∷ ms) seen usages d h =
    go (λ k. collect-IsDown usage ms (seen ++ (usage_of m ∷ [])) usages k)
      (contains (usage_of m) seen || (usage_of m == usage)) refl h
  where
    go :
        (IsDown usage (seen ++ (usage_of m ∷ []))
          → collect usage ms (seen ++ (usage_of m ∷ [])) ≡ ok usages
          → IsDown usage usages)
        → (b : Bool) → (contains (usage_of m) seen || (usage_of m == usage)) ≡ b
        → (if b then err invalid_argument else collect usage ms (seen ++ (usage_of m ∷ [])))
          ≡ ok usages
        → IsDown usage usages
    go ih true e k = absurd (ground (arith, k))
    go ih false e k = ih (IsDown-push usage (usage_of m) seen d e) k

type_keys-ups : (held : List ℕ) → type_keys (ups held) held ≡ some []
type_keys-ups [] = refl
type_keys-ups (h ∷ held) = ground (arith, type_keys-ups held)

-- A chord whose modifiers the client accepts, on a keyboard with nothing down: no key goes down
-- twice, every key goes up in the reverse order in which they went down, and in the end nothing is
-- down.
pub type_keys-chord :
    (usage : ℕ) (ms : List Modifier) (usages : List ℕ)
    → collect usage ms [] ≡ ok usages
    → type_keys (chord usages usage) [] ≡ some []
unfolding chord contains
type_keys-chord usage ms usages h =
    let d = collect-IsDown usage ms [] usages (record { typed = λ events. refl; up = refl }) h in
    let up : contains usage (reversed usages) ≡ false = contains-reversed usage usages ∙ d.up in
    let same : (usage == usage) ≡ true = ground arith in
    d.typed ((usage, true) ∷ (usage, false) ∷ ups (reversed usages))
    ∙ ap
        (λ b.
          if b
          then none
          else type_keys ((usage, false) ∷ ups (reversed usages)) (usage ∷ reversed usages))
        up
    ∙ ap (λ b. if b then type_keys (ups (reversed usages)) (reversed usages) else none) same
    ∙ type_keys-ups (reversed usages)
