-- ===== src/Client/Chord.antt =====
-- The events of a key with modifiers (cli/src/main.rs, `Modifier`, `Command::Key`).
use donkeywork_desktop.Base.{
  ℕ, Bool, true, false, ◌||◌, List, [], ◌∷◌, ◌++◌, Result, ok, err, ◌==◌, if◌then◌else◌,
}
use donkeywork_desktop.Base.Sets.{contains}
use donkeywork_desktop.Wire.Messages.{Failure, invalid_argument}

pub data Modifier : Type 0 where
  ctrl alt shift super : Modifier

abbrev pub usage_of : Modifier → ℕ
usage_of ctrl = 224
usage_of shift = 225
usage_of alt = 226
usage_of super = 227

-- The loop over the modifiers: no modifier twice, and none that is the key itself.
unfoldable pub collect : ℕ → List Modifier → List ℕ → Result Failure (List ℕ)
collect usage [] seen = ok seen
collect usage (m ∷ ms) seen =
    let rest = collect usage ms (seen ++ (usage_of m ∷ [])) in
    if contains (usage_of m) seen || (usage_of m == usage) then err invalid_argument else rest

-- `iter().rev()`
abbrev pub reversed : List ℕ → List ℕ
reversed [] = []
reversed (u ∷ us) = reversed us ++ (u ∷ [])

-- A key, and whether it goes down.
abbrev pub KeyEvent : Type 0
KeyEvent = ℕ × Bool

abbrev pub downs : List ℕ → List KeyEvent
downs [] = []
downs (u ∷ us) = (u, true) ∷ downs us

abbrev pub ups : List ℕ → List KeyEvent
ups [] = []
ups (u ∷ us) = (u, false) ∷ ups us

-- The modifiers down, the key down and up, and the modifiers up in reverse.
unfoldable pub chord : List ℕ → ℕ → List KeyEvent
chord modifiers usage =
    downs modifiers ++ ((usage, true) ∷ (usage, false) ∷ ups (reversed modifiers))
