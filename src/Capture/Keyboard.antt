-- ===== src/Capture/Keyboard.antt =====
-- Keys and text (device/capture/src/keyboard.rs).
use donkeywork_desktop.Base.{
  get_elem?, ℕ, ◌+◌, ◌-◌, ◌*◌, ◌%◌, Bool, true, false, not, ◌&&◌, ◌||◌, Option, none, some, List,
  [], ◌∷◌, ok, err, ok_or, leb, ltb, ◌==◌, if◌then◌else◌, any, find, is_empty, length, take,
}
use donkeywork_desktop.Base.Actions.{pure, lift, gets, ensure, each, ◌>>=◌, ◌>>◌}
use donkeywork_desktop.Capture.Types.{Fallible, unsupported, resource_exhausted}
use donkeywork_desktop.Capture.Server.{
  Server, Method, Call, ask, KeyType, KeySymMap, KeyMap, KeyState,
}
use donkeywork_desktop.Capture.Events.{key_event}
use donkeywork_desktop.Capture.Usages.{hid_name}

abbrev pub is_name : List ℕ → List ℕ → Bool
is_name [] [] = true
is_name (x ∷ xs) (y ∷ ys) = x == y && is_name xs ys
is_name [] (y ∷ ys) = false
is_name (x ∷ xs) [] = false

abbrev later : Option ℕ → Option ℕ
later none = none
later (some i) = some (i + 1)

module _ {ℓ} {A : Type ℓ} where
  -- `Iterator::position`
  unfoldable pub position : (A → Bool) → List A → Option ℕ
  position p [] = none
  position p (x ∷ xs) = let rest = later (position p xs) in if p x then some 0 else rest

-- The level that a modifier state selects.
unfoldable pub level_of : KeyType → ℕ → ℕ
level_of kind active = elim (find (λ e. e.active && e.mods_mask == active) kind.map) [
  | none ↦ 0
  | some e ↦ e.level
]

-- The symbol of a key of a given type; `modifiers` is 0, or 1 for Shift. `&` with a mask of one
-- bit keeps that bit of the mask.
unfoldable pub symbol_of : KeySymMap → ℕ → KeyType → Option ℕ
symbol_of key modifiers kind =
    let level = level_of kind (modifiers * (kind.mods_mask % 2)) in
    if key.group_info % 16 == 0 || key.width == 0 || not (kind.mods_vmods == 0)
    then none
    else if leb kind.num_levels level || leb key.width level
    then none
    else get_elem? key.syms level

abbrev pub column : Option KeyType → KeySymMap → ℕ → ℕ
column none key modifiers = 0
column (some kind) key modifiers = elim (symbol_of key modifiers kind) [ none ↦ 0 | some s ↦ s ]

abbrev pub kind_of : ℕ → List KeyType → KeySymMap → Option KeyType
kind_of first_type types key =
    if ltb key.kt_index first_type then none else get_elem? types (key.kt_index - first_type)

-- Two columns for each key: the plain symbol and the one with Shift.
unfoldable pub resolve_columns : ℕ → List KeyType → List KeySymMap → List ℕ
resolve_columns first_type types [] = []
resolve_columns first_type types (key ∷ keys) =
    let kind = kind_of first_type types key in
    column kind key 0 ∷ column kind key 1 ∷ resolve_columns first_type types keys

unfoldable pub text_columns : KeyMap → Fallible (List ℕ)
text_columns map = elim map.types [
  | none ↦ err unsupported
  | some types ↦ elim map.keys [
    | none ↦ err unsupported
    | some keys ↦ ok (resolve_columns map.first_type types keys)
  ]
]

-- `char::is_control`
abbrev pub is_control : ℕ → Bool
is_control c = ltb c 32 || (leb 127 c && ltb c 160)

-- The keysym of a character.
unfoldable pub keysym_of : ℕ → Fallible ℕ
keysym_of c =
    if c == 10 || c == 13
    then ok 0xff0d
    else if c == 9
    then ok 0xff09
    else if is_control c
    then err unsupported
    else if leb c 255
    then ok c
    else ok (0x01000000 + c)

-- The search of a keysym among pairs of levels: the key's index and the level.
unfoldable pub find_key : ℕ → ℕ → List (ℕ × ℕ) → Option (ℕ × Bool)
find_key keysym index [] = none
find_key keysym index ((plain, shifted) ∷ rest) =
    let more = find_key keysym (index + 1) rest in
    if plain == keysym
    then some (index, false)
    else if shifted == keysym
    then some (index, true)
    else more

-- `keysyms.chunks_exact(2)`; the length is even.
unfoldable pub pairs_of : List ℕ → List (ℕ × ℕ)
pairs_of [] = []
pairs_of (a ∷ []) = []
pairs_of (a ∷ b ∷ rest) = (a, b) ∷ pairs_of rest

-- The closure of `text_plan` for one character.
unfoldable pub plan_char : ℕ → List ℕ → ℕ → Fallible (ℕ × Bool)
plan_char min_keycode keysyms c = elim (keysym_of c) [
  | err e ↦ err e
  | ok keysym ↦ elim (find_key keysym min_keycode (pairs_of keysyms)) [
    | none ↦ err unsupported
    | some (key, shifted) ↦ if ltb key 256 then ok (key, shifted) else err unsupported
  ]
]

abbrev pub prepend_plan :
    Fallible (ℕ × Bool) → Fallible (List (ℕ × Bool)) → Fallible (List (ℕ × Bool))
prepend_plan (err e) rest = err e
prepend_plan (ok k) (err e) = err e
prepend_plan (ok k) (ok ks) = ok (k ∷ ks)

-- `collect` over the characters: the first error is the result.
unfoldable pub plan_chars : ℕ → List ℕ → List ℕ → Fallible (List (ℕ × Bool))
plan_chars min_keycode keysyms [] = ok []
plan_chars min_keycode keysyms (c ∷ cs) =
    prepend_plan (plan_char min_keycode keysyms c) (plan_chars min_keycode keysyms cs)

-- `text_plan` at the two levels per key of its only caller.
unfoldable pub text_plan : List ℕ → ℕ → List ℕ → Fallible (List (ℕ × Bool))
text_plan text min_keycode keysyms =
    if not (length keysyms % 2 == 0) then err unsupported else plan_chars min_keycode keysyms text

-- The length of a character in UTF-8.
abbrev pub utf8_len : ℕ → ℕ
utf8_len c = if ltb c 128 then 1 else if ltb c 2048 then 2 else if ltb c 65536 then 3 else 4

unfoldable pub text_len : List ℕ → ℕ
text_len [] = 0
text_len (c ∷ cs) = utf8_len c + text_len cs

abbrev pub is_neutral : KeyState → Bool
is_neutral s =
    s.mods == 0
    && s.latched_mods == 0
    && s.locked_mods == 0
    && s.group == 0
    && s.base_group == 0
    && s.latched_group == 0

module _ {X : Type 0} ⦃K : Server X⦄ where
  unfoldable pub hid_keycode : ℕ → Method X ℕ
  hid_keycode usage = do
    name ← lift (ok_or (hid_name usage) unsupported)
    reply ← ask K.key_names
    names ← lift (ok_or reply.key_names unsupported)
    index ← lift (ok_or (position (is_name name) names) unsupported)
    ensure (ltb (reply.first_key + index) 256) unsupported
    pure (reply.first_key + index)

  unfoldable pub ensure_text_state : Method X (Unit {0})
  ensure_text_state = do state ← ask K.key_state; ensure (is_neutral state) unsupported

  -- The code of Shift, where the plan needs it.
  unfoldable pub shift_for : List (ℕ × Bool) → Method X (Option ℕ)
  shift_for plan =
      if any (λ k. k.1) plan
      then (do
        shift ← hid_keycode 0xe1
        modifiers ← ask K.modifier_mapping
        ensure (any (λ k. k == shift) (take modifiers.keycodes_per_modifier modifiers.keycodes))
            unsupported
        pure (some shift))
      else pure none

  -- `shift.expect("shift preflighted")`: the plan has no shifted key where there is none.
  abbrev pub shift_event : Option ℕ → Bool → Bool → Call X (Unit {0}) → Method X (Unit {0})
  shift_event shift false down guard = pure tt
  shift_event none true down guard = pure tt
  shift_event (some code) true down guard = key_event code down guard

  -- The loop body over the plan.
  unfoldable pub type_key : Option ℕ → Call X (Unit {0}) → ℕ × Bool → Method X (Unit {0})
  type_key shift guard (key, shifted) = do
    ensure_text_state
    shift_event shift shifted true guard
    key_event key true guard
    key_event key false guard
    shift_event shift shifted false guard

  unfoldable pub type_text : List ℕ → Call X (Unit {0}) → Method X (Unit {0})
  type_text text guard = do
    ensure (leb (text_len text) 16384) resource_exhausted
    held ← gets (λ s. s.held_keys)
    ensure (is_empty held) unsupported
    ensure_text_state
    map ← ask K.key_map
    keysyms ← lift (text_columns map)
    plan ← lift (text_plan text map.first_key_sym keysyms)
    shift ← shift_for plan
    each (type_key shift guard) plan
