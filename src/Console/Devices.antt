-- ===== src/Console/Devices.antt =====
-- The virtual keyboard and pointer (device/console/src/input_device.rs): what is held down. A set
-- of codes is a list; the kernel's answer to a packet is a parameter.
use donkeywork_desktop.Base.{
  ℕ, Bool, true, false, not, ◌&&◌, Option, none, some, List, [], ◌∷◌, Result, ok, err, leb, ◌==◌,
  ◌+◌, ◌-◌, lookup, Assoc, if◌then◌else◌,
}
use donkeywork_desktop.Base.Sets.{contains, remove, insert}
use donkeywork_desktop.Console.Owner.{Refusal, Action}

-- `emit`: the kind, the code and the value of each event.
abbrev pub Emit : Type 0 → Type 0
Emit S = List (ℕ × ℕ × ℕ) → Action S

-- A device file with the codes that are held down on it.
pub record Tracked (S : Type 0) : Type 0 where
  pub file : S
  pub codes : List ℕ

pub record InputDevice (S : Type 0) : Type 0 where
  pub keyboard : Tracked S
  pub pointer : Tracked S
  pub width : ℕ
  pub height : ℕ

abbrev is_same : Bool → Bool → Bool
is_same true b = b
is_same false b = not b

abbrev letters : Assoc ℕ
letters =
    (4, 30)
    ∷ (5, 48)
    ∷ (6, 46)
    ∷ (7, 32)
    ∷ (8, 18)
    ∷ (9, 33)
    ∷ (10, 34)
    ∷ (11, 35)
    ∷ (12, 23)
    ∷ (13, 36)
    ∷ (14, 37)
    ∷ (15, 38)
    ∷ (16, 50)
    ∷ (17, 49)
    ∷ (18, 24)
    ∷ (19, 25)
    ∷ (20, 16)
    ∷ (21, 19)
    ∷ (22, 31)
    ∷ (23, 20)
    ∷ (24, 22)
    ∷ (25, 47)
    ∷ (26, 17)
    ∷ (27, 45)
    ∷ (28, 21)
    ∷ (29, 44)
    ∷ []

-- The arms of `hid_key` for one usage.
abbrev usages : Assoc ℕ
usages =
    (39, 11)
    ∷ (40, 28)
    ∷ (41, 1)
    ∷ (42, 14)
    ∷ (43, 15)
    ∷ (44, 57)
    ∷ (45, 12)
    ∷ (46, 13)
    ∷ (47, 26)
    ∷ (48, 27)
    ∷ (49, 43)
    ∷ (50, 43)
    ∷ (51, 39)
    ∷ (52, 40)
    ∷ (53, 41)
    ∷ (54, 51)
    ∷ (55, 52)
    ∷ (56, 53)
    ∷ (57, 58)
    ∷ (68, 87)
    ∷ (69, 88)
    ∷ (71, 70)
    ∷ (72, 119)
    ∷ (73, 110)
    ∷ (74, 102)
    ∷ (75, 104)
    ∷ (76, 111)
    ∷ (77, 107)
    ∷ (78, 109)
    ∷ (79, 106)
    ∷ (80, 105)
    ∷ (81, 108)
    ∷ (82, 103)
    ∷ (83, 69)
    ∷ (84, 98)
    ∷ (85, 55)
    ∷ (86, 74)
    ∷ (87, 78)
    ∷ (88, 96)
    ∷ (89, 79)
    ∷ (90, 80)
    ∷ (91, 81)
    ∷ (92, 75)
    ∷ (93, 76)
    ∷ (94, 77)
    ∷ (95, 71)
    ∷ (96, 72)
    ∷ (97, 73)
    ∷ (98, 82)
    ∷ (99, 83)
    ∷ (100, 86)
    ∷ (101, 127)
    ∷ (103, 117)
    ∷ (224, 29)
    ∷ (225, 42)
    ∷ (226, 56)
    ∷ (227, 125)
    ∷ (228, 97)
    ∷ (229, 54)
    ∷ (230, 100)
    ∷ (231, 126)
    ∷ []

unfoldable pub hid_key : ℕ → Option ℕ
hid_key hid =
    if leb 4 hid && leb hid 29
    then lookup hid letters
    else if leb 30 hid && leb hid 38
    then some (hid - 28)
    else if leb 58 hid && leb hid 67
    then some (hid + 1)
    else lookup hid usages

unfoldable pub button_code : ℕ → Option ℕ
button_code number =
    if number == 1
    then some 272
    else if number == 2
    then some 273
    else if number == 3
    then some 274
    else none

module _ {S : Type 0} (emit : Emit S) where
  abbrev after_emit :
      ℕ → Bool → List ℕ → S × Result Refusal (Unit {0}) → Tracked S × Result Refusal (Unit {0})
  after_emit code down codes (f, err e) = (record { file = f; codes = codes }, err e)
  after_emit code down codes (f, ok u) =
      (record { file = f; codes = if down then codes else remove code codes }, ok u)

  -- The common part of `key` and `button`.
  unfoldable pub set_code : ℕ → Bool → Tracked S → Tracked S × Result Refusal (Unit {0})
  set_code code down t =
      if is_same (contains code t.codes) down
      then (t, ok _)
      else after_emit code down (if down then insert code t.codes else t.codes)
          (emit ((1, code, if down then 1 else 0) ∷ []) t.file)

  unfoldable pub key : ℕ → Bool → InputDevice S → InputDevice S × Result Refusal (Unit {0})
  key hid down d = elim (hid_key hid) [
    | none ↦ (d, err Refusal.invalid)
    | some code ↦ (
      record d { keyboard = (set_code code down d.keyboard).0 },
      (set_code code down d.keyboard).1,
    )
  ]

  unfoldable pub button : ℕ → Bool → InputDevice S → InputDevice S × Result Refusal (Unit {0})
  button number down d = elim (button_code number) [
    | none ↦ (d, err Refusal.invalid)
    | some code ↦
        (record d { pointer = (set_code code down d.pointer).0 }, (set_code code down d.pointer).1)
  ]

  abbrev pub after_lift :
      ℕ → Tracked S → Option Refusal → S × Result Refusal (Unit {0}) → Tracked S × Option Refusal
  after_lift code t error (f, ok u) = (record { file = f; codes = remove code t.codes }, error)
  after_lift code t none (f, err e) = (record t { file = f }, some e)
  after_lift code t (some first) (f, err e) = (record t { file = f }, some first)

  -- A loop of `reset`: the first error is kept.
  unfoldable pub lift_all : List ℕ → Tracked S × Option Refusal → Tracked S × Option Refusal
  lift_all [] (t, error) = (t, error)
  lift_all (code ∷ codes) (t, error) =
      lift_all codes (after_lift code t error (emit ((1, code, 0) ∷ []) t.file))

  abbrev pub outcome : Option Refusal → Result Refusal (Unit {0})
  outcome none = ok _
  outcome (some e) = err e

  unfoldable pub reset : InputDevice S → InputDevice S × Result Refusal (Unit {0})
  reset d =
      let keys = lift_all d.keyboard.codes (d.keyboard, none) in
      let buttons = lift_all d.pointer.codes (d.pointer, keys.1) in
      (record d { keyboard = keys.0; pointer = buttons.0 }, outcome buttons.1)
