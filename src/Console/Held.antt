-- ===== src/Console/Held.antt =====
-- What is held down on the virtual devices (device/console/src/input_device.rs).
use donkeywork_desktop.Base.{
  ℕ, ◌≡◌, refl, ◌∙◌, Bool, false, not, ◌&&◌, ◌||◌, Option, none, some, List, [], ◌∷◌, Result, ok,
  err, ◌==◌, arith,
}
use donkeywork_desktop.Base.Sets.{contains, contains-remove, contains-insert}
use donkeywork_desktop.Console.Owner.{Refusal, is_err}
use donkeywork_desktop.Console.Devices.{
  Emit, Tracked, InputDevice, set_code, key, hid_key, lift_all, reset, after_lift, outcome,
}

module _ {S : Type 0} (emit : Emit S) where
  set_code-contains :
      (code : ℕ) (down : Bool) (t : Tracked S)
      → contains code (set_code emit code down t).0.codes
        ≡ (down || is_err (set_code emit code down t).1)
  unfolding set_code
  set_code-contains code down t =
      ground (arith, contains-remove code code t.codes, contains-insert code code t.codes)

  -- After a key event with a supported usage the code is tracked as held exactly if the event was
  -- a press or the device refused the release: a press stays tracked even where it failed, and a
  -- release is forgotten only once it was written.
  pub key-contains :
      (hid code : ℕ) (down : Bool) (d : InputDevice S)
      → hid_key hid ≡ some code
      → contains code (key emit hid down d).0.keyboard.codes
        ≡ (down || is_err (key emit hid down d).1)
  unfolding key
  key-contains hid code down d h = rw (h, key) (set_code-contains code down d.keyboard)

  after_lift_lem :
      (c code : ℕ) (t : Tracked S) (error : Option Refusal) (r : S × Result Refusal (Unit {0}))
      → (after_lift emit code t error r).1 ≡ none
      → (error ≡ none)
        × (contains c (after_lift emit code t error r).0.codes
            ≡ (contains c t.codes && not (c == code)))
  after_lift_lem c code t error (f, ok u) h = (h, contains-remove c code t.codes)
  after_lift_lem c code t none (f, err x) h = ground arith
  after_lift_lem c code t (some e) (f, err x) h = ground arith

  lift_all_lem :
      (c : ℕ) (codes : List ℕ) (t : Tracked S) (error : Option Refusal)
      → (lift_all emit codes (t, error)).1 ≡ none
      → (error ≡ none)
        × (contains c (lift_all emit codes (t, error)).0.codes
            ≡ (contains c t.codes && not (contains c codes)))
  unfolding lift_all contains
  lift_all_lem c [] t error h = ground arith
  lift_all_lem c (code ∷ codes) t error h =
      let next = after_lift emit code t error (emit ((1, code, 0) ∷ []) t.file) in
      let rest = lift_all_lem c codes next.0 next.1 h in
      let first = after_lift_lem c code t error (emit ((1, code, 0) ∷ []) t.file) rest.0 in
      (first.0, rest.1 ∙ ground (arith, first.1))

  outcome-none : (error : Option Refusal) → is_err (outcome emit error) ≡ false → error ≡ none
  outcome-none none h = refl
  outcome-none (some e) h = ground arith

  -- A reset that succeeds leaves nothing tracked as held, on the keyboard and the pointer.
  pub reset-contains :
      (c : ℕ) (d : InputDevice S)
      → is_err (reset emit d).1 ≡ false
      → (contains c (reset emit d).0.keyboard.codes ≡ false)
        × (contains c (reset emit d).0.pointer.codes ≡ false)
  unfolding reset
  reset-contains c d h =
      let keys = lift_all emit d.keyboard.codes (d.keyboard, none) in
      let last = outcome-none (lift_all emit d.pointer.codes (d.pointer, keys.1)).1 h in
      let pointer = lift_all_lem c d.pointer.codes d.pointer keys.1 last in
      let keyboard = lift_all_lem c d.keyboard.codes d.keyboard none pointer.0 in
      (keyboard.1 ∙ ground arith, pointer.1 ∙ ground arith)
