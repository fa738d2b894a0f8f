-- ===== src/Capture/Input.antt =====
-- `inject` of X11Backend and its match over the actions (device/capture/src/x11.rs).
use donkeywork_desktop.Base.{ℕ, none, some, ok, err}
use donkeywork_desktop.Base.Actions.{pure, lift, gets, modify, ensure, ◌>>=◌, ◌>>◌}
use donkeywork_desktop.Base.Int.{pos}
use donkeywork_desktop.Capture.Types.{
  Button, left, middle, right, wheel_up, wheel_down, wheel_left, wheel_right, PointerAction, move,
  down, up, click, InputAction, pointer, key, text, Fallible, unsupported,
}
use donkeywork_desktop.Capture.Server.{Server, X11Backend, Method, Call, arm_after}
use donkeywork_desktop.Capture.Topology.{checked_display, pointer_coordinates}
use donkeywork_desktop.Capture.Events.{
  button_press, button_release, motion_notify, hold_button, drop_button, fake, before_input,
  key_event, release_all,
}
use donkeywork_desktop.Capture.Keyboard.{hid_keycode, type_text}

unfoldable pub button_code : Button → ℕ
button_code left = 1
button_code middle = 2
button_code right = 3
button_code wheel_up = 4
button_code wheel_down = 5
button_code wheel_left = 6
button_code wheel_right = 7

module _ {X : Type 0} ⦃K : Server X⦄ (guard : Call X (Unit {0})) where
  unfoldable pub press : ℕ → Method X (Unit {0})
  press button = do before_input guard; hold_button button; fake button_press button (pos 0) (pos 0)

  unfoldable pub lift_button : ℕ → Method X (Unit {0})
  lift_button button = do
    before_input guard
    fake button_release button (pos 0) (pos 0)
    drop_button button

  unfoldable pub use_buttons : PointerAction → Method X (Unit {0})
  use_buttons move = pure tt
  use_buttons (down b) = press (button_code b)
  use_buttons (up b) = lift_button (button_code b)
  use_buttons (click b) = press (button_code b) >> lift_button (button_code b)

  unfoldable pub perform : ℕ → ℕ → InputAction → Method X (Unit {0})
  perform revision display_id (pointer x y action) = do
    display ← checked_display revision display_id
    (at_x, at_y) ← lift (pointer_coordinates display x y)
    before_input guard
    fake motion_notify 0 at_x at_y
    use_buttons action
  perform revision display_id (key usage is_down) = do
    display ← checked_display revision display_id
    keycode ← hid_keycode usage
    key_event keycode is_down guard
  perform revision display_id (text chars) = do
    display ← checked_display revision display_id
    type_text chars guard

  unfoldable pub inject_inner : ℕ → ℕ → InputAction → Method X (Unit {0})
  inject_inner revision display_id action = do
    supported ← gets (λ s. s.input_supported)
    ensure supported unsupported
    perform revision display_id action

  -- What follows `inject_inner`: after an error all that is held is released, and where that fails
  -- its error is the result.
  abbrev pub settle : Fallible (Unit {0}) → X11Backend X → X11Backend X × Fallible (Unit {0})
  settle (ok u) s = (s, ok u)
  settle (err e) s = (release_all >> lift (err e)) s

  unfoldable pub inject : ℕ → ℕ → InputAction → Method X (Unit {0})
  inject revision display_id action = do
    arm_after 5000
    modify (λ s. record s { input_context = some (revision, display_id) })
    λ s.
        let (t, result) = inject_inner revision display_id action s in
        settle result (record t { input_context = none })
