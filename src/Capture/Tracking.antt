-- ===== src/Capture/Tracking.antt =====
-- Every input method keeps track of what the server holds down (device/capture/src/x11.rs,
-- keyboard.rs).
use donkeywork_desktop.Base.{ℕ, Bool, true, false, Option, none, some, List, leb, is_empty}
use donkeywork_desktop.Base.Actions.{
  Keeps, pure-Keeps, lift-Keeps, gets-Keeps, ensure-Keeps, >>=-Keeps, each-Keeps,
}
use donkeywork_desktop.Base.Int.{pos}
use donkeywork_desktop.Capture.Types.{
  PointerAction, move, down, up, click, InputAction, pointer, key, text, unsupported,
  resource_exhausted,
}
use donkeywork_desktop.Capture.Server.{Server, Call}
use donkeywork_desktop.Capture.Topology.{checked_display, pointer_coordinates}
use donkeywork_desktop.Capture.Events.{before_input, check_context, key_event}
use donkeywork_desktop.Capture.Keyboard.{
  text_columns, text_plan, text_len, shift_event, type_key, type_text,
}
use donkeywork_desktop.Capture.Input.{
  button_code, press, lift_button, use_buttons, perform, inject_inner,
}
use donkeywork_desktop.Capture.Reads.{
  checked_display-Keeps, hid_keycode-Keeps, ensure_text_state-Keeps, shift_for-Keeps,
}
use donkeywork_desktop.Capture.Held.{
  Held, IsQuiet, Protocol, StillTracks, StillTracks-IsPreorder, ask-Keeps, reads, recording,
  press_key-Keeps, release_key-Keeps, press_button-Keeps, release_button-Keeps, motion-Keeps,
}

module _ {X : Type 0} ⦃K : Server X⦄ (H : Held X) (protocol : Protocol H) (c : ℕ)
    (guard : Call X (Unit {0})) (quiet : IsQuiet H guard) where
  display-Keeps : (revision id : ℕ) → Keeps (StillTracks H c) (checked_display revision id)
  display-Keeps = checked_display-Keeps (reads H protocol c) (recording H protocol c)

  check_context-Keeps : (context : Option (ℕ × ℕ)) → Keeps (StillTracks H c) (check_context context)
  check_context-Keeps none = pure-Keeps
  check_context-Keeps (some (revision, id)) =
      >>=-Keeps (display-Keeps revision id) λ display. pure-Keeps

  before_input-Keeps : Keeps (StillTracks H c) (before_input guard)
  unfolding before_input
  before_input-Keeps =
      >>=-Keeps gets-Keeps
        λ context. >>=-Keeps (check_context-Keeps context) λ _. ask-Keeps H protocol c guard quiet

  key_event-Keeps : (k : ℕ) (is_down : Bool) → Keeps (StillTracks H c) (key_event k is_down guard)
  unfolding key_event
  key_event-Keeps k true =
      >>=-Keeps before_input-Keeps λ _. press_key-Keeps H protocol c k (pos 0) (pos 0)
  key_event-Keeps k false =
      >>=-Keeps before_input-Keeps λ _. release_key-Keeps H protocol c k (pos 0) (pos 0)

  press-Keeps : (button : ℕ) → Keeps (StillTracks H c) (press guard button)
  unfolding press
  press-Keeps button =
      >>=-Keeps before_input-Keeps λ _. press_button-Keeps H protocol c button (pos 0) (pos 0)

  lift_button-Keeps : (button : ℕ) → Keeps (StillTracks H c) (lift_button guard button)
  unfolding lift_button
  lift_button-Keeps button =
      >>=-Keeps before_input-Keeps λ _. release_button-Keeps H protocol c button (pos 0) (pos 0)

  use_buttons-Keeps : (action : PointerAction) → Keeps (StillTracks H c) (use_buttons guard action)
  unfolding use_buttons
  use_buttons-Keeps move = pure-Keeps
  use_buttons-Keeps (down b) = press-Keeps (button_code b)
  use_buttons-Keeps (up b) = lift_button-Keeps (button_code b)
  use_buttons-Keeps (click b) =
      >>=-Keeps (press-Keeps (button_code b)) λ _. lift_button-Keeps (button_code b)

  shift_event-Keeps :
      (shift : Option ℕ) (shifted is_down : Bool)
      → Keeps (StillTracks H c) (shift_event shift shifted is_down guard)
  shift_event-Keeps shift false is_down = pure-Keeps
  shift_event-Keeps none true is_down = pure-Keeps
  shift_event-Keeps (some code) true is_down = key_event-Keeps code is_down

  type_key-Keeps :
      (shift : Option ℕ) (k : ℕ × Bool) → Keeps (StillTracks H c) (type_key shift guard k)
  unfolding type_key
  type_key-Keeps shift (k, shifted) = >>=-Keeps (ensure_text_state-Keeps (reads H protocol c)) λ _.
      >>=-Keeps (shift_event-Keeps shift shifted true) λ _.
        >>=-Keeps (key_event-Keeps k true)
          λ _. >>=-Keeps (key_event-Keeps k false) λ _. shift_event-Keeps shift shifted false

  type_text-Keeps : (chars : List ℕ) → Keeps (StillTracks H c) (type_text chars guard)
  unfolding type_text
  type_text-Keeps chars =
      >>=-Keeps (ensure-Keeps (leb (text_len chars) 16384) resource_exhausted) λ _.
        >>=-Keeps (gets-Keeps {f = λ s. s.held_keys}) λ held.
          >>=-Keeps (ensure-Keeps (is_empty held) unsupported) λ _.
            >>=-Keeps (ensure_text_state-Keeps (reads H protocol c)) λ _.
              >>=-Keeps ((reads H protocol c).keymap) λ map.
                >>=-Keeps (lift-Keeps {r = text_columns map}) λ keysyms.
                  >>=-Keeps (lift-Keeps {r = text_plan chars map.first_key_sym keysyms}) λ plan.
                    >>=-Keeps (shift_for-Keeps (reads H protocol c) plan)
                      λ shift. each-Keeps plan (type_key-Keeps shift)

  perform-Keeps :
      (revision id : ℕ) (action : InputAction)
      → Keeps (StillTracks H c) (perform guard revision id action)
  unfolding perform
  perform-Keeps revision id (pointer x y action) = >>=-Keeps (display-Keeps revision id) λ display.
      >>=-Keeps (lift-Keeps {r = pointer_coordinates display x y}) λ at.
        >>=-Keeps before_input-Keeps
          λ _. >>=-Keeps (motion-Keeps H protocol c at.0 at.1) λ _. use_buttons-Keeps action
  perform-Keeps revision id (key usage is_down) = >>=-Keeps (display-Keeps revision id) λ display.
      >>=-Keeps (hid_keycode-Keeps (reads H protocol c) usage)
        λ keycode. key_event-Keeps keycode is_down
  perform-Keeps revision id (text chars) =
      >>=-Keeps (display-Keeps revision id) λ display. type_text-Keeps chars

  pub inject_inner-Keeps :
      (revision id : ℕ) (action : InputAction)
      → Keeps (StillTracks H c) (inject_inner guard revision id action)
  unfolding inject_inner
  inject_inner-Keeps revision id action = >>=-Keeps gets-Keeps λ supported.
      >>=-Keeps (ensure-Keeps supported unsupported) λ _. perform-Keeps revision id action
