-- ===== src/Capture/Events.antt =====
-- One input event at a time, and the release of all that is held: `before_input`, `fake`,
-- `key_event` and `release_all` of X11Backend (device/capture/src/x11.rs).
use donkeywork_desktop.Base.{ℕ, Bool, Option, none, some, List, [], ◌∷◌, ok, err, if◌then◌else◌}
use donkeywork_desktop.Base.Actions.{pure, gets, modify, ◌>>=◌, ◌>>◌}
use donkeywork_desktop.Base.Int.{ℤ, pos}
use donkeywork_desktop.Base.Sets.{insert, remove}
use donkeywork_desktop.Capture.Types.{ErrorKind, Fallible}
use donkeywork_desktop.Capture.Server.{Server, X11Backend, Method, Call, ask, arm_after}
use donkeywork_desktop.Capture.Topology.{checked_display}

-- The event codes of the X protocol.
abbrev pub key_press : ℕ
key_press = 2

abbrev pub key_release : ℕ
key_release = 3

abbrev pub button_press : ℕ
button_press = 4

abbrev pub button_release : ℕ
button_release = 5

abbrev pub motion_notify : ℕ
motion_notify = 6

abbrev pub keep_first : Option ErrorKind → ErrorKind → Option ErrorKind
keep_first none e = some e
keep_first (some first) e = some first

abbrev pub outcome : Option ErrorKind → Fallible (Unit {0})
outcome none = ok tt
outcome (some e) = err e

module _ {X : Type 0} ⦃K : Server X⦄ where
  abbrev pub hold_key : ℕ → Method X (Unit {0})
  hold_key key = modify (λ s. record s { held_keys = insert key s.held_keys })

  abbrev pub drop_key : ℕ → Method X (Unit {0})
  drop_key key = modify (λ s. record s { held_keys = remove key s.held_keys })

  abbrev pub hold_button : ℕ → Method X (Unit {0})
  hold_button button = modify (λ s. record s { held_buttons = insert button s.held_buttons })

  abbrev pub drop_button : ℕ → Method X (Unit {0})
  drop_button button = modify (λ s. record s { held_buttons = remove button s.held_buttons })

  unfoldable pub fake : ℕ → ℕ → ℤ → ℤ → Method X (Unit {0})
  fake event detail x y = ask (K.fake_input event detail x y)

  abbrev pub check_context : Option (ℕ × ℕ) → Method X (Unit {0})
  check_context none = pure tt
  check_context (some (revision, id)) = do display ← checked_display revision id; pure tt

  -- `guard` is the check of the caller's `ActionGuard`.
  unfoldable pub before_input : Call X (Unit {0}) → Method X (Unit {0})
  before_input guard = do context ← gets (λ s. s.input_context); check_context context; ask guard

  unfoldable pub key_event : ℕ → Bool → Call X (Unit {0}) → Method X (Unit {0})
  key_event key down guard = do
    before_input guard
    (if down then hold_key key else pure tt)
    fake (if down then key_press else key_release) key (pos 0) (pos 0)
    (if down then pure tt else drop_key key)

  abbrev pub after_key :
      ℕ → Option ErrorKind → Fallible (Unit {0}) → X11Backend X → X11Backend X × Option ErrorKind
  after_key key error (ok u) s = (record s { held_keys = remove key s.held_keys }, error)
  after_key key error (err e) s = (s, keep_first error e)

  -- `for key in self.held_keys.clone()`: the first error is kept.
  unfoldable pub release_keys :
      List ℕ → X11Backend X × Option ErrorKind → X11Backend X × Option ErrorKind
  release_keys [] (s, error) = (s, error)
  release_keys (key ∷ keys) (s, error) =
      let (t, r) = fake key_release key (pos 0) (pos 0) s in
      release_keys keys (after_key key error r t)

  abbrev pub after_button :
      ℕ → Option ErrorKind → Fallible (Unit {0}) → X11Backend X → X11Backend X × Option ErrorKind
  after_button button error (ok u) s =
      (record s { held_buttons = remove button s.held_buttons }, error)
  after_button button error (err e) s = (s, keep_first error e)

  -- `for button in self.held_buttons.clone()`
  unfoldable pub release_buttons :
      List ℕ → X11Backend X × Option ErrorKind → X11Backend X × Option ErrorKind
  release_buttons [] (s, error) = (s, error)
  release_buttons (button ∷ buttons) (s, error) =
      let (t, r) = fake button_release button (pos 0) (pos 0) s in
      release_buttons buttons (after_button button error r t)

  unfoldable pub release_held : Method X (Unit {0})
  release_held s =
      let keys = release_keys s.held_keys (s, none) in
      let buttons = release_buttons keys.0.held_buttons keys in (buttons.0, outcome buttons.1)

  unfoldable pub release_all : Method X (Unit {0})
  release_all = do arm_after 2000; release_held
