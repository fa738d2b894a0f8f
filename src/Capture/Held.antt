-- ===== src/Capture/Held.antt =====
-- What the server holds down, as far as the input methods decide it (device/capture/src/x11.rs).
use donkeywork_desktop.Base.{ℕ, ◌≡◌, Bool, true, false, not, ◌&&◌, ◌||◌, List, ok, ◌==◌, arith, ◌+◌}
use donkeywork_desktop.Base.Actions.{pure, ◌>>◌, Keeps, IsPreorder}
use donkeywork_desktop.Base.Int.{ℤ}
use donkeywork_desktop.Base.Sets.{contains, contains-insert, contains-remove}
use donkeywork_desktop.Capture.Types.{Display}
use donkeywork_desktop.Capture.Server.{Server, X11Backend, Call, ask, read_clock, arm_after}
use donkeywork_desktop.Capture.Topology.{record_displays}
use donkeywork_desktop.Capture.Events.{
  key_press, key_release, button_press, button_release, fake, hold_key, drop_key, hold_button,
  drop_button, motion_notify,
}
use donkeywork_desktop.Capture.Reads.{ReadsKeep}

-- Which keys and buttons the server holds down, as a function of the world.
pub record Held (X : Type 0) : Type 0 where
  pub keys : X → ℕ → Bool
  pub buttons : X → ℕ → Bool

-- A call that presses and releases nothing.
abbrev pub IsQuiet : {X A : Type 0} → Held X → (X → X × A) → Type 0
IsQuiet {X} H f =
    (x : X) (c : ℕ) → (H.keys (f x).0 c ≡ H.keys x c) × (H.buttons (f x).0 c ≡ H.buttons x c)

-- What XTEST and the X protocol promise: only an input event changes what is held down. A press
-- can add its own key or button, also where its reply fails; a release that succeeds removes it.
pub record Protocol {X : Type 0} ⦃K : Server X⦄ (H : Held X) : Type 0 where
  pub clock : IsQuiet H K.now
  pub arming :
      (t c : ℕ) (x : X)
      → (H.keys (K.arm t x) c ≡ H.keys x c) × (H.buttons (K.arm t x) c ≡ H.buttons x c)
  pub polling : IsQuiet H K.poll_event
  pub resources : IsQuiet H K.screen_resources
  pub primary : IsQuiet H K.output_primary
  pub output : (id timestamp : ℕ) → IsQuiet H (K.output_info id timestamp)
  pub crtc : (id timestamp : ℕ) → IsQuiet H (K.crtc_info id timestamp)
  pub transform : (id : ℕ) → IsQuiet H (K.crtc_transform id)
  pub panning : (id : ℕ) → IsQuiet H (K.panning id)
  pub names : IsQuiet H K.key_names
  pub state : IsQuiet H K.key_state
  pub keymap : IsQuiet H K.key_map
  pub modifiers : IsQuiet H K.modifier_mapping
  pub faked_keys :
      (event detail : ℕ) (x y : ℤ) (w : X) (c : ℕ)
      → H.keys (K.fake_input event detail x y w).0 c ≡ true
      → (H.keys w c || (event == key_press && detail == c)) ≡ true
  pub faked_buttons :
      (event detail : ℕ) (x y : ℤ) (w : X) (c : ℕ)
      → H.buttons (K.fake_input event detail x y w).0 c ≡ true
      → (H.buttons w c || (event == button_press && detail == c)) ≡ true
  pub released_key :
      (detail : ℕ) (x y : ℤ) (w : X)
      → (K.fake_input key_release detail x y w).1 ≡ ok tt
      → H.keys (K.fake_input key_release detail x y w).0 detail ≡ false
  pub released_button :
      (detail : ℕ) (x y : ℤ) (w : X)
      → (K.fake_input button_release detail x y w).1 ≡ ok tt
      → H.buttons (K.fake_input button_release detail x y w).0 detail ≡ false

-- The backend tracks the code, if the server holds it down.
abbrev pub tracks : {X : Type 0} → Held X → ℕ → X11Backend X → Bool
tracks H c s =
    (not (H.keys s.world c) || contains c s.held_keys)
    && (not (H.buttons s.world c) || contains c s.held_buttons)

pub record StillTracks {X : Type 0} (H : Held X) (c : ℕ) (s t : X11Backend X) : Type 0 where
  pub kept : tracks H c s ≡ true → tracks H c t ≡ true

instance abbrev pub StillTracks-IsPreorder :
    {X : Type 0} {H : Held X} {c : ℕ} → IsPreorder (StillTracks H c)
StillTracks-IsPreorder = record {
  reflexive = λ s. record { kept = λ h. h };
  transitive = λ s t u f g. record { kept = λ h. g.kept (f.kept h) };
}

module _ {X : Type 0} ⦃K : Server X⦄ (H : Held X) (protocol : Protocol H) (c : ℕ) where
  pub ask-Keeps : {A : Type 0} (f : Call X A) → IsQuiet H f → Keeps (StillTracks H c) (ask f)
  ask-Keeps f quiet = record { apply = λ s. ground (arith, quiet s.world c) }

  clock-Keeps : Keeps (StillTracks H c) read_clock
  clock-Keeps = record { apply = λ s. ground (arith, protocol.clock s.world c) }

  arming-Keeps : (after : ℕ) → Keeps (StillTracks H c) (arm_after after)
  arming-Keeps after = record {
    apply = λ s. ground (
      arith,
      protocol.clock s.world c,
      protocol.arming ((K.now s.world).1 + after) c (K.now s.world).0,
    );
  }

  pub reads : ReadsKeep (StillTracks H c)
  reads = record {
    clock = clock-Keeps;
    arming = arming-Keeps;
    polling = ask-Keeps K.poll_event protocol.polling;
    resources = ask-Keeps K.screen_resources protocol.resources;
    primary = ask-Keeps K.output_primary protocol.primary;
    output = λ id t. ask-Keeps (K.output_info id t) (protocol.output id t);
    crtc = λ id t. ask-Keeps (K.crtc_info id t) (protocol.crtc id t);
    transform = λ id. ask-Keeps (K.crtc_transform id) (protocol.transform id);
    panning = λ id. ask-Keeps (K.panning id) (protocol.panning id);
    names = ask-Keeps K.key_names protocol.names;
    state = ask-Keeps K.key_state protocol.state;
    keymap = ask-Keeps K.key_map protocol.keymap;
    modifiers = ask-Keeps K.modifier_mapping protocol.modifiers;
  }

  pub recording :
      (changed : Bool) (timestamp : ℕ) (displays : List Display)
      → Keeps (StillTracks H c) (record_displays changed timestamp displays)
  unfolding record_displays
  recording changed timestamp displays = record { apply = λ s. ground arith }

  pub press_key-Keeps :
      (key : ℕ) (x y : ℤ)
      → Keeps (StillTracks H c) (hold_key key >> (fake key_press key x y >> pure tt))
  unfolding fake
  press_key-Keeps key x y = record {
    apply = λ s. ground (
      arith,
      protocol.faked_keys key_press key x y s.world c,
      protocol.faked_buttons key_press key x y s.world c,
      contains-insert c key s.held_keys,
    );
  }

  pub release_key-Keeps :
      (key : ℕ) (x y : ℤ) → Keeps (StillTracks H c) (fake key_release key x y >> drop_key key)
  unfolding fake
  release_key-Keeps key x y = record {
    apply = λ s. ground (
      arith,
      protocol.faked_keys key_release key x y s.world c,
      protocol.faked_buttons key_release key x y s.world c,
      protocol.released_key key x y s.world,
      contains-remove c key s.held_keys,
    );
  }

  pub press_button-Keeps :
      (button : ℕ) (x y : ℤ)
      → Keeps (StillTracks H c) (hold_button button >> fake button_press button x y)
  unfolding fake
  press_button-Keeps button x y = record {
    apply = λ s. ground (
      arith,
      protocol.faked_keys button_press button x y s.world c,
      protocol.faked_buttons button_press button x y s.world c,
      contains-insert c button s.held_buttons,
    );
  }

  pub release_button-Keeps :
      (button : ℕ) (x y : ℤ)
      → Keeps (StillTracks H c) (fake button_release button x y >> drop_button button)
  unfolding fake
  release_button-Keeps button x y = record {
    apply = λ s. ground (
      arith,
      protocol.faked_keys button_release button x y s.world c,
      protocol.faked_buttons button_release button x y s.world c,
      protocol.released_button button x y s.world,
      contains-remove c button s.held_buttons,
    );
  }

  pub motion-Keeps : (x y : ℤ) → Keeps (StillTracks H c) (fake motion_notify 0 x y)
  unfolding fake
  motion-Keeps x y = record {
    apply = λ s. ground (
      arith,
      protocol.faked_keys motion_notify 0 x y s.world c,
      protocol.faked_buttons motion_notify 0 x y s.world c,
    );
  }
