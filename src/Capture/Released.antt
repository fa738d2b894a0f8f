-- ===== src/Capture/Released.antt =====
-- What `release_all` promises, and `inject` with it (device/capture/src/x11.rs).
use donkeywork_desktop.Base.{
  ℕ, ◌≡◌, refl, ap, ◌∙◌, true, false, not, ◌&&◌, Option, none, some, List, [], ◌∷◌, ok, err, ◌==◌,
  arith,
}
use donkeywork_desktop.Base.Actions.{Keeps, >>=-Keeps, lift-Keeps}
use donkeywork_desktop.Base.Int.{pos}
use donkeywork_desktop.Base.Sets.{contains, contains-remove}
use donkeywork_desktop.Capture.Types.{Fallible, ErrorKind, InputAction}
use donkeywork_desktop.Capture.Server.{Server, X11Backend, Call, arm_after}
use donkeywork_desktop.Capture.Events.{
  key_release, button_release, fake, after_key, after_button, release_keys, release_buttons,
  release_held, release_all, outcome,
}
use donkeywork_desktop.Capture.Input.{inject_inner, settle, inject}
use donkeywork_desktop.Capture.Held.{
  Held, IsQuiet, Protocol, StillTracks, StillTracks-IsPreorder, tracks, reads,
}
use donkeywork_desktop.Capture.Tracking.{inject_inner-Keeps}

outcome-eq_ok : (error : Option ErrorKind) → outcome error ≡ ok tt → error ≡ none
outcome-eq_ok none h = refl
outcome-eq_ok (some e) h = ground arith

module _ {X : Type 0} ⦃K : Server X⦄ (c : ℕ) where
  after_key_lem :
      (k : ℕ) (error : Option ErrorKind) (r : Fallible (Unit {0})) (s : X11Backend X)
      → (after_key k error r s).1 ≡ none
      → (error ≡ none)
        × (contains c (after_key k error r s).0.held_keys
            ≡ (contains c s.held_keys && not (c == k)))
        × ((after_key k error r s).0.held_buttons ≡ s.held_buttons)
  after_key_lem k error (ok u) s h = (h, contains-remove c k s.held_keys, refl)
  after_key_lem k none (err e) s h = ground arith
  after_key_lem k (some first) (err e) s h = ground arith

  after_button_lem :
      (k : ℕ) (error : Option ErrorKind) (r : Fallible (Unit {0})) (s : X11Backend X)
      → (after_button k error r s).1 ≡ none
      → (error ≡ none)
        × (contains c (after_button k error r s).0.held_buttons
            ≡ (contains c s.held_buttons && not (c == k)))
        × ((after_button k error r s).0.held_keys ≡ s.held_keys)
  after_button_lem k error (ok u) s h = (h, contains-remove c k s.held_buttons, refl)
  after_button_lem k none (err e) s h = ground arith
  after_button_lem k (some first) (err e) s h = ground arith

  -- A loop that ends without an error started without one, and has removed its codes.
  release_keys-contains :
      (keys : List ℕ) (s : X11Backend X) (error : Option ErrorKind)
      → (release_keys keys (s, error)).1 ≡ none
      → (error ≡ none)
        × (contains c (release_keys keys (s, error)).0.held_keys
            ≡ (contains c s.held_keys && not (contains c keys)))
        × ((release_keys keys (s, error)).0.held_buttons ≡ s.held_buttons)
  unfolding release_keys contains fake
  release_keys-contains [] s error h = ground arith
  release_keys-contains (key ∷ keys) s error h =
      let (t, r) = fake key_release key (pos 0) (pos 0) s in
      let next = after_key key error r t in
      let rest = release_keys-contains keys next.0 next.1 h in
      let first = after_key_lem key error r t rest.0 in
      (first.0, rest.1 ∙ ground (arith, first.1), rest.2 ∙ first.2)

  release_buttons-contains :
      (buttons : List ℕ) (s : X11Backend X) (error : Option ErrorKind)
      → (release_buttons buttons (s, error)).1 ≡ none
      → (error ≡ none)
        × (contains c (release_buttons buttons (s, error)).0.held_buttons
            ≡ (contains c s.held_buttons && not (contains c buttons)))
        × ((release_buttons buttons (s, error)).0.held_keys ≡ s.held_keys)
  unfolding release_buttons contains fake
  release_buttons-contains [] s error h = ground arith
  release_buttons-contains (button ∷ buttons) s error h =
      let (t, r) = fake button_release button (pos 0) (pos 0) s in
      let next = after_button button error r t in
      let rest = release_buttons-contains buttons next.0 next.1 h in
      let first = after_button_lem button error r t rest.0 in
      (first.0, rest.1 ∙ ground (arith, first.1), rest.2 ∙ first.2)

  -- Neither set contains the code once a release has succeeded.
  release_held-contains :
      (s : X11Backend X)
      → (release_held s).1 ≡ ok tt
      → (contains c (release_held s).0.held_keys ≡ false)
        × (contains c (release_held s).0.held_buttons ≡ false)
  unfolding release_held
  release_held-contains s h =
      let keys = release_keys s.held_keys (s, none) in
      let held = keys.0.held_buttons in
      let last = outcome-eq_ok (release_buttons held keys).1 h in
      let buttons = release_buttons-contains held keys.0 keys.1 last in
      let first = release_keys-contains s.held_keys s none buttons.0 in
      (ap (contains c) buttons.2 ∙ first.1 ∙ ground arith, buttons.1 ∙ ground arith)

module _ {X : Type 0} ⦃K : Server X⦄ (H : Held X) (protocol : Protocol H) (c : ℕ) where
  after_key-tracks :
      (k : ℕ) (error : Option ErrorKind) (s : X11Backend X)
      → let (t, r) = fake key_release k (pos 0) (pos 0) s in
        tracks H c s ≡ true → tracks H c (after_key k error r t).0 ≡ true
  unfolding fake
  after_key-tracks k error s h = ground (
    arith,
    protocol.faked_keys key_release k (pos 0) (pos 0) s.world c,
    protocol.faked_buttons key_release k (pos 0) (pos 0) s.world c,
    protocol.released_key k (pos 0) (pos 0) s.world,
    contains-remove c k s.held_keys,
  )

  after_button-tracks :
      (k : ℕ) (error : Option ErrorKind) (s : X11Backend X)
      → let (t, r) = fake button_release k (pos 0) (pos 0) s in
        tracks H c s ≡ true → tracks H c (after_button k error r t).0 ≡ true
  unfolding fake
  after_button-tracks k error s h = ground (
    arith,
    protocol.faked_keys button_release k (pos 0) (pos 0) s.world c,
    protocol.faked_buttons button_release k (pos 0) (pos 0) s.world c,
    protocol.released_button k (pos 0) (pos 0) s.world,
    contains-remove c k s.held_buttons,
  )

  release_keys-tracks :
      (keys : List ℕ) (s : X11Backend X) (error : Option ErrorKind)
      → tracks H c s ≡ true
      → tracks H c (release_keys keys (s, error)).0 ≡ true
  unfolding release_keys
  release_keys-tracks [] s error h = h
  release_keys-tracks (k ∷ keys) s error h =
      let (t, r) = fake key_release k (pos 0) (pos 0) s in
      let next = after_key k error r t in
      release_keys-tracks keys next.0 next.1 (after_key-tracks k error s h)

  release_buttons-tracks :
      (buttons : List ℕ) (s : X11Backend X) (error : Option ErrorKind)
      → tracks H c s ≡ true
      → tracks H c (release_buttons buttons (s, error)).0 ≡ true
  unfolding release_buttons
  release_buttons-tracks [] s error h = h
  release_buttons-tracks (k ∷ buttons) s error h =
      let (t, r) = fake button_release k (pos 0) (pos 0) s in
      let next = after_button k error r t in
      release_buttons-tracks buttons next.0 next.1 (after_button-tracks k error s h)

  release_held-Keeps : Keeps (StillTracks H c) release_held
  unfolding release_held
  release_held-Keeps = record {
    apply = λ s. record {
      kept = λ h.
          let keys = release_keys s.held_keys (s, none) in
          release_buttons-tracks keys.0.held_buttons keys.0 keys.1
            (release_keys-tracks s.held_keys s none h);
    };
  }

  pub release_all-Keeps : Keeps (StillTracks H c) release_all
  unfolding release_all
  release_all-Keeps = >>=-Keeps ((reads H protocol c).arming 2000) λ _. release_held-Keeps

  -- Over a server whose input events do what they say, a release of all that reports success leaves
  -- up every key and button that was tracked or up before.
  pub release_all_frees :
      (s : X11Backend X)
      → tracks H c s ≡ true
      → (release_all s).1 ≡ ok tt
      → (H.keys (release_all s).0.world c ≡ false) × (H.buttons (release_all s).0.world c ≡ false)
  unfolding release_all
  release_all_frees s h r =
      let t = (arm_after 2000 s).0 in
      ground (arith, release_held-contains c t r, (release_all-Keeps.apply s).kept h)

  module _ (guard : Call X (Unit {0})) (quiet : IsQuiet H guard) where
    settle-tracks :
        (r : Fallible (Unit {0})) (s : X11Backend X)
        → tracks H c s ≡ true
        → tracks H c (settle guard r s).0 ≡ true
    settle-tracks (ok u) s h = h
    settle-tracks (err e) s h =
        ((>>=-Keeps release_all-Keeps (λ _. lift-Keeps {r = err e})).apply s).kept h

    -- Over a server whose input events do what they say and a guard that holds nothing down, a key
    -- or button that was tracked or up before an injection is tracked or up after it, whether the
    -- injection succeeds or fails.
    pub inject-tracks :
        (revision id : ℕ) (action : InputAction) (s : X11Backend X)
        → tracks H c s ≡ true
        → tracks H c (inject guard revision id action s).0 ≡ true
    unfolding inject
    inject-tracks revision id action s h =
        let armed = (arm_after 5000 s).0 in
        let ready : X11Backend X = record armed { input_context = some (revision, id) } in
        let inner = inject_inner guard revision id action ready in
        let kept = (inject_inner-Keeps H protocol c guard quiet revision id action).apply ready in
        settle-tracks inner.1 (record inner.0 { input_context = none })
          (kept.kept ((((reads H protocol c).arming 5000).apply s).kept h))
