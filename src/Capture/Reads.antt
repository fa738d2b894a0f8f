-- ===== src/Capture/Reads.antt =====
-- What the calls that only read from the server keep, the methods built of them keep
-- (device/capture/src/x11.rs, keyboard.rs).
use donkeywork_desktop.Base.{
  ℕ, zero, suc, Bool, true, false, not, ◌||◌, Option, none, some, List, [], ◌∷◌, ok_or,
  if◌then◌else◌,
}
use donkeywork_desktop.Base.Actions.{
  Act, Keeps, IsPreorder, pure-Keeps, lift-Keeps, raise-Keeps, gets-Keeps, ensure-Keeps, >>=-Keeps,
}
use donkeywork_desktop.Capture.Types.{Display, unsupported, stale_topology}
use donkeywork_desktop.Capture.Server.{
  Server, X11Backend, ask, read_clock, arm_after, Resources, OutputInfo,
}
use donkeywork_desktop.Capture.Topology.{
  simple_transform, drain_events, examine_crtc, examine_output, examine_outputs, record_displays,
  refresh_topology, read_topology, checked_display,
}
use donkeywork_desktop.Capture.Keyboard.{
  hid_keycode, ensure_text_state, shift_for, position, is_name,
}

module _ {S E A : Type 0} {R : S → S → Type 0} where
  pub if-Keeps : (b : Bool) {m n : Act S E A} → Keeps R m → Keeps R n → Keeps R (if b then m else n)
  if-Keeps true h k = h
  if-Keeps false h k = k

  pub Option-Keeps :
      {C : Type 0} (o : Option C) {m : Act S E A} {f : C → Act S E A}
      → Keeps R m
      → ((c : C) → Keeps R (f c))
      → Keeps R (elim o as (λ _. Act S E A) [ none ↦ m | some c ↦ f c ])
  Option-Keeps none h k = h
  Option-Keeps (some c) h k = k c

pub record ReadsKeep {X : Type 0} ⦃K : Server X⦄ (R : X11Backend X → X11Backend X → Type 0)
    : Type 0 where
  pub clock : Keeps R read_clock
  pub arming : (after : ℕ) → Keeps R (arm_after after)
  pub polling : Keeps R (ask K.poll_event)
  pub resources : Keeps R (ask K.screen_resources)
  pub primary : Keeps R (ask K.output_primary)
  pub output : (id timestamp : ℕ) → Keeps R (ask (K.output_info id timestamp))
  pub crtc : (id timestamp : ℕ) → Keeps R (ask (K.crtc_info id timestamp))
  pub transform : (id : ℕ) → Keeps R (ask (K.crtc_transform id))
  pub panning : (id : ℕ) → Keeps R (ask (K.panning id))
  pub names : Keeps R (ask K.key_names)
  pub state : Keeps R (ask K.key_state)
  pub keymap : Keeps R (ask K.key_map)
  pub modifiers : Keeps R (ask K.modifier_mapping)

module _ {X : Type 0} ⦃K : Server X⦄ {R : X11Backend X → X11Backend X → Type 0} ⦃P : IsPreorder R⦄
    (reads : ReadsKeep R) where
  pub simple_transform-Keeps : (crtc : ℕ) → Keeps R (simple_transform crtc)
  unfolding simple_transform
  simple_transform-Keeps crtc = >>=-Keeps gets-Keeps λ r.
      if-Keeps (not r) pure-Keeps
        (>>=-Keeps (reads.transform crtc) λ t. >>=-Keeps (reads.panning crtc) λ p. pure-Keeps)

  drain_events-Keeps : (left : ℕ) (changed : Bool) → Keeps R (drain_events left changed)
  unfolding drain_events
  drain_events-Keeps zero changed =
      >>=-Keeps reads.polling λ e. Option-Keeps e pure-Keeps (λ _. raise-Keeps)
  drain_events-Keeps (suc left) changed =
      >>=-Keeps reads.polling
        λ e. Option-Keeps e pure-Keeps (λ r. drain_events-Keeps left (changed || r))

  examine_crtc-Keeps :
      (resources : Resources) (primary output : ℕ) (info : OutputInfo)
      → Keeps R (examine_crtc resources primary output info)
  unfolding examine_crtc
  examine_crtc-Keeps resources primary output info = >>=-Keeps (reads.crtc _ _) λ crtc.
      >>=-Keeps (ensure-Keeps crtc.is_success stale_topology) λ _.
        if-Keeps _ pure-Keeps (
          >>=-Keeps (if-Keeps _ (simple_transform-Keeps info.crtc) pure-Keeps) λ simple. pure-Keeps)

  examine_output-Keeps :
      (resources : Resources) (primary output : ℕ)
      → Keeps R (examine_output resources primary output)
  unfolding examine_output
  examine_output-Keeps resources primary output = >>=-Keeps (reads.output _ _) λ info.
      >>=-Keeps (ensure-Keeps info.is_success stale_topology)
        λ _. if-Keeps _ pure-Keeps (examine_crtc-Keeps resources primary output info)

  examine_outputs-Keeps :
      (resources : Resources) (primary : ℕ) (outputs : List ℕ)
      → Keeps R (examine_outputs resources primary outputs)
  unfolding examine_outputs
  examine_outputs-Keeps resources primary [] = pure-Keeps
  examine_outputs-Keeps resources primary (output ∷ outputs) =
      >>=-Keeps (examine_output-Keeps resources primary output)
        λ first. >>=-Keeps (examine_outputs-Keeps resources primary outputs) λ rest. pure-Keeps

  pub hid_keycode-Keeps : (usage : ℕ) → Keeps R (hid_keycode usage)
  unfolding hid_keycode
  hid_keycode-Keeps usage = >>=-Keeps lift-Keeps λ name. >>=-Keeps reads.names λ reply.
      >>=-Keeps (lift-Keeps {r = ok_or reply.key_names unsupported}) λ names.
        >>=-Keeps (lift-Keeps {r = ok_or (position (is_name name) names) unsupported})
          λ index. >>=-Keeps (ensure-Keeps _ unsupported) λ _. pure-Keeps

  pub ensure_text_state-Keeps : Keeps R ensure_text_state
  unfolding ensure_text_state
  ensure_text_state-Keeps = >>=-Keeps reads.state λ state. ensure-Keeps _ unsupported

  pub shift_for-Keeps : (plan : List (ℕ × Bool)) → Keeps R (shift_for plan)
  unfolding shift_for
  shift_for-Keeps plan =
      if-Keeps _
        (>>=-Keeps (hid_keycode-Keeps 0xe1) λ shift.
          >>=-Keeps reads.modifiers
            λ modifiers. >>=-Keeps (ensure-Keeps _ unsupported) λ _. pure-Keeps)
        pure-Keeps

  -- With a premise on the recording of the displays, the only write of `refresh_topology`.
  module _
      (recording : (changed : Bool) (timestamp : ℕ) (displays : List Display)
        → Keeps R (record_displays changed timestamp displays)) where
    pub refresh_topology-Keeps : Keeps R refresh_topology
    unfolding refresh_topology
    refresh_topology-Keeps = >>=-Keeps (drain_events-Keeps 1024 false) λ changed.
        >>=-Keeps reads.resources λ resources. >>=-Keeps gets-Keeps λ randr13.
          >>=-Keeps (if-Keeps randr13 reads.primary pure-Keeps) λ primary.
            >>=-Keeps (examine_outputs-Keeps resources primary resources.outputs)
              λ found. recording changed resources.config_timestamp _

    pub read_topology-Keeps : Keeps R read_topology
    unfolding read_topology
    read_topology-Keeps = >>=-Keeps (reads.arming 5000) λ _. refresh_topology-Keeps

    pub checked_display-Keeps : (revision id : ℕ) → Keeps R (checked_display revision id)
    unfolding checked_display
    checked_display-Keeps revision id =
        >>=-Keeps refresh_topology-Keeps
          λ topology. >>=-Keeps (ensure-Keeps _ stale_topology) λ _. lift-Keeps
