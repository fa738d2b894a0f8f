-- ===== src/Capture/Resize.antt =====
-- `resize` of X11Backend: the checks, and then the transaction (device/capture/src/resize.rs).
use donkeywork_desktop.Base.{
  ℕ, ◌+◌, Bool, true, false, not, ◌&&◌, ◌||◌, Option, none, some, List, [], ◌∷◌, ok, err, ltb, ◌==◌,
  if◌then◌else◌, any, find,
}
use donkeywork_desktop.Base.Actions.{pure, lift, gets, modify, ensure, ◌>>=◌, ◌>>◌}
use donkeywork_desktop.Base.Int.{pos}
use donkeywork_desktop.Capture.Types.{
  Resolution, Display, Topology, rejected, ResizeOutcome, unsupported_mode, Fallible,
  stale_topology, unsupported,
}
use donkeywork_desktop.Capture.Server.{
  Server, X11Backend, Method, Call, ask, read_clock, arm_after, Mode, Resources, OutputInfo,
  CrtcInfo, Screen, Area,
}
use donkeywork_desktop.Capture.Topology.{
  is_int, is_only, is_resolution, is_rotate0, simple_transform, read_topology, checked_display,
}
use donkeywork_desktop.Capture.Events.{release_all}
use donkeywork_desktop.Capture.Transaction.{X11Transaction, transact, x11_transaction}

unfoldable pub root_physical_dimensions : Screen → ℕ → Area → Fallible (ℕ × ℕ)
root_physical_dimensions screen expected_root area =
    if not (screen.root == expected_root)
      || not (screen.width_in_pixels == area.width)
      || not (screen.height_in_pixels == area.height)
    then err stale_topology
    else if area.width == 0
        || area.height == 0
        || screen.width_in_millimeters == 0
        || screen.height_in_millimeters == 0
    then err unsupported
    else ok (screen.width_in_millimeters, screen.height_in_millimeters)

abbrev pub is_refused : Display → Resolution → Bool
is_refused display requested =
    not display.can_resize
    || not (any (λ m. is_resolution m requested) display.modes)
    || ltb 4096 requested.width
    || ltb 4096 requested.height

abbrev pub is_suitable : OutputInfo → Resolution → Mode → Bool
is_suitable info requested mode =
    any (λ id. id == mode.id) info.modes
    && mode.width == requested.width
    && mode.height == requested.height

unfoldable pub find_mode : OutputInfo → Resolution → List Mode → Option Mode
find_mode info requested modes = find (is_suitable info requested) modes

abbrev pub is_unplaced : CrtcInfo → ℕ → Bool
is_unplaced crtc output =
    not crtc.is_success
    || not (is_rotate0 crtc.rotation)
    || not (is_int crtc.x (pos 0))
    || not (is_int crtc.y (pos 0))
    || not (is_only output crtc.outputs)

abbrev pub begin :
    {X : Type 0}
    → OutputInfo
    → CrtcInfo
    → Area
    → ℕ × ℕ
    → Resolution
    → ℕ
    → ℕ
    → X11Backend X
    → X11Transaction X
begin info crtc area mm requested mode now s = record {
  backend = s;
  saved = record {
    crtc_id = info.crtc;
    crtc = crtc;
    width = area.width;
    height = area.height;
    mm_width = mm.0;
    mm_height = mm.1;
  };
  target = requested;
  mode = mode;
  deadline = now + 5000;
  mutated = false;
}

module _ {X : Type 0} ⦃K : Server X⦄ where
  abbrev pub reject : Topology → Method X ResizeOutcome
  reject topology = pure (record { status = rejected unsupported_mode; topology = topology })

  -- `return rejected(self.topology()?)`
  abbrev pub reject_now : Method X ResizeOutcome
  reject_now = do topology ← read_topology; reject topology

  -- Whether another CRTC shows something.
  unfoldable pub others_active : ℕ → ℕ → List ℕ → Method X Bool
  others_active crtc timestamp [] = pure false
  others_active crtc timestamp (other ∷ others) =
      let rest = others_active crtc timestamp others in
      if other == crtc then rest else do
        info ← ask (K.crtc_info other timestamp)
        (if not (info.mode == 0) then pure true else rest)

  module _ (guard : Call X (Unit {0})) where
    abbrev pub run_transaction : X11Transaction X → X11Backend X × Fallible ResizeOutcome
    run_transaction t = let (u, r) = transact (x11_transaction guard) t in (u.backend, r)

    -- The transaction, once every check has passed.
    unfoldable pub change_mode :
        OutputInfo → CrtcInfo → Area → ℕ × ℕ → Resolution → ℕ → Method X ResizeOutcome
    change_mode info crtc area mm requested mode = do
      arm_after 5000
      now ← read_clock
      λ s. run_transaction (begin info crtc area mm requested mode now s)

    -- From the choice of the mode on.
    unfoldable pub prepare :
        ℕ → ℕ → ℕ → OutputInfo → CrtcInfo → Resolution → Option Mode → Method X ResizeOutcome
    prepare deadline revision display_id info crtc requested none = reject_now
    prepare deadline revision display_id info crtc requested (some mode) = do
      screen ← ask (K.connect_until deadline)
      area ← ask K.geometry
      root ← gets (λ s. s.root)
      mm ← lift (root_physical_dimensions screen root area)
      display ← checked_display revision display_id
      ask guard
      release_all
      change_mode info crtc area mm requested mode.id

    -- From the CRTC on.
    unfoldable pub check_crtc :
        ℕ → ℕ → ℕ → Resources → OutputInfo → Resolution → Method X ResizeOutcome
    check_crtc deadline revision display_id resources info requested = do
      crtc ← ask (K.crtc_info info.crtc resources.config_timestamp)
      if is_unplaced crtc display_id then reject_now else do
        busy ← others_active info.crtc resources.config_timestamp resources.crtcs
        if busy then reject_now else do
          simple ← simple_transform info.crtc
          if not simple
              then reject_now
              else prepare deadline revision display_id info crtc requested
                  (find_mode info requested resources.modes)

    -- The id of a display is its output.
    unfoldable pub check_output : ℕ → ℕ → ℕ → Resolution → Method X ResizeOutcome
    check_output deadline revision display_id requested = do
      resources ← ask K.screen_resources
      info ← ask (K.output_info display_id resources.config_timestamp)
      ensure (info.is_success && not (info.crtc == 0)) stale_topology
      check_crtc deadline revision display_id resources info requested

    unfoldable pub resize : ℕ → ℕ → Resolution → Method X ResizeOutcome
    resize revision display_id requested = do
      now ← read_clock
      modify (λ s. record s { world = K.arm (now + 5000) s.world })
      ask guard
      display ← checked_display revision display_id
      topology ← gets (λ s. s.topology)
      if is_refused display requested
          then reject topology
          else check_output (now + 5000) revision display_id requested
