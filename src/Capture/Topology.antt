-- ===== src/Capture/Topology.antt =====
-- `refresh_topology`, `checked_display` and `simple_transform` of X11Backend, with
-- `check_deadline` and `pointer_coordinates` (device/capture/src/x11.rs).
use donkeywork_desktop.Base.{
  ℕ, zero, suc, ◌+◌, ◌/◌, ◌%◌, ◌^◌, Bool, true, false, not, ◌&&◌, ◌||◌, Option, none, some, List,
  [], ◌∷◌, ◌++◌, map, ok, err, ok_or, leb, ltb, ◌==◌, if◌then◌else◌, any, find, length,
}
use donkeywork_desktop.Base.Actions.{pure, raise, lift, gets, modify, ensure, ◌>>=◌, ◌>>◌}
use donkeywork_desktop.Base.Int.{ℤ, pos, negsuc, ◌+ℤ◌}
use donkeywork_desktop.Capture.Types.{
  Resolution, Display, Topology, Fallible, unsupported, invalid_argument, stale_topology, not_found,
  resource_exhausted, deadline_exceeded,
}
use donkeywork_desktop.Capture.Server.{
  Server, Method, ask, read_clock, arm_after, Mode, Resources, OutputInfo, Transform,
}

unfoldable pub is_int : ℤ → ℤ → Bool
is_int (pos a) (pos b) = a == b
is_int (negsuc a) (negsuc b) = a == b
is_int (pos a) (negsuc b) = false
is_int (negsuc a) (pos b) = false

abbrev pub is_resolution : Resolution → Resolution → Bool
is_resolution a b = a.width == b.width && a.height == b.height

unfoldable pub are_resolutions : List Resolution → List Resolution → Bool
are_resolutions [] [] = true
are_resolutions (a ∷ as') (b ∷ bs) = is_resolution a b && are_resolutions as' bs
are_resolutions (a ∷ as') [] = false
are_resolutions [] (b ∷ bs) = false

unfoldable pub is_bool : Bool → Bool → Bool
is_bool true b = b
is_bool false b = not b

-- `==` of displays and of their lists.
unfoldable pub is_display : Display → Display → Bool
is_display a b =
    a.id == b.id
    && is_int a.x b.x
    && is_int a.y b.y
    && a.width == b.width
    && a.height == b.height
    && is_bool a.primary b.primary
    && is_bool a.can_resize b.can_resize
    && are_resolutions a.modes b.modes

unfoldable pub are_displays : List Display → List Display → Bool
are_displays [] [] = true
are_displays (a ∷ as') (b ∷ bs) = is_display a b && are_displays as' bs
are_displays (a ∷ as') [] = false
are_displays [] (b ∷ bs) = false

-- The decimal digits of a number of 32 bits, which has 10 at most.
unfoldable pub digits : ℕ → ℕ → List ℕ
digits zero n = []
digits (suc fuel) n =
    let more = digits fuel (n / 10) in if ltb n 10 then n ∷ [] else more ++ (n % 10) ∷ []

-- The order of texts.
unfoldable pub comes_before : List ℕ → List ℕ → Bool
comes_before [] ys = true
comes_before (x ∷ xs) [] = false
comes_before (x ∷ xs) (y ∷ ys) = let rest = comes_before xs ys in ltb x y || (x == y && rest)

unfoldable pub insert_display : Display → List Display → List Display
insert_display d [] = d ∷ []
insert_display d (e ∷ es) =
    let rest = insert_display d es in
    if comes_before (digits 10 d.id) (digits 10 e.id) then d ∷ e ∷ es else e ∷ rest

-- `displays.sort_by(|a, b| a.id.cmp(&b.id))`
unfoldable pub sort_displays : List Display → List Display
sort_displays [] = []
sort_displays (d ∷ ds) = insert_display d (sort_displays ds)

abbrev pub is_rotate0 : ℕ → Bool
is_rotate0 r = r == 1

-- A rotation by 90 or 270 degrees, a set bit of weight 2 or 8.
abbrev pub is_sideways : ℕ → Bool
is_sideways r = r / 2 % 2 == 1 || r / 8 % 2 == 1

abbrev pub resolution_of : ℕ → Mode → Resolution
resolution_of rotation mode =
    if is_sideways rotation
    then record { width = mode.height; height = mode.width }
    else record { width = mode.width; height = mode.height }

-- `for mode in &resources.modes`
unfoldable pub available_modes : OutputInfo → ℕ → List Mode → List Resolution → List Resolution
available_modes info rotation [] found = found
available_modes info rotation (mode ∷ modes) found =
    let resolution = resolution_of rotation mode in
    available_modes info rotation modes (
      if any (λ i. i == mode.id) info.modes && not (any (is_resolution resolution) found)
      then found ++ resolution ∷ []
      else found)

unfoldable pub is_only : ℕ → List ℕ → Bool
is_only a [] = false
is_only a (b ∷ []) = b == a
is_only a (b ∷ c ∷ cs) = false

-- No display can be resized unless it is the only one.
unfoldable pub restrict_resize : List Display → List Display
restrict_resize ds =
    if length ds == 1 then ds else map {A = Display} (λ d. record d { can_resize = false }) ds

abbrev pub is_identity : Transform → Bool
is_identity t =
    t.matrix11 == 65536
    && t.matrix22 == 65536
    && t.matrix33 == 65536
    && t.matrix12 == 0
    && t.matrix13 == 0
    && t.matrix21 == 0
    && t.matrix23 == 0
    && t.matrix31 == 0
    && t.matrix32 == 0

abbrev pub prepend : Option Display → List Display → List Display
prepend none ds = ds
prepend (some d) ds = d ∷ ds

-- `i16::try_from`
abbrev pub is_i16 : ℤ → Bool
is_i16 (pos n) = ltb n 32768
is_i16 (negsuc n) = ltb n 32768

unfoldable pub pointer_coordinates : Display → ℕ → ℕ → Fallible (ℤ × ℤ)
pointer_coordinates display x y =
    if leb display.width x || leb display.height y
    then err invalid_argument
    else if not (is_i16 (display.x +ℤ pos x)) || not (is_i16 (display.y +ℤ pos y))
    then err unsupported
    else ok (display.x +ℤ pos x, display.y +ℤ pos y)

abbrev pub next_revision : ℕ → Fallible ℕ
next_revision revision =
    if ltb (revision + 1) (2 ^ 53) then ok (revision + 1) else err resource_exhausted

module _ {X : Type 0} ⦃K : Server X⦄ where
  unfoldable pub check_deadline : ℕ → Method X (Unit {0})
  check_deadline deadline = do now ← read_clock; ensure (ltb now deadline) deadline_exceeded

  unfoldable pub simple_transform : ℕ → Method X Bool
  simple_transform crtc = do
    randr13 ← gets (λ s. s.randr13)
    if not randr13 then pure true else do
      transform ← ask (K.crtc_transform crtc)
      panning ← ask (K.panning crtc)
      pure (is_identity transform && panning.width == 0 && panning.height == 0)

  -- The loop over pending events: an event too many is an error.
  unfoldable pub drain_events : ℕ → Bool → Method X Bool
  drain_events zero changed = do
    event ← ask K.poll_event
    elim event [ none ↦ pure changed | some is_randr ↦ raise resource_exhausted ]
  drain_events (suc left) changed = do
    event ← ask K.poll_event
    elim event [ none ↦ pure changed | some is_randr ↦ drain_events left (changed || is_randr) ]

  -- The rest of the loop body over the outputs, once the output has a CRTC.
  unfoldable pub examine_crtc : Resources → ℕ → ℕ → OutputInfo → Method X (Option Display)
  examine_crtc resources primary output info = do
    crtc ← ask (K.crtc_info info.crtc resources.config_timestamp)
    ensure crtc.is_success stale_topology
    if crtc.mode == 0 || crtc.width == 0 || crtc.height == 0 then pure none else do
      simple ←
          (if is_rotate0 crtc.rotation
              && is_int crtc.x (pos 0)
              && is_int crtc.y (pos 0)
              && is_only output crtc.outputs
            then simple_transform info.crtc
            else pure false)
      pure (
          some (record {
            id = output;
            x = crtc.x;
            y = crtc.y;
            width = crtc.width;
            height = crtc.height;
            primary = output == primary;
            can_resize = simple;
            modes = available_modes info crtc.rotation resources.modes [];
          }))

  -- The loop body over the outputs.
  unfoldable pub examine_output : Resources → ℕ → ℕ → Method X (Option Display)
  examine_output resources primary output = do
    info ← ask (K.output_info output resources.config_timestamp)
    ensure info.is_success stale_topology
    if not info.is_connected || info.crtc == 0
        then pure none
        else examine_crtc resources primary output info

  unfoldable pub examine_outputs : Resources → ℕ → List ℕ → Method X (List Display)
  examine_outputs resources primary [] = pure []
  examine_outputs resources primary (output ∷ outputs) = do
    first ← examine_output resources primary output
    rest ← examine_outputs resources primary outputs
    pure (prepend first rest)

  -- The end of `refresh_topology`: a new revision where anything changed, and the new displays.
  unfoldable pub record_displays : Bool → ℕ → List Display → Method X Topology
  record_displays changed timestamp displays = do
    before ← gets (λ s. s)
    revision ← lift (
        if changed
          || not (timestamp == before.config_timestamp)
          || not (are_displays displays before.topology.displays)
          || before.topology.revision == 0
        then next_revision before.topology.revision
        else ok before.topology.revision)
    let topology : Topology = record { revision = revision; displays = displays }
    modify (λ s. record s { topology = topology; config_timestamp = timestamp })
    pure topology

  unfoldable pub refresh_topology : Method X Topology
  refresh_topology = do
    changed ← drain_events 1024 false
    resources ← ask K.screen_resources
    randr13 ← gets (λ s. s.randr13)
    primary ← (if randr13 then ask K.output_primary else pure 0)
    found ← examine_outputs resources primary resources.outputs
    record_displays changed resources.config_timestamp (restrict_resize (sort_displays found))

  -- `X11Backend::topology`
  unfoldable pub read_topology : Method X Topology
  read_topology = do arm_after 5000; refresh_topology

  unfoldable pub checked_display : ℕ → ℕ → Method X Display
  checked_display revision id = do
    topology ← refresh_topology
    ensure (revision == topology.revision) stale_topology
    lift (ok_or (find (λ d. d.id == id) topology.displays) not_found)
