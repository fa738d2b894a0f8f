-- ===== src/Capture/Screenshot.antt =====
-- `capture_next` of X11Backend (device/capture/src/x11.rs).
use donkeywork_desktop.Base.{
  ℕ, ◌+◌, min, Bool, false, not, ◌&&◌, none, some, List, ok, err, ok_or, ◌==◌, if◌then◌else◌, find,
}
use donkeywork_desktop.Base.Actions.{pure, lift, gets, modify, ensure, ◌>>=◌, ◌>>◌}
use donkeywork_desktop.Capture.Types.{
  Display, Topology, NativeFrame, Fallible, unsupported, not_found, stale_topology, capture_failed,
}
use donkeywork_desktop.Capture.Server.{Server, Method, ask, read_clock, Setup}
use donkeywork_desktop.Capture.Topology.{
  are_displays, is_i16, check_deadline, simple_transform, refresh_topology,
}
use donkeywork_desktop.Capture.Image.{PixelFormat, rgba_len, x11_to_rgba, is_bad_packing}

-- How the server packs the pixels of the root window.
unfoldable pub packing_of : Setup → Fallible PixelFormat
packing_of setup = elim (find (λ v. v.visual_id == setup.screen.root_visual) setup.screen.visuals) [
  | none ↦ err unsupported
  | some visual ↦
      if not visual.is_true_color
      then err unsupported
      else elim (find (λ f. f.depth == setup.screen.root_depth) setup.pixmap_formats) [
        | none ↦ err unsupported
        | some format ↦
            let packing : PixelFormat = record {
              bits_per_pixel = format.bits_per_pixel;
              scanline_pad = format.scanline_pad;
              little_endian = setup.is_lsb_first;
              red = visual.red_mask;
              green = visual.green_mask;
              blue = visual.blue_mask;
            } in
            if is_bad_packing packing then err unsupported else ok packing
      ]
]

abbrev pub is_topology : Topology → Topology → Bool
is_topology a b = a.revision == b.revision && are_displays a.displays b.displays

module _ {X : Type 0} ⦃K : Server X⦄ where
  -- From the reading of the capture's time on, until the topology is read again.
  unfoldable pub read_image : Display → PixelFormat → ℕ → Method X (ℕ × List ℕ)
  read_image display packing deadline = do
    captured_at ← read_clock
    check_deadline deadline
    ensure (is_i16 display.x && is_i16 display.y) unsupported
    reply ← ask (K.get_image display.x display.y display.width display.height)
    s ← gets (λ s. s)
    ensure (reply.depth == s.setup.screen.root_depth && reply.visual == s.setup.screen.root_visual)
        capture_failed
    rgba ← lift (x11_to_rgba reply.bytes display.width display.height packing s.limits)
    pure (captured_at, rgba)

  -- The checks of the output before the capture.
  unfoldable pub check_shown : ℕ → Method X (Unit {0})
  check_shown display_id = do
    timestamp ← gets (λ s. s.config_timestamp)
    info ← ask (K.output_info display_id timestamp)
    ensure (info.is_success && not (info.crtc == 0)) stale_topology
    simple ← simple_transform info.crtc
    ensure simple unsupported

  -- What follows the capture.
  unfoldable pub finish_capture : Topology → Display → ℕ → ℕ × List ℕ → Method X NativeFrame
  finish_capture topology display deadline (captured_at, rgba) = do
    after ← refresh_topology
    ensure (is_topology topology after) stale_topology
    check_deadline deadline
    pure (record {
      display_id = display.id;
      topology_revision = topology.revision;
      captured_at = captured_at;
      width = display.width;
      height = display.height;
      cursor_embedded = false;
      rgba = rgba;
    })

  unfoldable pub capture_shown : Topology → Display → ℕ → Method X NativeFrame
  capture_shown topology display deadline = do
    s ← gets (λ s. s)
    size ← lift (rgba_len display.width display.height s.limits)
    check_shown display.id
    packing ← lift (packing_of s.setup)
    image ← read_image display packing deadline
    finish_capture topology display deadline image

  unfoldable pub capture_next : ℕ → Bool → ℕ → Method X NativeFrame
  capture_next display_id include_cursor deadline = do
    ensure (not include_cursor) unsupported
    check_deadline deadline
    now ← read_clock
    modify (λ s. record s { world = K.arm (min deadline (now + 5000)) s.world })
    topology ← refresh_topology
    display ← lift (ok_or (find (λ d. d.id == display_id) topology.displays) not_found)
    capture_shown topology display deadline
