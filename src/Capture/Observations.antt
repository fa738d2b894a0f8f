-- ===== src/Capture/Observations.antt =====
-- Runs of the capture crate that look at the small X server, and that change its mode.
use donkeywork_desktop.Base.{
  ℕ, ◌*◌, ◌≤◌, ◌<◌, ◌≡◌, refl, Bool, true, false, List, [], ◌∷◌, ok, length,
}
use donkeywork_desktop.Capture.Types.{NativeFrame}
use donkeywork_desktop.Capture.Topology.{
  refresh_topology, drain_events, examine_outputs, examine_output, examine_crtc, simple_transform,
  available_modes, sort_displays, insert_display, restrict_resize, record_displays, is_int, is_only,
  are_displays, is_display, are_resolutions, is_bool, checked_display, check_deadline,
}
use donkeywork_desktop.Capture.Sample.{
  small_server, idle, small_display, shown, watching, converted,
}
use donkeywork_desktop.Capture.Revisions.{some_resizable, refresh_topology_lem}
use donkeywork_desktop.Capture.Image.{
  rgba_len, max_bytes, PixelFormat, Encoding, encode_png, x11_to_rgba, write_all, write,
  scale_channel, is_bad_mask, count_ones, trailing_zeros, stride_of, little_value, channel,
  convert_pixel, chunks_exact, convert_pixels, convert_row, convert_rows,
}
use donkeywork_desktop.Capture.Encoding.{encode_png_lem, joined}
use donkeywork_desktop.Capture.Screenshot.{
  capture_next, capture_shown, check_shown, packing_of, read_image, finish_capture,
}
use donkeywork_desktop.Capture.Frames.{IsFrameOf, capture_next-IsFrameOf}

refreshed : (refresh_topology idle).1 ≡ ok shown
unfolding refresh_topology drain_events examine_outputs examine_output examine_crtc simple_transform
    available_modes sort_displays insert_display restrict_resize record_displays is_int is_only
    are_displays
refreshed = refl

refresh_topology_lem_example :
    (shown ≡ (refresh_topology idle).0.topology)
    × (0 < shown.revision)
    × (idle.topology.revision ≤ shown.revision)
    × (idle.topology.revision ≡ shown.revision → idle.topology.displays ≡ shown.displays)
    × (some_resizable shown.displays ≡ true → length shown.displays ≡ 1)
refresh_topology_lem_example = refresh_topology_lem idle shown refreshed

chosen : (checked_display 1 1 watching).1 ≡ ok small_display
unfolding checked_display refresh_topology drain_events examine_outputs examine_output examine_crtc
    simple_transform available_modes sort_displays insert_display restrict_resize record_displays
    is_int is_only are_displays is_display are_resolutions is_bool
chosen = refl

abbrev true_color : PixelFormat
true_color = record {
  bits_per_pixel = 32;
  scanline_pad = 32;
  little_endian = true;
  red = 0xff0000;
  green = 0xff00;
  blue = 0xff;
}

abbrev pixels : List ℕ
pixels = 0 ∷ 0 ∷ 255 ∷ 0 ∷ 1 ∷ 2 ∷ 3 ∷ 0 ∷ []

converts : x11_to_rgba pixels 2 1 true_color idle.limits ≡ ok converted
unfolding x11_to_rgba rgba_len is_bad_mask count_ones trailing_zeros stride_of little_value channel
    scale_channel convert_pixel chunks_exact convert_pixels convert_row convert_rows
converts = refl

abbrev two_writes : NativeFrame → Encoding
two_writes f = record { writes = (137 ∷ 80 ∷ []) ∷ f.rgba ∷ []; succeeds = true }

abbrev frame : NativeFrame
frame = record {
  display_id = 1;
  topology_revision = 1;
  captured_at = 0;
  width = 2;
  height = 1;
  cursor_embedded = false;
  rgba = converted;
}

abbrev png : List ℕ
png = 137 ∷ 80 ∷ converted

encodes : encode_png two_writes frame idle.limits ≡ ok png
unfolding encode_png rgba_len write_all write
encodes = refl

encode_png_lem_example :
    (png ≡ joined (two_writes frame).writes)
    × (length png ≤ 67108864)
    × (length png ≤ max_bytes)
    × (length converted ≡ 2 * 1 * 4)
encode_png_lem_example = encode_png_lem two_writes frame idle.limits png encodes

captures : (capture_next 1 false 100 watching).1 ≡ ok frame
unfolding capture_next capture_shown check_shown packing_of read_image finish_capture check_deadline
    checked_display refresh_topology drain_events examine_outputs examine_output examine_crtc
    simple_transform available_modes sort_displays insert_display restrict_resize record_displays
    is_int is_only are_displays is_display are_resolutions is_bool x11_to_rgba rgba_len is_bad_mask
    count_ones trailing_zeros stride_of little_value channel scale_channel convert_pixel
    chunks_exact convert_pixels convert_row convert_rows
captures = refl

capture_next-IsFrameOf_example :
    IsFrameOf 1 frame (capture_next 1 false 100 watching).0 × ◌≡◌ {A = Bool} false false
capture_next-IsFrameOf_example = capture_next-IsFrameOf 100 1 false watching frame captures
