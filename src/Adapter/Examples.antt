-- ===== src/Adapter/Examples.antt =====
-- Runs of the adapter against the small X server.
use donkeywork_desktop.Base.{◌≡◌, refl, true, false, [], ◌∷◌, ok}
use donkeywork_desktop.Core.Types as Worker
use donkeywork_desktop.Capture.Sample.{World, small_server, watching, converted}
use donkeywork_desktop.Capture.Topology.{
  refresh_topology, drain_events, examine_outputs, examine_output, examine_crtc, simple_transform,
  available_modes, sort_displays, insert_display, restrict_resize, record_displays, is_int, is_only,
  are_displays, is_display, are_resolutions, is_bool, checked_display, check_deadline,
  read_topology,
}
use donkeywork_desktop.Capture.Image.{
  rgba_len, x11_to_rgba, scale_channel, is_bad_mask, count_ones, trailing_zeros, stride_of,
  little_value, channel, convert_pixel, chunks_exact, convert_pixels, convert_row, convert_rows,
}
use donkeywork_desktop.Capture.Screenshot.{
  capture_next, capture_shown, check_shown, packing_of, read_image, finish_capture,
}
use donkeywork_desktop.Capture.Events.{release_all, release_held, release_keys, release_buttons}
use donkeywork_desktop.Capture.Transaction.{
  apply, confirm_applied, confirm, grow, screen_size, set_crtc, scaled, are_outputs, transact,
  try_apply,
}
use donkeywork_desktop.Capture.Resize.{
  resize, check_output, check_crtc, prepare, change_mode, others_active, find_mode,
  root_physical_dimensions,
}
use donkeywork_desktop.Adapter.Translation.{display, resolutions}
use donkeywork_desktop.Adapter.Methods.{
  X11Adapter, capture, resize_display, resize_result, applied_of, reason_none,
}
use donkeywork_desktop.Capture.Confirmed.{IsShown}
use donkeywork_desktop.Adapter.Contract.{IsAccepted, capture-IsAccepted, resize_display-Truthful}

abbrev adapter : X11Adapter World
adapter = record { inner = watching; resize_supported = true }

abbrev check : Worker.Guard → World → World × Worker.Fallible (Unit {0})
check guard world = (world, ok tt)

abbrev frame : Worker.Frame
frame = record {
  display_id = 1;
  topology_revision = 1;
  captured_at = 0;
  width = 2;
  height = 1;
  cursor_embedded = false;
  rgba = converted;
}

captures : (capture check 1 false 100 adapter).1 ≡ ok frame
unfolding capture capture_next capture_shown check_shown packing_of read_image finish_capture
    check_deadline checked_display refresh_topology drain_events examine_outputs examine_output
    examine_crtc simple_transform available_modes sort_displays insert_display restrict_resize
    record_displays is_int is_only are_displays is_display are_resolutions is_bool x11_to_rgba
    rgba_len is_bad_mask count_ones trailing_zeros stride_of little_value channel scale_channel
    convert_pixel chunks_exact convert_pixels convert_row convert_rows
captures = refl

capture-IsAccepted_example : IsAccepted 1 false (capture check 1 false 100 adapter).0.inner frame
capture-IsAccepted_example = capture-IsAccepted check 1 false 100 adapter frame captures

abbrev large : Worker.Resolution
large = record { width = 4; height = 2 }

abbrev guard : Worker.Guard
guard = record { deadline = 100; connection = 1 }

abbrev result : Worker.ResizeResult
result = record {
  display = record {
    display_id = 1;
    width = 4;
    height = 2;
    topology_revision = 2;
    cursor_embedded = false;
    can_resize = true;
    available_resolutions = record { width = 2; height = 1 } ∷ large ∷ [];
  };
  applied = true;
  reason = reason_none;
}

resizes : (resize_display check 1 1 large guard adapter).1 ≡ ok result
unfolding resize_display resize_result applied_of display resolutions resize check_output check_crtc
    prepare change_mode others_active find_mode root_physical_dimensions transact try_apply apply
    confirm_applied confirm grow screen_size set_crtc scaled are_outputs release_all release_held
    release_keys release_buttons check_deadline checked_display read_topology refresh_topology
    drain_events examine_outputs examine_output examine_crtc simple_transform available_modes
    sort_displays insert_display restrict_resize record_displays is_int is_only are_displays
    is_display are_resolutions is_bool
resizes = refl

resize_display-Truthful_example : IsShown World (record { width = 4; height = 2 })
resize_display-Truthful_example =
    resize_display-Truthful check 1 1 large guard adapter result resizes refl
