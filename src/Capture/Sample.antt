-- ===== src/Capture/Sample.antt =====
-- A small X server: one output with one CRTC, a mode of 2 by 1 pixels and one of 4 by 2.
use donkeywork_desktop.Base.{ℕ, true, none, some, List, [], ◌∷◌, ok, ◌==◌, if◌then◌else◌}
use donkeywork_desktop.Base.Int.{pos}
use donkeywork_desktop.Base.Sets.{insert, remove}
use donkeywork_desktop.Capture.Types.{Display, Topology}
use donkeywork_desktop.Capture.Server.{Mode, CrtcInfo, Screen, Call, Server, X11Backend}

pub record World : Type 0 where
  pub keys : List ℕ
  pub buttons : List ℕ
  pub mode : ℕ
  pub width : ℕ
  pub height : ℕ

abbrev pub answer : {A : Type 0} → A → Call World A
answer a w = (w, ok a)

abbrev pub mode_small : Mode
mode_small = record { id = 7; width = 2; height = 1 }

abbrev pub mode_large : Mode
mode_large = record { id = 8; width = 4; height = 2 }

abbrev pub crtc_of : World → CrtcInfo
crtc_of w = record {
  is_success = true;
  mode = w.mode;
  x = pos 0;
  y = pos 0;
  width = if w.mode == 7 then 2 else 4;
  height = if w.mode == 7 then 1 else 2;
  rotation = 1;
  outputs = 1 ∷ [];
}

abbrev pub screen_of : World → Screen
screen_of w = record {
  root = 9;
  width_in_pixels = w.width;
  height_in_pixels = w.height;
  width_in_millimeters = 10;
  height_in_millimeters = 10;
  root_visual = 3;
  root_depth = 24;
  visuals =
      record {
        visual_id = 3;
        is_true_color = true;
        red_mask = 0xff0000;
        green_mask = 0xff00;
        blue_mask = 0xff;
      }
      ∷ [];
}

-- What an input event does: codes 2 to 5 press and release keys and buttons.
abbrev pub press_or_release : ℕ → ℕ → World → World
press_or_release event detail w =
    if event == 2
    then record w { keys = insert detail w.keys }
    else if event == 3
    then record w { keys = remove detail w.keys }
    else if event == 4
    then record w { buttons = insert detail w.buttons }
    else if event == 5
    then record w { buttons = remove detail w.buttons }
    else w

instance abbrev pub small_server : Server World
small_server = record {
  now = λ w. (w, 0);
  arm = λ t w. w;
  poll_event = answer none;
  screen_resources = answer (record {
    config_timestamp = 5;
    outputs = 1 ∷ [];
    crtcs = 1 ∷ [];
    modes = mode_small ∷ mode_large ∷ [];
  });
  output_primary = answer 1;
  output_info = λ id t.
      answer (record { is_success = true; is_connected = true; crtc = 1; modes = 7 ∷ 8 ∷ [] });
  crtc_info = λ id t w. (w, ok (crtc_of w));
  crtc_transform = λ id. answer (record {
    matrix11 = 65536;
    matrix12 = 0;
    matrix13 = 0;
    matrix21 = 0;
    matrix22 = 65536;
    matrix23 = 0;
    matrix31 = 0;
    matrix32 = 0;
    matrix33 = 65536;
  });
  panning = λ id. answer (record { width = 0; height = 0 });
  geometry = λ w. (w, ok (record { width = w.width; height = w.height }));
  get_image = λ x y width height.
      answer (record { depth = 24; visual = 3; bytes = 0 ∷ 0 ∷ 255 ∷ 0 ∷ 1 ∷ 2 ∷ 3 ∷ 0 ∷ [] });
  connect_until = λ t w. (w, ok (screen_of w));
  fake_input = λ event detail x y w. (press_or_release event detail w, ok tt);
  set_screen_size =
      λ width height mm_width mm_height w. (record w { width = width; height = height }, ok tt);
  set_crtc_config = λ id t saved mode w. (record w { mode = mode }, ok true);
  key_names =
      answer (record { first_key = 8; key_names = some ((b'A' ∷ b'C' ∷ b'0' ∷ b'1' ∷ []) ∷ []) });
  key_state = answer (record {
    mods = 0;
    latched_mods = 0;
    locked_mods = 0;
    group = 0;
    base_group = 0;
    latched_group = 0;
  });
  key_map = answer (record { first_type = 0; first_key_sym = 8; types = none; keys = none });
  modifier_mapping = answer (record { keycodes_per_modifier = 0; keycodes = [] });
}

abbrev pub idle : X11Backend World
idle = record {
  world = record { keys = []; buttons = []; mode = 7; width = 2; height = 1 };
  setup = record {
    screen = screen_of (record { keys = []; buttons = []; mode = 7; width = 2; height = 1 });
    pixmap_formats = record { depth = 24; bits_per_pixel = 32; scanline_pad = 32 } ∷ [];
    is_lsb_first = true;
  };
  root = 9;
  limits = record { max_dimension = 4096; max_rgba_bytes = 67108864; max_png_bytes = 67108864 };
  topology = record { revision = 0; displays = [] };
  config_timestamp = 0;
  randr13 = true;
  input_supported = true;
  held_keys = [];
  held_buttons = [];
  input_context = none;
}

abbrev pub allow : Call World (Unit {0})
allow = answer tt

abbrev pub small_display : Display
small_display = record {
  id = 1;
  x = pos 0;
  y = pos 0;
  width = 2;
  height = 1;
  primary = true;
  can_resize = true;
  modes = record { width = 2; height = 1 } ∷ record { width = 4; height = 2 } ∷ [];
}

abbrev pub shown : Topology
shown = record { revision = 1; displays = small_display ∷ [] }

-- The backend after a first look.
abbrev pub watching : X11Backend World
watching = record idle { topology = shown; config_timestamp = 5 }

abbrev pub converted : List ℕ
converted = 255 ∷ 0 ∷ 0 ∷ 255 ∷ 3 ∷ 2 ∷ 1 ∷ 255 ∷ []
