-- ===== src/Capture/Server.antt =====
-- The X server as the capture crate sees it through x11rb (a library): its replies, and the calls
-- that get them. A call changes the world and may fail. `X11Backend` is the struct of
-- device/capture/src/x11.rs with the world in place of its connection.
use donkeywork_desktop.Base.{ℕ, ◌+◌, Bool, Option, List, ok}
use donkeywork_desktop.Base.Int.{ℤ}
use donkeywork_desktop.Base.Actions.{Act, ◌>>=◌}
use donkeywork_desktop.Capture.Types.{ErrorKind, Fallible, FrameLimits, Topology}

pub record Mode : Type 0 where
  pub id : ℕ
  pub width : ℕ
  pub height : ℕ

pub record Resources : Type 0 where
  pub config_timestamp : ℕ
  pub outputs : List ℕ
  pub crtcs : List ℕ
  pub modes : List Mode

pub record OutputInfo : Type 0 where
  pub is_success : Bool
  pub is_connected : Bool
  pub crtc : ℕ
  pub modes : List ℕ

pub record CrtcInfo : Type 0 where
  pub is_success : Bool
  pub mode : ℕ
  pub x : ℤ
  pub y : ℤ
  pub width : ℕ
  pub height : ℕ
  pub rotation : ℕ
  pub outputs : List ℕ

-- The nine entries of a transform, as patterns of 32 bits.
pub record Transform : Type 0 where
  pub matrix11 : ℕ
  pub matrix12 : ℕ
  pub matrix13 : ℕ
  pub matrix21 : ℕ
  pub matrix22 : ℕ
  pub matrix23 : ℕ
  pub matrix31 : ℕ
  pub matrix32 : ℕ
  pub matrix33 : ℕ

pub record Area : Type 0 where
  pub width : ℕ
  pub height : ℕ

pub record Visual : Type 0 where
  pub visual_id : ℕ
  pub is_true_color : Bool
  pub red_mask : ℕ
  pub green_mask : ℕ
  pub blue_mask : ℕ

pub record Format : Type 0 where
  pub depth : ℕ
  pub bits_per_pixel : ℕ
  pub scanline_pad : ℕ

-- What the server says of a screen when a client connects.
pub record Screen : Type 0 where
  pub root : ℕ
  pub width_in_pixels : ℕ
  pub height_in_pixels : ℕ
  pub width_in_millimeters : ℕ
  pub height_in_millimeters : ℕ
  pub root_visual : ℕ
  pub root_depth : ℕ
  pub visuals : List Visual

pub record Setup : Type 0 where
  pub screen : Screen
  pub pixmap_formats : List Format
  pub is_lsb_first : Bool

pub record Image : Type 0 where
  pub depth : ℕ
  pub visual : ℕ
  pub bytes : List ℕ

pub record KeyEntry : Type 0 where
  pub active : Bool
  pub mods_mask : ℕ
  pub level : ℕ

pub record KeyType : Type 0 where
  pub mods_mask : ℕ
  pub mods_vmods : ℕ
  pub num_levels : ℕ
  pub map : List KeyEntry

pub record KeySymMap : Type 0 where
  pub kt_index : ℕ
  pub group_info : ℕ
  pub width : ℕ
  pub syms : List ℕ

pub record KeyMap : Type 0 where
  pub first_type : ℕ
  pub first_key_sym : ℕ
  pub types : Option (List KeyType)
  pub keys : Option (List KeySymMap)

pub record KeyNames : Type 0 where
  pub first_key : ℕ
  pub key_names : Option (List (List ℕ))

pub record KeyState : Type 0 where
  pub mods : ℕ
  pub latched_mods : ℕ
  pub locked_mods : ℕ
  pub group : ℕ
  pub base_group : ℕ
  pub latched_group : ℕ

pub record Modifiers : Type 0 where
  pub keycodes_per_modifier : ℕ
  pub keycodes : List ℕ

abbrev pub Call : Type 0 → Type 0 → Type 0
Call X A = X → X × Fallible A

-- `arm` sets the deadline of the stream; `poll_event` tells whether an event is one of RandR.
pub record Server (X : Type 0) : Type 0 where
  pub now : X → X × ℕ
  pub arm : ℕ → X → X
  pub poll_event : Call X (Option Bool)
  pub screen_resources : Call X Resources
  pub output_primary : Call X ℕ
  pub output_info : ℕ → ℕ → Call X OutputInfo
  pub crtc_info : ℕ → ℕ → Call X CrtcInfo
  pub crtc_transform : ℕ → Call X Transform
  pub panning : ℕ → Call X Area
  pub geometry : Call X Area
  pub get_image : ℤ → ℤ → ℕ → ℕ → Call X Image
  pub connect_until : ℕ → Call X Screen
  pub fake_input : ℕ → ℕ → ℤ → ℤ → Call X (Unit {0})
  pub set_screen_size : ℕ → ℕ → ℕ → ℕ → Call X (Unit {0})
  pub set_crtc_config : ℕ → ℕ → CrtcInfo → ℕ → Call X Bool
  pub key_names : Call X KeyNames
  pub key_state : Call X KeyState
  pub key_map : Call X KeyMap
  pub modifier_mapping : Call X Modifiers

pub record X11Backend (X : Type 0) : Type 0 where
  pub world : X
  pub setup : Setup
  pub root : ℕ
  pub limits : FrameLimits
  pub topology : Topology
  pub config_timestamp : ℕ
  pub randr13 : Bool
  pub input_supported : Bool
  pub held_keys : List ℕ
  pub held_buttons : List ℕ
  pub input_context : Option (ℕ × ℕ)

-- A method of the backend.
abbrev pub Method : Type 0 → Type 0 → Type 0
Method X A = Act (X11Backend X) ErrorKind A

-- A call of the server by a method.
abbrev pub ask : {X A : Type 0} → Call X A → Method X A
ask f s = (record s { world = (f s.world).0 }, (f s.world).1)

abbrev pub read_clock : {X : Type 0} ⦃K : Server X⦄ → Method X ℕ
read_clock ⦃K⦄ s = (record s { world = (K.now s.world).0 }, ok (K.now s.world).1)

-- `self.connection.stream().arm(Instant::now() + after)`
abbrev pub arm_after : {X : Type 0} ⦃K : Server X⦄ → ℕ → Method X (Unit {0})
arm_after ⦃K⦄ after =
    read_clock >>= λ now s. (record s { world = K.arm (now + after) s.world }, ok tt)
