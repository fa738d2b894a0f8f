-- ===== src/Console/Headers.antt =====
-- The header of a console stream (device/console/src/lib.rs). The JSON codec is a parameter.
use donkeywork_desktop.Base.{
  ℕ, Bool, not, ◌||◌, ◌&&◌, Option, List, Result, ok, err, ok_or, leb, ltb, ◌==◌, if◌then◌else◌,
  String,
}
use donkeywork_desktop.Base.Actions.{Act, pure, lift, ◌>>=◌, ◌>>◌}
use donkeywork_desktop.Console.Records.{
  IoError, invalid_data, Write, Read, write_record, read_record,
}
use text.Mathlib.Text as Text

pub record StreamHeader : Type 0 where
  pub protocol : String
  pub version : String
  pub codec : String
  pub bitstream : String
  pub encoder : String
  pub display_id : String
  pub device : String
  pub width : ℕ
  pub height : ℕ
  pub frames_per_second : ℕ
  pub pixel_format : String

abbrev pub max_header : ℕ
max_header = 65536

abbrev pub is_text : String → String → Bool
is_text a b = Text.◌==◌ a b

unfoldable pub is_invalid : StreamHeader → Bool
is_invalid h =
    not (is_text h.protocol "dwconsole.stream")
    || not (is_text h.version "0.1.0")
    || not (is_text h.codec "h264")
    || not (is_text h.bitstream "annex-b")
    || h.width == 0
    || h.height == 0
    || ltb 4096 h.width
    || ltb 4096 h.height
    || not (leb 1 h.frames_per_second && leb h.frames_per_second 60)
    || is_text h.display_id ""
    || is_text h.device ""

unfoldable pub validate : StreamHeader → Result IoError (Unit {0})
validate h = if is_invalid h then err invalid_data else ok tt

-- `serialize` is `serde_json::to_vec`, and `parse` is the deserializer up to the end of its input.
unfoldable pub write_header :
    {W : Type 0}
    → (StreamHeader → Option (List ℕ))
    → Write W
    → StreamHeader
    → Act W IoError (Unit {0})
write_header serialize write_all h = do
  lift (validate h)
  bytes ← lift (ok_or (serialize h) invalid_data)
  write_record write_all bytes max_header

unfoldable pub read_header :
    {R : Type 0} → (List ℕ → Option StreamHeader) → Read R → Act R IoError StreamHeader
read_header parse read_exact = do
  bytes ← read_record read_exact max_header
  h ← lift (ok_or (parse bytes) invalid_data)
  lift (validate h)
  pure h
