-- ===== src/Capture/Usages.antt =====
-- `hid_name`: the XKB name of the key at a HID position (device/capture/src/keyboard.rs).
use donkeywork_desktop.Base.{ℕ, Option, List, [], ◌∷◌, lookup, Assoc}

-- A key name is four bytes.
abbrev pub name : ℕ → ℕ → ℕ → ℕ → List ℕ
name a b c d = a ∷ b ∷ c ∷ d ∷ []

-- The table of `hid_name`.
abbrev key_names_by_usage : Assoc (List ℕ)
key_names_by_usage =
    (0x04, name b'A' b'C' b'0' b'1')
    ∷ (0x05, name b'A' b'B' b'0' b'5')
    ∷ (0x06, name b'A' b'B' b'0' b'3')
    ∷ (0x07, name b'A' b'C' b'0' b'3')
    ∷ (0x08, name b'A' b'D' b'0' b'3')
    ∷ (0x09, name b'A' b'C' b'0' b'4')
    ∷ (0x0a, name b'A' b'C' b'0' b'5')
    ∷ (0x0b, name b'A' b'C' b'0' b'6')
    ∷ (0x0c, name b'A' b'D' b'0' b'8')
    ∷ (0x0d, name b'A' b'C' b'0' b'7')
    ∷ (0x0e, name b'A' b'C' b'0' b'8')
    ∷ (0x0f, name b'A' b'C' b'0' b'9')
    ∷ (0x10, name b'A' b'B' b'0' b'7')
    ∷ (0x11, name b'A' b'B' b'0' b'6')
    ∷ (0x12, name b'A' b'D' b'0' b'9')
    ∷ (0x13, name b'A' b'D' b'1' b'0')
    ∷ (0x14, name b'A' b'D' b'0' b'1')
    ∷ (0x15, name b'A' b'D' b'0' b'4')
    ∷ (0x16, name b'A' b'C' b'0' b'2')
    ∷ (0x17, name b'A' b'D' b'0' b'5')
    ∷ (0x18, name b'A' b'D' b'0' b'7')
    ∷ (0x19, name b'A' b'B' b'0' b'4')
    ∷ (0x1a, name b'A' b'D' b'0' b'2')
    ∷ (0x1b, name b'A' b'B' b'0' b'2')
    ∷ (0x1c, name b'A' b'D' b'0' b'6')
    ∷ (0x1d, name b'A' b'B' b'0' b'1')
    ∷ (0x1e, name b'A' b'E' b'0' b'1')
    ∷ (0x1f, name b'A' b'E' b'0' b'2')
    ∷ (0x20, name b'A' b'E' b'0' b'3')
    ∷ (0x21, name b'A' b'E' b'0' b'4')
    ∷ (0x22, name b'A' b'E' b'0' b'5')
    ∷ (0x23, name b'A' b'E' b'0' b'6')
    ∷ (0x24, name b'A' b'E' b'0' b'7')
    ∷ (0x25, name b'A' b'E' b'0' b'8')
    ∷ (0x26, name b'A' b'E' b'0' b'9')
    ∷ (0x27, name b'A' b'E' b'1' b'0')
    ∷ (0x28, name b'R' b'T' b'R' b'N')
    ∷ (0x29, name b'E' b'S' b'C' 0)
    ∷ (0x2a, name b'B' b'K' b'S' b'P')
    ∷ (0x2b, name b'T' b'A' b'B' 0)
    ∷ (0x2c, name b'S' b'P' b'C' b'E')
    ∷ (0x2d, name b'A' b'E' b'1' b'1')
    ∷ (0x2e, name b'A' b'E' b'1' b'2')
    ∷ (0x2f, name b'A' b'D' b'1' b'1')
    ∷ (0x30, name b'A' b'D' b'1' b'2')
    ∷ (0x31, name b'B' b'K' b'S' b'L')
    ∷ (0x33, name b'A' b'C' b'1' b'0')
    ∷ (0x34, name b'A' b'C' b'1' b'1')
    ∷ (0x35, name b'T' b'L' b'D' b'E')
    ∷ (0x36, name b'A' b'B' b'0' b'8')
    ∷ (0x37, name b'A' b'B' b'0' b'9')
    ∷ (0x38, name b'A' b'B' b'1' b'0')
    ∷ (0x39, name b'C' b'A' b'P' b'S')
    ∷ (0x3a, name b'F' b'K' b'0' b'1')
    ∷ (0x3b, name b'F' b'K' b'0' b'2')
    ∷ (0x3c, name b'F' b'K' b'0' b'3')
    ∷ (0x3d, name b'F' b'K' b'0' b'4')
    ∷ (0x3e, name b'F' b'K' b'0' b'5')
    ∷ (0x3f, name b'F' b'K' b'0' b'6')
    ∷ (0x40, name b'F' b'K' b'0' b'7')
    ∷ (0x41, name b'F' b'K' b'0' b'8')
    ∷ (0x42, name b'F' b'K' b'0' b'9')
    ∷ (0x43, name b'F' b'K' b'1' b'0')
    ∷ (0x44, name b'F' b'K' b'1' b'1')
    ∷ (0x45, name b'F' b'K' b'1' b'2')
    ∷ (0x49, name b'I' b'N' b'S' 0)
    ∷ (0x4a, name b'H' b'O' b'M' b'E')
    ∷ (0x4b, name b'P' b'G' b'U' b'P')
    ∷ (0x4c, name b'D' b'E' b'L' b'E')
    ∷ (0x4d, name b'E' b'N' b'D' 0)
    ∷ (0x4e, name b'P' b'G' b'D' b'N')
    ∷ (0x4f, name b'R' b'G' b'H' b'T')
    ∷ (0x50, name b'L' b'E' b'F' b'T')
    ∷ (0x51, name b'D' b'O' b'W' b'N')
    ∷ (0x52, name b'U' b'P' 0 0)
    ∷ (0x64, name b'L' b'S' b'G' b'T')
    ∷ (0xe0, name b'L' b'C' b'T' b'L')
    ∷ (0xe1, name b'L' b'F' b'S' b'H')
    ∷ (0xe2, name b'L' b'A' b'L' b'T')
    ∷ (0xe3, name b'L' b'W' b'I' b'N')
    ∷ (0xe4, name b'R' b'C' b'T' b'L')
    ∷ (0xe5, name b'R' b'T' b'S' b'H')
    ∷ (0xe6, name b'R' b'A' b'L' b'T')
    ∷ (0xe7, name b'R' b'W' b'I' b'N')
    ∷ []

unfoldable pub hid_name : ℕ → Option (List ℕ)
hid_name usage = lookup usage key_names_by_usage
