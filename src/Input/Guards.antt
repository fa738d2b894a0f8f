-- ===== src/Input/Guards.antt =====
-- The guard file of the input daemon (device/console/src/bin/input-daemon.rs, `Guard`,
-- `read_guard`): what the file system answers is a record, and the checks are the source's.
use donkeywork_desktop.Base.{
  ℕ, Bool, true, false, not, ◌&&◌, ◌||◌, Option, none, some, List, [], ◌∷◌, Result, ok, err, ltb,
  ◌==◌, if◌then◌else◌, any, length, is_empty,
}
use Prim.Native.Nat.{bit_and}
use donkeywork_desktop.Console.Owner.{Refusal}
use donkeywork_desktop.Input.Requests.{max_input}

pub record Guard : Type 0 where
  pub session : List ℕ
  pub width : ℕ
  pub height : ℕ
  pub valid : Bool

pub record Metadata : Type 0 where
  pub is_dir : Bool
  pub is_file : Bool
  pub uid : ℕ
  pub mode : ℕ
  pub len : ℕ

-- An opened file: its metadata, its bytes up to the limit and one more where they can be read, and
-- its age in milliseconds, where it is not from the future.
pub record OpenFile : Type 0 where
  pub metadata : Option Metadata
  pub bytes : Option (List ℕ)
  pub age : Option ℕ

-- What the file system answers about the path: the metadata of each directory above it, and the
-- file, without following links.
pub record GuardPath : Type 0 where
  pub is_absolute : Bool
  pub has_parent : Bool
  pub ancestors : List (Option Metadata)
  pub file : Option OpenFile

-- `meta.mode() & 0o022 != 0`
abbrev pub is_writable : Metadata → Bool
is_writable m = not (bit_and m.mode 18 == 0)

unfoldable pub is_unsafe_dir : Option Metadata → Bool
is_unsafe_dir none = true
is_unsafe_dir (some m) = not m.is_dir || not (m.uid == 0) || is_writable m

unfoldable pub is_unsafe_file : Option Metadata → Bool
is_unsafe_file none = true
is_unsafe_file (some m) = not m.is_file || not (m.uid == 0) || is_writable m || ltb max_input m.len

unfoldable pub is_stale : Option ℕ → Bool
is_stale none = true
is_stale (some age) = ltb 500 age

unfoldable pub is_bad_guard : Guard → ℕ → ℕ → Bool
is_bad_guard g width height =
    not g.valid
    || is_empty g.session
    || ltb 256 (length g.session)
    || not (g.width == width)
    || not (g.height == height)

-- The file once it is open. `parse` is `serde_json::from_slice`.
unfoldable pub read_file : (List ℕ → Option Guard) → ℕ → ℕ → OpenFile → Result Refusal Guard
read_file parse width height f =
    if is_unsafe_file f.metadata then err Refusal.invalid else elim f.bytes [
      | none ↦ err Refusal.io_error
      | some bytes ↦
          if ltb max_input (length bytes) then err Refusal.invalid else elim (parse bytes) [
            | none ↦ err Refusal.invalid
            | some g ↦
                if is_stale f.age || is_bad_guard g width height then err Refusal.invalid else ok g
          ]
    ]

unfoldable pub read_guard : (List ℕ → Option Guard) → ℕ → ℕ → GuardPath → Result Refusal Guard
read_guard parse width height p =
    if not p.is_absolute || p.has_parent
    then err Refusal.invalid
    else if any is_unsafe_dir p.ancestors
    then err Refusal.invalid
    else elim p.file [ none ↦ err Refusal.io_error | some f ↦ read_file parse width height f ]

unfoldable pub is_text : List ℕ → List ℕ → Bool
is_text [] [] = true
is_text [] (y ∷ ys) = false
is_text (x ∷ xs) [] = false
is_text (x ∷ xs) (y ∷ ys) = x == y && is_text xs ys

-- The derived `PartialEq`.
unfoldable pub is_guard : Guard → Guard → Bool
is_guard a b =
    is_text a.session b.session
    && a.width == b.width
    && a.height == b.height
    && (if a.valid then b.valid else not b.valid)

-- `read_guard(..).is_ok_and(|current| current == *baseline)`
abbrev pub is_baseline : Guard → Result Refusal Guard → Bool
is_baseline baseline (ok current) = is_guard current baseline
is_baseline baseline (err e) = false
