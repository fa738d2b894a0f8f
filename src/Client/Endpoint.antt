-- ===== src/Client/Endpoint.antt =====
-- The tests that the client makes of a context, a socket and its peer (cli/src/lib.rs,
-- `Context::check_endpoint`, `verify_peer`, the checks of `Client::connect`).
use donkeywork_desktop.Base.{
  ℕ, Bool, not, ◌||◌, Option, none, some, Result, ok, err, ◌==◌, if◌then◌else◌,
}
use Prim.Native.Nat.{bit_and}
use donkeywork_desktop.Wire.Messages.{Failure, unauthorized, invalid_context}

-- A socket's path and the ids of a session are only compared; `is_uuid` is `Uuid::parse_str(..).is_ok()`.
pub record Context : Type 0 where
  pub socket : ℕ
  pub server_uid : ℕ
  pub session_id : ℕ
  pub session_epoch : ℕ

unfoldable pub check_endpoint : (ℕ → Bool) → Context → ℕ → ℕ → Result Failure (Unit {0})
check_endpoint is_uuid c socket uid =
    if not (c.socket == socket)
      || not (c.server_uid == uid)
      || not (is_uuid c.session_id)
      || not (is_uuid c.session_epoch)
    then err invalid_context
    else ok tt

-- What `symlink_metadata` answers.
pub record Metadata : Type 0 where
  pub is_socket : Bool
  pub is_dir : Bool
  pub uid : ℕ
  pub mode : ℕ

-- `meta.mode() & mask != 0`
abbrev pub has_mode : ℕ → Metadata → Bool
has_mode mask m = not (bit_and m.mode mask == 0)

unfoldable pub is_unsafe_socket : Metadata → Metadata → ℕ → Bool
is_unsafe_socket meta parent server_uid =
    not meta.is_socket
    || not (meta.uid == server_uid)
    || has_mode 7 meta
    || not parent.is_dir
    || not (parent.uid == server_uid)
    || has_mode 18 parent

-- The peer's credentials, if the system gives them.
unfoldable pub verify_peer : Option ℕ → ℕ → Result Failure (Unit {0})
verify_peer none server_uid = err unauthorized
verify_peer (some uid) server_uid = if not (uid == server_uid) then err unauthorized else ok tt
