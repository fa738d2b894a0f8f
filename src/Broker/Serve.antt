-- ===== src/Broker/Serve.antt =====
-- A worker of the capability broker (device/console/src/bin/socket-broker.rs, `capture_connect`,
-- `send_result`, `command`, `serve`; `validate_root_socket` and `peer_root` of the crate).
use donkeywork_desktop.Base.{
  ℕ, zero, suc, ◌+◌, ◌-◌, ◌*◌, Bool, true, false, not, ◌&&◌, ◌||◌, Option, none, some, List, ◌∷◌,
  Result, ok, err, ok_or, leb, ltb, ◌==◌, if◌then◌else◌, any, length, is_empty,
}
use Prim.Native.Nat.{bit_and}
use donkeywork_desktop.Base.Actions.{pure, raise, lift, ensure, ◌>>=◌, ◌>>◌}
use donkeywork_desktop.Broker.Kernel.{
  ErrorKind, invalid_input, invalid_data, permission_denied, timed_out, would_block, interrupted,
  write_zero, unfinished, Metadata, SocketPath, Reading, at_end, byte, fails, Message, rights,
  unavailable, Sending, took, refused, Kernel, Call, received, looked, made, linked, peer_is, timed,
  sent, closed, Worker, Method, ask, observe, ask_noted, observe_noted,
}

-- The kinds after which `send_result` and `serve` go on.
abbrev pub is_interrupted : ErrorKind → Bool
is_interrupted interrupted = true
is_interrupted kind = false

abbrev pub is_passing : ErrorKind → Bool
is_passing interrupted = true
is_passing would_block = true
is_passing timed_out = true
is_passing kind = false

-- The directory of the socket belongs to root, and only root writes to it.
unfoldable pub is_root_dir : Metadata → Bool
is_root_dir m = m.is_dir && m.uid == 0 && bit_and m.mode 18 == 0

-- The socket belongs to root, and is open to nobody else.
unfoldable pub is_root_socket : Metadata → Bool
is_root_socket m = m.is_socket && m.uid == 0 && bit_and m.mode 63 == 0

-- What fits into `sun_path` with its final zero, and has no zero itself.
unfoldable pub fits_address : List ℕ → Bool
fits_address bytes = not (is_empty bytes || leb 108 (length bytes) || any (λ b. b == 0) bytes)

abbrev pub message_of : Option ℕ → Message
message_of none = unavailable
message_of (some fd) = rights fd

abbrev pub noted_byte : List Call → Reading → List Call
noted_byte calls at_end = calls
noted_byte calls (byte b) = received b ∷ calls
noted_byte calls (fails kind) = calls

module _ {X : Type 0} (K : Kernel X) where
  unfoldable pub peer_root : ℕ → Method X (Unit {0})
  peer_root fd = do
    uid ← ask_noted (peer_is fd) (K.peer_uid fd)
    ensure (uid == 0) permission_denied

  abbrev pub look_at : List ℕ → Method X Metadata
  look_at path = ask_noted (looked path) (K.symlink_metadata path)

  unfoldable pub validate_root_socket : SocketPath → Method X (Unit {0})
  validate_root_socket path = do
    ensure path.is_absolute invalid_input
    parent ← lift (ok_or path.parent invalid_input)
    parent_meta ← look_at parent
    socket_meta ← look_at path.bytes
    ensure (is_root_dir parent_meta && is_root_socket socket_meta) permission_denied

  -- The end of an `OwnedFd`.
  abbrev pub close_fd : ℕ → Worker X → Worker X
  close_fd fd s = record { world = K.close fd s.world; calls = closed fd ∷ s.calls }

  abbrev pub close_on_error :
      {A : Type 0} → ℕ → Worker X × Result ErrorKind A → Worker X × Result ErrorKind A
  close_on_error fd (s, ok a) = (s, ok a)
  close_on_error fd (s, err e) = (close_fd fd s, err e)

  unfoldable pub connect_to : ℕ → SocketPath → Method X ℕ
  connect_to fd path = do
    ask_noted (λ u. linked fd path.bytes) (K.connect fd path.bytes)
    ask (K.set_nonblocking fd false)
    peer_root fd
    pure fd

  unfoldable pub capture_connect : SocketPath → Method X ℕ
  capture_connect path = do
    validate_root_socket path
    ensure (fits_address path.bytes) invalid_data
    fd ← ask_noted made K.socket
    λ s. close_on_error fd (connect_to fd path s)

  -- The room for the control message of a descriptor.
  abbrev pub has_room : Option ℕ → Bool
  has_room none = true
  has_room (some fd) = leb K.cmsg_space (2 * K.cmsghdr_size) && K.first_header K.cmsg_space

  abbrev pub after_send : Method X (Unit {0}) → Sending → Method X (Unit {0})
  after_send again (took n) = if n == 1 then pure tt else raise write_zero
  after_send again (refused kind) = if is_interrupted kind then again else raise kind

  -- The loop of `send_result`.
  unfoldable pub send_loop : ℕ → ℕ → Message → ℕ → Method X (Unit {0})
  send_loop zero stream message deadline = raise unfinished
  send_loop (suc rounds) stream message deadline = do
    now ← observe_noted timed K.now
    ensure (ltb now deadline) timed_out
    ask (K.set_write_timeout stream (deadline - now))
    sending ← observe_noted (sent message (deadline - now)) (K.sendmsg stream message)
    after_send (send_loop rounds stream message deadline) sending

  unfoldable pub send_result : ℕ → Option ℕ → Method X (Unit {0})
  send_result stream capture = do
    ensure (has_room capture) invalid_data
    start ← observe_noted timed K.now
    send_loop K.rounds stream (message_of capture) (start + 100)

  -- The captured descriptor is closed whatever becomes of the message.
  abbrev pub close_after :
      {A : Type 0} → ℕ → Worker X × Result ErrorKind A → Worker X × Result ErrorKind A
  close_after fd (s, result) = (close_fd fd s, result)

  abbrev pub send_capture :
      ℕ → Worker X × Result ErrorKind ℕ → Worker X × Result ErrorKind (Unit {0})
  send_capture stream (s, ok fd) = close_after fd (send_result stream (some fd) s)
  send_capture stream (s, err e) = send_result stream none s

  unfoldable pub command : ℕ → ℕ → Method X ℕ → Method X (Unit {0})
  command stream b connect = do
    ensure (b == b'C') invalid_data
    λ s. send_capture stream (connect s)

  -- A `read`, written down where it brings a byte.
  abbrev pub read_byte : ℕ → Method X Reading
  read_byte stream s = (
    record {
      world = (K.read stream s.world).0;
      calls = noted_byte s.calls (K.read stream s.world).1;
    },
    ok (K.read stream s.world).1,
  )

  abbrev pub after_read : ℕ → SocketPath → Method X (Unit {0}) → Reading → Method X (Unit {0})
  after_read stream path again at_end = pure tt
  after_read stream path again (byte b) = command stream b (capture_connect path) >> again
  after_read stream path again (fails kind) = if is_passing kind then again else raise kind

  -- The loop of `serve`, for a number of rounds.
  unfoldable pub serve_loop : ℕ → ℕ → SocketPath → Method X (Unit {0})
  serve_loop zero stream path = raise unfinished
  serve_loop (suc rounds) stream path = do
    stop ← observe K.stops
    if stop
        then pure tt
        else read_byte stream >>= after_read stream path (serve_loop rounds stream path)

  unfoldable pub serve : ℕ → ℕ → SocketPath → Method X (Unit {0})
  serve rounds stream path = do
    peer_root stream
    ask (K.set_read_timeout stream 100)
    serve_loop rounds stream path
