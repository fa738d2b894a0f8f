-- ===== src/Broker/Examples.antt =====
-- A root peer that asks twice for the capture: the daemon is there the second time only
-- (device/console/src/bin/socket-broker.rs).
use donkeywork_desktop.Base.{
  ℕ, zero, suc, ◌+◌, ◌≡◌, refl, true, false, none, some, List, [], ◌∷◌, Result, ok, err,
}
use donkeywork_desktop.Broker.Kernel.{
  ErrorKind, interrupted, other, Metadata, SocketPath, Reading, at_end, byte, rights, unavailable,
  Sending, took, refused, Kernel, received, looked, made, linked, peer_is, timed, sent, closed,
}
use donkeywork_desktop.Broker.Serve.{
  serve, peer_root, serve_loop, command, capture_connect, validate_root_socket, is_root_dir,
  is_root_socket, fits_address, connect_to, send_result, send_loop,
}
use donkeywork_desktop.Broker.Exchanges.{Phase, idle, held, Exchanges}
use donkeywork_desktop.Broker.Logged.{Done}
use donkeywork_desktop.Broker.Served.{serve-Exchanges, new_worker}

-- The clock, the descriptors made, what the peer sends, and how each `sendmsg` ends.
record World : Type 0 where
  clock : ℕ
  made_up_to : ℕ
  arrivals : List ℕ
  endings : List Sending

abbrev next_byte : List ℕ → List ℕ × Reading
next_byte [] = ([], at_end)
next_byte (b ∷ bytes) = (bytes, byte b)

abbrev next_ending : List Sending → List Sending × Sending
next_ending [] = ([], took 1)
next_ending (s ∷ rest) = (rest, s)

-- The first descriptor finds nobody.
abbrev connects : ℕ → Result ErrorKind (Unit {0})
connects zero = err other
connects (suc fd) = ok tt

abbrev metadata_of : List ℕ → Metadata
metadata_of [] = record { is_dir = true; is_socket = false; uid = 0; mode = 493 }
metadata_of (b ∷ bytes) = record { is_dir = false; is_socket = true; uid = 0; mode = 384 }

abbrev a_kernel : Kernel World
a_kernel = record {
  now = λ x. (record x { clock = x.clock + 1 }, x.clock);
  stops = λ x. (x, false);
  peer_uid = λ fd x. (x, ok 0);
  set_read_timeout = λ fd left x. (x, ok tt);
  set_write_timeout = λ fd left x. (x, ok tt);
  set_nonblocking = λ fd b x. (x, ok tt);
  read = λ fd x. (record x { arrivals = (next_byte x.arrivals).0 }, (next_byte x.arrivals).1);
  symlink_metadata = λ path x. (x, ok (metadata_of path));
  socket = λ x. (record x { made_up_to = x.made_up_to + 1 }, ok x.made_up_to);
  connect = λ fd path x. (x, connects fd);
  sendmsg = λ fd m x. (record x { endings = (next_ending x.endings).0 }, (next_ending x.endings).1);
  close = λ fd x. x;
  cmsg_space = 24;
  cmsghdr_size = 16;
  first_header = λ n. true;
  rounds = 3;
}

abbrev a_path : SocketPath
a_path = record { bytes = b'/' ∷ b's' ∷ []; is_absolute = true; parent = some [] }

abbrev a_world : World
a_world = record {
  clock = 0;
  made_up_to = 0;
  arrivals = b'C' ∷ b'C' ∷ [];
  endings = took 1 ∷ refused interrupted ∷ [];
}

-- The second answer is interrupted once, and holds the second descriptor.
serve_twice :
    (serve a_kernel 4 9 a_path (new_worker a_world)).0.calls
    ≡ closed 1
      ∷ sent (rights 1) 98 (took 1)
      ∷ timed 4
      ∷ sent (rights 1) 99 (refused interrupted)
      ∷ timed 3
      ∷ timed 2
      ∷ peer_is 1 0
      ∷ linked 1 a_path.bytes
      ∷ made 1
      ∷ looked a_path.bytes (metadata_of a_path.bytes)
      ∷ looked [] (metadata_of [])
      ∷ received b'C'
      ∷ sent unavailable 99 (took 1)
      ∷ timed 1
      ∷ timed 0
      ∷ closed 0
      ∷ made 0
      ∷ looked a_path.bytes (metadata_of a_path.bytes)
      ∷ looked [] (metadata_of [])
      ∷ received b'C'
      ∷ peer_is 9 0
      ∷ []
unfolding serve peer_root serve_loop command capture_connect validate_root_socket is_root_dir
    is_root_socket fits_address connect_to send_result send_loop
serve_twice = refl

serve-Exchanges_example :
    Done
      (λ u c. Exchanges 9 a_path c idle)
      (λ c. (p : Phase) × Exchanges 9 a_path c p × (held p ≡ none))
      (serve a_kernel 4 9 a_path (new_worker a_world))
serve-Exchanges_example = serve-Exchanges a_kernel 9 a_path 4 a_world
