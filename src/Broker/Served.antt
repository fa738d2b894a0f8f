-- ===== src/Broker/Served.antt =====
-- The whole run of a worker of the capability broker (device/console/src/bin/socket-broker.rs,
-- `serve`).
use donkeywork_desktop.Base.{ℕ, zero, suc, ◌≡◌, refl, none, List, []}
use donkeywork_desktop.Base.Actions.{pure, raise, ◌>>=◌}
use donkeywork_desktop.Broker.Kernel.{
  unfinished, SocketPath, Reading, at_end, byte, fails, Kernel, Call, Worker, Method,
}
use donkeywork_desktop.Broker.Serve.{
  is_passing, noted_byte, read_byte, after_read, serve_loop, serve,
}
use donkeywork_desktop.Broker.Exchanges.{
  Phase, start, idle, over, held, Exchanges, begins, greets, shuns,
}
use donkeywork_desktop.Broker.Logged.{
  Done, Logged, before-Logged, pure-Logged, raise-Logged, if-Logged, >>=-Logged, ask-Logged,
  observe-Logged,
}
use donkeywork_desktop.Broker.Connected.{peer_root-Logged}
use donkeywork_desktop.Broker.Sent.{Ended, command-Logged}

module _ {X : Type 0} (K : Kernel X) (stream : ℕ) (path : SocketPath) where
  abbrev Idle : List Call → Type 0
  Idle c = Exchanges stream path c idle

  abbrev Final : List Call → Type 0
  Final = Ended K stream path

  Idle-Ended : (c : List Call) → Idle c → Final c
  Idle-Ended c h = (idle, h, refl)

  -- After a read: the byte is the latest call.
  abbrev Read : Reading → List Call → Type 0
  Read r c' = (c : List Call) × Idle c × (c' ≡ noted_byte c r)

  read_byte-Logged : Logged Idle (read_byte K stream) Read Final
  read_byte-Logged = record { at = λ s h. (s.calls, h, refl) }

  after_read-Logged :
      (again : Method X (Unit {0})) (r : Reading)
      → Logged Idle again (λ u. Idle) Final
      → Logged (Read r) (after_read K stream path again r) (λ u. Idle) Final
  after_read-Logged again at_end k = pure-Logged tt (λ c h. rw h.2 h.1)
  after_read-Logged again (byte b) k =
      >>=-Logged {J = λ u. Idle} (command-Logged K stream path b) λ _. k
  after_read-Logged again (fails kind) k =
      if-Logged (is_passing kind) again (raise kind) (λ e. before-Logged (λ c h. rw h.2 h.1) k)
        (λ e. raise-Logged kind (λ c h. Idle-Ended c (rw h.2 h.1)))

  serve_loop-Logged : (rounds : ℕ) → Logged Idle (serve_loop K rounds stream path) (λ u. Idle) Final
  unfolding serve_loop
  serve_loop-Logged zero = raise-Logged unfinished Idle-Ended
  serve_loop-Logged (suc rounds) =
      let again = serve_loop-Logged rounds in
      >>=-Logged {J = λ stop. Idle} (observe-Logged K.stops (λ c h stop. h)) λ stop.
        if-Logged stop (pure tt)
          (read_byte K stream >>= after_read K stream path (serve_loop K rounds stream path))
          (λ e. pure-Logged tt (λ c h. h))
          (λ e.
            >>=-Logged read_byte-Logged
              λ r. after_read-Logged (serve_loop K rounds stream path) r again)

  serve-Logged :
      (rounds : ℕ)
      → Logged (λ c. Exchanges stream path c start) (serve K rounds stream path) (λ u. Idle) Final
  unfolding serve
  serve-Logged rounds =
      >>=-Logged {J = λ u. Idle}
        (peer_root-Logged K stream (λ c uid h e. greets h e) (λ c uid h n. (over, shuns h n, refl))
          (λ c h. (start, h, refl)))
        λ _.
          >>=-Logged {J = λ u. Idle}
            (ask-Logged (K.set_read_timeout stream 100) (λ c h u. h) Idle-Ended)
            λ _. serve_loop-Logged rounds

abbrev pub new_worker : {X : Type 0} → X → Worker X
new_worker x = record { world = x; calls = [] }

-- Over any kernel and for any number of rounds, the calls of a worker are a sequence of exchanges
-- with its peer, and none before the peer was found to be root: a byte C, the connection, and one
-- message. Nothing but a byte C leads to a connection, and it is asked for only where the path is
-- absolute and fits, its directory is root's and written to by root alone, and the socket is root's
-- and open to nobody else. The message has the connected descriptor only where the other side is
-- root, it is sent before its deadline of 100 ms, sent again only after an interrupt, and not again
-- once a byte was taken. Each descriptor is closed before the next byte is read and where the worker ends;
-- and where it ends without an error, it has answered every command.
pub serve-Exchanges :
    {X : Type 0} (K : Kernel X) (stream : ℕ) (path : SocketPath) (rounds : ℕ) (x : X)
    → Done
        (λ u c. Exchanges stream path c idle)
        (λ c. (p : Phase) × Exchanges stream path c p × (held p ≡ none))
        (serve K rounds stream path (new_worker x))
serve-Exchanges K stream path rounds x =
    (serve-Logged K stream path rounds).at (new_worker x) begins
