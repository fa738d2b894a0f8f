-- ===== src/Input/Examples.antt =====
-- A daemon with one peer that asks for control and moves the pointer, to run the definitions on
-- (device/console/src/bin/input-daemon.rs).
use donkeywork_desktop.Base.{
  ℕ, ◌+◌, ◌≡◌, inl, refl, true, false, not, ◌||◌, Option, none, some, List, [], ◌∷◌, ok, length,
  is_empty, take, drop, ◌≤◌, ◌==◌, if◌then◌else◌,
}
use donkeywork_desktop.Base.Contracts.{Post}
use donkeywork_desktop.Console.Owner.{acts, are_others, is_owner}
use donkeywork_desktop.Console.Devices.{Emit, InputDevice, reset}
use donkeywork_desktop.Input.Requests.{Event, Request}
use donkeywork_desktop.Input.Reader.{fresh}
use donkeywork_desktop.Input.Daemon.{Daemon, Thread, Arrival, arrived, again, wrote}
use donkeywork_desktop.Input.Serve.{peer_root, peer_thread, round}
use donkeywork_desktop.Input.Stream.{poll}
use donkeywork_desktop.Input.Peers.{
  Acceptance, accepted, would_block, Listener, new_host, retire, reap, admit, turn, accept_loop,
  join_all, run,
}
use donkeywork_desktop.Input.Counts.{count}
use donkeywork_desktop.Input.Joined.{accept_loop-bounded, IsOver, run-IsOver}
use donkeywork_desktop.Input.Traces.{Touched}
use donkeywork_desktop.Input.Holding.{Outcome}
use donkeywork_desktop.Input.Rounds.{round-Outcome}
use donkeywork_desktop.Input.Served.{IsServed, peer_thread-IsServed}

-- The clock, and what the peer sends.
record World : Type 0 where
  clock : ℕ
  arrivals : List ℕ

abbrev Packets : Type 0
Packets = List (List (ℕ × ℕ × ℕ))

abbrev bring : ℕ → List ℕ → Arrival
bring most [] = again
bring most (b ∷ bytes) = arrived (take most (b ∷ bytes))

abbrev asks_control : List ℕ → Option (Option (List ℕ))
asks_control [] = none
asks_control (b ∷ rest) = if b == 0 then some none else none

abbrev a_request : List ℕ → Option Request
a_request bytes = some (record { generation = 7; sequence = 1; event = Event.move 3 4 })

abbrev record_packet : Emit Packets
record_packet packet file = (packet ∷ file, ok tt)

abbrev a_daemon : Daemon World Packets
a_daemon = record {
  now = λ x. (record x { clock = x.clock + 1 }, x.clock);
  meanwhile =
      λ x. (x, record { uses = acts 9 (reset record_packet) ∷ []; stops = false; poisons = false });
  peer_uid = λ x. (x, ok 0);
  set_timeout = λ left x. (x, ok tt);
  read = λ most x. (record x { arrivals = drop most x.arrivals }, bring most x.arrivals);
  write = λ bytes x. (x, wrote (length bytes));
  guard_path =
      λ x. (x, record { is_absolute = false; has_parent = false; ancestors = []; file = none });
  entropy = λ x. (x, ok 7);
  parse_guard = λ bytes. none;
  parse_acquire = asks_control;
  parse_request = a_request;
  encode = λ message. some (5 ∷ []);
  emit = record_packet;
  rounds = 3;
}

abbrev some_devices : InputDevice Packets
some_devices = record {
  keyboard = record { file = []; codes = [] };
  pointer = record { file = []; codes = [] };
  width = 100;
  height = 100;
}

-- The peer sends a frame that asks for control, and one with a request.
abbrev a_thread : Thread World Packets
a_thread = record {
  world = record { clock = 0; arrivals = 0 ∷ 0 ∷ 0 ∷ 1 ∷ 0 ∷ 0 ∷ 0 ∷ 0 ∷ 1 ∷ 1 ∷ [] };
  shared = record { device = some_devices; owner = none };
  stopped = false;
  control = none;
  reader = fresh;
}

others_act : (x : World) → are_others 1 (a_daemon.meanwhile x).1.uses ≡ true
unfolding are_others
others_act x = refl

peer_thread-IsServed_example :
    IsServed a_daemon 1 100 100 false others_act
      (peer_root a_daemon 1 100 100 false a_thread).0
      a_thread
      (peer_thread a_daemon 1 100 100 false 4 a_thread).0
    × ((peer_thread a_daemon 1 100 100 false 4 a_thread).0.stopped
        || not (is_owner 1 (peer_thread a_daemon 1 100 100 false 4 a_thread).0.shared))
      ≡ true
peer_thread-IsServed_example =
    peer_thread-IsServed a_daemon 1 100 100 false others_act 4 a_thread refl

round-Outcome_example :
    Post
      (Outcome a_daemon 1 100 100 false others_act a_thread)
      (Touched a_daemon 1 100 100 false a_thread)
      (round a_daemon 1 100 100 false a_thread)
round-Outcome_example = round-Outcome a_daemon 1 100 100 false others_act a_thread (inl refl)

abbrev final : Thread World Packets
final = (peer_thread a_daemon 1 100 100 false 4 a_thread).0

-- One byte of the next frame is there, and the others come.
abbrev b_thread : Thread World Packets
b_thread = record a_thread {
  world = record { clock = 0; arrivals = 0 ∷ 0 ∷ 1 ∷ 7 ∷ [] };
  reader = record { bytes = 0 ∷ []; total = none; deadline = some 1000 };
}

-- The peers that come; STOP is set behind them.
abbrev next_peer : List Acceptance → List Acceptance × Acceptance
next_peer [] = ([], would_block)
next_peer (c ∷ cs) = (cs, c)

-- The thread of the first peer ends by itself.
abbrev a_listener : Listener (List Acceptance) Packets
a_listener = record {
  stops = λ x. (x, is_empty x);
  stop = λ x. [];
  is_finished = λ w x. (x, w == 1);
  join = λ w x. (x, true);
  accept = next_peer;
  poll = λ x. (x, true);
  close = λ stream x. x;
  set_blocking = λ stream x. (x, true);
  spawn = λ stream peer x. (x, some peer);
  devices = λ x. record { device = some_devices; owner = some 2 };
  emit = record_packet;
}

abbrev some_peers : List Acceptance
some_peers = accepted 5 ∷ Acceptance.interrupted ∷ accepted 6 ∷ accepted 7 ∷ []

loop_retires :
    ((accept_loop a_listener 5 (new_host some_peers)).0.workers ≡ 2 ∷ 3 ∷ [])
    × ((accept_loop a_listener 5 (new_host some_peers)).0.joined ≡ 1 ∷ [])
unfolding accept_loop turn reap retire admit
loop_retires = (refl, refl)

run_joins : (run a_listener 5 some_peers).0.joined ≡ 3 ∷ 2 ∷ 1 ∷ []
unfolding run accept_loop turn reap retire admit join_all
run_joins = refl

accept_loop-bounded_example :
    (length (accept_loop a_listener 5 (new_host some_peers)).0.workers ≤ 8)
    × ((a : ℕ)
        → count a (accept_loop a_listener 5 (new_host some_peers)).0.spawned
          ≡ count a (accept_loop a_listener 5 (new_host some_peers)).0.workers
            + count a (accept_loop a_listener 5 (new_host some_peers)).0.joined)
accept_loop-bounded_example = accept_loop-bounded a_listener 5 some_peers

run-IsOver_example :
    IsOver a_listener
      (run a_listener 5 some_peers).0
      (run a_listener 5 some_peers).1.0
      (run a_listener 5 some_peers).1.1
run-IsOver_example = run-IsOver a_listener 5 some_peers
