-- ===== src/Core/Requests.antt =====
-- `dispatch` for the requests about sessions, control and input (device/core/src/core.rs). An
-- `Env` holds what the calls of one request read from outside: the clock, the `cancelled` flag and
-- new uuids, each by the place in the code that reads it.
use donkeywork_desktop.Base.{
  ℕ, ◌+◌, ◌%◌, Bool, true, false, not, ◌&&◌, ◌||◌, Option, none, some, List, [], ◌∷◌, ok, err,
  ok_or, leb, ltb, ◌==◌, is_some, if◌then◌else◌, is_empty, find, Assoc, lookup, put,
}
use donkeywork_desktop.Core.Types.{
  Fallible, Core, Backend, Session, Lease, Snapshot, Display, Input, pointer, key, text, Action,
  move, Button, no_button, Guard, Connection, Target, Aim, Payload, described, ack, granted,
  retention, lease_time, invalid_argument, unsupported_capability, not_found, control_conflict,
  resource_exhausted, stale_sequence, stale_topology,
}
use donkeywork_desktop.Core.Monad.{Act, pure, lift, gets, ask, modify, ensure, ◌>>=◌, ◌>>◌}
use donkeywork_desktop.Core.Lifecycle.{release, owns}
use donkeywork_desktop.Core.Admission.{contains, effective, require, guard, check_guard, profile_of}

pub record Env : Type 0 where
  -- `maintain`, `Guard::check` in `guard`, the check before an injection, and the last reading.
  pub maintained_at : ℕ
  pub guarded_at : ℕ
  pub injected_at : ℕ
  pub done_at : ℕ
  pub cancelled_first : Bool
  pub cancelled_guard : Bool
  pub cancelled_inject : Bool
  pub new_id : ℕ
  pub new_epoch : ℕ
  pub new_message : ℕ

abbrev open_count : ℕ → Assoc Session → ℕ
open_count uid [] = 0
open_count uid ((id, s) ∷ m) =
    let rest = open_count uid m in if s.uid == uid && not s.closed then rest + 1 else rest

abbrev pub snapshots_of : Option Session → List Snapshot
snapshots_of none = []
snapshots_of (some s) = s.snapshots

abbrev is_move : Action → Bool
is_move move = true
is_move _ = false

abbrev is_none : Button → Bool
is_none no_button = true
is_none _ = false

abbrev same_bool : Bool → Bool → Bool
same_bool true b = b
same_bool false b = not b

-- A pointer event lies on the display, and moves exactly if it has no button. A key's usage is
-- cut to 16 bits.
unfoldable pub check_input : Display → Input → Fallible Input
check_input d (pointer x y action button) =
    if leb d.width x || leb d.height y
    then err invalid_argument
    else if not (same_bool (is_move action) (is_none button))
    then err invalid_argument
    else ok (pointer x y action button)
check_input d (key usage down_) = ok (key (usage % 65536) down_)
check_input d (text t) = ok (text t)

-- The display that is shown now still is the one of the request and of its snapshot.
abbrev is_current : Display → Display → ℕ → Bool
is_current current seen revision =
    current.topology_revision == revision
    && current.topology_revision == seen.topology_revision
    && current.width == seen.width
    && current.height == seen.height

abbrev set_sequence : ℕ → Option Lease → Option Lease
set_sequence n none = none
set_sequence n (some l) = some (record l { sequence = n })

abbrev sequence_of : Option Lease → ℕ
sequence_of none = 0
sequence_of (some l) = l.sequence

abbrev close_session : ℕ → Option Session → Option Session
close_session until none = none
close_session until (some s) =
    some (record s { closed = true; snapshots = []; retain_until = some until })

abbrev extend : ℕ → Option Lease → Option Lease
extend deadline none = none
extend deadline (some l) = some (record l { deadline = deadline })

module _ {B : Type 0} ⦃K : Backend B⦄ where
  unfoldable pub describe_worker : ℕ → Act B Payload
  describe_worker uid = do
    permissions ← gets (λ c. effective c uid)
    displays ← if contains "desktop.view" permissions then ask K.displays else pure []
    c ← gets (λ c. c)
    pure (described c.worker_id uid (profile_of (lookup uid c.policies)) permissions displays)

  -- The session that is bound to the connection, with the ids that the reply names.
  unfoldable pub open_session : Env → Connection → Act B Target
  open_session env connection = do
    permissions ← gets (λ c. effective c connection.uid)
    ensure (not (is_empty permissions)) unsupported_capability
    open_now ← gets (λ c. open_count connection.uid c.sessions)
    ensure (ltb open_now 2) resource_exhausted
    c ← gets (λ c. c)
    let session : Session = record {
      uid = connection.uid;
      profile = profile_of (lookup connection.uid c.policies);
      epoch = env.new_epoch;
      origin = env.done_at;
      connections = connection.id ∷ [];
      retain_until = none;
      closed = false;
      snapshots = [];
    }
    modify (λ c. record c { sessions = put env.new_id session c.sessions })
    pure (record { session_id = env.new_id; session_epoch = env.new_epoch })

  abbrev update_session : ℕ → Option Session → Core B → Core B
  update_session id none c = c
  update_session id (some s) c = record c { sessions = put id s c.sessions }

  unfoldable pub close_bound : Env → ℕ → Core B → Core B
  close_bound env sid c =
      let freed = if owns sid c.lease then release c else c in
      update_session sid (close_session (env.done_at + retention) (lookup sid freed.sessions)) freed

  unfoldable pub acquire_control : Env → Connection → Target → Act B Payload
  acquire_control env connection target = do
    require connection.uid "desktop.control"
    held ← gets (λ c. is_some c.lease)
    ensure (not held) control_conflict
    let lease : Lease = record {
      id = env.new_id;
      session = target.session_id;
      connection = connection.id;
      deadline = env.done_at + lease_time;
      sequence = 0;
    }
    modify (λ c. record c { lease = some lease })
    pure (granted env.new_id)

  unfoldable pub renew_control : Env → Connection → Target → ℕ → Act B Payload
  renew_control env connection target lease_id = do
    require connection.uid "desktop.control"
    g ← guard connection target lease_id env.cancelled_guard env.guarded_at
    modify (λ c. record c { lease = extend (env.done_at + lease_time) c.lease })
    pure (granted lease_id)

  release_held : Env → Connection → Target → ℕ → Act B Payload
  release_held env connection target lease_id = do
    g ← guard connection target lease_id env.cancelled_guard env.guarded_at
    modify release
    pure ack

  unfoldable pub release_control : Env → Connection → Target → ℕ → Act B Payload
  unfolding release_held
  release_control env connection target lease_id c =
      if is_some c.lease then release_held env connection target lease_id c else (c, ok ack)

  -- What stands before any input event: the guard, and the sequence.
  unfoldable pub admit_input : Env → Connection → Target → ℕ → ℕ → Act B Guard
  admit_input env connection target lease_id sequence = do
    require connection.uid "desktop.control"
    g ← guard connection target lease_id env.cancelled_guard env.guarded_at
    last ← gets (λ c. sequence_of c.lease)
    ensure (sequence == last + 1) stale_sequence
    pure g

  unfoldable pub reset_input : Env → Connection → Target → ℕ → ℕ → Act B Payload
  reset_input env connection target lease_id sequence = do
    g ← admit_input env connection target lease_id sequence
    modify (λ c. record c { lease = set_sequence sequence c.lease })
    ask K.release_all
    pure ack

  -- A failed injection gives the lease up.
  abbrev after_inject : B × Fallible (Unit {0}) → Core B → Core B × Fallible Payload
  after_inject (b, ok _) c = (record c { backend = b }, ok ack)
  after_inject (b, err e) c = (release (record c { backend = b }), err e)

  unfoldable pub inject_input : Display → Input → Guard → ℕ → Act B Payload
  inject_input current input g sequence c =
      let marked = record c { lease = set_sequence sequence c.lease } in
      after_inject (K.inject current.topology_revision current.display_id input g marked.backend)
        marked

  -- The display that an event means, if the screen is as the client has seen it.
  unfoldable pub aimed_display : Target → Aim → Act B Display
  aimed_display target aim = do
    held ← gets (λ c. snapshots_of (lookup target.session_id c.sessions))
    seen ← lift (ok_or (find (λ p. p.id == aim.snapshot_id) held) not_found)
    ensure (seen.display.display_id == aim.display_id) not_found
    shown ← ask K.displays
    current ← lift (ok_or (find (λ d. d.display_id == aim.display_id) shown) not_found)
    ensure (is_current current seen.display aim.topology_revision) stale_topology
    pure current

  unfoldable pub send_input : Env → Connection → Target → ℕ → ℕ → Aim → Input → Act B Payload
  send_input env connection target lease_id sequence aim input = do
    g ← admit_input env connection target lease_id sequence
    current ← aimed_display target aim
    checked ← lift (check_input current input)
    lift (check_guard env.cancelled_inject env.injected_at g)
    inject_input current checked g sequence
