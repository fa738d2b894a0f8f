-- ===== src/Core/Examples.antt =====
-- A worker at work: the theorems at concrete states. The backend has one display, and counts the
-- injections.
use donkeywork_desktop.Base.{
  ℕ, ◌+◌, ◌<◌, ◌≡◌, refl, Bool, true, false, Option, none, some, List, [], ◌∷◌, ok, err, ◌==◌, ◌⊎◌,
  lookup, put, without, map_values, find, length, leb, arith, keep_if, ltb, if◌then◌else◌,
}
use donkeywork_desktop.Core.Types.{
  Core, Backend, Session, Lease, Policy, Display, Frame, key, Connection, Target, Aim, Request,
  describe, session_open, Code, granted, ack, capture_failed, Cached, Reply, lease_time,
}
use donkeywork_desktop.Core.Lifecycle.{drop_sessions, ids_where, maintain, revoke_uid}
use donkeywork_desktop.Core.Admission.{authorized, effective, require, guard, sort_texts, dedup}
use donkeywork_desktop.Core.Requests.{
  Env, open_session, acquire_control, admit_input, aimed_display, check_input, inject_input,
  send_input,
}
use donkeywork_desktop.Core.Screen.{Shutter}
use donkeywork_desktop.Core.Process.{dispatch, has_key, perform, process, retry_or_perform}
use donkeywork_desktop.Core.Control.{MayInput, acquire_control_cases, send_input-MayInput}
use donkeywork_desktop.Core.Revocation.{
  remaining_lease, IsRevoked, revoke_uid-IsRevoked, maintain_lem,
}
use donkeywork_desktop.Core.Handle.{Surroundings, handle}
use donkeywork_desktop.Core.Departure.{IsGone, handle-IsGone}
use donkeywork_desktop.Core.Retry.{IsAdmitted, retry_once}

abbrev screen : Display
screen = record {
  display_id = 1;
  width = 800;
  height = 600;
  topology_revision = 3;
  cursor_embedded = true;
  can_resize = false;
  available_resolutions = [];
}

instance abbrev counting : Backend ℕ
counting = record {
  capabilities = λ b. "desktop.view" ∷ "desktop.control" ∷ [];
  displays = λ b. (b, ok (screen ∷ []));
  capture_next = λ d c t b. (b, err capture_failed);
  inject = λ r d i g b. (b + 1, ok tt);
  resize = λ r d m g b. (b, err capture_failed);
  release_all = λ b. (b, ok tt);
}

abbrev alice : Policy
alice = record { uid = 7; profile = "alice"; permissions = "desktop.control" ∷ [] }

abbrev session : Session
session = record {
  uid = 7;
  profile = "alice";
  epoch = 2;
  origin = 0;
  connections = 5 ∷ [];
  retain_until = none;
  closed = false;
  snapshots = record { id = 9; display = screen; captured = 10 } ∷ [];
}

abbrev lease : Lease
lease = record { id = 4; session = 1; connection = 5; deadline = 1000; sequence = 0 }

abbrev held : Core ℕ
held = record {
  worker_id = 0;
  policies = (7, alice) ∷ [];
  backend = 0;
  sessions = (1, session) ∷ [];
  lease = some lease;
  cache = [];
  faulted = false;
}

abbrev connection : Connection
connection = record { uid = 7; id = 5 }

abbrev target : Target
target = record { session_id = 1; session_epoch = 2 }

abbrev env : Env
env = record {
  maintained_at = 20;
  guarded_at = 21;
  injected_at = 22;
  done_at = 23;
  cancelled_first = false;
  cancelled_guard = false;
  cancelled_inject = false;
  new_id = 30;
  new_epoch = 31;
  new_message = 32;
}

abbrev shutter : Shutter
shutter = record {
  accepted = 20;
  captured_by = 21;
  checked_at = 22;
  encoded_by = 23;
  cancelled = false;
  new_snapshot = 33;
}

abbrev aim : Aim
aim = record { display_id = 1; snapshot_id = 9; topology_revision = 3 }

-- A key press of the holder arrives: the sequence moves, and the backend has injected once.
abbrev pressed : Core ℕ
pressed = record held { lease = some (record lease { sequence = 1 }); backend = 1 }

press : send_input env connection target 4 1 aim (key 41 true) held ≡ (pressed, ok ack)
unfolding send_input admit_input require effective sort_texts dedup guard aimed_display check_input
    inject_input lookup
press = refl

send_input-MayInput_example :
    (l : Lease) × MayInput env connection target 4 1 held l
    × (env.cancelled_inject ≡ false)
    × (env.injected_at < l.deadline)
    × (pressed.lease ≡ some (record l { sequence = 1 }))
send_input-MayInput_example =
    send_input-MayInput env connection target 4 1 aim (key 41 true) held pressed press

acquire_control_cases_example :
    let (d, r) = acquire_control env connection target held in
    ((d ≡ held) × ((e : Code) × (r ≡ err e)))
    ⊎ ((held.lease ≡ none)
        × (r ≡ ok (granted env.new_id))
        × ((l : Lease) × (d ≡ record held { lease = some l })
            × (l.connection ≡ connection.id)
            × (l.session ≡ target.session_id)
            × (l.deadline ≡ env.done_at + lease_time)))
acquire_control_cases_example = acquire_control_cases env connection target held

revoke_uid-IsRevoked_example : IsRevoked 7 held (revoke_uid 7 held)
revoke_uid-IsRevoked_example = revoke_uid-IsRevoked 7 held

maintain_lem_example :
    ((maintain 2000 held).lease ≡ remaining_lease 2000 held.sessions held.lease)
    × ((maintain 2000 held).cache ≡ keep_if (λ (e : Cached). ltb 2000 e.expires) held.cache)
maintain_lem_example = maintain_lem 2000 held

abbrev always : Request → Bool
always r = true

abbrev same_message : Request → Request → Bool
same_message a b = a.message_id == b.message_id

abbrev no_png : Frame → Option (List (List ℕ))
no_png f = none

abbrev open_request : Request
open_request = record { message_id = 50; body = session_open }

-- A request to open a session, the worker after it, and a second admission ten milliseconds later.
abbrev opened : Core ℕ × Reply
opened = process always same_message no_png env shutter connection open_request held

abbrev later : Env
later = record env {
  maintained_at = 33;
  guarded_at = 34;
  injected_at = 35;
  done_at = 36;
  new_id = 40;
  new_epoch = 41;
  new_message = 42;
}

abbrev first_admission : Core ℕ
first_admission = maintain 20 held

abbrev second_admission : Core ℕ
second_admission = maintain 33 opened.0

first_IsAdmitted :
    IsAdmitted always same_message no_png env connection open_request held first_admission
unfolding authorized maintain lookup drop_sessions ids_where
first_IsAdmitted = record { known = refl; live = refl; joined = refl }

second_IsAdmitted :
    IsAdmitted always same_message no_png later connection open_request opened.0 second_admission
unfolding authorized maintain lookup process drop_sessions ids_where retry_or_perform perform
    dispatch open_session effective dedup sort_texts map_values put without
second_IsAdmitted = record { known = refl; live = refl; joined = refl }

first_is_new : find (has_key 7 open_request) first_admission.cache ≡ none
unfolding maintain drop_sessions ids_where
first_is_new = refl

first_has_room :
    leb 256 (length (keep_if (λ (x : Cached). x.uid == 7) first_admission.cache)) ≡ false
unfolding maintain drop_sessions ids_where
first_has_room = refl

retry_once_example :
    process always same_message no_png later shutter connection open_request opened.0
    ≡ (second_admission, record opened.1 { message_id = 42 })
retry_once_example =
    retry_once always same_message no_png env later shutter shutter connection open_request held
      first_admission opened.0 second_admission refl refl refl first_IsAdmitted first_is_new
      first_has_room refl (omega arith) second_IsAdmitted

-- One request comes in, and then the connection ends.
abbrev one_request : ℕ → Option Request
one_request n = if n == 0 then some (record { message_id = 40; body = describe }) else none

abbrev around : Surroundings ℕ ℕ
around = record {
  receive = λ x. (x + 1, one_request x);
  locked = λ x. (x, true);
  meanwhile = λ x c. c;
  environment = λ x. (x, (env, shutter));
  is_cancelled = λ x. (x, false);
  send = λ reply x. (x, true);
  now = λ x. (x, 50);
  is_valid = λ r. true;
  is_same = λ r s. false;
  encode_png = λ f. none;
}

handle-IsGone_example : IsGone 5 (handle around connection 3 0 held).1
handle-IsGone_example = handle-IsGone around connection 3 0 held refl
