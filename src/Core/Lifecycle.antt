-- ===== src/Core/Lifecycle.antt =====
-- What the worker does outside requests: `release`, `maintain`, `disconnect`, `revoke_uid`
-- (device/core/src/core.rs).
use donkeywork_desktop.Base.{
  ℕ, ◌+◌, ◌-◌, Bool, true, not, ◌&&◌, Option, none, some, List, [], ◌∷◌, ok, err, leb, ltb, ◌==◌,
  is_some, is_some_and, if◌then◌else◌, keep_if, any, is_empty, Assoc, without, retain, map_values,
}
use donkeywork_desktop.Core.Types.{Core, Backend, Session, Lease, Connection, Fallible, retention}

abbrev pub owns : ℕ → Option Lease → Bool
owns id lease = is_some_and lease (λ l. l.session == id)

abbrev pub is_over : ℕ → Session → Bool
is_over now s = is_some_and s.retain_until (λ t. leb t now)

-- The ids of the sessions that pass a test.
unfoldable pub ids_where : (Session → Bool) → Assoc Session → List ℕ
ids_where p [] = []
ids_where p ((id, s) ∷ m) = let rest = ids_where p m in if p s then id ∷ rest else rest

abbrev pub fresh_snapshots : ℕ → Session → Session
fresh_snapshots now s = record s {
  snapshots = keep_if (λ p. ltb (now - p.captured) retention) s.snapshots;
}

-- The loop body of `disconnect`; `now` is read for each session, and the readings are taken to
-- be one.
abbrev pub leave : ℕ → ℕ → Session → Session
leave id now s =
    let left = record s { connections = keep_if (λ x. not (x == id)) s.connections } in
    if is_empty left.connections && not (is_some left.retain_until)
    then record left { retain_until = some (now + retention) }
    else left

module _ {B : Type 0} ⦃K : Backend B⦄ where
  -- The backend after `release_all`, and whether that failed.
  abbrev released : Core B → B × Fallible (Unit {0}) → Core B
  released c (b, ok _) = record c { lease = none; backend = b }
  released c (b, err e) = record c { lease = none; backend = b; faulted = true }

  unfoldable pub release : Core B → Core B
  release c = if is_some c.lease then released c (K.release_all c.backend) else c

  abbrev release_if : Bool → Core B → Core B
  release_if test c = if test then release c else c

  -- `for id in expired`
  unfoldable pub drop_sessions : List ℕ → Core B → Core B
  drop_sessions [] c = c
  drop_sessions (id ∷ ids) c =
      let freed = release_if (owns id c.lease) c in
      drop_sessions ids (record freed { sessions = without id freed.sessions })

  unfoldable pub maintain : ℕ → Core B → Core B
  maintain now c =
      let timed = release_if (is_some_and c.lease (λ l. leb l.deadline now)) c in
      let kept = drop_sessions (ids_where (is_over now) timed.sessions) timed in
      record kept {
        sessions = map_values (λ _ s. fresh_snapshots now s) kept.sessions;
        cache = keep_if (λ e. ltb now e.expires) kept.cache;
      }

  -- The connection's `cancelled` flag, which other threads read, is not part of the worker.
  unfoldable pub disconnect : Connection → ℕ → Core B → Core B
  disconnect connection now c =
      let freed = release_if (is_some_and c.lease (λ l. l.connection == connection.id)) c in
      record freed { sessions = map_values (λ _ s. leave connection.id now s) freed.sessions }

  unfoldable pub revoke_uid : ℕ → Core B → Core B
  revoke_uid uid c =
      let barred = record c { policies = without uid c.policies } in
      let ids = ids_where (λ s. s.uid == uid) barred.sessions in
      let freed =
        release_if (is_some_and barred.lease (λ l. any (λ id. id == l.session) ids)) barred in
      record freed {
        sessions = retain (λ _ s. not (s.uid == uid)) freed.sessions;
        cache = keep_if (λ e. not (e.uid == uid)) freed.cache;
      }
