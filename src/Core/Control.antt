-- ===== src/Core/Control.antt =====
-- The control lease: one holder at a time, and no input without it.
use donkeywork_desktop.Base.{
  String, ℕ, ◌+◌, ◌<◌, ◌≡◌, refl, Bool, true, false, none, some, ok, err, arith, ◌⊎◌, inl, inr,
  Bool-cases, Option-cases, lookup,
}
use donkeywork_desktop.Core.Types.{
  Code, Core, Backend, Lease, Guard, Connection, Target, Aim, Input, Display, ack, granted,
  Fallible, lease_time, control_conflict, forbidden, unsupported_capability, worker_unavailable,
}
use donkeywork_desktop.Core.Monad.{Act, lift, ◌>>=◌, continue}
use donkeywork_desktop.Core.Admission.{
  contains, permissions_of, effective, require, guard, check_guard,
}
use donkeywork_desktop.Core.Requests.{
  Env, acquire_control, admit_input, aimed_display, check_input, inject_input, send_input,
}

-- Inversion of a step that succeeded.
>>=-eq-ok :
    {B A C : Type 0} (m : Act B A) (f : A → Act B C) {c c' : Core B} {x : C}
    → (m >>= f) c ≡ (c', ok x)
    → (d : Core B) × (a : A) × (m c ≡ (d, ok a)) × (f a d ≡ (c', ok x))
>>=-eq-ok {B} {A} {C} m f {c} {c'} {x} h = split (m c) refl h
  where
    split :
        (r : Core B × Fallible A)
        → m c ≡ r
        → continue r.1 f r.0 ≡ (c', ok x)
        → (d : Core B) × (a : A) × (m c ≡ (d, ok a)) × (f a d ≡ (c', ok x))
    split (d, ok a) e h = (d, a, e, h)
    split (d, err y) e h = cc

module _ {B : Type 0} ⦃K : Backend B⦄ where
  -- The connection holds the lease that it names, for its session; the lease has not run out, the
  -- sequence is the next one, and the uid may control a worker that is not faulted.
  pub record MayInput (env : Env) (connection : Connection) (target : Target)
      (lease_id sequence : ℕ) (c : Core B) (l : Lease) : Type 0 where
    pub held : c.lease ≡ some l
    pub by_connection : l.connection ≡ connection.id
    pub for_session : l.session ≡ target.session_id
    pub by_id : l.id ≡ lease_id
    pub in_time : env.guarded_at < l.deadline
    pub in_order : sequence ≡ l.sequence + 1
    pub permitted :
        contains "desktop.control" (permissions_of (lookup connection.uid c.policies)) ≡ true
    pub supported : contains "desktop.control" (effective c connection.uid) ≡ true
    pub healthy : c.faulted ≡ false

  require_cases :
      (uid : ℕ) (p : String) (c : Core B)
      → ((require uid p c ≡ (c, ok tt))
          × (contains p (permissions_of (lookup uid c.policies)) ≡ true)
          × (contains p (effective c uid) ≡ true)
          × (c.faulted ≡ false))
        ⊎ ((e : Code) × (require uid p c ≡ (c, err e)))
  unfolding require
  require_cases uid p c = elim (Bool-cases (contains p (permissions_of (lookup uid c.policies)))) [
    | inr never ↦ inr (forbidden, rw never)
    | inl permitted ↦ elim (Bool-cases (contains p (effective c uid))) [
      | inr missing ↦ inr (unsupported_capability, rw (permitted, missing))
      | inl there ↦ elim (Bool-cases c.faulted) [
        | inl faulty ↦ inr (worker_unavailable, rw (permitted, there, faulty))
        | inr healthy ↦ inl (rw (permitted, there, healthy), permitted, there, healthy)
      ]
    ]
  ]

  guard_lem :
      (connection : Connection) (target : Target) (lease_id : ℕ) (cancelled : Bool) (now : ℕ)
      (c d : Core B) (g : Guard)
      → guard connection target lease_id cancelled now c ≡ (d, ok g)
      → (l : Lease) × (d ≡ c)
        × (c.lease ≡ some l)
        × (l.connection ≡ connection.id)
        × (l.session ≡ target.session_id)
        × (l.id ≡ lease_id)
        × (now < l.deadline)
        × (g.deadline ≡ l.deadline)
  unfolding guard
  guard_lem connection target lease_id cancelled now c d g h = elim (Option-cases c.lease) [
    | inl free ↦ absurd (ground arith)
    | inr (l, e) ↦
        (l, ground arith, e, ground arith, ground arith, ground arith, ground arith, ground arith)
  ]

  -- Control is granted only while nobody holds the lease: then the new lease is the connection's,
  -- for the session of the request and the lease time. Any other attempt fails and leaves the
  -- worker as it was.
  pub acquire_control_cases :
      (env : Env) (connection : Connection) (target : Target) (c : Core B)
      → let (d, r) = acquire_control env connection target c in
        ((d ≡ c) × ((e : Code) × (r ≡ err e)))
        ⊎ ((c.lease ≡ none)
            × (r ≡ ok (granted env.new_id))
            × ((l : Lease) × (d ≡ record c { lease = some l })
                × (l.connection ≡ connection.id)
                × (l.session ≡ target.session_id)
                × (l.deadline ≡ env.done_at + lease_time)))
  unfolding acquire_control
  acquire_control_cases env connection target c =
      elim (require_cases connection.uid "desktop.control" c) [
        | inr (e, refused) ↦ rw refused (inl (refl, (e, refl)))
        | inl (allowed, _, _, _) ↦ rw allowed (elim (Option-cases c.lease) [
          | inl free ↦ inr (
            free,
            ground arith,
            (
              record {
                id = env.new_id;
                session = target.session_id;
                connection = connection.id;
                deadline = env.done_at + lease_time;
                sequence = 0;
              },
              ground arith,
              refl,
              refl,
              refl,
            ),
          )
          | inr (l, held) ↦ inl (ground arith, (control_conflict, ground arith))
        ])
      ]

  admit_input-MayInput :
      (env : Env) (connection : Connection) (target : Target) (lease_id sequence : ℕ) (c d : Core B)
      (g : Guard)
      → admit_input env connection target lease_id sequence c ≡ (d, ok g)
      → (l : Lease) × (d ≡ c)
        × MayInput env connection target lease_id sequence c l
        × (g.deadline ≡ l.deadline)
  unfolding admit_input
  admit_input-MayInput env connection target lease_id sequence c d g h =
      elim (require_cases connection.uid "desktop.control" c) [
        | inr (e, refused) ↦ absurd (cc refused)
        | inl (allowed, permitted, supported, healthy) ↦
            let (c1, g1, e1, h1) =
              >>=-eq-ok (guard connection target lease_id env.cancelled_guard env.guarded_at) _
                (rw allowed at h) in
            let (l, same, held, by, for, id, time, deadline) =
              guard_lem connection target lease_id env.cancelled_guard env.guarded_at c c1 g1 e1 in
            (
              l,
              ground arith,
              record {
                held = held;
                by_connection = by;
                for_session = for;
                by_id = id;
                in_time = time;
                in_order = ground arith;
                permitted = permitted;
                supported = supported;
                healthy = healthy;
              },
              ground arith,
            )
      ]

  inject_input_ack :
      (current : Display) (input : Input) (g : Guard) (sequence : ℕ) (c d : Core B) (l : Lease)
      → c.lease ≡ some l
      → inject_input current input g sequence c ≡ (d, ok ack)
      → d.lease ≡ some (record l { sequence = sequence })
  unfolding inject_input
  inject_input_ack current input g sequence c d l held h = ground arith

  aimed_display_lem :
      (target : Target) (aim : Aim) (c d : Core B) (x : Display)
      → aimed_display target aim c ≡ (d, ok x)
      → d.lease ≡ c.lease
  unfolding aimed_display
  aimed_display_lem target aim c d x h = ground arith

  -- An input event is acknowledged only for the holder of the lease, in time both at the guard and
  -- right before the injection, with the next sequence, which is then used up.
  pub send_input-MayInput :
      (env : Env) (connection : Connection) (target : Target) (lease_id sequence : ℕ) (aim : Aim)
      (input : Input) (c d : Core B)
      → send_input env connection target lease_id sequence aim input c ≡ (d, ok ack)
      → (l : Lease) × MayInput env connection target lease_id sequence c l
        × (env.cancelled_inject ≡ false)
        × (env.injected_at < l.deadline)
        × (d.lease ≡ some (record l { sequence = sequence }))
  unfolding send_input
  send_input-MayInput env connection target lease_id sequence aim input c d h =
      let (c1, g1, e1, h1) = >>=-eq-ok (admit_input env connection target lease_id sequence) _ h in
      let (c2, current, e2, h2) = >>=-eq-ok (aimed_display target aim) _ h1 in
      let (c3, checked, e3, h3) = >>=-eq-ok (lift (check_input current input)) _ h2 in
      let (c4, _, e4, h4) =
        >>=-eq-ok (lift (check_guard env.cancelled_inject env.injected_at g1)) _ h3 in
      let (l, same, may, deadline) =
        admit_input-MayInput env connection target lease_id sequence c c1 g1 e1 in
      let lease_same = aimed_display_lem target aim c1 c2 current e2 in
      let held : c4.lease ≡ some l = ground (arith, may) in
      (
        l,
        may,
        ground arith,
        ground arith,
        inject_input_ack current checked g1 sequence c4 d l held h4,
      )
