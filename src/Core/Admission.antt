-- ===== src/Core/Admission.antt =====
-- Who may do what: `Core::new`, `authorized`, `effective`, `require`, `bound`, `guard` and
-- `Guard::check` (device/core/src/core.rs).
use Prim.Native.String.{compare, len}
use text.Mathlib.Text.{◌==◌ as str_eq, is_le}
use donkeywork_desktop.Base.{
  ℕ, Bool, false, not, ◌||◌, Option, none, some, List, [], ◌∷◌, String, ok, err, leb, ltb, ◌==◌,
  is_some, if◌then◌else◌, keep_if, any, length, Assoc, lookup, put,
}
use donkeywork_desktop.Core.Types.{
  Core, Backend, Session, Lease, Policy, Connection, Target, Guard, Fallible, invalid_argument,
  forbidden, unsupported_capability, worker_unavailable, not_found, stale_epoch, expired,
  control_conflict,
}
use donkeywork_desktop.Core.Monad.{Act}

abbrev pub contains : String → List String → Bool
contains p = any (λ q. str_eq q p)

abbrev allowed : List String
allowed =
    "desktop.view" ∷ "desktop.control" ∷ "desktop.resize" ∷ "clipboard.read" ∷ "clipboard.write"
    ∷ "terminal.open" ∷ "terminal.input" ∷ []

abbrev is_bad_policy : Policy → Assoc Policy → Bool
is_bad_policy p seen =
    len p.profile == 0
    || ltb 128 (len p.profile)
    || ltb 7 (length p.permissions)
    || any (λ q. not (contains q allowed)) p.permissions
    || is_some (lookup p.uid seen)

-- The loop of `Core::new`.
unfoldable pub admit : List Policy → Assoc Policy → Fallible (Assoc Policy)
admit [] seen = ok seen
admit (p ∷ ps) seen =
    let rest = admit ps (put p.uid p seen) in
    if is_bad_policy p seen then err invalid_argument else rest

abbrev start : {B : Type 0} → ℕ → B → Fallible (Assoc Policy) → Fallible (Core B)
start worker_id backend (err e) = err e
start worker_id backend (ok policies) = ok (record {
  worker_id = worker_id;
  policies = policies;
  backend = backend;
  sessions = [];
  lease = none;
  cache = [];
  faulted = false;
})

unfoldable pub new_core : {B : Type 0} → ℕ → List Policy → B → Fallible (Core B)
new_core worker_id policies backend = start worker_id backend (admit policies [])

-- `sort` and `dedup`.
abbrev insert_text : String → List String → List String
insert_text p [] = p ∷ []
insert_text p (q ∷ qs) = if is_le (compare p q) then p ∷ q ∷ qs else q ∷ insert_text p qs

unfoldable pub sort_texts : List String → List String
sort_texts [] = []
sort_texts (p ∷ ps) = insert_text p (sort_texts ps)

unfoldable pub dedup : List String → List String
dedup [] = []
dedup (p ∷ []) = p ∷ []
dedup (p ∷ q ∷ qs) = let rest = dedup (q ∷ qs) in if str_eq p q then rest else p ∷ rest

-- `self.policies[&uid]`, which panics where there is no such policy: `process` asks `authorized`
-- first.
abbrev pub permissions_of : Option Policy → List String
permissions_of none = []
permissions_of (some p) = p.permissions

abbrev pub profile_of : Option Policy → String
profile_of none = ""
profile_of (some p) = p.profile

abbrev pub check_guard : Bool → ℕ → Guard → Fallible (Unit {0})
check_guard cancelled now g = if cancelled || leb g.deadline now then err expired else ok tt

-- `session.connections.insert(connection.id)` and `retain_until = None`
abbrev join : ℕ → Session → Session
join id s = record s {
  connections = if any (λ x. x == id) s.connections then s.connections else id ∷ s.connections;
  retain_until = none;
}

abbrev pub guard_by : Connection → Target → ℕ → Bool → ℕ → Lease → Fallible Guard
guard_by connection target lease_id cancelled now l =
    if not (l.connection == connection.id)
      || not (l.session == target.session_id)
      || not (l.id == lease_id)
    then err control_conflict
    else if cancelled || leb l.deadline now
    then err expired
    else ok (record { deadline = l.deadline; connection = connection.id })

module _ {B : Type 0} ⦃K : Backend B⦄ where
  unfoldable pub authorized : Core B → ℕ → Bool
  authorized c uid = is_some (lookup uid c.policies)

  unfoldable pub effective : Core B → ℕ → List String
  effective c uid = dedup (
      sort_texts (
        keep_if (λ p. contains p (K.capabilities c.backend))
          (permissions_of (lookup uid c.policies))))

  unfoldable pub require : ℕ → String → Act B (Unit {0})
  require uid permission c = (
    c,
    (if not (contains permission (permissions_of (lookup uid c.policies)))
        then err forbidden
        else if not (contains permission (effective c uid))
        then err unsupported_capability
        else if c.faulted
        then err worker_unavailable
        else ok tt),
  )

  abbrev bind_session : Connection → Target → Bool → Core B → Session → Core B × Fallible (Unit {0})
  bind_session connection target closing c s =
      if not (s.uid == connection.uid)
        || not (str_eq s.profile (profile_of (lookup connection.uid c.policies)))
      then (c, err forbidden)
      else if not (s.epoch == target.session_epoch)
      then (c, err stale_epoch)
      else if s.closed
      then (c, (if closing then ok tt else err not_found))
      else (record c { sessions = put target.session_id (join connection.id s) c.sessions }, ok tt)

  -- `closing` says whether the request is `session.close`.
  unfoldable pub bound : Connection → Target → Bool → Act B (Unit {0})
  bound connection target closing c = elim (lookup target.session_id c.sessions) [
    | none ↦ (c, err not_found)
    | some s ↦ bind_session connection target closing c s
  ]

  -- `cancelled` and `now` are the readings of `Guard::check`.
  unfoldable pub guard : Connection → Target → ℕ → Bool → ℕ → Act B Guard
  guard connection target lease_id cancelled now c = elim c.lease [
    | none ↦ (c, err expired)
    | some l ↦ (c, guard_by connection target lease_id cancelled now l)
  ]
