-- ===== src/Core/Revocation.antt =====
-- What `revoke_uid` and `maintain` leave behind (device/core/src/core.rs).
use donkeywork_desktop.Base.{
  ℕ, ◌<◌, ◌≡◌, ◌∙◌, ◌&&◌, ◌||◌, ap, Bool, Option, some, true, false, inl, inr, Bool-cases, ◌≢◌,
  refl, not, none, List, [], ◌∷◌, arith, ltb, leb, ◌==◌, is_some_and, if◌then◌else◌, inr, any,
  keep_if, Assoc, lookup, without, retain, lookup-without,
}
use donkeywork_desktop.Core.Types.{Core, Backend, Session, Lease, Cached}
use donkeywork_desktop.Core.Lifecycle.{
  release, ids_where, drop_sessions, maintain, revoke_uid, is_over, owns,
}

abbrev pub All {ℓ κ} : {A : Type ℓ} → (A → Type κ) → List A → Type κ
All P [] = Unit
All P (x ∷ xs) = P x × All P xs

All-keep_if :
    (uid : ℕ) (es : List Cached) → All (λ e. e.uid ≢ uid) (keep_if (λ e. not (e.uid == uid)) es)
All-keep_if uid [] = tt
All-keep_if uid (e ∷ es) = ground (arith, All-keep_if uid es)

All-live :
    (now : ℕ) (es : List Cached) → All (λ e. now < e.expires) (keep_if (λ e. ltb now e.expires) es)
All-live now [] = tt
All-live now (e ∷ es) = ground (arith, All-live now es)

lookup-retain :
    (uid id : ℕ) (m : Assoc Session) (s : Session)
    → lookup id (retain (λ _ s. not (s.uid == uid)) m) ≡ some s
    → s.uid ≢ uid
unfolding lookup retain
lookup-retain uid id [] s h = cc
lookup-retain uid id ((j, t) ∷ m) s h = ground (arith, lookup-retain uid id m s)

any-ids_where :
    (uid id : ℕ) (m : Assoc Session) (s : Session)
    → lookup id m ≡ some s
    → s.uid ≡ uid
    → any (λ i. i == id) (ids_where (λ s. s.uid == uid) m) ≡ true
unfolding lookup ids_where
any-ids_where uid id [] s h e = cc
any-ids_where uid id ((j, t) ∷ m) s h e = ground (arith, any-ids_where uid id m s)

-- A session of the id is over.
abbrev pub is_ended : ℕ → ℕ → Assoc Session → Bool
is_ended now id [] = false
is_ended now id ((j, s) ∷ m) = (id == j && is_over now s) || is_ended now id m

-- What is left of a lease when its time or that of its session comes.
abbrev pub remaining_lease : ℕ → Assoc Session → Option Lease → Option Lease
remaining_lease now sessions none = none
remaining_lease now sessions (some l) =
    if leb l.deadline now || is_ended now l.session sessions then none else some l

any-owns-none : (ids : List ℕ) → any (λ id. owns id none) ids ≡ false
any-owns-none [] = refl
any-owns-none (id ∷ ids) = any-owns-none ids

drop_free :
    (lease : Option Lease) (ids : List ℕ)
    → lease ≡ none
    → (if any (λ id. owns id lease) ids then none else lease) ≡ none
drop_free lease ids e = rw (e, any-owns-none ids) refl

any-owns_ended :
    (now : ℕ) (l : Lease) (m : Assoc Session)
    → any (λ id. owns id (some l)) (ids_where (is_over now) m) ≡ is_ended now l.session m
unfolding ids_where
any-owns_ended now l [] = refl
any-owns_ended now l ((j, s) ∷ m) = ground (arith, any-owns_ended now l m)

module _ {B : Type 0} ⦃K : Backend B⦄ where
  pub release_lease : (c : Core B) → (release c).lease ≡ none
  unfolding release
  release_lease c = ground arith

  release_cache : (c : Core B) → (release c).cache ≡ c.cache
  unfolding release
  release_cache c = ground arith

  -- Nothing of a revoked uid is left: no policy, no session, no remembered reply, and no lease on
  -- one of its sessions.
  pub record IsRevoked (uid : ℕ) (c d : Core B) : Type 0 where
    pub no_policy : lookup uid d.policies ≡ none
    pub no_session : (id : ℕ) (s : Session) → lookup id d.sessions ≡ some s → s.uid ≢ uid
    pub no_reply : All (λ (e : Cached). e.uid ≢ uid) d.cache
    pub no_lease :
        (l : Lease) (s : Session)
        → d.lease ≡ some l
        → lookup l.session c.sessions ≡ some s
        → s.uid ≢ uid

  -- Revoking a uid leaves nothing of it, whatever the worker held.
  pub revoke_uid-IsRevoked : (uid : ℕ) (c : Core B) → IsRevoked uid c (revoke_uid uid c)
  unfolding revoke_uid release
  revoke_uid-IsRevoked uid c = record {
    no_policy = ground (arith, lookup-without uid uid c.policies);
    no_session = λ id s h. lookup-retain uid id _ s h;
    no_reply = All-keep_if uid _;
    no_lease = λ l s h e owner. ground (arith, any-ids_where uid l.session c.sessions s);
  }

  -- Dropping sessions releases the lease exactly if its session is one of them.
  drop_sessions-lease :
      (ids : List ℕ) (c : Core B)
      → (drop_sessions ids c).lease ≡ (if any (λ id. owns id c.lease) ids then none else c.lease)
  unfolding drop_sessions
  drop_sessions-lease [] c = refl
  drop_sessions-lease (id ∷ ids) c =
      let freed = if owns id c.lease then release c else c in
      let ih = drop_sessions-lease ids (record freed { sessions = without id freed.sessions }) in
      ground (arith, ih, release_lease c, any-owns-none ids)

  drop_sessions-cache : (ids : List ℕ) (c : Core B) → (drop_sessions ids c).cache ≡ c.cache
  unfolding drop_sessions
  drop_sessions-cache [] c = refl
  drop_sessions-cache (id ∷ ids) c =
      let freed = if owns id c.lease then release c else c in
      let ih = drop_sessions-cache ids (record freed { sessions = without id freed.sessions }) in
      ground (arith, ih, release_cache c)

  release_sessions : (c : Core B) → (release c).sessions ≡ c.sessions
  unfolding release
  release_sessions c = ground arith

  timed_cache : (over : Bool) (c : Core B) → (if over then release c else c).cache ≡ c.cache
  timed_cache true c = release_cache c
  timed_cache false c = refl

  abbrev Timed : ℕ → Core B → Bool → Type 0
  Timed now c over =
      let timed = if over then release c else c in
      (if any (λ id. owns id timed.lease) (ids_where (is_over now) timed.sessions)
        then none
        else timed.lease)
      ≡ remaining_lease now c.sessions c.lease

  released-Timed :
      (now : ℕ) (c : Core B) (l : Lease)
      → c.lease ≡ some l
      → leb l.deadline now ≡ true
      → Timed now c true
  released-Timed now c l e late =
      let stale : none ≡ remaining_lease now c.sessions c.lease = rw (e, late) refl in
      drop_free (release c).lease (ids_where (is_over now) (release c).sessions) (release_lease c)
      ∙ stale

  held-Timed :
      (now : ℕ) (c : Core B) (l : Lease)
      → c.lease ≡ some l
      → leb l.deadline now ≡ false
      → Timed now c false
  held-Timed now c l e early = rw (e, early, any-owns_ended now l c.sessions) refl

  free-Timed : (now : ℕ) (c : Core B) → c.lease ≡ none → Timed now c false
  free-Timed now c e = rw (e, any-owns-none (ids_where (is_over now) c.sessions)) refl

  timed_lease : (now : ℕ) (c : Core B) → Timed now c (is_some_and c.lease (λ l. leb l.deadline now))
  timed_lease now c = by_lease c.lease refl
    where
      by_lease :
          (o : Option Lease) → c.lease ≡ o → Timed now c (is_some_and o (λ l. leb l.deadline now))
      by_lease none e = free-Timed now c e
      by_lease (some l) e = elim (Bool-cases (leb l.deadline now)) [
        | inl late ↦ rw late (released-Timed now c l e late)
        | inr early ↦ rw early (held-Timed now c l e early)
      ]

  -- `maintain` takes the lease away exactly if its deadline has come or a session of its id is over
  -- at that time, and otherwise leaves it as it was; and it forgets exactly the replies whose time
  -- to live is over.
  pub maintain_lem :
      (now : ℕ) (c : Core B)
      → ((maintain now c).lease ≡ remaining_lease now c.sessions c.lease)
        × ((maintain now c).cache ≡ keep_if (λ e. ltb now e.expires) c.cache)
  unfolding maintain
  maintain_lem now c =
      let over = is_some_and c.lease (λ l. leb l.deadline now) in
      let timed = if over then release c else c in
      let ids = ids_where (is_over now) timed.sessions in
      (
        drop_sessions-lease ids timed ∙ timed_lease now c,
        ap (keep_if (λ e. ltb now e.expires)) (drop_sessions-cache ids timed ∙ timed_cache over c),
      )
