-- ===== src/Core/Departure.antt =====
-- What a connection leaves behind (device/core/src/server.rs, `handle`; device/core/src/core.rs,
-- `disconnect`).
use donkeywork_desktop.Base.{
  ℕ, ◌≡◌, ◌≢◌, refl, sym, Bool, true, false, not, ◌&&◌, some, List, [], ◌∷◌, arith, ◌==◌, is_some,
  is_some_and, is_empty, if◌then◌else◌, keep_if, Assoc, lookup, map_values,
}
use donkeywork_desktop.Base.Sets.{contains}
use donkeywork_desktop.Core.Types.{Core, Backend, Session, Lease, Connection}
use donkeywork_desktop.Core.Lifecycle.{release, leave, disconnect}
use donkeywork_desktop.Core.Revocation.{release_lease}
use donkeywork_desktop.Core.Handle.{Surroundings, serve_requests, handle}

contains-keep_if : (id : ℕ) (xs : List ℕ) → contains id (keep_if (λ x. not (x == id)) xs) ≡ false
unfolding contains
contains-keep_if id [] = refl
contains-keep_if id (x ∷ xs) = ground (arith, contains-keep_if id xs)

-- A session without a connection: it no longer lists it, and ends some time after its last one.
pub record IsLeft (id : ℕ) (s : Session) : Type 0 where
  pub unlisted : contains id s.connections ≡ false
  pub retained : is_empty s.connections ≡ true → is_some s.retain_until ≡ true

leave-IsLeft : (id now : ℕ) (s : Session) → IsLeft id (leave id now s)
leave-IsLeft id now s =
    go (is_empty (keep_if (λ x. not (x == id)) s.connections) && not (is_some s.retain_until)) refl
  where
    go :
        (b : Bool)
        → (is_empty (keep_if (λ x. not (x == id)) s.connections) && not (is_some s.retain_until))
          ≡ b
        → IsLeft id (leave id now s)
    go b e = record {
      unlisted = ground (arith, contains-keep_if id s.connections);
      retained = λ h. ground (arith, e, h);
    }

lookup-leave :
    (id now j : ℕ) (m : Assoc Session) (s : Session)
    → lookup j (map_values (λ _ s. leave id now s) m) ≡ some s
    → IsLeft id s
unfolding lookup map_values
lookup-leave id now j [] s h = absurd (ground (arith, h))
lookup-leave id now j ((i, t) ∷ m) s h = go (λ k. lookup-leave id now j m s k) (i == j) refl
  where
    go :
        (lookup j (map_values (λ _ s. leave id now s) m) ≡ some s → IsLeft id s)
        → (b : Bool) → (i == j) ≡ b
        → IsLeft id s
    go ih true e =
        let same : leave id now t ≡ s = ground (arith, h, e) in
        rw (sym same) (leave-IsLeft id now t)
    go ih false e = ih (ground (arith, h, e))

module _ {B : Type 0} ⦃K : Backend B⦄ where
  -- Nothing of a connection is left.
  pub record IsGone (id : ℕ) (c : Core B) : Type 0 where
    pub no_lease : (l : Lease) → c.lease ≡ some l → l.connection ≢ id
    pub sessions : (j : ℕ) (s : Session) → lookup j c.sessions ≡ some s → IsLeft id s

  disconnect-no_lease :
      (connection : Connection) (now : ℕ) (c : Core B) (l : Lease)
      → (disconnect connection now c).lease ≡ some l
      → l.connection ≢ connection.id
  unfolding disconnect
  disconnect-no_lease connection now c l h = ground (arith, h, release_lease c)

  -- A connection that is disconnected leaves nothing.
  disconnect-IsGone :
      (connection : Connection) (now : ℕ) (c : Core B)
      → IsGone connection.id (disconnect connection now c)
  unfolding disconnect
  disconnect-IsGone connection now c = record {
    no_lease = disconnect-no_lease connection now c;
    sessions = λ j s h. lookup-leave connection.id now j (freed c).sessions s h;
  }
    where
      freed : Core B → Core B
      freed c = if is_some_and c.lease (λ l. l.connection == connection.id) then release c else c

  -- However the loop over the requests of a connection was left, and whatever other connections did
  -- meanwhile: where the worker can be locked at the end, the connection holds no lease, no session
  -- lists it, and a session without connections has a time at which it ends.
  pub handle-IsGone :
      {X : Type 0} (U : Surroundings X B) (connection : Connection) (rounds : ℕ) (x : X)
      (c : Core B)
      → (U.locked (serve_requests U connection rounds x c).0).1 ≡ true
      → IsGone connection.id (handle U connection rounds x c).1
  unfolding handle
  handle-IsGone U connection rounds x c h =
      let served = serve_requests U connection rounds x c in
      let taken = U.locked served.0 in
      rw h (disconnect-IsGone connection (U.now taken.0).1 (U.meanwhile taken.0 served.1))
