-- ===== src/Client/Leases.antt =====
-- Control that the client asks for (cli/src/lib.rs, `Client::controlled`).
use donkeywork_desktop.Base.{
  ◌≡◌, refl, Bool, true, false, ◌⊎◌, inl, inr, Option, none, some, Result, ok, err, ok_or, String,
}
use donkeywork_desktop.Base.Actions.{Act, lift, continue, ◌>>=◌}
use donkeywork_desktop.Wire.Messages.{Reply, Failure, invalid_record}
use donkeywork_desktop.Client.Png.{Decoder}
use donkeywork_desktop.Client.Endpoint.{Context}
use donkeywork_desktop.Client.Calls.{Messages, Socket, Client, call, keep_if, give_back, controlled}
use donkeywork_desktop.Client.Answers.{called, Called-err, Called-ok}

module _ {V P W : Type 0} (M : Messages V P) (K : Socket W) (D : Decoder) where
  abbrev acquire : Context → Act (Client W) Failure (Reply V)
  acquire context = call M K D "control.acquire" M.nothing (some context) "control.granted"

  abbrev release : Context → String → Act (Client W) Failure (Reply V)
  release context lease = call M K D "control.release" (M.with_lease lease) (some context) "ack"

  -- The lease that was granted is given back, and the release was acknowledged.
  pub record IsReturned {A : Type 0} (context : Context)
      (action : String → Act (Client W) Failure A) (c final : Client W) : Type 0 where
    pub granted : Client W
    pub grant : Reply V
    pub lease : String
    pub released : Reply V
    pub is_granted : acquire context c ≡ (granted, ok grant)
    pub is_lease : M.lease_id grant.header ≡ some lease
    pub is_released : release context lease (action lease granted).0 ≡ (final, ok released)

  module _ {A : Type 0} (context : Context) (action : String → Act (Client W) Failure A)
      (c : Client W) where
    returned :
        (granted : Client W) (grant : Reply V) (lease : String)
        → acquire context c ≡ (granted, ok grant)
        → M.lease_id grant.header ≡ some lease
        → (result : Result Failure A) (released : Client W × Result Failure (Reply V))
        → release context lease (action lease granted).0 ≡ released
        → (b : Bool) → (action lease granted).0.healthy ≡ b
        → ((keep_if M K D b ((action lease granted).0, result) released).0.healthy ≡ false)
          ⊎ IsReturned context action c
              (keep_if M K D b ((action lease granted).0, result) released).0
    returned granted grant lease g l result released e false h = inl h
    returned granted grant lease g l result (u, err x) e true h = inl (
        Called-err M K D "control.release" (M.with_lease lease) (some context) "ack"
          (action lease granted).0 u x
          (called M K D "control.release" (M.with_lease lease) (some context) "ack"
            (action lease granted).0 (u, err x) e))
    returned granted grant lease g l result (u, ok r) e true h = inr (record {
      granted = granted;
      grant = grant;
      lease = lease;
      released = r;
      is_granted = g;
      is_lease = l;
      is_released = e;
    })

    -- The end of `controlled`, from the lease id on and from the answer on.
    abbrev after_lease : Client W → Option String → Client W
    after_lease s found =
        ((lift (ok_or found invalid_record)
            >>= (λ lease u. give_back M K D context lease (action lease u)))
          s).0

    abbrev after_grant : Client W × Result Failure (Reply V) → Client W
    after_grant r =
        (continue r.1
          (λ grant.
            lift (ok_or (M.lease_id grant.header) invalid_record)
            >>= (λ lease u. give_back M K D context lease (action lease u)))
          r.0).0

    after_lease-IsReturned :
        (s : Client W) (grant : Reply V) (lease : String) (found : Option String)
        → acquire context c ≡ (s, ok grant)
        → M.lease_id grant.header ≡ some lease
        → M.lease_id grant.header ≡ found
        → ((after_lease s found).healthy ≡ false)
          ⊎ IsReturned context action c (after_lease s found)
    unfolding give_back
    after_lease-IsReturned s grant lease none g l e = cc
    after_lease-IsReturned s grant lease (some found) g l e =
        returned s grant found g e (action found s).1 (release context found (action found s).0)
          refl (action found s).0.healthy refl

    after_acquire :
        (r : Client W × Result Failure (Reply V))
        → acquire context c ≡ r
        → ((h : V)
            → M.json.validates h ≡ true
            → M.has_type "control.granted" h ≡ true
            → (lease : String) × (M.lease_id h ≡ some lease))
        → ((after_grant r).healthy ≡ false) ⊎ IsReturned context action c (after_grant r)
    after_acquire (s, err e) g leases = inl (
        Called-err M K D "control.acquire" M.nothing (some context) "control.granted" c s e (
          called M K D "control.acquire" M.nothing (some context) "control.granted" c (s, err e) g))
    after_acquire (s, ok grant) g leases =
        let answer =
          Called-ok M K D "control.acquire" M.nothing (some context) "control.granted" c s grant (
            called M K D "control.acquire" M.nothing (some context) "control.granted" c
              (s, ok grant) g) in
        let lease = leases grant.header answer.validated answer.kind in
        after_lease-IsReturned s grant lease.0 (M.lease_id grant.header) g lease.1 refl

    -- Where a grant that the schema allows has a lease id: control never outlives `controlled`. After
    -- it the connection is closed, or the lease that was granted to the action was given back, and
    -- the release was acknowledged; whatever the action did.
    pub controlled-IsReturned :
        ((h : V)
          → M.json.validates h ≡ true
          → M.has_type "control.granted" h ≡ true
          → (lease : String) × (M.lease_id h ≡ some lease))
        → ((controlled M K D context action c).0.healthy ≡ false)
          ⊎ IsReturned context action c (controlled M K D context action c).0
    unfolding controlled
    controlled-IsReturned leases = after_acquire (acquire context c) refl leases
