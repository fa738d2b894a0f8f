-- ===== src/Input/Polls.antt =====
-- A poll of the peer's socket, and the frames it gives away (device/console/src/bin/input-daemon.rs,
-- `FrameReader::poll`).
use donkeywork_desktop.Base.{
  ℕ, ◌+◌, ◌-◌, ◌≤◌, ◌<◌, arith, if◌then◌else◌, ◌≡◌, refl, sym, ap, ◌∙◌, not, true, Option, none,
  some, List, [], ◌∷◌, ◌++◌, Result, ok, err, leb, ◌⊎◌, length,
}
use mathlib.Core.List.{append-nil}
use donkeywork_desktop.Base.Actions.{pure, gets, ensure, ◌>>=◌, ◌>>◌}
use donkeywork_desktop.Base.Contracts.{
  Contract, Post, pure-Contract, raise-Contract, gets-Contract, if-Contract, modify-Contract,
  ensure-Contract_by, before-Contract, fact-Contract, >>=-Contract, by_result,
}
use donkeywork_desktop.Console.Owner.{Refusal}
use donkeywork_desktop.Console.Records.{from_be_bytes}
use donkeywork_desktop.Console.Lease.{lease_ms}
use donkeywork_desktop.Input.Reader.{FrameReader, fresh, wanted, target, finish_read}
use donkeywork_desktop.Input.Frames.{
  IsFramed, IsPartial, IsPartialAt, Progress, finish_read-Progress, filled,
}
use donkeywork_desktop.Input.Daemon.{
  Daemon, Thread, Method, ask, observe, Arrival, arrived, again, failed,
}
use donkeywork_desktop.Input.Stream.{
  start_frame, take_in, after_read, read_some, poll, keep_reader, is_over, until,
}

module _ {X S : Type 0} (K : Daemon X S)
    (bounded : (x : X) (most : ℕ) (bytes : List ℕ)
      → (K.read most x).1 ≡ arrived bytes
      → length bytes ≤ most)
    (before : List ℕ) (total : Option ℕ) (partial : IsPartialAt before total) (due : Option ℕ)
    (wake : ℕ) where
  abbrev most_wanted : ℕ
  most_wanted = target total - length before

  -- What was read: the bytes that a read of what is wanted brought; or none, where the clock was
  -- past the time to wake or the deadline, or where that read was timed out or interrupted.
  pub data IsRead : List ℕ → Type 0 where
    came : (x : X) (chunk : List ℕ) → (K.read most_wanted x).1 ≡ arrived chunk → IsRead chunk
    passed : (x : X) → (K.read most_wanted x).1 ≡ again → IsRead []
    awake : (x : X) → leb (until due wake) (K.now x).1 ≡ true → IsRead []

  -- After a poll: the bytes read are added to those that were there, or complete a frame.
  abbrev pub Polled : Option (List ℕ) → Thread X S → Type 0
  Polled none u =
      (chunk : List ℕ) × IsRead chunk × IsPartial u.reader × (u.reader.bytes ≡ before ++ chunk)
  Polled (some frame) u =
      (chunk : List ℕ) × IsRead chunk × (u.reader ≡ fresh) × IsFramed (before ++ chunk) frame

  -- Why a poll fails: the clock has reached the deadline of the frame, the time-out could not be
  -- set, the peer is gone or its socket broken, or the length that is stated is not allowed.
  pub data IsRefused (u : Thread X S) : Type 0 where
    late : (x : X) → is_over u.reader.deadline (K.now x).1 ≡ true → IsRefused u
    untimed : (n : ℕ) (x : X) (e : Refusal) → (K.set_timeout n x).1 ≡ err e → IsRefused u
    gone : (x : X) → (K.read most_wanted x).1 ≡ arrived [] → IsRefused u
    broken : (x : X) → (K.read most_wanted x).1 ≡ failed → IsRefused u
    ill_stated :
        (chunk : List ℕ)
        → IsRead chunk
        → length (before ++ chunk) ≡ 4
        → (from_be_bytes (before ++ chunk) ≡ 0) ⊎ (4096 < from_be_bytes (before ++ chunk))
        → IsRefused u

  -- The bytes and the length that the reader has.
  abbrev pub At : List ℕ → FrameReader → Type 0
  At bytes r = (r.bytes ≡ bytes) × (r.total ≡ total)

  abbrev On : (FrameReader → Type 0) → Thread X S → Type 0
  On P u = P u.reader

  -- Before the read.
  abbrev Waiting : FrameReader → Type 0
  Waiting r = At before r × (r.deadline ≡ due)

  kept-Post :
      (chunk : List ℕ) (u : Thread X S) (r : FrameReader × Result Refusal (Option (List ℕ)))
      → IsRead chunk
      → Progress (before ++ chunk) r
      → Post Polled IsRefused (keep_reader K r u)
  kept-Post chunk u (r, ok none) g p = (chunk, g, p.0, p.1)
  kept-Post chunk u (r, ok (some frame)) g p = (chunk, g, p.0, p.1)
  kept-Post chunk u (r, err e) g p = ill_stated chunk g p.0 p.1

  finished-Progress :
      (chunk : List ℕ) (r : FrameReader)
      → length chunk ≤ target total - length before
      → r.bytes ≡ before ++ chunk
      → r.total ≡ total
      → Progress (before ++ chunk) (finish_read r)
  finished-Progress chunk r h e f = rw (sym e) (
      finish_read-Progress r.bytes r.deadline r.total
        (rw (e, f) (filled before chunk total partial h)))

  -- A reading of the clock.
  clock-Contract :
      (P : FrameReader → Type 0)
      → Contract
          (On P)
          (observe {S = S} K.now)
          (λ now u. P u.reader × ((x : X) × (now ≡ (K.now x).1)))
          IsRefused
  clock-Contract P = record { at = λ u h. (h, (u.world, refl)) }

  asked :
      (n : ℕ) → Contract (On Waiting) (ask {S = S} (K.set_timeout n)) (λ a. On Waiting) IsRefused
  asked n = by_result (λ u h a e. h) (λ u h x e. untimed n u.world x e)

  -- What follows the test of the frame's deadline, which ends the poll where the clock has reached it.
  in_time-Contract :
      {A : Type 0} {J : A → Thread X S → Type 0} (P : FrameReader → Type 0) (now : ℕ)
      (rest : Method X S A)
      → Contract (On P) rest J IsRefused
      → Contract
          (λ u. P u.reader × ((x : X) × (now ≡ (K.now x).1)))
          (gets (λ u. is_over u.reader.deadline now)
            >>= (λ over. ensure (not over) Refusal.invalid >> rest))
          J
          IsRefused
  in_time-Contract P now rest k =
      >>=-Contract
        {J = λ over u.
          P u.reader × ((x : X) × (now ≡ (K.now x).1)) × (is_over u.reader.deadline now ≡ over)}
        (gets-Contract (λ u. is_over u.reader.deadline now) (λ u h. (h.0, h.1, refl)))
        λ over.
          >>=-Contract {J = λ _. On P}
            (ensure-Contract_by (not over) Refusal.invalid (λ e u h. h.0)
              (λ e u h.
                late h.1.0
                  (ap (λ n. is_over u.reader.deadline n) (sym h.1.1) ∙ h.2 ∙ ground (arith, e))))
            λ _. k

  start_frame-Contract :
      {bytes : List ℕ} (first : Option ℕ)
      → Contract (On (At bytes)) (start_frame K first) (λ u. On (At bytes)) IsRefused
  start_frame-Contract (some end) = pure-Contract tt (λ u h. h)
  start_frame-Contract {bytes} none = >>=-Contract (clock-Contract (At bytes)) λ now.
      modify-Contract
        (λ u. record u { reader = record u.reader { deadline = some (now + lease_ms) } })
        (λ u h. h.0)

  keep-Contract :
      (chunk : List ℕ) (r : FrameReader)
      → IsRead chunk
      → length chunk ≤ target total - length before
      → Contract
          (λ u. (r.bytes ≡ before ++ chunk) × (r.total ≡ total))
          (keep_reader K (finish_read r))
          Polled
          IsRefused
  keep-Contract chunk r g l = record {
    at = λ u h. kept-Post chunk u (finish_read r) g (finished-Progress chunk r l h.0 h.1);
  }

  take_in-Contract :
      (chunk : List ℕ)
      → IsRead chunk
      → length chunk ≤ target total - length before
      → Contract (On Waiting) (take_in K chunk) Polled IsRefused
  unfolding take_in
  take_in-Contract chunk g l =
      >>=-Contract {J = λ first. On (At before)}
        (gets-Contract (λ u. u.reader.deadline) (λ u h. h.0))
        λ first. >>=-Contract (start_frame-Contract first) λ _.
          >>=-Contract {J = λ _. On (At (before ++ chunk))}
            (modify-Contract
              (λ u. record u { reader = record u.reader { bytes = u.reader.bytes ++ chunk } })
              (λ u h. (ap (λ bs. bs ++ chunk) h.0, h.1)))
            λ _. >>=-Contract (clock-Contract (At (before ++ chunk))) λ now.
              in_time-Contract (At (before ++ chunk)) now
                (gets (λ u. u.reader) >>= (λ r. keep_reader K (finish_read r)))
                (>>=-Contract {J = λ r u. (r.bytes ≡ before ++ chunk) × (r.total ≡ total)}
                  (gets-Contract (λ u. u.reader) (λ u h. h)) λ r. keep-Contract chunk r g l)

  unread-Polled : (u : Thread X S) → IsRead [] → Waiting u.reader → Polled none u
  unread-Polled u g h = ([], g, rw (h.0.0, h.0.1) partial, h.0.0 ∙ sym (append-nil before))

  after_read-Contract :
      (x : X) (arrival : Arrival)
      → (K.read most_wanted x).1 ≡ arrival
      → Contract (On Waiting) (after_read K arrival) Polled IsRefused
  after_read-Contract x (arrived []) e = raise-Contract Refusal.io_error (λ u h. gone x e)
  after_read-Contract x (arrived (b ∷ bytes)) e =
      take_in-Contract (b ∷ bytes) (came x (b ∷ bytes) e) (bounded x most_wanted (b ∷ bytes) e)
  after_read-Contract x again e = pure-Contract none (λ u. unread-Polled u (passed x e))
  after_read-Contract x failed e = raise-Contract Refusal.io_error (λ u h. broken x e)

  arrival-Contract :
      (most : ℕ)
      → Contract
          (λ u. Waiting u.reader × (most ≡ most_wanted))
          (observe {S = S} (K.read most))
          (λ arrival u. Waiting u.reader × ((x : X) × ((K.read most_wanted x).1 ≡ arrival)))
          IsRefused
  arrival-Contract most = record { at = λ u h. (h.0, (u.world, rw h.1 refl)) }

  read_some-Contract : Contract (On Waiting) (read_some K) Polled IsRefused
  unfolding read_some
  read_some-Contract =
      >>=-Contract {J = λ most u. Waiting u.reader × (most ≡ most_wanted)}
        (gets-Contract (λ u. wanted u.reader) (λ u h. (h, rw (h.0.0, h.0.1) refl)))
        λ most.
          >>=-Contract
            {J = λ arrival u. Waiting u.reader × ((x : X) × ((K.read most_wanted x).1 ≡ arrival))}
            (arrival-Contract most)
            λ arrival.
              fact-Contract (λ u h. h.1)
                λ came_. before-Contract (λ u h. h.0) (after_read-Contract came_.0 arrival came_.1)

  pub poll-Contract : Contract (On Waiting) (poll K wake) Polled IsRefused
  unfolding poll
  poll-Contract = >>=-Contract (clock-Contract Waiting) λ now.
      in_time-Contract Waiting now
        (gets (λ u. until u.reader.deadline wake) >>= (λ limit. observe K.now >>= (λ later.
          if leb limit later
          then pure none
          else ask (K.set_timeout (limit - later)) >> read_some K)))
        (>>=-Contract {J = λ limit u. Waiting u.reader × (limit ≡ until due wake)}
          (gets-Contract (λ u. until u.reader.deadline wake)
            (λ u h. (h, ap (λ d. until d wake) h.1)))
          λ limit.
            fact-Contract (λ u h. h.1)
              λ known.
                before-Contract (λ u h. h.0)
                  (>>=-Contract (clock-Contract Waiting) λ later.
                    fact-Contract {F = (x : X) × (later ≡ (K.now x).1)} (λ u h. h.1)
                      λ reading.
                        before-Contract (λ u h. h.0)
                          (if-Contract (leb limit later) (pure none)
                            (ask (K.set_timeout (limit - later)) >> read_some K)
                            (λ e. pure-Contract none (λ u. unread-Polled u (
                              awake reading.0 (
                                ap (leb (until due wake)) (sym reading.1)
                                ∙ ap (λ l. leb l later) (sym known)
                                ∙ e))))
                            (λ e. >>=-Contract (asked (limit - later)) λ _. read_some-Contract))))
