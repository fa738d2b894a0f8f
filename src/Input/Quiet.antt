-- ===== src/Input/Quiet.antt =====
-- Reading, writing and looking at the clock leave the devices, STOP and the control as they are
-- (device/console/src/bin/input-daemon.rs).
use donkeywork_desktop.Base.{
  ℕ, zero, suc, ◌+◌, ◌≡◌, refl, ◌∙◌, Bool, true, false, Option, none, some, List, [], ◌∷◌, Result,
  ok_or, not, ◌||◌, ◌++◌, ◌%◌, min, length, is_empty, leb, ltb, ◌-◌, drop, if◌then◌else◌,
}
use donkeywork_desktop.Base.Actions.{
  Act, modify, Keeps, IsPreorder, pure-Keeps, raise-Keeps, gets-Keeps, ensure-Keeps, lift-Keeps,
  >>=-Keeps,
}
use donkeywork_desktop.Console.Lease.{lease_ms}
use donkeywork_desktop.Console.Owner.{Refusal}
use donkeywork_desktop.Console.Records.{to_be_bytes}
use donkeywork_desktop.Input.Requests.{Message, unavailable, max_input}
use donkeywork_desktop.Input.Reader.{FrameReader, wanted, finish_read}
use donkeywork_desktop.Input.Guards.{Guard, read_guard, is_baseline}
use donkeywork_desktop.Input.Daemon.{
  Daemon, Control, Thread, ask, observe, Arrival, arrived, again, failed, Sent, wrote, interrupted,
  broken,
}
use donkeywork_desktop.Input.Stream.{
  remaining, take_in, read_some, poll, write_loop, send, send_unavailable, keep_reader, is_over,
  until, start_frame, after_read, after_write,
}
use donkeywork_desktop.Input.Serve.{is_valid, compare_guard}

pub record SameHold {X S : Type 0} (s t : Thread X S) : Type 0 where
  pub shared : t.shared ≡ s.shared
  pub control : t.control ≡ s.control

instance abbrev pub SameHold-IsPreorder : {X S : Type 0} → IsPreorder (SameHold {X = X} {S = S})
SameHold-IsPreorder = record {
  reflexive = λ s. record { shared = refl; control = refl };
  transitive =
      λ s t u p q. record { shared = q.shared ∙ p.shared; control = q.control ∙ p.control };
}

pub if-Keeps :
    {S E A : Type 0} {R : S → S → Type 0} (b : Bool) {m n : Act S E A}
    → Keeps R m
    → Keeps R n
    → Keeps R (if b then m else n)
if-Keeps true p q = p
if-Keeps false p q = q

module _ {X S : Type 0} (K : Daemon X S) where
  pub observe-SameHold : {A : Type 0} (f : X → X × A) → Keeps SameHold (observe {S = S} f)
  observe-SameHold f = record { apply = λ s. record { shared = refl; control = refl } }

  pub ask-SameHold : {A : Type 0} (f : X → X × Result Refusal A) → Keeps SameHold (ask {S = S} f)
  ask-SameHold f = record { apply = λ s. record { shared = refl; control = refl } }

  pub remaining-SameHold : (d : ℕ) → Keeps SameHold (remaining K d)
  unfolding remaining
  remaining-SameHold d =
      >>=-Keeps (observe-SameHold K.now)
        λ now. >>=-Keeps (ensure-Keeps (ltb now d) Refusal.io_error) λ _. pure-Keeps {a = d - now}

  write_loop-SameHold :
      (rounds : ℕ) (bytes : List ℕ) (d : ℕ) → Keeps SameHold (write_loop K rounds bytes d)
  unfolding write_loop
  write_loop-SameHold rounds [] d = pure-Keeps
  write_loop-SameHold zero (b ∷ bytes) d = raise-Keeps
  write_loop-SameHold (suc rounds) (b ∷ bytes) d = >>=-Keeps (remaining-SameHold d) λ left.
      >>=-Keeps (ask-SameHold (K.set_timeout left)) λ _.
        >>=-Keeps (observe-SameHold (K.write (b ∷ bytes)))
          λ sent. go (λ bs. write_loop-SameHold rounds bs d) sent
    where
      go :
          ((bs : List ℕ) → Keeps SameHold (write_loop K rounds bs d))
          → (sent : Sent)
          → Keeps SameHold (after_write K (λ bs. write_loop K rounds bs d) (b ∷ bytes) sent)
      go ih (wrote zero) = raise-Keeps
      go ih (wrote (suc n)) = ih (drop (suc n) (b ∷ bytes))
      go ih interrupted = ih (b ∷ bytes)
      go ih broken = raise-Keeps

  pub send-SameHold : (message : Message) (d : ℕ) → Keeps SameHold (send K message d)
  unfolding send
  send-SameHold message d =
      >>=-Keeps (lift-Keeps {r = ok_or (K.encode message) Refusal.io_error}) λ body.
        >>=-Keeps
          (ensure-Keeps (not (is_empty body || ltb max_input (length body))) Refusal.invalid)
          λ _. >>=-Keeps (observe-SameHold K.now) λ now.
            >>=-Keeps
              (write_loop-SameHold K.rounds (to_be_bytes (length body % 4294967296) ++ body)
                (min d (now + 100)))
              λ _. >>=-Keeps (remaining-SameHold (min d (now + 100))) λ _. pure-Keeps {a = tt}

  pub send_unavailable-SameHold : (id : Option (List ℕ)) → Keeps SameHold (send_unavailable K id)
  unfolding send_unavailable
  send_unavailable-SameHold id =
      >>=-Keeps (observe-SameHold K.now) λ now. send-SameHold (unavailable id) (now + 100)

  on_reader :
      (f : FrameReader → FrameReader)
      → Keeps {E = Refusal} SameHold
          (modify {S = Thread X S} (λ t. record t { reader = f t.reader }))
  on_reader f = record { apply = λ s. record { shared = refl; control = refl } }

  keep_reader-SameHold :
      (r : FrameReader × Result Refusal (Option (List ℕ))) → Keeps SameHold (keep_reader K r)
  keep_reader-SameHold r = record { apply = λ s. record { shared = refl; control = refl } }

  take_in-SameHold : (bytes : List ℕ) → Keeps SameHold (take_in K bytes)
  unfolding take_in
  take_in-SameHold bytes = >>=-Keeps (gets-Keeps {f = λ t. t.reader.deadline}) λ first.
      >>=-Keeps (begin first) λ _.
        >>=-Keeps (on_reader (λ r. record r { bytes = r.bytes ++ bytes })) λ _.
          >>=-Keeps (observe-SameHold K.now) λ now.
            >>=-Keeps (gets-Keeps {f = λ t. is_over t.reader.deadline now}) λ over.
              >>=-Keeps (ensure-Keeps (not over) Refusal.invalid) λ _.
                >>=-Keeps (gets-Keeps {f = λ t. t.reader})
                  λ reader. keep_reader-SameHold (finish_read reader)
    where
      begin : (first : Option ℕ) → Keeps SameHold (start_frame K first)
      begin (some end) = pure-Keeps {a = tt}
      begin none =
          >>=-Keeps (observe-SameHold K.now)
            λ now. on_reader (λ r. record r { deadline = some (now + lease_ms) })

  read_some-SameHold : Keeps SameHold (read_some K)
  unfolding read_some
  read_some-SameHold =
      >>=-Keeps (gets-Keeps {f = λ t. wanted t.reader})
        λ most. >>=-Keeps (observe-SameHold (K.read most)) λ arrival. go arrival
    where
      go : (arrival : Arrival) → Keeps SameHold (after_read K arrival)
      go (arrived []) = raise-Keeps
      go (arrived (b ∷ bytes)) = take_in-SameHold (b ∷ bytes)
      go again = pure-Keeps {a = none}
      go failed = raise-Keeps

  pub poll-SameHold : (wake : ℕ) → Keeps SameHold (poll K wake)
  unfolding poll
  poll-SameHold wake = >>=-Keeps (observe-SameHold K.now) λ now.
      >>=-Keeps (gets-Keeps {f = λ t. is_over t.reader.deadline now}) λ over.
        >>=-Keeps (ensure-Keeps (not over) Refusal.invalid) λ _.
          >>=-Keeps (gets-Keeps {f = λ t. until t.reader.deadline wake}) λ limit.
            >>=-Keeps (observe-SameHold K.now) λ later.
              if-Keeps (leb limit later) (pure-Keeps {a = none})
                (>>=-Keeps (ask-SameHold (K.set_timeout (limit - later))) λ _. read_some-SameHold)

  module _ (width height : ℕ) (guarded : Bool) where
    compare_guard-SameHold :
        (peer : ℕ) (on : Bool) (baseline : Option Guard)
        → Keeps SameHold (compare_guard K peer width height guarded on baseline)
    compare_guard-SameHold peer true (some baseline) =
        >>=-Keeps
          (>>=-Keeps (observe-SameHold K.guard_path)
            λ path. pure-Keeps {a = read_guard K.parse_guard width height path})
          λ current. pure-Keeps {a = is_baseline baseline current}
    compare_guard-SameHold peer true none = pure-Keeps {a = false}
    compare_guard-SameHold peer false (some baseline) = pure-Keeps {a = false}
    compare_guard-SameHold peer false none = pure-Keeps {a = true}

    pub is_valid-SameHold :
        (peer : ℕ) (c : Control) → Keeps SameHold (is_valid K peer width height guarded c)
    unfolding is_valid
    is_valid-SameHold peer c = >>=-Keeps (observe-SameHold K.now) λ now.
        if-Keeps (leb c.deadline now) (pure-Keeps {a = false})
          (compare_guard-SameHold peer guarded c.guard)
