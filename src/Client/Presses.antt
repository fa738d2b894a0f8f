-- ===== src/Client/Presses.antt =====
-- A chord is sent to its end, or the connection is closed (cli/src/main.rs, `Command::Key`).
use donkeywork_desktop.Base.{
  ℕ, ◌+◌, ◌-◌, ◌≡◌, refl, ap, true, false, Option, none, some, List, [], ◌∷◌, ◌++◌, Result, ok, err,
  ok_or, leb, String,
}
use mathlib.Core.Option.{some-injective}
use donkeywork_desktop.Base.Actions.{Act, pure, lift, ◌>>=◌}
use donkeywork_desktop.Base.Contracts.{
  Contract, Post, by_result, after-Contract, pure-Contract, if-Contract, >>=-Contract,
}
use donkeywork_desktop.Wire.Messages.{Reply, Failure, panicked}
use donkeywork_desktop.Client.Png.{Decoder}
use donkeywork_desktop.Client.Endpoint.{Context}
use donkeywork_desktop.Client.Calls.{Messages, Socket, Client, call}
use donkeywork_desktop.Client.Answers.{IsAnswer, sent, called, Called-err, Called-ok}
use donkeywork_desktop.Client.Chord.{KeyEvent, chord, downs, ups, reversed}
use donkeywork_desktop.Client.Commands.{
  Snapshot, Payloads, Console, now, ask, renew, press, press_chord,
}

-- What holds at a state that is known, where code starts from others.
exact-Contract :
    {S E A : Type 0} {I : S → Type 0} {O : S → Type 0} (m : Act S E A) (s : S)
    → I s
    → Contract I m (λ a. I) O
    → Contract (λ t. t ≡ s) m (λ a u. m s ≡ (u, ok a)) O
exact-Contract {I} {O} m s i k = record {
  at = λ t e. rw e (answered I O m s (m s) refl (k.at s i));
}
  where
    answered :
        {S E A : Type 0} (I O : S → Type 0) (m : Act S E A) (s : S) (r : S × Result E A)
        → m s ≡ r
        → Post (λ a. I) O r
        → Post (λ a u. m s ≡ (u, ok a)) O r
    answered I O m s (u, ok a) e h = e
    answered I O m s (u, err x) e h = h

from_each :
    {S E A : Type 0} {I : S → Type 0} {J : A → S → Type 0} {O : S → Type 0} {m : Act S E A}
    → ((s : S) → I s → Contract (λ t. t ≡ s) m J O)
    → Contract I m J O
from_each k = record { at = λ s i. (k s i).at s refl }

module _ {V P W : Type 0} (M : Messages V P) (K : Socket W) (D : Decoder) (F : Payloads V P)
    (O : Console V W) (context : Context) where
  abbrev Any : Client W → Type 0
  Any c = Unit {0}

  abbrev pub IsClosed : Client W → Type 0
  IsClosed c = c.healthy ≡ false

  abbrev renewed_by : String → ℕ → Client W → Client W × Result Failure ℕ
  renewed_by lease renewed c = renew M K D F O context lease renewed c

  -- The call that sends an event.
  abbrev sent_by : Snapshot → String → ℕ → KeyEvent → Client W → Client W × Result Failure (Reply V)
  sent_by s lease number event c =
      ask M K D F O context "input.key" (F.key_event s lease number event) "ack" c

  -- From one connection to another every event is sent, in order and with the next number: a
  -- renewal of the lease, if it is due, and the call, which is answered by an acknowledgement of its
  -- own request. The last reply is that of the last event.
  pub data Pressed (s : Snapshot) (lease : String)
      : ℕ → ℕ → List KeyEvent → Option (Reply V) → Client W → Client W → Reply V → Type 0 where
    finished :
        {index renewed : ℕ} {c : Client W} {r : Reply V}
        → Pressed s lease index renewed [] (some r) c c r
    pressed :
        {index renewed later : ℕ} {event : KeyEvent} {events : List KeyEvent}
        {last : Option (Reply V)} {c d e f : Client W} {reply r : Reply V}
        → renewed_by lease renewed c ≡ (d, ok later)
        → sent_by s lease (index + 1) event d ≡ (e, ok reply)
        → IsAnswer M K D
            (sent M K D "input.key" (F.key_event s lease (index + 1) event) (some context) d)
            (some context)
            "ack"
            reply.header
        → Pressed s lease (index + 1) later events (some reply) e f r
        → Pressed s lease index renewed (event ∷ events) last c f r

  now-Contract : Contract Any (now M K D F O context) (λ n. Any) IsClosed
  now-Contract = record { at = λ c h. tt }

  call_ended :
      (kind : String) (payload : P) (expected : String) (c s : Client W) (e : Failure)
      → call M K D kind payload (some context) expected c ≡ (s, err e)
      → IsClosed s
  call_ended kind payload expected c s e h =
      Called-err M K D kind payload (some context) expected c s e
        (called M K D kind payload (some context) expected c (s, err e) h)

  ask-Contract :
      (kind : String) (payload : P) (expected : String)
      → Contract Any (ask M K D F O context kind payload expected) (λ r. Any) IsClosed
  ask-Contract kind payload expected =
      by_result (λ c h r e. tt)
        (λ c h x e.
          call_ended kind payload expected c (call M K D kind payload (some context) expected c).0 x
            (ap (λ r. ((call M K D kind payload (some context) expected c).0, r)) e))

  renew-Contract :
      (lease : String) (renewed : ℕ)
      → Contract Any (renew M K D F O context lease renewed) (λ n. Any) IsClosed
  unfolding renew
  renew-Contract lease renewed = >>=-Contract now-Contract λ at.
      if-Contract (leb 15000 (at - renewed))
        (ask M K D F O context "control.renew" (M.with_lease lease) "control.granted"
          >>= (λ granted. now M K D F O context))
        (pure renewed)
        (λ e.
          >>=-Contract (ask-Contract "control.renew" (M.with_lease lease) "control.granted")
            λ granted. now-Contract)
        (λ e. pure-Contract renewed (λ c h. h))

  -- The loop ends with a reply, and has sent the events.
  abbrev Ended :
      Snapshot
      → String
      → ℕ
      → ℕ
      → List KeyEvent
      → Option (Reply V)
      → Client W
      → Option (Reply V)
      → Client W
      → Type 0
  Ended s lease index renewed events last c o u =
      (r : Reply V) × (o ≡ some r) × Pressed s lease index renewed events last c u r

  -- One event, and what follows it.
  one-Contract :
      (s : Snapshot) (lease : String) (event : KeyEvent) (events : List KeyEvent)
      (index renewed : ℕ) (last : Option (Reply V)) (c : Client W)
      → ((later : ℕ) (reply : Reply V) (e : Client W)
          → Contract
              (λ u. u ≡ e)
              (press M K D F O context s lease events (index + 1) later (some reply))
              (Ended s lease (index + 1) later events (some reply) e)
              IsClosed)
      → Contract
          (λ u. u ≡ c)
          (press M K D F O context s lease (event ∷ events) index renewed last)
          (Ended s lease index renewed (event ∷ events) last c)
          IsClosed
  unfolding press
  one-Contract s lease event events index renewed last c rest =
      >>=-Contract {J = λ later d. renewed_by lease renewed c ≡ (d, ok later)}
        (exact-Contract (renew M K D F O context lease renewed) c tt (renew-Contract lease renewed))
        λ later. from_each λ d due.
          >>=-Contract {J = λ reply e. sent_by s lease (index + 1) event d ≡ (e, ok reply)}
            (exact-Contract (sent_by s lease (index + 1) event) d tt
              (ask-Contract "input.key" (F.key_event s lease (index + 1) event) "ack"))
            λ reply. from_each λ e call_.
              after-Contract
                (λ o u k.
                  (k.0, k.1, pressed due call_ (answer s lease index event d e reply call_) k.2))
                (rest later reply e)
    where
      answer :
          (s : Snapshot) (lease : String) (index : ℕ) (event : KeyEvent) (d e : Client W)
          (reply : Reply V)
          → sent_by s lease (index + 1) event d ≡ (e, ok reply)
          → IsAnswer M K D
              (sent M K D "input.key" (F.key_event s lease (index + 1) event) (some context) d)
              (some context)
              "ack"
              reply.header
      answer s lease index event d e reply h =
          let payload = F.key_event s lease (index + 1) event in
          Called-ok M K D "input.key" payload (some context) "ack" d e reply
            (called M K D "input.key" payload (some context) "ack" d (e, ok reply) h)

  press_none :
      (s : Snapshot) (lease : String) (index renewed : ℕ) (last : Reply V) (u c : Client W)
      → u ≡ c
      → Post
          (Ended s lease index renewed [] (some last) c)
          IsClosed
          (press M K D F O context s lease [] index renewed (some last) u)
  unfolding press
  press_none s lease index renewed last u c h = rw h (last, refl, finished)

  press_on-Contract :
      (s : Snapshot) (lease : String) (events : List KeyEvent) (index renewed : ℕ) (last : Reply V)
      (c : Client W)
      → Contract
          (λ u. u ≡ c)
          (press M K D F O context s lease events index renewed (some last))
          (Ended s lease index renewed events (some last) c)
          IsClosed
  press_on-Contract s lease [] index renewed last c = record {
    at = λ u h. press_none s lease index renewed last u c h;
  }
  press_on-Contract s lease (event ∷ events) index renewed last c =
      one-Contract s lease event events index renewed (some last) c
        (press_on-Contract s lease events (index + 1))

  -- A chord has events.
  chord-Contract :
      (s : Snapshot) (lease : String) (usages : List ℕ) (usage renewed : ℕ) (c : Client W)
      → Contract
          (λ u. u ≡ c)
          (press M K D F O context s lease (chord usages usage) 0 renewed none)
          (Ended s lease 0 renewed (chord usages usage) none c)
          IsClosed
  unfolding chord
  chord-Contract s lease [] usage renewed c =
      let rest = (usage, false) ∷ [] in
      one-Contract s lease (usage, true) rest 0 renewed none c (press_on-Contract s lease rest 1)
  chord-Contract s lease (u ∷ usages) usage renewed c =
      let rest =
        downs usages ++ ((usage, true) ∷ (usage, false) ∷ ups (reversed usages ++ (u ∷ []))) in
      one-Contract s lease (u, true) rest 0 renewed none c (press_on-Contract s lease rest 1)

  answer-Contract :
      (s : Snapshot) (lease : String) (renewed : ℕ) (events : List KeyEvent) (c : Client W)
      (last : Option (Reply V))
      → Contract
          (Ended s lease 0 renewed events none c last)
          (lift (ok_or last panicked))
          (λ r u. Pressed s lease 0 renewed events none c u r)
          IsClosed
  answer-Contract s lease renewed events c none = record { at = λ u h. cc (h.1) }
  answer-Contract s lease renewed events c (some r) = record {
    at = λ u h. rw (some-injective r h.0 h.1) (h.2);
  }

  -- A chord under a lease is sent to its end, every event in order, each with its number and each
  -- answered by an acknowledgement of its own request, and the reply is that of the last event; or
  -- the connection is closed. So the `expect` of the source never fails while it is open.
  pub press_chord-Pressed :
      (s : Snapshot) (usages : List ℕ) (usage : ℕ) (lease : String) (c : Client W)
      → Post
          (λ r u.
            Pressed s lease 0
              (O.clock c.stream).1
              (chord usages usage)
              none
              (now M K D F O context c).0
              u
              r)
          IsClosed
          (press_chord M K D F O context s usages usage lease c)
  unfolding press_chord
  press_chord-Pressed s usages usage lease c =
      let start = (now M K D F O context c).0 in
      let renewed = (O.clock c.stream).1 in
      (>>=-Contract (chord-Contract s lease usages usage renewed start)
          (answer-Contract s lease renewed (chord usages usage) start)).at
        start refl
