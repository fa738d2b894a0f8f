-- ===== src/Broker/Sent.antt =====
-- What a worker of the capability broker sends (device/console/src/bin/socket-broker.rs,
-- `send_result`, `command`).
use donkeywork_desktop.Base.{
  ℕ, zero, suc, ◌+◌, ◌-◌, ◌<◌, ◌≡◌, ◌≢◌, refl, true, false, Option, none, some, List, ◌∷◌, Result,
  ok, err, arith, ltb, ◌==◌,
}
use donkeywork_desktop.Base.Actions.{raise}
use donkeywork_desktop.Broker.Kernel.{
  ErrorKind, interrupted, timed_out, write_zero, invalid_data, unfinished, SocketPath, Message,
  rights, unavailable, Sending, took, refused, Kernel, Call, Worker, Method, timed, received, sent,
}
use donkeywork_desktop.Broker.Serve.{
  is_interrupted, message_of, has_room, after_send, send_loop, send_result, send_capture, command,
  capture_connect,
}
use donkeywork_desktop.Broker.Exchanges.{
  Phase, idle, asked, over, answering, broken, until, within, sent_off, spent, rejects, takes,
  IsSending, at_answering, at_until, at_within, at_broken, held, Exchanges, plans, times, retries,
  sends, breaks, closes, abandons,
}
use donkeywork_desktop.Broker.Logged.{
  Done, Logged, pure-Logged, raise-Logged, if-Logged, >>=-Logged, ensure-Logged, ask-Logged,
  observe_noted-Logged, close_after-Done, fail_as-Done, before-Logged,
}
use donkeywork_desktop.Broker.Connected.{capture_connect-Logged}

interrupted_of : (kind : ErrorKind) → is_interrupted kind ≡ true → kind ≡ interrupted
interrupted_of kind e = ground (arith, e)

not_interrupted :
    (kind : ErrorKind) → is_interrupted kind ≡ false → refused kind ≢ refused interrupted
not_interrupted kind e w = ground (arith, e, w)

held-IsSending : {p : Phase} → IsSending unavailable p → held p ≡ none
held-IsSending at_answering = refl
held-IsSending at_until = refl
held-IsSending at_within = refl
held-IsSending at_broken = refl

module _ {X : Type 0} (K : Kernel X) (stream : ℕ) (path : SocketPath) where
  abbrev In : Phase → List Call → Type 0
  In p c = Exchanges stream path c p

  -- The message was not sent.
  abbrev Unsent : Message → List Call → Type 0
  Unsent m c = (p : Phase) × In p c × IsSending m p

  -- A send in time, with its time-out.
  abbrev Tried : Message → ℕ → Sending → List Call → Type 0
  Tried m deadline s c' =
      (c : List Call) × (t : ℕ) × In (within m deadline t) c
      × (t < deadline)
      × (c' ≡ sent m (deadline - t) s ∷ c)

  breaks_off :
      (m : Message) (deadline : ℕ) (s : Sending)
      → s ≢ took 1
      → s ≢ refused interrupted
      → (c : List Call) → Tried m deadline s c
      → Unsent m c
  breaks_off m deadline s p q c h = (broken m, rw h.4 (breaks h.2 h.3 p q), at_broken)

  again_until :
      (m : Message) (deadline : ℕ) (kind : ErrorKind)
      → kind ≡ interrupted
      → (c : List Call) → Tried m deadline (refused kind) c
      → In (until m deadline) c
  again_until m deadline kind e c h = rw (h.4, e) (retries h.2 h.3)

  after_took-Logged :
      (m : Message) (deadline n : ℕ) (again : Method X (Unit {0}))
      → Logged
          (Tried m deadline (took n))
          (after_send K again (took n))
          (λ u. In (sent_off m))
          (Unsent m)
  after_took-Logged m deadline n again =
      if-Logged (n == 1) _ _ (λ e. pure-Logged tt (λ c h. rw h.4 (sends h.2 h.3 (ground arith))))
        (λ e.
          raise-Logged write_zero (breaks_off m deadline (took n) (λ w. ground arith) (λ w. cc)))

  after_refused-Logged :
      (m : Message) (deadline : ℕ) (kind : ErrorKind) (again : Method X (Unit {0}))
      → Logged (In (until m deadline)) again (λ u. In (sent_off m)) (Unsent m)
      → Logged
          (Tried m deadline (refused kind))
          (after_send K again (refused kind))
          (λ u. In (sent_off m))
          (Unsent m)
  after_refused-Logged m deadline kind again k =
      if-Logged (is_interrupted kind) again (raise kind)
        (λ e. before-Logged (λ c h. again_until m deadline kind (interrupted_of kind e) c h) k)
        (λ e.
          raise-Logged kind
            (breaks_off m deadline (refused kind) (λ w. cc) (not_interrupted kind e)))

  after_send-Logged :
      (m : Message) (deadline : ℕ) (s : Sending) (again : Method X (Unit {0}))
      → Logged (In (until m deadline)) again (λ u. In (sent_off m)) (Unsent m)
      → Logged (Tried m deadline s) (after_send K again s) (λ u. In (sent_off m)) (Unsent m)
  after_send-Logged m deadline (took n) again k = after_took-Logged m deadline n again
  after_send-Logged m deadline (refused kind) again k = after_refused-Logged m deadline kind again k

  send_loop-Logged :
      (rounds : ℕ) (m : Message) (deadline : ℕ)
      → Logged
          (In (until m deadline))
          (send_loop K rounds stream m deadline)
          (λ u. In (sent_off m))
          (Unsent m)
  unfolding send_loop
  send_loop-Logged zero m deadline =
      raise-Logged unfinished (λ c h. (until m deadline, h, at_until))
  send_loop-Logged (suc rounds) m deadline =
      let again = send_loop-Logged rounds m deadline in
      >>=-Logged {J = λ t. In (within m deadline t)}
        (observe_noted-Logged timed K.now (λ c h t. times h))
        λ t.
          >>=-Logged {J = λ u c. In (within m deadline t) c × (t < deadline)}
            (ensure-Logged (ltb t deadline) timed_out (λ e c h. (h, ground arith))
              (λ e c h. (within m deadline t, h, at_within)))
            λ _.
              >>=-Logged {J = λ u c. In (within m deadline t) c × (t < deadline)}
                (ask-Logged (K.set_write_timeout stream (deadline - t)) (λ c h u. h)
                  (λ c h. (within m deadline t, h.0, at_within)))
                λ _.
                  >>=-Logged {J = Tried m deadline}
                    (observe_noted-Logged (sent m (deadline - t)) (K.sendmsg stream m)
                      (λ c h s. (c, t, h.0, h.1, refl)))
                    λ s. after_send-Logged m deadline s (send_loop K rounds stream m deadline) again

  send_result-Logged :
      (capture : Option ℕ)
      → Logged
          (In (answering (message_of capture)))
          (send_result K stream capture)
          (λ u. In (sent_off (message_of capture)))
          (Unsent (message_of capture))
  unfolding send_result
  send_result-Logged capture =
      let m = message_of capture in
      >>=-Logged {J = λ u. In (answering m)}
        (ensure-Logged (has_room K capture) invalid_data (λ e c h. h)
          (λ e c h. (answering m, h, at_answering)))
        λ _.
          >>=-Logged {J = λ t. In (until m (t + 100))}
            (observe_noted-Logged timed K.now (λ c h t. plans h))
            λ t. send_loop-Logged K.rounds m (t + 100)

  -- Whatever has failed, no descriptor is open.
  abbrev pub Ended : List Call → Type 0
  Ended c = (p : Phase) × In p c × (held p ≡ none)

  refusal-Ended : (c : List Call) → Unsent unavailable c → Ended c
  refusal-Ended c h = (h.0, h.1, held-IsSending h.2)

  send_capture-Done :
      (s : Worker X) (r : Result ErrorKind ℕ)
      → Done (λ fd. In (answering (rights fd))) (In (answering unavailable)) (s, r)
      → Done (λ u. In idle) Ended (send_capture K stream (s, r))
  send_capture-Done s (ok fd) h =
      let sent_ = (send_result-Logged (some fd)).at s h in
      let t = send_result K stream (some fd) s in
      close_after-Done K (λ u. In (spent fd)) (λ u. In idle) (Unsent (rights fd)) Ended fd t.0 t.1
        (λ u c k. closes k) (λ c k. (over, abandons k.1 k.2, refl)) sent_
  send_capture-Done s (err e) h =
      let t = send_result K stream none s in
      fail_as-Done (λ u. In idle) (Unsent unavailable) Ended t.0 t.1 refusal-Ended
        ((send_result-Logged none).at s h)

  pub command-Logged :
      (b : ℕ)
      → Logged
          (λ c'. (c : List Call) × In idle c × (c' ≡ received b ∷ c))
          (command K stream b (capture_connect K path))
          (λ u. In idle)
          Ended
  unfolding command
  command-Logged b =
      >>=-Logged {J = λ u. In asked}
        (ensure-Logged (b == b'C') invalid_data (λ e c h. rw h.2 (takes h.1 (ground arith)))
          (λ e c h. (over, rw h.2 (rejects h.1 (λ w. ground arith)), refl)))
        λ _. record {
          at = λ s h.
              send_capture-Done (capture_connect K path s).0 (capture_connect K path s).1
                ((capture_connect-Logged K stream path).at s h);
        }
