-- ===== src/Client/Commands.antt =====
-- The commands of the client that need control, from the context and the snapshot on
-- (cli/src/main.rs, `run`).
use donkeywork_desktop.Base.{
  ℕ, ◌+◌, ◌-◌, Bool, true, false, not, ◌&&◌, ◌||◌, Option, none, some, List, [], ◌∷◌, Result, ok,
  ok_or, leb, ltb, ◌==◌, if◌then◌else◌, length, String,
}
use donkeywork_desktop.Base.Actions.{Act, pure, lift, ensure, ◌>>=◌, ◌>>◌}
use donkeywork_desktop.Wire.Messages.{
  Reply, Failure, invalid_record, invalid_argument, resize_rejected, panicked,
}
use donkeywork_desktop.Client.Png.{Decoder}
use donkeywork_desktop.Client.Endpoint.{Context}
use donkeywork_desktop.Client.Calls.{Messages, Socket, Client, call, controlled}
use donkeywork_desktop.Client.Chord.{Modifier, KeyEvent, collect, chord}

-- The metadata of a screenshot that was checked when it was loaded.
pub record Snapshot : Type 0 where
  pub snapshot_id : ℕ
  pub display_id : ℕ
  pub topology_revision : ℕ
  pub width : ℕ
  pub height : ℕ

-- The payloads of `run`, and the fields of a resize result.
pub record Payloads (V P : Type 0) : Type 0 where
  -- `input_payload`, with the fields of each event.
  pub click_at : Snapshot → String → ℕ → ℕ → ℕ → String → P
  pub key_event : Snapshot → String → ℕ → KeyEvent → P
  pub text_input : Snapshot → String → ℕ → List ℕ → P
  pub resize_to : Snapshot → String → ℕ → ℕ → P
  pub reset_input : String → ℕ → P
  pub display_id : V → ℕ
  pub topology_revision : V → ℕ
  pub width : V → ℕ
  pub height : V → ℕ
  pub is_applied : V → Bool
  pub is_rejected : V → Bool
  pub has_no_reason : V → Bool
  pub control_released : V

-- The clock, in milliseconds, standard output, and `String::from_utf8(..).is_ok()`.
pub record Console (V W : Type 0) : Type 0 where
  pub clock : W → W × ℕ
  pub print : V → W → W × Result Failure (Unit {0})
  pub stdin : W → W × Result Failure (List ℕ)
  pub is_utf8 : List ℕ → Bool

module _ {V P W : Type 0} (M : Messages V P) (K : Socket W) (D : Decoder) (F : Payloads V P)
    (O : Console V W) (context : Context) where
  abbrev pub Command : Type 0 → Type 0
  Command A = Act (Client W) Failure A

  abbrev pub now : Command ℕ
  now c = (record c { stream = (O.clock c.stream).0 }, ok (O.clock c.stream).1)

  abbrev pub print : V → Command (Unit {0})
  print header c = (record c { stream = (O.print header c.stream).0 }, (O.print header c.stream).1)

  abbrev pub read_stdin : Command (List ℕ)
  read_stdin c = (record c { stream = (O.stdin c.stream).0 }, (O.stdin c.stream).1)

  abbrev pub ask : String → P → String → Command (Reply V)
  ask kind payload expected = call M K D kind payload (some context) expected

  abbrev pub with_control : {A : Type 0} → (String → Command A) → Command A
  with_control action = controlled M K D context action

  unfoldable pub click : Snapshot → ℕ → ℕ → String → Command (Unit {0})
  click s x y button = do
    ensure (not (leb s.width x || leb s.height y)) invalid_argument
    reply ← with_control (λ lease. ask "input.pointer" (F.click_at s lease 1 x y button) "ack")
    print reply.header

  -- The lease is renewed after 15 seconds.
  unfoldable pub renew : String → ℕ → Command ℕ
  renew lease renewed = do
    at ← now
    (if leb 15000 (at - renewed)
        then ask "control.renew" (M.with_lease lease) "control.granted" >>= (λ granted. now)
        else pure renewed)

  -- The loop over the events of a chord, with the number of events sent so far.
  unfoldable pub press :
      Snapshot → String → List KeyEvent → ℕ → ℕ → Option (Reply V) → Command (Option (Reply V))
  press s lease [] index renewed last = pure last
  press s lease (event ∷ events) index renewed last = do
    renewed_now ← renew lease renewed
    reply ← ask "input.key" (F.key_event s lease (index + 1) event) "ack"
    press s lease events (index + 1) renewed_now (some reply)

  unfoldable pub press_chord : Snapshot → List ℕ → ℕ → String → Command (Reply V)
  press_chord s modifiers usage lease = do
    renewed ← now
    last ← press s lease (chord modifiers usage) 0 renewed none
    lift (ok_or last panicked)

  unfoldable pub press_key : Snapshot → ℕ → List Modifier → Command (Unit {0})
  press_key s usage modifiers = do
    usages ← lift (collect usage modifiers [])
    reply ← with_control (press_chord s usages usage)
    print reply.header

  -- At most 65537 bytes are read.
  unfoldable pub type_text : Snapshot → Command (Unit {0})
  type_text s = do
    bytes ← read_stdin
    ensure (not (ltb 65536 (length bytes))) invalid_argument
    ensure (O.is_utf8 bytes) invalid_argument
    reply ← with_control (λ lease. ask "input.text" (F.text_input s lease 1 bytes) "ack")
    print reply.header

  -- The tests of a resize result.
  unfoldable pub is_inconsistent : Snapshot → ℕ → ℕ → V → Bool
  is_inconsistent s width height h =
      F.is_applied h
      && (not (F.width h == width)
          || not (F.height h == height)
          || not (F.has_no_reason h)
          || ltb (F.topology_revision h) s.topology_revision
          || ((not (s.width == width) || not (s.height == height))
              && (F.topology_revision h == s.topology_revision)))

  unfoldable pub resize : Snapshot → ℕ → ℕ → Command (Unit {0})
  resize s width height = do
    reply ←
        with_control
          (λ lease. ask "display.resize" (F.resize_to s lease width height) "display.resize.result")
    ensure (F.display_id reply.header == s.display_id) invalid_record
    ensure (not (is_inconsistent s width height reply.header)) invalid_record
    print reply.header
    ensure (not (F.is_rejected reply.header)) resize_rejected

  abbrev pub reset_if : Bool → String → Command (Unit {0})
  reset_if true lease = ask "input.reset" (F.reset_input lease 1) "ack" >>= (λ reply. pure tt)
  reset_if false lease = pure tt

  unfoldable pub control : Bool → Command (Unit {0})
  control reset = do with_control (reset_if reset); print F.control_released
