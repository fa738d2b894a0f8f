-- ===== src/Broker/Exchanges.antt =====
-- The exchanges of a worker of the capability broker with its peer, as they may follow one another
-- (device/console/src/bin/socket-broker.rs, `serve`).
use donkeywork_desktop.Base.{ℕ, ◌+◌, ◌-◌, ◌<◌, ◌≡◌, ◌≢◌, true, Option, none, some, List, [], ◌∷◌}
use donkeywork_desktop.Broker.Kernel.{
  interrupted, Metadata, SocketPath, Message, rights, unavailable, took, refused, Sending, Call,
  received, looked, made, linked, peer_is, timed, sent, closed,
}
use donkeywork_desktop.Broker.Serve.{is_root_dir, is_root_socket, fits_address}

-- Where a worker stands: before it knows its peer, between two commands, in the connection to the
-- capture daemon, in the sending of a message up to a deadline, behind it, and at the end.
pub data Phase : Type 0 where
  start idle asked over : Phase
  seen : Metadata → Phase
  checked : Metadata → Metadata → Phase
  opened connected spent : ℕ → Phase
  answering broken : Message → Phase
  until : Message → ℕ → Phase
  within : Message → ℕ → ℕ → Phase

-- The descriptor that is open.
abbrev pub carried : Message → Option ℕ
carried (rights fd) = some fd
carried unavailable = none

abbrev pub held : Phase → Option ℕ
held start = none
held idle = none
held asked = none
held over = none
held (seen parent) = none
held (checked parent socket) = none
held (opened fd) = some fd
held (connected fd) = some fd
held (spent fd) = some fd
held (answering m) = carried m
held (broken m) = carried m
held (until m deadline) = carried m
held (within m deadline now) = carried m

-- Where a message that was sent leaves the worker.
abbrev pub sent_off : Message → Phase
sent_off (rights fd) = spent fd
sent_off unavailable = idle

-- The phases of a connection that may still fail, without a descriptor and with one.
pub data IsLooking : Phase → Type 0 where
  at_asked : IsLooking asked
  at_seen : {parent : Metadata} → IsLooking (seen parent)
  at_checked : {parent socket : Metadata} → IsLooking (checked parent socket)

pub data IsTrying (fd : ℕ) : Phase → Type 0 where
  at_opened : IsTrying fd (opened fd)
  at_connected : IsTrying fd (connected fd)

-- The phases of a message that was not sent.
pub data IsSending (m : Message) : Phase → Type 0 where
  at_answering : IsSending m (answering m)
  at_until : {deadline : ℕ} → IsSending m (until m deadline)
  at_within : {deadline now : ℕ} → IsSending m (within m deadline now)
  at_broken : IsSending m (broken m)

-- The calls up to now, the latest first, and the phase that they lead to.
pub data Exchanges (stream : ℕ) (path : SocketPath) : List Call → Phase → Type 0 where
  begins : Exchanges stream path [] start
  greets :
      {c : List Call} {uid : ℕ}
      → Exchanges stream path c start
      → uid ≡ 0
      → Exchanges stream path (peer_is stream uid ∷ c) idle
  shuns :
      {c : List Call} {uid : ℕ}
      → Exchanges stream path c start
      → uid ≢ 0
      → Exchanges stream path (peer_is stream uid ∷ c) over
  takes :
      {c : List Call} {b : ℕ}
      → Exchanges stream path c idle
      → b ≡ b'C'
      → Exchanges stream path (received b ∷ c) asked
  rejects :
      {c : List Call} {b : ℕ}
      → Exchanges stream path c idle
      → b ≢ b'C'
      → Exchanges stream path (received b ∷ c) over
  looks :
      {c : List Call} {parent : List ℕ} {m : Metadata}
      → Exchanges stream path c asked
      → path.is_absolute ≡ true
      → path.parent ≡ some parent
      → Exchanges stream path (looked parent m ∷ c) (seen m)
  checks :
      {c : List Call} {parent m : Metadata}
      → Exchanges stream path c (seen parent)
      → Exchanges stream path (looked path.bytes m ∷ c) (checked parent m)
  opens :
      {c : List Call} {parent socket : Metadata} {fd : ℕ}
      → Exchanges stream path c (checked parent socket)
      → is_root_dir parent ≡ true
      → is_root_socket socket ≡ true
      → fits_address path.bytes ≡ true
      → Exchanges stream path (made fd ∷ c) (opened fd)
  links :
      {c : List Call} {fd : ℕ}
      → Exchanges stream path c (opened fd)
      → Exchanges stream path (linked fd path.bytes ∷ c) (connected fd)
  trusts :
      {c : List Call} {fd uid : ℕ}
      → Exchanges stream path c (connected fd)
      → uid ≡ 0
      → Exchanges stream path (peer_is fd uid ∷ c) (answering (rights fd))
  doubts :
      {c : List Call} {fd uid : ℕ}
      → Exchanges stream path c (connected fd)
      → uid ≢ 0
      → Exchanges stream path (peer_is fd uid ∷ c) (opened fd)
  declines :
      {c : List Call} {p : Phase}
      → Exchanges stream path c p
      → IsLooking p
      → Exchanges stream path c (answering unavailable)
  drops :
      {c : List Call} {fd : ℕ} {p : Phase}
      → Exchanges stream path c p
      → IsTrying fd p
      → Exchanges stream path (closed fd ∷ c) (answering unavailable)
  plans :
      {c : List Call} {m : Message} {t : ℕ}
      → Exchanges stream path c (answering m)
      → Exchanges stream path (timed t ∷ c) (until m (t + 100))
  times :
      {c : List Call} {m : Message} {deadline t : ℕ}
      → Exchanges stream path c (until m deadline)
      → Exchanges stream path (timed t ∷ c) (within m deadline t)
  retries :
      {c : List Call} {m : Message} {deadline t : ℕ}
      → Exchanges stream path c (within m deadline t)
      → t < deadline
      → Exchanges stream path (sent m (deadline - t) (refused interrupted) ∷ c) (until m deadline)
  sends :
      {c : List Call} {m : Message} {deadline t n : ℕ}
      → Exchanges stream path c (within m deadline t)
      → t < deadline
      → n ≡ 1
      → Exchanges stream path (sent m (deadline - t) (took n) ∷ c) (sent_off m)
  breaks :
      {c : List Call} {m : Message} {deadline t : ℕ} {s : Sending}
      → Exchanges stream path c (within m deadline t)
      → t < deadline
      → s ≢ took 1
      → s ≢ refused interrupted
      → Exchanges stream path (sent m (deadline - t) s ∷ c) (broken m)
  closes :
      {c : List Call} {fd : ℕ}
      → Exchanges stream path c (spent fd)
      → Exchanges stream path (closed fd ∷ c) idle
  abandons :
      {c : List Call} {fd : ℕ} {p : Phase}
      → Exchanges stream path c p
      → IsSending (rights fd) p
      → Exchanges stream path (closed fd ∷ c) over
