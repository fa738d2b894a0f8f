-- ===== src/Client/Calls.antt =====
-- `read_record`, `Client::call` and `Client::controlled` of the client (cli/src/lib.rs).
use donkeywork_desktop.Base.{
  ℕ, zero, suc, Bool, true, false, not, ◌&&◌, ◌||◌, Option, none, some, List, Result, ok, err,
  ok_or, ltb, ◌==◌, if◌then◌else◌, String,
}
use donkeywork_desktop.Base.Actions.{Act, pure, lift, ensure, ◌>>=◌, ◌>>◌}
use donkeywork_desktop.Console.Records.{IoError, Read, Write, from_be_bytes}
use donkeywork_desktop.Wire.Messages.{
  Json, Reply, Failure, invalid_record, closed, rejected, unsafe_socket, max_header, max_png,
  with_failure, write_request,
}
use donkeywork_desktop.Client.Png.{Decoder, validate_png}
use donkeywork_desktop.Client.Endpoint.{Context, Metadata, is_unsafe_socket, verify_peer}

-- What the client asks of JSON values beside the codec; `P` is the type of payloads.
pub record Messages (V P : Type 0) : Type 0 where
  pub json : Json V
  -- `request`, with the message id that it draws.
  pub request : String → P → Option Context → ℕ → V
  pub message_id : V → ℕ
  pub request_message_id : V → ℕ
  pub has_type : String → V → Bool
  pub has_session : ℕ → V → Bool
  pub has_epoch : ℕ → V → Bool
  pub error_code : V → Option String
  pub lease_id : V → Option String
  pub width : V → Option ℕ
  pub height : V → Option ℕ
  pub nothing : P
  pub with_lease : String → P

-- The stream, as the calls in use, and the generator of message ids.
pub record Socket (W : Type 0) : Type 0 where
  pub write_all : Write W
  pub flush : Act W IoError (Unit {0})
  pub read_exact : Read W
  pub shutdown : W → W
  pub new_id : W → W × ℕ

pub record Client (W : Type 0) : Type 0 where
  pub stream : W
  pub healthy : Bool

module _ {V P W : Type 0} (M : Messages V P) (K : Socket W) (D : Decoder) where
  -- How many bytes follow the header.
  unfoldable pub body_size : V → Result Failure ℕ
  body_size header =
      if M.json.is_screenshot header
      then ok_or (M.json.payload_bytes header) invalid_record
      else ok 0

  abbrev pub check_body : V → ℕ → List ℕ → Result Failure (Unit {0})
  check_body header zero binary = ok tt
  check_body header (suc n) binary = validate_png D binary (M.width header) (M.height header)

  abbrev pub read_binary : V → ℕ → Act W Failure (Reply V)
  read_binary header size = do
    ensure (not (ltb max_png size)) invalid_record
    binary ← with_failure (K.read_exact size)
    lift (check_body header size binary)
    pure (record { header = header; binary = binary })

  abbrev pub read_header : ℕ → Act W Failure V
  read_header size = do
    ensure (not (size == 0 || ltb max_header size)) invalid_record
    bytes ← with_failure (K.read_exact size)
    header ← lift (ok_or (M.json.parse_json bytes) invalid_record)
    ensure (M.json.validates header) invalid_record
    pure header

  unfoldable pub read_record : Act W Failure (Reply V)
  read_record = do
    prefix ← with_failure (K.read_exact 4)
    header ← read_header (from_be_bytes prefix)
    size ← lift (body_size header)
    read_binary header size

  abbrev pub has_context : Option Context → V → Bool
  has_context none h = true
  has_context (some c) h = M.has_session c.session_id h && M.has_epoch c.session_epoch h

  -- The tests of an answer.
  unfoldable pub check_answer : V → Option Context → String → V → Result Failure (Unit {0})
  check_answer req context expected h =
      if not (M.request_message_id h == M.message_id req) || (M.message_id h == M.message_id req)
      then err invalid_record
      else if M.has_type "error" h
      then elim (M.error_code h) [ none ↦ err invalid_record | some code ↦ err (rejected code) ]
      else if not (M.has_type expected h)
      then err invalid_record
      else if not (has_context context h)
      then err invalid_record
      else ok tt

  unfoldable pub exchange : V → Option Context → String → Act W Failure (Reply V)
  exchange req context expected = do
    write_request M.json K.write_all K.flush req
    response ← read_record
    lift (check_answer req context expected response.header)
    pure response

  -- Any failure closes the connection.
  abbrev pub settle : W × Result Failure (Reply V) → Client W × Result Failure (Reply V)
  settle (w, ok r) = (record { stream = w; healthy = true }, ok r)
  settle (w, err e) = (record { stream = K.shutdown w; healthy = false }, err e)

  unfoldable pub call : String → P → Option Context → String → Act (Client W) Failure (Reply V)
  call kind payload context expected c =
      if not c.healthy
      then (c, err closed)
      else settle (
          exchange (M.request kind payload context (K.new_id c.stream).1) context expected
            (K.new_id c.stream).0)

  -- The release after the action, where the connection is still open; its failure counts where the
  -- action succeeded.
  abbrev pub keep_first :
      {A : Type 0} → Result Failure A → Result Failure (Reply V) → Result Failure A
  keep_first (ok a) (ok r) = ok a
  keep_first (ok a) (err e) = err e
  keep_first (err e) released = err e

  abbrev pub keep_if :
      {A : Type 0}
      → Bool
      → Client W × Result Failure A
      → Client W × Result Failure (Reply V)
      → Client W × Result Failure A
  keep_if false kept released = kept
  keep_if true (c, result) (after, released) = (after, keep_first result released)

  unfoldable pub give_back :
      {A : Type 0} → Context → String → Client W × Result Failure A → Client W × Result Failure A
  give_back context lease (c, result) =
      keep_if c.healthy (c, result)
        (call "control.release" (M.with_lease lease) (some context) "ack" c)

  unfoldable pub controlled :
      {A : Type 0} → Context → (String → Act (Client W) Failure A) → Act (Client W) Failure A
  controlled context action = do
    grant ← call "control.acquire" M.nothing (some context) "control.granted"
    lease ← lift (ok_or (M.lease_id grant.header) invalid_record)
    (λ c. give_back context lease (action lease c))

-- What the system answers to `connect`: the metadata of the socket and of its directory, the peer's
-- credentials, and the stream.
pub record Connecting (W : Type 0) : Type 0 where
  pub meta : Result Failure Metadata
  pub parent : Result Failure Metadata
  pub opened : Result Failure W
  pub peer : W → Option ℕ
  pub set_timeouts : W → Result Failure W

abbrev pub with_stream :
    {W : Type 0} → Connecting W → ℕ → Result Failure W → Result Failure (Client W)
with_stream C server_uid (err e) = err e
with_stream C server_uid (ok w) = elim (verify_peer (C.peer w) server_uid) [
  | err e ↦ err e
  | ok u ↦ elim (C.set_timeouts w) [
    | err e ↦ err e
    | ok timed ↦ ok (record { stream = timed; healthy = true })
  ]
]

unfoldable pub connect : {W : Type 0} → Connecting W → ℕ → Result Failure (Client W)
connect C server_uid = elim (C.meta) [
  | err e ↦ err e
  | ok meta ↦ elim (C.parent) [
    | err e ↦ err e
    | ok parent ↦
        if is_unsafe_socket meta parent server_uid
        then err unsafe_socket
        else with_stream C server_uid C.opened
  ]
]
