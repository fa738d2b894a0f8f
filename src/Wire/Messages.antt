-- ===== src/Wire/Messages.antt =====
-- `read_request` and `write_reply` of the worker (device/core/src/wire.rs), and `write_record` of
-- the client (cli/src/lib.rs). JSON values, their codec and the schema are parameters.
use donkeywork_desktop.Base.{
  ℕ, ◌%◌, Bool, false, not, ◌||◌, ◌&&◌, Option, none, some, List, ok, err, ok_or, ltb, ◌==◌,
  if◌then◌else◌, length, is_empty, String,
}
use donkeywork_desktop.Base.Actions.{Act, pure, lift, ensure, ◌>>=◌, ◌>>◌}
use donkeywork_desktop.Console.Records.{
  IoError, invalid_data, Write, Read, to_be_bytes, read_record,
}

-- What the code asks of JSON values: the codec, the schema, and the fields in use.
pub record Json (V : Type 0) : Type 0 where
  -- The schema, as the worker builds it and as the client builds it.
  pub conforms : V → Bool
  pub validates : V → Bool
  pub to_vec : V → Option (List ℕ)
  pub parse_json : List ℕ → Option V
  -- The `type` is one of REQUESTS.
  pub is_request : V → Bool
  -- The `type` is `screenshot.result`.
  pub is_screenshot : V → Bool
  -- `payload.payloadBytes`
  pub payload_bytes : V → Option ℕ

pub record Reply (V : Type 0) : Type 0 where
  pub header : V
  pub binary : List ℕ

-- The codes of `Failure` in use: those of the client itself, and those that the worker answers.
pub data Failure : Type 0 where
  invalid_record io_error unauthorized unsafe_socket invalid_context closed invalid_argument
        resize_rejected :
      Failure
  rejected : String → Failure
  -- No failures of the source: a loop was not followed to its end, and a panic.
  unfinished panicked : Failure

abbrev pub max_header : ℕ
max_header = 65536

abbrev pub max_png : ℕ
max_png = 67108864

abbrev pub is_size : Option ℕ → ℕ → Bool
is_size none n = false
is_size (some size) n = size == n

-- `From<std::io::Error>` at a `?`.
abbrev pub with_failure : {W A : Type 0} → Act W IoError A → Act W Failure A
with_failure m s = ((m s).0, elim (m s).1 [ ok a ↦ ok a | err e ↦ err io_error ])

module _ {V : Type 0} (J : Json V) where
  unfoldable pub valid_request : V → Bool
  valid_request message = J.conforms message && J.is_request message

  unfoldable pub read_request : {R : Type 0} → Read R → Act R IoError V
  read_request read_exact = do
    bytes ← read_record read_exact max_header
    message ← lift (ok_or (J.parse_json bytes) invalid_data)
    ensure (valid_request message) invalid_data
    pure message

  -- Only a screenshot has binary data, as much as its header says.
  unfoldable pub is_whole : Reply V → Bool
  is_whole reply =
      if J.is_screenshot reply.header
      then is_size (J.payload_bytes reply.header) (length reply.binary)
        && not (is_empty reply.binary)
      else is_empty reply.binary

  -- The checks of the sizes.
  unfoldable pub is_sized : List ℕ → Reply V → Bool
  is_sized bytes reply =
      not (is_empty bytes || ltb max_header (length bytes) || ltb max_png (length reply.binary))

  module _ {W : Type 0} (write_all : Write W) (flush : Act W IoError (Unit {0})) where
    abbrev pub send_reply : List ℕ → List ℕ → Act W IoError (Unit {0})
    send_reply bytes binary = do
      write_all (to_be_bytes (length bytes % 4294967296))
      write_all bytes
      write_all binary
      flush

    -- From the checks of the sizes on.
    abbrev pub write_whole : Reply V → List ℕ → Act W IoError (Unit {0})
    write_whole reply bytes = do
      ensure (is_sized bytes reply) invalid_data
      ensure (is_whole reply) invalid_data
      send_reply bytes reply.binary

    unfoldable pub write_reply : Reply V → Act W IoError (Unit {0})
    write_reply reply = do
      ensure (J.conforms reply.header) invalid_data
      bytes ← lift (ok_or (J.to_vec reply.header) invalid_data)
      write_whole reply bytes

    abbrev pub send_request : List ℕ → Act W IoError (Unit {0})
    send_request bytes = do
      write_all (to_be_bytes (length bytes % 4294967296))
      write_all bytes
      flush

    -- The end of `write_record` of the client, from its check of the size on.
    abbrev pub write_sized : List ℕ → Act W Failure (Unit {0})
    write_sized bytes = do
      ensure (not (is_empty bytes || ltb max_header (length bytes))) invalid_record
      with_failure (send_request bytes)

    -- `write_record` of the client.
    unfoldable pub write_request : V → Act W Failure (Unit {0})
    write_request header = do
      ensure (J.validates header) invalid_record
      bytes ← lift (ok_or (J.to_vec header) invalid_record)
      write_sized bytes
