-- ===== src/Client/Answers.antt =====
-- A connection of the client after a call (cli/src/lib.rs, `Client::call`).
use donkeywork_desktop.Base.{
  ℕ, ◌≡◌, refl, sym, ap, ◌∙◌, Bool, true, false, not, ◌||◌, ◌⊎◌, inl, inr, Option, Result, ok, err,
  ok_or, ltb, ◌==◌, String, arith,
}
use donkeywork_desktop.Base.Actions.{Act, lift, ensure}
use donkeywork_desktop.Base.Contracts.{
  Contract, Post, pure-Contract, ensure-Contract, lift-Contract, >>=-Contract, by_result,
  before-Contract, fact-Contract,
}
use donkeywork_desktop.Console.Records.{from_be_bytes}
use donkeywork_desktop.Wire.Messages.{
  Reply, Failure, invalid_record, max_header, max_png, with_failure, write_request, closed,
}
use donkeywork_desktop.Client.Png.{Decoder}
use donkeywork_desktop.Client.Endpoint.{Context}
use donkeywork_desktop.Client.Calls.{
  Messages, Socket, Client, body_size, check_body, read_header, read_record, has_context,
  check_answer, exchange, settle, call,
}

module _ {V P W : Type 0} (M : Messages V P) (K : Socket W) (D : Decoder) where
  -- An answer that the client takes for that of a request.
  pub record IsAnswer (req : V) (context : Option Context) (expected : String) (h : V)
      : Type 0 where
    pub validated : M.json.validates h ≡ true
    pub answers : M.request_message_id h ≡ M.message_id req
    pub differs : (M.message_id h == M.message_id req) ≡ false
    pub kind : M.has_type expected h ≡ true
    pub no_error : M.has_type "error" h ≡ false
    pub session : has_context M K D context h ≡ true

  -- Nothing is known of the stream.
  abbrev Any : W → Type 0
  Any w = Unit {0}

  anyhow : {A : Type 0} (m : Act W Failure A) → Contract Any m (λ a. Any) Any
  anyhow m = by_result (λ s h a e. tt) (λ s h e w. tt)

  read_header-Contract :
      (size : ℕ) → Contract Any (read_header M K D size) (λ h w. M.json.validates h ≡ true) Any
  read_header-Contract size =
      >>=-Contract (anyhow (ensure (not (size == 0 || ltb max_header size)) invalid_record)) λ _.
        >>=-Contract (anyhow (with_failure (K.read_exact size))) λ bytes.
          >>=-Contract (anyhow (lift (ok_or (M.json.parse_json bytes) invalid_record))) λ header.
            >>=-Contract {J = λ _ w. M.json.validates header ≡ true}
              (ensure-Contract (M.json.validates header) invalid_record (λ e w h. e) (λ w h. tt))
              λ _. pure-Contract header (λ w h. h)

  read_record-Contract :
      Contract Any (read_record M K D) (λ r w. M.json.validates r.header ≡ true) Any
  unfolding read_record
  read_record-Contract = >>=-Contract (anyhow (with_failure (K.read_exact 4))) λ prefix.
      >>=-Contract (read_header-Contract (from_be_bytes prefix)) λ header.
        fact-Contract (λ w h. h)
          λ valid.
            before-Contract (λ w h. tt)
              (>>=-Contract (anyhow (lift (body_size M K D header))) λ size.
                >>=-Contract (anyhow (ensure (not (ltb max_png size)) invalid_record)) λ _.
                  >>=-Contract (anyhow (with_failure (K.read_exact size))) λ binary.
                    >>=-Contract (anyhow (lift (check_body M K D header size binary))) λ _.
                      pure-Contract (record { header = header; binary = binary }) (λ w h. valid))

  check_answer-IsAnswer :
      (req : V) (context : Option Context) (expected : String) (h : V)
      → M.json.validates h ≡ true
      → check_answer M K D req context expected h ≡ ok tt
      → IsAnswer req context expected h
  unfolding check_answer
  check_answer-IsAnswer req context expected h v e = record {
    validated = v;
    answers = ground (arith, e);
    differs = ground (arith, e);
    kind = ground (arith, e);
    no_error = ground (arith, e);
    session = ground (arith, e);
  }

  exchange-Contract :
      (req : V) (context : Option Context) (expected : String)
      → Contract Any
          (exchange M K D req context expected)
          (λ r w. IsAnswer req context expected r.header)
          Any
  unfolding exchange
  exchange-Contract req context expected =
      >>=-Contract (anyhow (write_request M.json K.write_all K.flush req)) λ _.
        >>=-Contract read_record-Contract λ r.
          >>=-Contract {J = λ u w. IsAnswer req context expected r.header}
            (lift-Contract (check_answer M K D req context expected r.header)
              (λ w h u e. check_answer-IsAnswer req context expected r.header h e) (λ w h. tt))
            λ u. pure-Contract r (λ w h. h)

  -- After a call of an open connection: an answer that was checked, or a closed connection.
  abbrev pub IsSettled : V → Option Context → String → Client W × Result Failure (Reply V) → Type 0
  IsSettled req context expected (c, ok r) =
      (c.healthy ≡ true) × IsAnswer req context expected r.header
  IsSettled req context expected (c, err e) =
      (c.healthy ≡ false) × ((w : W) × (c.stream ≡ K.shutdown w))

  -- The request that a call sends.
  abbrev pub sent : String → P → Option Context → Client W → V
  sent kind payload context c = M.request kind payload context (K.new_id c.stream).1

  settle-IsSettled :
      (req : V) (context : Option Context) (expected : String) (r : W × Result Failure (Reply V))
      → Post (λ a w. IsAnswer req context expected a.header) Any r
      → IsSettled req context expected (settle M K D r)
  settle-IsSettled req context expected (w, ok r) h = (refl, h)
  settle-IsSettled req context expected (w, err e) h = (refl, (w, refl))

  abbrev pub Called :
      String → P → Option Context → String → Client W → Client W × Result Failure (Reply V) → Type 0
  Called kind payload context expected c r =
      ((c.healthy ≡ false) × (r ≡ (c, err closed)))
      ⊎ ((c.healthy ≡ true) × IsSettled (sent kind payload context c) context expected r)

  -- A call of an open connection is answered by a record that the schema allows, for this request,
  -- of the expected type and no error, for the session of the context, and leaves the connection
  -- open; or it fails, and the connection is shut down. Nothing is sent over a closed connection.
  pub call-Called :
      (kind : String) (payload : P) (context : Option Context) (expected : String) (c : Client W)
      → Called kind payload context expected c (call M K D kind payload context expected c)
  unfolding call
  call-Called kind payload context expected c = go c.healthy refl
    where
      go :
          (b : Bool)
          → c.healthy ≡ b
          → Called kind payload context expected c (call M K D kind payload context expected c)
      go false e = inl (e, rw e refl)
      go true e = inr (
        e,
        rw e (
            settle-IsSettled (sent kind payload context c) context expected
              (exchange M K D (sent kind payload context c) context expected (K.new_id c.stream).0)
              ((exchange-Contract (sent kind payload context c) context expected).at
                (K.new_id c.stream).0 tt)),
      )

  pub called :
      (kind : String) (payload : P) (context : Option Context) (expected : String) (c : Client W)
      (r : Client W × Result Failure (Reply V))
      → call M K D kind payload context expected c ≡ r
      → Called kind payload context expected c r
  called kind payload context expected c r e =
      rw (sym e) (call-Called kind payload context expected c)

  -- A call that fails leaves the connection closed.
  pub Called-err :
      (kind : String) (payload : P) (context : Option Context) (expected : String) (c s : Client W)
      (e : Failure)
      → Called kind payload context expected c (s, err e)
      → s.healthy ≡ false
  Called-err kind payload context expected c s e (inl (p, q)) = ap (λ r. r.0.healthy) q ∙ p
  Called-err kind payload context expected c s e (inr (p, q)) = q.0

  pub Called-ok :
      (kind : String) (payload : P) (context : Option Context) (expected : String) (c s : Client W)
      (r : Reply V)
      → Called kind payload context expected c (s, ok r)
      → IsAnswer (sent kind payload context c) context expected r.header
  Called-ok kind payload context expected c s r (inl (p, q)) = cc
  Called-ok kind payload context expected c s r (inr (p, q)) = q.1
