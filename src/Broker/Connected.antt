-- ===== src/Broker/Connected.antt =====
-- What a worker of the capability broker does before it has a descriptor to send
-- (device/console/src/bin/socket-broker.rs, `capture_connect`).
use donkeywork_desktop.Base.{
  ℕ, ◌≡◌, ◌≢◌, true, false, ◌&&◌, Option, none, some, List, ◌∷◌, ok, ok_or, arith, ◌==◌,
}
use donkeywork_desktop.Broker.Kernel.{
  ErrorKind, invalid_input, invalid_data, permission_denied, Metadata, SocketPath, rights,
  unavailable, Kernel, Call, made, linked, peer_is, looked,
}
use donkeywork_desktop.Broker.Serve.{
  is_root_dir, is_root_socket, fits_address, peer_root, validate_root_socket, connect_to,
  capture_connect,
}
use donkeywork_desktop.Broker.Exchanges.{
  Phase, asked, seen, checked, opened, connected, answering, IsTrying, at_opened, at_connected,
  at_asked, at_seen, at_checked, Exchanges, looks, checks, opens, links, trusts, doubts, declines,
  drops,
}
use donkeywork_desktop.Broker.Logged.{
  Logged, pure-Logged, lift-Logged, >>=-Logged, ensure-Logged, ask-Logged, ask_noted-Logged,
  close_on_error-Logged,
}

ok_or-some : {A : Type 0} (o : Option A) (e : ErrorKind) (a : A) → ok_or o e ≡ ok a → o ≡ some a
ok_or-some none e a h = cc
ok_or-some (some b) e a h = cc

module _ {X : Type 0} (K : Kernel X) {P Q O : List Call → Type 0} (fd : ℕ) where
  -- What follows where the peer is root, and what where it is not.
  pub peer_root-Logged :
      ((c : List Call) (uid : ℕ) → P c → uid ≡ 0 → Q (peer_is fd uid ∷ c))
      → ((c : List Call) (uid : ℕ) → P c → uid ≢ 0 → O (peer_is fd uid ∷ c))
      → ((c : List Call) → P c → O c)
      → Logged P (peer_root K fd) (λ u. Q) O
  unfolding peer_root
  peer_root-Logged yes_ no_ fail =
      >>=-Logged {J = λ uid c. (uid ≡ 0 → Q c) × (uid ≢ 0 → O c)}
        (ask_noted-Logged (peer_is fd) (K.peer_uid fd) (λ c h uid. (yes_ c uid h, no_ c uid h))
          fail)
        λ uid.
          ensure-Logged (uid == 0) permission_denied (λ e c h. h.0 (ground arith))
            (λ e c h. h.1 (λ z. ground arith))

module _ {X : Type 0} (K : Kernel X) (stream : ℕ) (path : SocketPath) where
  abbrev In : Phase → List Call → Type 0
  In p c = Exchanges stream path c p

  abbrev Failed : List Call → Type 0
  Failed = In (answering unavailable)

  -- The directory and the socket are root's alone.
  abbrev IsSafe : List Call → Type 0
  IsSafe c =
      (parent : Metadata) × (socket : Metadata) × In (checked parent socket) c
      × (is_root_dir parent ≡ true)
      × (is_root_socket socket ≡ true)

  validate_root_socket-Logged : Logged (In asked) (validate_root_socket K path) (λ u. IsSafe) Failed
  unfolding validate_root_socket
  validate_root_socket-Logged =
      >>=-Logged {J = λ u c. In asked c × (path.is_absolute ≡ true)}
        (ensure-Logged path.is_absolute invalid_input (λ e c h. (h, e))
          (λ e c h. declines h at_asked))
        λ _.
          >>=-Logged
            {J = λ parent c. In asked c × (path.is_absolute ≡ true) × (path.parent ≡ some parent)}
            (lift-Logged (ok_or path.parent invalid_input)
              (λ parent e c h. (h.0, h.1, ok_or-some path.parent invalid_input parent e))
              (λ c h. declines h.0 at_asked))
            λ parent.
              >>=-Logged {J = λ m. In (seen m)}
                (ask_noted-Logged (looked parent) (K.symlink_metadata parent)
                  (λ c h m. looks h.0 h.1 h.2) (λ c h. declines h.0 at_asked))
                λ parent_meta.
                  >>=-Logged {J = λ m. In (checked parent_meta m)}
                    (ask_noted-Logged (looked path.bytes) (K.symlink_metadata path.bytes)
                      (λ c h m. checks h) (λ c h. declines h at_seen))
                    λ socket_meta.
                      ensure-Logged (is_root_dir parent_meta && is_root_socket socket_meta)
                        permission_denied
                        (λ e c h. (parent_meta, socket_meta, h, ground arith, ground arith))
                        (λ e c h. declines h at_checked)

  abbrev Trying : ℕ → List Call → Type 0
  Trying fd c = (p : Phase) × In p c × IsTrying fd p

  connect_to-Logged :
      (fd : ℕ)
      → Logged (In (opened fd)) (connect_to K fd path) (λ f. In (answering (rights f))) (Trying fd)
  unfolding connect_to
  connect_to-Logged fd =
      >>=-Logged {J = λ u. In (connected fd)}
        (ask_noted-Logged (λ u. linked fd path.bytes) (K.connect fd path.bytes) (λ c h u. links h)
          (λ c h. (opened fd, h, at_opened)))
        λ _.
          >>=-Logged {J = λ u. In (connected fd)}
            (ask-Logged (K.set_nonblocking fd false) (λ c h u. h)
              (λ c h. (connected fd, h, at_connected)))
            λ _.
              >>=-Logged {J = λ u. In (answering (rights fd))}
                (peer_root-Logged K fd (λ c uid h e. trusts h e)
                  (λ c uid h n. (opened fd, doubts h n, at_opened))
                  (λ c h. (connected fd, h, at_connected)))
                λ _. pure-Logged fd (λ c h. h)

  pub capture_connect-Logged :
      Logged (In asked) (capture_connect K path) (λ fd. In (answering (rights fd))) Failed
  unfolding capture_connect
  capture_connect-Logged = >>=-Logged validate_root_socket-Logged λ _.
      >>=-Logged {J = λ u c. IsSafe c × (fits_address path.bytes ≡ true)}
        (ensure-Logged (fits_address path.bytes) invalid_data (λ e c h. (h, e))
          (λ e c h. declines h.2 at_checked))
        λ _.
          >>=-Logged {J = λ fd. In (opened fd)}
            (ask_noted-Logged made K.socket (λ c h fd. opens h.0.2 h.0.3 h.0.4 h.1)
              (λ c h. declines h.0.2 at_checked))
            λ fd.
              close_on_error-Logged K fd (connect_to K fd path) (connect_to-Logged fd)
                (λ c h. drops h.1 h.2)
