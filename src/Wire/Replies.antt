-- ===== src/Wire/Replies.antt =====
-- What a reply of the worker is on the wire (device/core/src/wire.rs).
use donkeywork_desktop.Base.{
  ℕ, ◌%◌, ◌≤◌, ◌<◌, ◌≡◌, refl, ap, ◌∙◌, Bool, true, false, not, ◌&&◌, Option, none, some, List, [],
  ◌∷◌, ◌++◌, ok, ok_or, if◌then◌else◌, length, is_empty, arith, ◌⊎◌, inl, inr,
}
use mathlib.Core.List.{append_assoc}
use donkeywork_desktop.Base.Actions.{lift, ensure, ◌>>=◌, ◌>>◌}
use donkeywork_desktop.Console.Records.{invalid_data, to_be_bytes, to_vec}
use donkeywork_desktop.Console.Framing.{framed}
use donkeywork_desktop.Wire.Messages.{
  Json, Reply, max_header, max_png, is_size, is_whole, is_sized, write_reply, write_whole,
  send_reply,
}
use donkeywork_desktop.Wire.Exchange.{no_flush}

is_empty-nil : (xs : List ℕ) → is_empty xs ≡ true → xs ≡ []
is_empty-nil [] h = refl
is_empty-nil (x ∷ xs) h = cc

is_size-some : (size : Option ℕ) (n : ℕ) → is_size size n ≡ true → size ≡ some n
is_size-some none n h = cc
is_size-some (some m) n h = let same : m ≡ n = ground (arith, h) in ap some same

module _ {V : Type 0} (J : Json V) where
  is_whole_cases :
      (reply : Reply V)
      → is_whole J reply ≡ true
      → ((J.is_screenshot reply.header ≡ true)
          × (J.payload_bytes reply.header ≡ some (length reply.binary)))
        ⊎ ((J.is_screenshot reply.header ≡ false) × (reply.binary ≡ []))
  unfolding is_whole
  is_whole_cases reply h = by_kind (J.is_screenshot reply.header) h
    where
      by_kind :
          (shot : Bool)
          → (if shot
              then is_size (J.payload_bytes reply.header) (length reply.binary)
                && not (is_empty reply.binary)
              else is_empty reply.binary)
            ≡ true
          → ((shot ≡ true) × (J.payload_bytes reply.header ≡ some (length reply.binary)))
            ⊎ ((shot ≡ false) × (reply.binary ≡ []))
      by_kind true h = inl (
        refl,
        is_size-some (J.payload_bytes reply.header) (length reply.binary) (ground (arith, h)),
      )
      by_kind false h = inr (refl, is_empty-nil reply.binary h)

  -- What a reply is on the wire: the record of its header, and then its binary data.
  abbrev wire : List ℕ → List ℕ → List ℕ → List ℕ
  wire written bytes binary =
      ((written ++ to_be_bytes (length bytes % 4294967296)) ++ bytes) ++ binary

  write_whole_lem :
      (reply : Reply V) (bytes written : List ℕ)
      → (write_whole J to_vec no_flush reply bytes written).1 ≡ ok tt
      → (is_sized J bytes reply ≡ true)
        × (is_whole J reply ≡ true)
        × ((write_whole J to_vec no_flush reply bytes written).0 ≡ wire written bytes reply.binary)
  write_whole_lem reply bytes written h = by_tests (is_sized J bytes reply) (is_whole J reply) h
    where
      by_tests :
          (sized whole : Bool)
          → ((ensure sized invalid_data
                >> (ensure whole invalid_data >> send_reply J to_vec no_flush bytes reply.binary))
              written).1
            ≡ ok tt
          → (sized ≡ true)
            × (whole ≡ true)
            × (((ensure sized invalid_data
                    >> (ensure whole invalid_data
                        >> send_reply J to_vec no_flush bytes reply.binary))
                  written).0
                ≡ wire written bytes reply.binary)
      by_tests true true h = (refl, refl, refl)
      by_tests true false h = cc
      by_tests false whole h = cc

  by_codec :
      (reply : Reply V) (conforms : Bool) (text : Option (List ℕ)) (written : List ℕ)
      → ((ensure conforms invalid_data
            >> (lift (ok_or text invalid_data) >>= write_whole J to_vec no_flush reply))
          written).1
        ≡ ok tt
      → (bytes : List ℕ) × (text ≡ some bytes)
        × (is_sized J bytes reply ≡ true)
        × (is_whole J reply ≡ true)
        × (((ensure conforms invalid_data
                >> (lift (ok_or text invalid_data) >>= write_whole J to_vec no_flush reply))
              written).0
            ≡ wire written bytes reply.binary)
  by_codec reply false text written h = cc
  by_codec reply true none written h = cc
  by_codec reply true (some bytes) written h =
      let (s, w, e) = write_whole_lem reply bytes written h in (bytes, refl, s, w, e)

  is_sized_lem :
      (bytes : List ℕ) (reply : Reply V)
      → is_sized J bytes reply ≡ true
      → (0 < length bytes) × (length bytes ≤ max_header) × (length reply.binary ≤ max_png)
  unfolding is_sized
  is_sized_lem [] reply h = cc
  is_sized_lem (b ∷ bytes) reply h = ground (arith, h)

  -- A reply that is written is the record of its header, within the limit, and then its binary data,
  -- within its limit: as many bytes as the header of a screenshot says, and none otherwise.
  pub write_reply_lem :
      (reply : Reply V) (written : List ℕ)
      → (write_reply J to_vec no_flush reply written).1 ≡ ok tt
      → (bytes : List ℕ) × (J.to_vec reply.header ≡ some bytes)
        × (0 < length bytes)
        × (length bytes ≤ max_header)
        × (length reply.binary ≤ max_png)
        × ((write_reply J to_vec no_flush reply written).0
            ≡ written ++ (framed bytes ++ reply.binary))
        × (((J.is_screenshot reply.header ≡ true)
              × (J.payload_bytes reply.header ≡ some (length reply.binary)))
            ⊎ ((J.is_screenshot reply.header ≡ false) × (reply.binary ≡ [])))
  unfolding write_reply
  write_reply_lem reply written h =
      let (bytes, text, sized, whole, e) =
        by_codec reply (J.conforms reply.header) (J.to_vec reply.header) written h in
      let (p, n, m) = is_sized_lem bytes reply sized in
      let prefix = to_be_bytes (length bytes % 4294967296) in
      (
        bytes,
        text,
        p,
        n,
        m,
        e
            ∙ ap (λ out. out ++ reply.binary) (append_assoc written prefix bytes)
            ∙ append_assoc written (framed bytes) reply.binary,
        is_whole_cases reply whole,
      )
