-- ===== src/Crypto/Ratchet/Faults.antt =====
-- What `decrypt` does with a packet that is not the one expected.
use hysj.Base.{
  ℕ, ◌+◌, ◌-◌, ◌≤◌, ◌<◌, ◌≡◌, refl, true, none, some, Bytes, length, ltb, ok, err, panic, arith, ap,
  sym, ◌∙◌, subst, Result-cases, Bool-cases, Option-cases, inl, inr,
}
use hysj.Crypto.Errors.{CryptoError, ratchet_error}
use hysj.Crypto.Primitives.{Primitives, Json}
use hysj.Crypto.Keys.{copy_first_32, derive_chain_key}
use hysj.Crypto.Keys.Laws.{copy_first_32-ok, derive_chain_key-lengths}
use hysj.Crypto.Cipher.{decrypt as cipher_decrypt}
use hysj.Crypto.Ratchet.Skipped.{lookup, take_key}
use hysj.Crypto.Ratchet.Skipped.Laws.{IsValid, take_key-IsValid}
use hysj.Crypto.Ratchet.Skipped.Insert.{take_key-none}
use hysj.Crypto.Ratchet.Missed.{skip_loop-IsValid}
use hysj.Crypto.Ratchet.Session.{IsPaired, header_of, decrypt_same_key, skip_none}
use hysj.Crypto.Ratchet.{
  RatchetState, MessageHeader, max_skip, hex_encode, hex_or_default, skip_missed_messages,
  dh_ratchet, ratchet_if_needed, need_ratchet, decrypt_next, decrypt_skipped, decrypt, Step, ◌>>=◌,
  ◌>>◌,
}

module _ ⦃p : Primitives⦄ ⦃j : Json MessageHeader⦄ where
  decrypt_next_failed :
      (b : RatchetState) (ck ct : Bytes) (header : MessageHeader) {e : CryptoError}
      → b.receiving_chain_key ≡ some ck
      → cipher_decrypt ct (derive_chain_key ck).1 (j.to_vec header) ≡ err e
      → decrypt_next ct header b
        ≡ (record b { receiving_chain_key = some (derive_chain_key ck).0 }, err e)
  unfolding decrypt_next
  decrypt_next_failed b ck ct header h e =
      ground (arith, copy_first_32-ok (derive_chain_key ck).1 (derive_chain_key-lengths ck).1)

  skip_past :
      (b : RatchetState) (ck : Bytes) (n : ℕ)
      → b.receiving_chain_key ≡ some ck
      → n ≤ b.recv_message_number
      → skip_missed_messages n b ≡ (b, ok tt)
  unfolding skip_missed_messages
  skip_past b ck n h l = elim (Bool-cases (ltb n b.recv_message_number)) [
    | inl e ↦ rw e
    | inr e ↦
        let q : n ≡ b.recv_message_number = ground arith in
        ap (λ m. skip_missed_messages m b) q ∙ skip_none b ck h
  ]

  -- A packet under the current key, for the message that is expected or an earlier one, whose key is
  -- not stored and which the cipher refuses: the error is reported, and the receiving chain has moved
  -- on by a key while the count of received messages has not.
  pub decrypt_refused :
      (b : RatchetState) (ck ct seed : Bytes) (header : MessageHeader) {e : CryptoError}
      → b.receiving_chain_key ≡ some ck
      → b.dh_receive_public ≡ some header.dh_public
      → header.message_number ≤ b.recv_message_number
      → lookup (hex_encode header.dh_public, header.message_number) b.skipped_keys.keys ≡ none
      → cipher_decrypt ct (derive_chain_key ck).1 (j.to_vec header) ≡ err e
      → decrypt ct header seed b
        ≡ (record b { receiving_chain_key = some (derive_chain_key ck).0 }, err e)
  decrypt_refused b ck ct seed header h k l f e = ground (
    arith,
    decrypt_same_key b ct seed header f k,
    skip_past b ck header.message_number h l,
    decrypt_next_failed b ck ct header h e,
  )

  decrypt_next-result :
      (b : RatchetState) (ck ct : Bytes) (header : MessageHeader)
      → b.receiving_chain_key ≡ some ck
      → (decrypt_next ct header b).1 ≡ cipher_decrypt ct (derive_chain_key ck).1 (j.to_vec header)
  unfolding decrypt_next
  decrypt_next-result b ck ct header h =
      ground (arith, copy_first_32-ok (derive_chain_key ck).1 (derive_chain_key-lengths ck).1)

  -- The message that is expected is tried with the key of the receiving chain.
  decrypt_expected :
      (b : RatchetState) (ck ct seed : Bytes) (header : MessageHeader)
      → b.receiving_chain_key ≡ some ck
      → b.dh_receive_public ≡ some header.dh_public
      → header.message_number ≤ b.recv_message_number
      → lookup (hex_encode header.dh_public, header.message_number) b.skipped_keys.keys ≡ none
      → (decrypt ct header seed b).1 ≡ cipher_decrypt ct (derive_chain_key ck).1 (j.to_vec header)
  decrypt_expected b ck ct seed header h k l f = ground (
    arith,
    decrypt_same_key b ct seed header f k,
    skip_past b ck header.message_number h l,
    decrypt_next-result b ck ct header h,
  )

  -- If `a` and `b` are in step, a packet with the header of `a`'s next message that the cipher
  -- refuses under its key gives that error, and a packet with the same header that comes next, the
  -- genuine one too, is tried with the key after its own.
  pub decrypt_after_forged :
      (a b : RatchetState) (s : IsPaired a b) (forged genuine seed seed' : Bytes) {e : CryptoError}
      → cipher_decrypt forged (derive_chain_key s.chain_key).1 (j.to_vec (header_of a)) ≡ err e
      → ((decrypt forged (header_of a) seed b).1 ≡ err e)
        × ((decrypt genuine (header_of a) seed' (decrypt forged (header_of a) seed b).0).1
            ≡ cipher_decrypt genuine
                (derive_chain_key (derive_chain_key s.chain_key).0).1
                (j.to_vec (header_of a)))
  decrypt_after_forged a b s forged genuine seed seed' e =
      let ck' = (derive_chain_key s.chain_key).0 in
      let l : a.send_message_number ≤ b.recv_message_number = omega (arith, s.same_number) in
      let f = s.fresh a.send_message_number (omega (arith, s.same_number)) in
      let refused =
        decrypt_refused b s.chain_key forged seed (header_of a) s.receives s.same_key l f e in
      (
        ap (λ r. r.1) refused,
        rw refused (
            decrypt_expected (record b { receiving_chain_key = some ck' }) ck' genuine seed'
              (header_of a) refl s.same_key l f),
      )

  -- A packet under the current key that is more than 1000 messages ahead of the chain, and whose key
  -- is not stored, gives an error and changes nothing.
  decrypt_too_far :
      (b : RatchetState) (ct seed : Bytes) (header : MessageHeader)
      → b.dh_receive_public ≡ some header.dh_public
      → b.recv_message_number + max_skip < header.message_number
      → lookup (hex_encode header.dh_public, header.message_number) b.skipped_keys.keys ≡ none
      → decrypt ct header seed b ≡ (b, err ratchet_error)
  unfolding skip_missed_messages
  decrypt_too_far b ct seed header k l f = ground (arith, decrypt_same_key b ct seed header f k)

  -- A header with a new key of fewer than 32 bytes, whose message key is not stored, makes `decrypt`
  -- panic once skipping the rest of the old chain succeeds.
  pub decrypt_short_key :
      (b : RatchetState) (ct seed : Bytes) (header : MessageHeader)
      → length header.dh_public < 32
      → need_ratchet b.dh_receive_public header.dh_public ≡ true
      → lookup (hex_encode header.dh_public, header.message_number) b.skipped_keys.keys ≡ none
      → (skip_missed_messages header.previous_chain_length b).1 ≡ ok tt
      → (decrypt ct header seed b).1 ≡ panic
  unfolding decrypt ratchet_if_needed dh_ratchet copy_first_32
  decrypt_short_key b ct seed header l n f k =
      ground
        (arith, take_key-none b.skipped_keys (hex_encode header.dh_public) header.message_number f)

  skip_missed_messages-IsValid :
      (n : ℕ) (b : RatchetState)
      → IsValid b.skipped_keys
      → IsValid (skip_missed_messages n b).0.skipped_keys
  unfolding skip_missed_messages
  skip_missed_messages-IsValid n b v = elim (Option-cases b.receiving_chain_key) [
    | inl e ↦ ground arith
    | inr (ck, e) ↦ ground (
      arith,
      skip_loop-IsValid (hex_or_default b.dh_receive_public) (n - b.recv_message_number)
          b.recv_message_number ck b.skipped_keys v,
    )
  ]

  dh_ratchet-skipped :
      (pk seed : Bytes) (b : RatchetState) → (dh_ratchet pk seed b).0.skipped_keys ≡ b.skipped_keys
  unfolding dh_ratchet
  dh_ratchet-skipped pk seed b = ground arith

  decrypt_next-skipped :
      (ct : Bytes) (header : MessageHeader) (b : RatchetState)
      → (decrypt_next ct header b).0.skipped_keys ≡ b.skipped_keys
  unfolding decrypt_next
  decrypt_next-skipped ct header b = ground arith

  -- A step that leaves a valid cache valid.
  abbrev Keeps : {A : Type 0} → Step A → Type 0
  Keeps m = (s : RatchetState) → IsValid s.skipped_keys → IsValid (m s).0.skipped_keys

  Keeps->>= :
      {A B : Type 0} (m : Step A) (f : A → Step B)
      → Keeps m
      → ((a : A) → Keeps (f a))
      → Keeps (m >>= f)
  Keeps->>= m f k l s v = elim (Result-cases (m s).1) [
    | inl (a, e) ↦ rw (e, ◌>>=◌) (l a (m s).0 (k s v))
    | inr (inl (x, e)) ↦ rw (e, ◌>>=◌) (k s v)
    | inr (inr e) ↦ rw (e, ◌>>=◌) (k s v)
  ]

  ratchet_if_needed-IsValid :
      (header : MessageHeader) (seed : Bytes) → Keeps (ratchet_if_needed header seed)
  unfolding ratchet_if_needed
  ratchet_if_needed-IsValid header seed s v =
      elim (Bool-cases (need_ratchet s.dh_receive_public header.dh_public)) [
        | inl e ↦ rw e (
            Keeps->>= (skip_missed_messages header.previous_chain_length)
              (λ _. dh_ratchet header.dh_public seed)
              (skip_missed_messages-IsValid header.previous_chain_length)
              (λ _ t u. subst IsValid (sym (dh_ratchet-skipped header.dh_public seed t)) u) s v)
        | inr e ↦ rw e v
      ]

  -- Whatever packet arrives at a state with a valid cache of skipped keys, and whether or not it
  -- opens, the cache stays valid: its order lists each stored key once, and it holds at most 1000.
  pub decrypt-IsValid :
      (ct : Bytes) (header : MessageHeader) (seed : Bytes) (b : RatchetState)
      → IsValid b.skipped_keys
      → IsValid (decrypt ct header seed b).0.skipped_keys
  unfolding decrypt decrypt_skipped ratchet_if_needed
  decrypt-IsValid ct header seed b v =
      let t = take_key b.skipped_keys (hex_encode header.dh_public) header.message_number in
      let w =
        take_key-IsValid b.skipped_keys (hex_encode header.dh_public) header.message_number v in
      elim (Option-cases t.1) [
        | inl e ↦
            rw (e, decrypt)
              (Keeps->>= (ratchet_if_needed header seed)
                (λ _. do skip_missed_messages header.message_number; decrypt_next ct header)
                (ratchet_if_needed-IsValid header seed)
                (λ _.
                  Keeps->>= (skip_missed_messages header.message_number)
                    (λ _. decrypt_next ct header)
                    (skip_missed_messages-IsValid header.message_number)
                    (λ _ s u. subst IsValid (sym (decrypt_next-skipped ct header s)) u))
                b v)
        | inr (key, e) ↦ rw (e, decrypt) (ground arith)
      ]
