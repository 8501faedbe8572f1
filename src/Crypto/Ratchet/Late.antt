-- ===== src/Crypto/Ratchet/Late.antt =====
-- Messages out of order: a later one first, the missing ones afterwards.
use hysj.Base.{
  ℕ, suc, ◌+◌, ◌≤◌, ◌<◌, ◌^◌, ◌≡◌, inr, refl, ap, sym, ◌∙◌, some, Bytes, List, [], ◌∷◌, length, ok,
  arith, subst,
}
use hysj.Crypto.Primitives.{Primitives, Json, message_limit}
use hysj.Crypto.Keys.{derive_chain_key}
use hysj.Crypto.Keys.Laws.{derive_chain_key-lengths}
use hysj.Crypto.Cipher.{decrypt as cipher_decrypt}
use hysj.Crypto.Ratchet.Skipped.{max_skipped_keys, lookup, len}
use hysj.Crypto.Ratchet.Skipped.Laws.{IsValid}
use hysj.Crypto.Ratchet.Session.{
  IsPaired, header_of, sent, received, encrypt-sent, decrypt_next-received, decrypt_same_key,
}
use hysj.Crypto.Ratchet.Missed.{
  chain_at, StoredFrom, skip_loop-other, skip_loop-StoredFrom, skip_loop-IsValid, skipped_to,
  skip_missed_messages-skipped_to, decrypt_stored,
}
use hysj.Crypto.Ratchet.{
  RatchetState, MessageHeader, Step, max_skip, u32, hex_encode, encrypt, decrypt, lift, ◌>>=◌,
}

module _ ⦃p : Primitives⦄ ⦃j : Json MessageHeader⦄ where
  -- Send messages, each with its nonce, one after the other.
  pub send_all : List (Bytes × Bytes) → Step (List (Bytes × MessageHeader))
  send_all [] = lift (ok [])
  send_all ((plaintext, nonce) ∷ rest) = do
    packet ← encrypt plaintext nonce
    packets ← send_all rest
    lift (ok (packet ∷ packets))

  abbrev pub AreSmall : List (Bytes × Bytes) → Type 0
  AreSmall [] = Unit {0}
  AreSmall ((plaintext, nonce) ∷ rest) =
      (length nonce ≡ 24) × (length plaintext ≤ message_limit) × AreSmall rest

  -- The packets are those of the messages, from the given chain key and number on.
  abbrev SealedFrom :
      Bytes → ℕ → Bytes → ℕ → List (Bytes × Bytes) → List (Bytes × MessageHeader) → Type 0
  SealedFrom pk prev ck n [] [] = Unit {0}
  SealedFrom pk prev ck n [] (packet ∷ packets) = ⊥
  SealedFrom pk prev ck n (m ∷ ms) [] = ⊥
  SealedFrom pk prev ck n ((plaintext, nonce) ∷ ms) ((ct, header) ∷ packets) =
      (header ≡ record { dh_public = pk; previous_chain_length = prev; message_number = n })
      × (cipher_decrypt ct (derive_chain_key ck).1 (j.to_vec header) ≡ ok plaintext)
      × SealedFrom pk prev (derive_chain_key ck).0 (n + 1) ms packets

  -- The receiver, in this state, opens each packet to its message.
  abbrev pub OpensAll : RatchetState → List (Bytes × Bytes) → List (Bytes × MessageHeader) → Type 0
  OpensAll b [] [] = Unit {0}
  OpensAll b [] (packet ∷ packets) = ⊥
  OpensAll b (m ∷ ms) [] = ⊥
  OpensAll b ((plaintext, nonce) ∷ ms) ((ct, header) ∷ packets) =
      ((seed : Bytes) → (decrypt ct header seed b).1 ≡ ok plaintext) × OpensAll b ms packets

  OpensAll-SealedFrom :
      (b : RatchetState) (pk : Bytes) (prev : ℕ) (ck : Bytes) (n : ℕ) (ms : List (Bytes × Bytes))
      (packets : List (Bytes × MessageHeader))
      → IsValid b.skipped_keys
      → StoredFrom (hex_encode pk) ck n (length ms) b.skipped_keys
      → SealedFrom pk prev ck n ms packets
      → OpensAll b ms packets
  OpensAll-SealedFrom b pk prev ck n [] [] v st se = tt
  OpensAll-SealedFrom b pk prev ck n [] (packet ∷ packets) v st se = se
  OpensAll-SealedFrom b pk prev ck n (m ∷ ms) [] v st se = se
  OpensAll-SealedFrom b pk prev ck n ((plaintext, nonce) ∷ ms) ((ct, header) ∷ packets) v st se = (
    λ seed.
        decrypt_stored b ct seed (derive_chain_key ck).1 plaintext header v
          (ap
              (λ (h : MessageHeader).
                lookup (hex_encode h.dh_public, h.message_number) b.skipped_keys.keys)
              se.0
            ∙ st.0)
          (derive_chain_key-lengths ck).1 se.1,
    OpensAll-SealedFrom b pk prev (derive_chain_key ck).0 (n + 1) ms packets v st.1 se.2,
  )

  -- The sender's state after some messages.
  abbrev sent_many : RatchetState → Bytes → ℕ → RatchetState
  sent_many a ck k = record a {
    sending_chain_key = some (chain_at k ck);
    send_message_number = a.send_message_number + k;
  }

  send_all-SealedFrom :
      (a : RatchetState) (ck : Bytes) (ms : List (Bytes × Bytes))
      → a.sending_chain_key ≡ some ck
      → AreSmall ms
      → a.send_message_number + length ms < 2 ^ 32
      → (packets : List (Bytes × MessageHeader)) × (send_all ms a
          ≡ (sent_many a ck (length ms), ok packets))
        × SealedFrom a.dh_send_public a.previous_sending_chain_length ck a.send_message_number ms
            packets
  unfolding send_all
  send_all-SealedFrom a ck [] h sm w =
      let z : a.send_message_number ≡ a.send_message_number + 0 = omega arith in
      ([], λ i. (record a { sending_chain_key = h i; send_message_number = z i }, ok []), tt)
  send_all-SealedFrom a ck ((plaintext, nonce) ∷ ms) h sm w =
      let (ct, e, d) = encrypt-sent a ck plaintext nonce h sm.0 sm.1 in
      let u : u32 (a.send_message_number + 1) ≡ a.send_message_number + 1 = omega arith in
      let t : u32 (a.send_message_number + 1) + length ms
          ≡ a.send_message_number + suc (length ms) =
        omega arith in
      let (packets, es, ss) =
        send_all-SealedFrom (sent a ck) (derive_chain_key ck).0 ms refl sm.2 (omega arith) in
      (
        (ct, header_of a) ∷ packets,
        ground (arith, e, es, t),
        (
          refl,
          d,
          subst
              (λ n.
                SealedFrom a.dh_send_public a.previous_sending_chain_length (derive_chain_key ck).0
                  n ms packets)
              u ss,
        ),
      )

  -- If `a` and `b` are in step, `b`'s cache is valid and has room for some messages, at most 1000,
  -- that `a` sends first, nonces and messages are of the right size and the counter does not wrap,
  -- then a later message opens for `b` when it arrives before all of these, the two are in step
  -- afterwards, and each of the missing messages opens in that state.
  pub late_delivery :
      (a b : RatchetState) (ms : List (Bytes × Bytes)) (plaintext nonce seed : Bytes)
      → IsPaired a b
      → IsValid b.skipped_keys
      → AreSmall ((plaintext, nonce) ∷ ms)
      → length ms ≤ max_skip
      → len b.skipped_keys + length ms ≤ max_skipped_keys
      → a.send_message_number + length ms + 1 < 2 ^ 32
      → (packets : List (Bytes × MessageHeader)) × (ct : Bytes) × (header : MessageHeader)
        × (a' : RatchetState) × (a'' : RatchetState) × (b' : RatchetState) × (send_all ms a
            ≡ (a', ok packets))
        × (encrypt plaintext nonce a' ≡ (a'', ok (ct, header)))
        × (decrypt ct header seed b ≡ (b', ok plaintext))
        × IsPaired a'' b'
        × OpensAll b' ms packets
  late_delivery a b ms plaintext nonce seed s v sm k room w =
      let ck = s.chain_key in
      let hex = hex_encode a.dh_send_public in
      let (packets, es, ss) = send_all-SealedFrom a ck ms s.sends sm.2 (omega arith) in
      let a1 = sent_many a ck (length ms) in
      let ck1 = chain_at (length ms) ck in
      let (ct, e, d) = encrypt-sent a1 ck1 plaintext nonce refl sm.0 sm.1 in
      let b1 = skipped_to b hex ck (length ms) a1.send_message_number in
      let skip =
        skip_missed_messages-skipped_to b a.dh_send_public ck (length ms) a1.send_message_number
          s.same_key s.receives (omega (arith, s.same_number)) k in
      let stored =
        skip_loop-StoredFrom hex (length ms) b.recv_message_number ck b.skipped_keys v room in
      let valid = skip_loop-IsValid hex (length ms) b.recv_message_number ck b.skipped_keys v in
      (
        packets,
        ct,
        header_of a1,
        a1,
        sent a1 ck1,
        received b1 ck1,
        es,
        e,
        ground (
          arith,
          decrypt_same_key b ct seed (header_of a1)
              (s.fresh a1.send_message_number (omega (arith, s.same_number))) s.same_key,
          skip,
          decrypt_next-received b1 ck1 ct plaintext (header_of a1) refl d,
        ),
        record {
          chain_key = (derive_chain_key ck1).0;
          sends = refl;
          receives = refl;
          same_key = s.same_key;
          same_number = refl;
          fresh = λ n h.
              skip_loop-other hex (length ms) b.recv_message_number n ck b.skipped_keys v room
                (inr (omega (arith, s.same_number)))
              ∙ s.fresh n (omega (arith, s.same_number));
        },
        OpensAll-SealedFrom (received b1 ck1) a.dh_send_public a.previous_sending_chain_length ck
            a.send_message_number ms packets valid
            (subst (λ n. StoredFrom hex ck n (length ms) b1.skipped_keys) (sym s.same_number)
              stored)
            ss,
      )
