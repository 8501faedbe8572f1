-- ===== src/Crypto/Ratchet/Session.antt =====
-- A sender and a receiver on one chain: messages in order.
use hysj.Base.{
  ℕ, zero, suc, ◌+◌, ◌-◌, ◌≤◌, ◌<◌, ◌^◌, ◌≡◌, refl, ap, none, some, Bytes, bytes_eq_refl, length,
  ok, arith,
}
use hysj.Crypto.Primitives.{Primitives, Json, message_limit}
use hysj.Crypto.Keys.{derive_chain_key}
use hysj.Crypto.Keys.Laws.{copy_first_32-ok, derive_chain_key-lengths}
use hysj.Crypto.Cipher.{decrypt as cipher_decrypt}
use hysj.Crypto.Cipher.Laws.{encrypt-ok as cipher_encrypt-ok}
use hysj.Crypto.Ratchet.Skipped.{SkippedKeys, lookup}
use hysj.Crypto.Ratchet.Skipped.Insert.{take_key-none}
use hysj.Crypto.Ratchet.{
  RatchetState, MessageHeader, u32, hex_encode, hex_or_default, skip_loop, skip_missed_messages,
  ratchet_if_needed, decrypt_next, encrypt, decrypt, ◌>>◌,
}

-- `a`'s sending chain is `b`'s receiving chain, at the same place, and `b` has stored no key for a
-- message that is still to come.
pub record IsPaired (a : RatchetState) (b : RatchetState) : Type 0 where
  pub chain_key : Bytes
  pub sends : a.sending_chain_key ≡ some chain_key
  pub receives : b.receiving_chain_key ≡ some chain_key
  pub same_key : b.dh_receive_public ≡ some a.dh_send_public
  pub same_number : a.send_message_number ≡ b.recv_message_number
  pub fresh :
      (n : ℕ)
      → b.recv_message_number ≤ n
      → lookup (hex_encode a.dh_send_public, n) b.skipped_keys.keys ≡ none

-- The header of the next message.
abbrev pub header_of : RatchetState → MessageHeader
header_of a = record {
  dh_public = a.dh_send_public;
  previous_chain_length = a.previous_sending_chain_length;
  message_number = a.send_message_number;
}

module _ ⦃p : Primitives⦄ where
  -- The sender's state after a message.
  abbrev pub sent : RatchetState → Bytes → RatchetState
  sent a ck = record a {
    sending_chain_key = some (derive_chain_key ck).0;
    send_message_number = u32 (a.send_message_number + 1);
  }

  -- The receiver's state after the message it was waiting for.
  abbrev pub received : RatchetState → Bytes → RatchetState
  received b ck = record b {
    receiving_chain_key = some (derive_chain_key ck).0;
    recv_message_number = u32 (b.recv_message_number + 1);
  }

module _ ⦃p : Primitives⦄ ⦃j : Json MessageHeader⦄ where
  -- One message key opens what it sealed.
  pub encrypt-sent :
      (a : RatchetState) (ck plaintext nonce : Bytes)
      → a.sending_chain_key ≡ some ck
      → length nonce ≡ 24
      → length plaintext ≤ message_limit
      → (ct : Bytes) × (encrypt plaintext nonce a ≡ (sent a ck, ok (ct, header_of a)))
        × (cipher_decrypt ct (derive_chain_key ck).1 (j.to_vec (header_of a)) ≡ ok plaintext)
  unfolding encrypt
  encrypt-sent a ck plaintext nonce h hn hm =
      let mk = (derive_chain_key ck).1 in
      let (ct, e, l, d) = cipher_encrypt-ok plaintext mk (j.to_vec (header_of a)) nonce hn hm in
      (ct, ground (arith, copy_first_32-ok mk (derive_chain_key-lengths ck).1), d)

  pub decrypt_next-received :
      (b : RatchetState) (ck ct plaintext : Bytes) (header : MessageHeader)
      → b.receiving_chain_key ≡ some ck
      → cipher_decrypt ct (derive_chain_key ck).1 (j.to_vec header) ≡ ok plaintext
      → decrypt_next ct header b ≡ (received b ck, ok plaintext)
  unfolding decrypt_next
  decrypt_next-received b ck ct plaintext header h e =
      ground (arith, copy_first_32-ok (derive_chain_key ck).1 (derive_chain_key-lengths ck).1)

  skip_loop_zero :
      (hex : Bytes) (rounds n : ℕ) (ck : Bytes) (keys : SkippedKeys)
      → rounds ≡ 0
      → skip_loop hex rounds n ck keys ≡ (ck, keys)
  unfolding skip_loop
  skip_loop_zero hex zero n ck keys h = refl
  skip_loop_zero hex (suc rounds) n ck keys h = absurd (omega arith)

  pub skip_none :
      (b : RatchetState) (ck : Bytes)
      → b.receiving_chain_key ≡ some ck
      → skip_missed_messages b.recv_message_number b ≡ (b, ok tt)
  unfolding skip_missed_messages
  skip_none b ck h =
      let z : b.recv_message_number - b.recv_message_number ≡ 0 = omega arith in
      ground (
        arith,
        skip_loop_zero (hex_or_default b.dh_receive_public)
            (b.recv_message_number - b.recv_message_number) b.recv_message_number ck b.skipped_keys
            z,
      )

  -- With no stored key for the header, and the sender's key unchanged, `decrypt` skips and goes on.
  pub decrypt_same_key :
      (b : RatchetState) (ct seed : Bytes) (header : MessageHeader)
      → lookup (hex_encode header.dh_public, header.message_number) b.skipped_keys.keys ≡ none
      → b.dh_receive_public ≡ some header.dh_public
      → decrypt ct header seed b
        ≡ (do skip_missed_messages header.message_number; decrypt_next ct header) b
  unfolding decrypt ratchet_if_needed
  decrypt_same_key b ct seed header f h = ground (
    arith,
    take_key-none b.skipped_keys (hex_encode header.dh_public) header.message_number f,
    bytes_eq_refl header.dh_public,
  )

  -- If `a` and `b` are in step, the nonce has 24 bytes, the message is within the cipher's bound and
  -- the counter of sent messages does not wrap, then the message that `a` encrypts opens for `b` to
  -- the same plaintext, and they are in step again.
  pub decrypt-encrypt :
      (a b : RatchetState) (plaintext nonce seed : Bytes)
      → IsPaired a b
      → length nonce ≡ 24
      → length plaintext ≤ message_limit
      → a.send_message_number + 1 < 2 ^ 32
      → (ct : Bytes) × (header : MessageHeader) × (a' : RatchetState) × (b' : RatchetState)
        × (encrypt plaintext nonce a ≡ (a', ok (ct, header)))
        × (decrypt ct header seed b ≡ (b', ok plaintext))
        × IsPaired a' b'
  decrypt-encrypt a b plaintext nonce seed s hn hm hw =
      let ck = s.chain_key in
      let (ct, e, d) = encrypt-sent a ck plaintext nonce s.sends hn hm in
      (
        ct,
        header_of a,
        sent a ck,
        received b ck,
        e,
        ground (
          arith,
          decrypt_same_key b ct seed (header_of a),
          s.fresh b.recv_message_number,
          skip_none b ck s.receives,
          decrypt_next-received b ck ct plaintext (header_of a) s.receives d,
        ),
        record {
          chain_key = (derive_chain_key ck).0;
          sends = refl;
          receives = refl;
          same_key = s.same_key;
          same_number = ap (λ n. u32 (n + 1)) s.same_number;
          fresh = λ n h. s.fresh n (omega (arith, s.same_number));
        },
      )
