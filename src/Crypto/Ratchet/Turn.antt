-- ===== src/Crypto/Ratchet/Turn.antt =====
-- The DH ratchet: the first message under a new key, and the initial states.
use hysj.Base.{
  ℕ, ◌+◌, ◌≤◌, ◌≡◌, refl, ap, sym, ◌∙◌, true, false, none, some, Bytes, bytes_eq, length, ok, arith,
}
use hysj.Crypto.Primitives.{Primitives, Json, message_limit}
use hysj.Crypto.Keys.{derive_root_key, derive_chain_key, generate_x25519_keypair}
use hysj.Crypto.Keys.Laws.{copy_first_32-ok, derive_root_key-ok}
use hysj.Crypto.Ratchet.Skipped.{lookup, new}
use hysj.Crypto.Ratchet.Skipped.Insert.{take_key-none}
use hysj.Crypto.Ratchet.Session.{
  IsPaired, header_of, sent, received, encrypt-sent, decrypt_next-received, skip_none,
}
use hysj.Crypto.Ratchet.{
  RatchetState, MessageHeader, u32, hex_encode, init_sender, init_receiver, skip_missed_messages,
  dh_ratchet, need_ratchet, ratchet_if_needed, decrypt_next, encrypt, decrypt,
}

module _ ⦃p : Primitives⦄ where
  -- It is `a`'s turn: `a` has drawn a new key and a chain from it that `b` will find by a ratchet step.
  pub record IsTurn (a : RatchetState) (b : RatchetState) : Type 0 where
    pub chain_key : Bytes
    pub root :
        derive_root_key b.root_key (p.diffie_hellman b.dh_send_secret a.dh_send_public)
        ≡ ok (a.root_key, chain_key)
    pub sends : a.sending_chain_key ≡ some chain_key
    pub length-a : length a.dh_send_secret ≡ 32
    pub length-b : length b.dh_send_secret ≡ 32
    pub public-a : a.dh_send_public ≡ p.public_of a.dh_send_secret
    pub public-b : b.dh_send_public ≡ p.public_of b.dh_send_secret
    pub knows : a.dh_receive_public ≡ some b.dh_send_public
    pub new_key : need_ratchet b.dh_receive_public a.dh_send_public ≡ true
    pub first : a.send_message_number ≡ 0
    pub fresh : (n : ℕ) → lookup (hex_encode a.dh_send_public, n) b.skipped_keys.keys ≡ none

  -- The receiver's state after the step.
  abbrev turned : RatchetState → Bytes → Bytes → Bytes → Bytes → Bytes → RatchetState
  turned b pk seed root sck rck = record b {
    root_key = root;
    sending_chain_key = some sck;
    receiving_chain_key = some rck;
    dh_send_secret = seed;
    dh_send_public = p.public_of seed;
    dh_receive_public = some pk;
    send_message_number = 0;
    recv_message_number = 0;
    previous_sending_chain_length = b.send_message_number;
  }

  dh_ratchet-turned :
      (b : RatchetState) (pk seed rk rck rk2 sck : Bytes)
      → length pk ≡ 32
      → length b.dh_send_secret ≡ 32
      → derive_root_key b.root_key (p.diffie_hellman b.dh_send_secret pk) ≡ ok (rk, rck)
      → derive_root_key rk (p.diffie_hellman seed pk) ≡ ok (rk2, sck)
      → dh_ratchet pk seed b ≡ (turned b pk seed rk2 sck rck, ok tt)
  unfolding dh_ratchet generate_x25519_keypair
  dh_ratchet-turned b pk seed rk rck rk2 sck hp hb e f =
      ground (arith, copy_first_32-ok pk hp, copy_first_32-ok b.dh_send_secret hb)

module _ ⦃p : Primitives⦄ ⦃j : Json MessageHeader⦄ where
  decrypt_turn :
      (b b' : RatchetState) (ck ct seed plaintext : Bytes) (header : MessageHeader)
      → need_ratchet b.dh_receive_public header.dh_public ≡ true
      → lookup (hex_encode header.dh_public, header.message_number) b.skipped_keys.keys ≡ none
      → skip_missed_messages header.previous_chain_length b ≡ (b, ok tt)
      → dh_ratchet header.dh_public seed b ≡ (b', ok tt)
      → b'.receiving_chain_key ≡ some ck
      → b'.recv_message_number ≡ header.message_number
      → decrypt_next ct header b' ≡ (received b' ck, ok plaintext)
      → decrypt ct header seed b ≡ (received b' ck, ok plaintext)
  unfolding decrypt ratchet_if_needed
  decrypt_turn b b' ck ct seed plaintext header n f k d r q e = ground (
    arith,
    take_key-none b.skipped_keys (hex_encode header.dh_public) header.message_number f,
    ap (λ m. skip_missed_messages m b') (sym q) ∙ skip_none b' ck r,
  )

  -- If it is `a`'s turn, no message of the old chain is missing, the nonce has 24 bytes, the message
  -- is within the cipher's bound, and the key that `b` draws has 32 bytes, is not `b`'s last one and
  -- names no stored key of `a`'s, then `a`'s first message opens for `b`; afterwards they are in
  -- step on the new chain, and it is `b`'s turn, under the key that `b` drew.
  pub decrypt_first :
      (a b : RatchetState) (plaintext nonce seed : Bytes)
      → IsTurn a b
      → skip_missed_messages a.previous_sending_chain_length b ≡ (b, ok tt)
      → length nonce ≡ 24
      → length plaintext ≤ message_limit
      → length seed ≡ 32
      → bytes_eq b.dh_send_public (p.public_of seed) ≡ false
      → ((n : ℕ) → lookup (hex_encode (p.public_of seed), n) a.skipped_keys.keys ≡ none)
      → (ct : Bytes) × (header : MessageHeader) × (a' : RatchetState) × (b' : RatchetState)
        × (encrypt plaintext nonce a ≡ (a', ok (ct, header)))
        × (decrypt ct header seed b ≡ (b', ok plaintext))
        × IsPaired a' b'
        × IsTurn b' a'
  decrypt_first a b plaintext nonce seed t old hn hm hs hd hf =
      let ck = t.chain_key in
      let pk = a.dh_send_public in
      let (ct, e, d) = encrypt-sent a ck plaintext nonce t.sends hn hm in
      let (rk2, sck, r2, _, _) = derive_root_key-ok a.root_key (p.diffie_hellman seed pk) in
      let length-pk : length pk ≡ 32 =
        ground (arith, t.public-a, p.length-public_of a.dh_send_secret t.length-a) in
      let step = dh_ratchet-turned b pk seed a.root_key ck rk2 sck length-pk t.length-b t.root r2 in
      let b1 = turned b pk seed rk2 sck ck in
      let got = decrypt_next-received b1 ck ct plaintext (header_of a) refl d in
      (
        ct,
        header_of a,
        sent a ck,
        received b1 ck,
        e,
        decrypt_turn b b1 ck ct seed plaintext (header_of a) t.new_key
            (t.fresh a.send_message_number) old step refl (sym t.first) got,
        record {
          chain_key = (derive_chain_key ck).0;
          sends = refl;
          receives = refl;
          same_key = refl;
          same_number = ap (λ n. u32 (n + 1)) t.first;
          fresh = λ n h. t.fresh n;
        },
        record {
          chain_key = sck;
          root =
              ground
                (arith, p.diffie_hellman_comm a.dh_send_secret seed t.length-a hs, t.public-a, r2);
          sends = refl;
          length-a = hs;
          length-b = t.length-a;
          public-a = refl;
          public-b = t.public-a;
          knows = refl;
          new_key = ground (arith, t.knows, hd);
          first = refl;
          fresh = hf;
        },
      )

  -- With a recipient's secret and a seed of 32 bytes: `init_sender` succeeds against the recipient's
  -- public key, it is then the sender's turn towards what `init_receiver` makes of the same shared
  -- secret, and the recipient has no message of an old chain to skip.
  init_sender-IsTurn :
      (shared secret seed : Bytes)
      → length secret ≡ 32
      → length seed ≡ 32
      → let b = init_receiver shared secret (p.public_of secret) in
        (a : RatchetState) × (init_sender shared (p.public_of secret) seed ≡ ok a)
        × IsTurn a b
        × (skip_missed_messages a.previous_sending_chain_length b ≡ (b, ok tt))
  unfolding init_sender init_receiver generate_x25519_keypair skip_missed_messages new lookup
  init_sender-IsTurn shared secret seed hs he =
      let pk = p.public_of secret in
      let (rk, ck, e, _, _) = derive_root_key-ok shared (p.diffie_hellman seed pk) in
      (
        record {
          root_key = rk;
          sending_chain_key = some ck;
          receiving_chain_key = none;
          dh_send_secret = seed;
          dh_send_public = p.public_of seed;
          dh_receive_public = some pk;
          send_message_number = 0;
          recv_message_number = 0;
          previous_sending_chain_length = 0;
          skipped_keys = new;
        },
        ground (arith, copy_first_32-ok pk (p.length-public_of secret hs)),
        record {
          chain_key = ck;
          root = ground (arith, p.diffie_hellman_comm secret seed hs he);
          sends = refl;
          length-a = he;
          length-b = hs;
          public-a = refl;
          public-b = refl;
          knows = refl;
          new_key = refl;
          first = refl;
          fresh = λ n. refl;
        },
        refl,
      )
