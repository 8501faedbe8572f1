-- ===== src/Crypto/Examples/Sessions.antt =====
-- Runs of the Double Ratchet of crates/hysj-crypto on small states.
use hysj.Base.{
  ◌≡◌, refl, none, some, Bytes, bytes_eq, List, [], ◌∷◌, replicate, lit, ok, err, panic, leb→le,
  arith,
}
use hysj.Crypto.Examples.{key, nonce}
use hysj.Crypto.Errors.{decryption_failed}
use hysj.Crypto.Toy.{toy, header_json}
use hysj.Crypto.Keys.{derive_chain_key, derive_root_key}
use hysj.Crypto.Cipher.{decrypt as cipher_decrypt}
use hysj.Crypto.Ratchet.{RatchetState, MessageHeader, skip_missed_messages, encrypt, decrypt}
use hysj.Crypto.Ratchet.Skipped.{new, insert, lookup, len}
use hysj.Crypto.Ratchet.Skipped.Laws.{IsValid, names, new-IsValid}
use hysj.Crypto.Ratchet.Skipped.Insert.{bounded_put, insert-bounded_put}
use hysj.Crypto.Ratchet.Session.{IsPaired, header_of, decrypt-encrypt}
use hysj.Crypto.Ratchet.Turn.{IsTurn, decrypt_first}
use hysj.Crypto.Ratchet.Late.{send_all, OpensAll, late_delivery}
use hysj.Crypto.Ratchet.Faults.{decrypt_after_forged, decrypt_short_key, decrypt-IsValid}

insert-bounded_put_example :
    ((insert new (lit "ab") 3 (key 1)).keys ≡ bounded_put (lit "ab", 3) (key 1) new.keys)
    × ((insert new (lit "ab") 3 (key 1)).insertion_order
        ≡ names (bounded_put (lit "ab", 3) (key 1) new.keys))
insert-bounded_put_example = insert-bounded_put new (lit "ab") 3 (key 1) new-IsValid

-- Two parties at message 5 of one chain.
abbrev sender : RatchetState
sender = record {
  root_key = key 1;
  sending_chain_key = some (key 7);
  receiving_chain_key = none;
  dh_send_secret = key 2;
  dh_send_public = key 2;
  dh_receive_public = some (key 3);
  send_message_number = 5;
  recv_message_number = 0;
  previous_sending_chain_length = 0;
  skipped_keys = record { keys = []; insertion_order = [] };
}

abbrev receiver : RatchetState
receiver = record {
  root_key = key 1;
  sending_chain_key = none;
  receiving_chain_key = some (key 7);
  dh_send_secret = key 3;
  dh_send_public = key 3;
  dh_receive_public = some (key 2);
  send_message_number = 0;
  recv_message_number = 5;
  previous_sending_chain_length = 0;
  skipped_keys = record { keys = []; insertion_order = [] };
}

parties-IsPaired : IsPaired sender receiver
unfolding lookup
parties-IsPaired = record {
  chain_key = key 7;
  sends = refl;
  receives = refl;
  same_key = refl;
  same_number = refl;
  fresh = λ n h. refl;
}

receiver-IsValid : IsValid receiver.skipped_keys
unfolding new
receiver-IsValid = new-IsValid

decrypt-encrypt_example :
    (ct : Bytes) × (header : MessageHeader) × (a' : RatchetState) × (b' : RatchetState) × (encrypt
        (lit "hi")
        nonce
        sender
      ≡ (a', ok (ct, header)))
    × (decrypt ct header (key 9) receiver ≡ (b', ok (lit "hi")))
    × IsPaired a' b'
decrypt-encrypt_example =
    decrypt-encrypt sender receiver (lit "hi") nonce (key 9) parties-IsPaired refl (leb→le _ _ refl)
      (omega arith)

late_delivery_example :
    (packets : List (Bytes × MessageHeader)) × (ct : Bytes) × (header : MessageHeader)
    × (a' : RatchetState) × (a'' : RatchetState) × (b' : RatchetState) × (send_all
          ((lit "one", nonce) ∷ (lit "two", nonce) ∷ [])
          sender
        ≡ (a', ok packets))
    × (encrypt (lit "three") nonce a' ≡ (a'', ok (ct, header)))
    × (decrypt ct header (key 9) receiver ≡ (b', ok (lit "three")))
    × IsPaired a'' b'
    × OpensAll b' ((lit "one", nonce) ∷ (lit "two", nonce) ∷ []) packets
unfolding len
late_delivery_example =
    late_delivery sender receiver ((lit "one", nonce) ∷ (lit "two", nonce) ∷ []) (lit "three") nonce
      (key 9) parties-IsPaired receiver-IsValid
      (refl, leb→le _ _ refl, (refl, leb→le _ _ refl, (refl, leb→le _ _ refl, tt)))
      (leb→le _ _ refl) (leb→le _ _ refl) (omega arith)

abbrev junk : Bytes
junk = replicate 50 0

junk-refused :
    cipher_decrypt junk (derive_chain_key (key 7)).1 (header_json.to_vec (header_of sender))
    ≡ err decryption_failed
unfolding cipher_decrypt toy header_json derive_chain_key bytes_eq
junk-refused = refl

decrypt_after_forged_example :
    ((decrypt junk (header_of sender) (key 9) receiver).1 ≡ err decryption_failed)
    × ((decrypt
          (key 8)
          (header_of sender)
          (key 9)
          (decrypt junk (header_of sender) (key 9) receiver).0).1
        ≡ cipher_decrypt
            (key 8)
            (derive_chain_key (derive_chain_key (key 7)).0).1
            (header_json.to_vec (header_of sender)))
unfolding parties-IsPaired
decrypt_after_forged_example =
    decrypt_after_forged sender receiver parties-IsPaired junk (key 8) (key 9) (key 9) junk-refused

abbrev far : MessageHeader
far = record { dh_public = key 2; previous_chain_length = 0; message_number = 1006 }

abbrev short : MessageHeader
short = record { dh_public = 1 ∷ []; previous_chain_length = 0; message_number = 0 }

decrypt_short_key_example : (decrypt junk short (key 9) receiver).1 ≡ panic
unfolding lookup skip_missed_messages bytes_eq
decrypt_short_key_example =
    decrypt_short_key receiver junk (key 9) short (omega arith) refl refl refl

decrypt-IsValid_example : IsValid (decrypt junk far (key 9) receiver).0.skipped_keys
decrypt-IsValid_example = decrypt-IsValid junk far (key 9) receiver receiver-IsValid

-- Two parties after the handshake, with the secret `key 1` and the recipient's pair `key 2`.
abbrev opener : RatchetState
opener = record {
  root_key = key 1;
  sending_chain_key = some (key 5);
  receiving_chain_key = none;
  dh_send_secret = key 3;
  dh_send_public = key 3;
  dh_receive_public = some (key 2);
  send_message_number = 0;
  recv_message_number = 0;
  previous_sending_chain_length = 0;
  skipped_keys = record { keys = []; insertion_order = [] };
}

abbrev answerer : RatchetState
answerer = record {
  root_key = key 1;
  sending_chain_key = none;
  receiving_chain_key = none;
  dh_send_secret = key 2;
  dh_send_public = key 2;
  dh_receive_public = none;
  send_message_number = 0;
  recv_message_number = 0;
  previous_sending_chain_length = 0;
  skipped_keys = record { keys = []; insertion_order = [] };
}

opener-IsTurn : IsTurn opener answerer
unfolding toy derive_root_key lookup
opener-IsTurn = record {
  chain_key = key 5;
  root = refl;
  sends = refl;
  length-a = refl;
  length-b = refl;
  public-a = refl;
  public-b = refl;
  knows = refl;
  new_key = refl;
  first = refl;
  fresh = λ n. refl;
}

decrypt_first_example :
    (ct : Bytes) × (header : MessageHeader) × (a' : RatchetState) × (b' : RatchetState) × (encrypt
        (lit "hi")
        nonce
        opener
      ≡ (a', ok (ct, header)))
    × (decrypt ct header (key 4) answerer ≡ (b', ok (lit "hi")))
    × IsPaired a' b'
    × IsTurn b' a'
unfolding toy skip_missed_messages bytes_eq lookup
decrypt_first_example =
    decrypt_first opener answerer (lit "hi") nonce (key 4) opener-IsTurn refl refl (leb→le _ _ refl)
      refl refl (λ n. refl)
