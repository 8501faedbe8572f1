-- ===== src/Crypto/Ratchet.antt =====
-- crates/hysj-crypto/src/ratchet: the Double Ratchet. A method takes the state and returns it with
-- the result, so what an error or a panic leaves behind is part of the model. Counters are u32 and
-- wrap, as in the release profile.
pub mod Skipped
pub mod Session
pub mod Missed
pub mod Chain
pub mod Late
pub mod Turn
pub mod Faults
use hysj.Base.{
  ℕ, zero, suc, ◌+◌, ◌-◌, ◌/◌, ◌%◌, ◌^◌, Bool, true, false, not, Option, none, some, Bytes,
  bytes_eq, List, [], ◌∷◌, ltb, if◌then◌else◌, Result, ok, err, panic, or_fail,
}
use hysj.Crypto.Errors.{CryptoError, Fallible, ratchet_error}
use hysj.Crypto.Primitives.{Primitives, Json}
use hysj.Crypto.Keys.{copy_first_32, derive_root_key, derive_chain_key, generate_x25519_keypair}
use hysj.Crypto.Cipher.{encrypt as cipher_encrypt, decrypt as cipher_decrypt}
use Skipped.{SkippedKeys, insert, take_key}
use Skipped

abbrev pub max_skip : ℕ
max_skip = 1000

abbrev pub u32 : ℕ → ℕ
u32 n = n % 2 ^ 32

pub record MessageHeader : Type 0 where
  pub dh_public : Bytes
  pub previous_chain_length : ℕ
  pub message_number : ℕ

pub record RatchetState : Type 0 where
  pub root_key : Bytes
  pub sending_chain_key : Option Bytes
  pub receiving_chain_key : Option Bytes
  pub dh_send_secret : Bytes
  pub dh_send_public : Bytes
  pub dh_receive_public : Option Bytes
  pub send_message_number : ℕ
  pub recv_message_number : ℕ
  pub previous_sending_chain_length : ℕ
  pub skipped_keys : SkippedKeys

-- A `&mut self` method.
abbrev pub Step : Type 0 → Type 0
Step A = RatchetState → RatchetState × Fallible A

abbrev pub lift : {A : Type 0} → Fallible A → Step A
lift r s = (s, r)

abbrev pub modify : (RatchetState → RatchetState) → Step (Unit {0})
modify f s = (f s, ok tt)

abbrev pub get : Step RatchetState
get s = (s, ok s)

infixl 5 ◌>>=◌ ◌>>◌
abbrev pub ◌>>=◌ : {A B : Type 0} → Step A → (A → Step B) → Step B
◌>>=◌ m f s = elim (m s).1 [
  | ok a ↦ f a (m s).0
  | err e ↦ ((m s).0, err e)
  | panic ↦ ((m s).0, panic)
]

abbrev pub ◌>>◌ : {B : Type 0} → Step (Unit {0}) → Step B → Step B
m >> k = m >>= λ _. k

-- format!("{:02x}", b), for a byte.
abbrev pub hex_digit : ℕ → ℕ
hex_digit d = if ltb d 10 then 48 + d else 87 + d

unfoldable pub hex_encode : Bytes → Bytes
hex_encode [] = []
hex_encode (b ∷ bs) = hex_digit (b / 16) ∷ hex_digit (b % 16) ∷ hex_encode bs

-- `.map(|pk| hex_encode(pk)).unwrap_or_default()`
abbrev pub hex_or_default : Option Bytes → Bytes
hex_or_default none = []
hex_or_default (some pk) = hex_encode pk

-- `current != &header.dh_public`, or no key yet.
abbrev pub need_ratchet : Option Bytes → Bytes → Bool
need_ratchet none dh_public = true
need_ratchet (some current) dh_public = not (bytes_eq current dh_public)

module _ ⦃p : Primitives⦄ where
  -- The new key pair is drawn from the seed.
  unfoldable pub init_sender : Bytes → Bytes → Bytes → Fallible RatchetState
  init_sender shared_secret recipient_dh_public seed =
      let dh_keypair = generate_x25519_keypair seed in
      elim (copy_first_32 recipient_dh_public) [
        | ok their_public ↦
            elim (derive_root_key shared_secret (p.diffie_hellman dh_keypair.secret their_public)) [
              | ok (root_key, sending_chain_key) ↦ ok (record {
                root_key = root_key;
                sending_chain_key = some sending_chain_key;
                receiving_chain_key = none;
                dh_send_secret = dh_keypair.secret;
                dh_send_public = dh_keypair.public;
                dh_receive_public = some recipient_dh_public;
                send_message_number = 0;
                recv_message_number = 0;
                previous_sending_chain_length = 0;
                skipped_keys = Skipped.new;
              })
              | err e ↦ err e
              | panic ↦ panic
            ]
        | err e ↦ err e
        | panic ↦ panic
      ]

  unfoldable pub init_receiver : Bytes → Bytes → Bytes → RatchetState
  init_receiver shared_secret secret_bytes public_bytes = record {
    root_key = shared_secret;
    sending_chain_key = none;
    receiving_chain_key = none;
    dh_send_secret = secret_bytes;
    dh_send_public = public_bytes;
    dh_receive_public = none;
    send_message_number = 0;
    recv_message_number = 0;
    previous_sending_chain_length = 0;
    skipped_keys = Skipped.new;
  }

  -- The loop of `skip_missed_messages`, with the rounds left, the number and the chain key.
  unfoldable pub skip_loop : Bytes → ℕ → ℕ → Bytes → SkippedKeys → Bytes × SkippedKeys
  skip_loop dh_hex zero n current_ck keys = (current_ck, keys)
  skip_loop dh_hex (suc rounds) n current_ck keys =
      let (new_ck, msg_key) = derive_chain_key current_ck in
      skip_loop dh_hex rounds (n + 1) new_ck (insert keys dh_hex n msg_key)

  unfoldable pub skip_missed_messages : ℕ → Step (Unit {0})
  skip_missed_messages until s =
      if ltb until s.recv_message_number
      then (s, ok tt)
      else let skip_count = until - s.recv_message_number in
        if ltb max_skip skip_count then (s, err ratchet_error) else elim s.receiving_chain_key [
          | none ↦ (s, ok tt)
          | some receiving_ck ↦
              let (current_ck, keys) =
                skip_loop (hex_or_default s.dh_receive_public) skip_count s.recv_message_number
                  receiving_ck s.skipped_keys in
              (
                record s {
                  receiving_chain_key = some current_ck;
                  recv_message_number = until;
                  skipped_keys = keys;
                },
                ok tt,
              )
        ]

  unfoldable pub dh_ratchet : Bytes → Bytes → Step (Unit {0})
  dh_ratchet their_dh_public seed = do
    modify (λ s. record s {
      dh_receive_public = some their_dh_public;
      previous_sending_chain_length = s.send_message_number;
      send_message_number = 0;
      recv_message_number = 0;
    })
    their_public ← lift (copy_first_32 their_dh_public)
    s ← get
    current_secret ← lift (copy_first_32 s.dh_send_secret)
    (new_root_key, receiving_chain_key) ←
        lift (derive_root_key s.root_key (p.diffie_hellman current_secret their_public))
    modify
        (λ s. record s { root_key = new_root_key; receiving_chain_key = some receiving_chain_key })
    let new_keypair = generate_x25519_keypair seed
    modify
        (λ s. record s { dh_send_secret = new_keypair.secret; dh_send_public = new_keypair.public })
    (new_root_key2, sending_chain_key) ←
        lift (derive_root_key new_root_key (p.diffie_hellman new_keypair.secret their_public))
    modify (λ s. record s { root_key = new_root_key2; sending_chain_key = some sending_chain_key })

  module _ ⦃j : Json MessageHeader⦄ where
    -- The cipher's nonce comes last.
    unfoldable pub encrypt : Bytes → Bytes → Step (Bytes × MessageHeader)
    encrypt plaintext nonce = do
      s ← get
      sending_ck ← lift (or_fail s.sending_chain_key ratchet_error)
      let (new_chain_key, message_key_vec) = derive_chain_key sending_ck
      modify (λ s. record s { sending_chain_key = some new_chain_key })
      message_key ← lift (copy_first_32 message_key_vec)
      let header : MessageHeader = record {
        dh_public = s.dh_send_public;
        previous_chain_length = s.previous_sending_chain_length;
        message_number = s.send_message_number;
      }
      ciphertext ← lift (cipher_encrypt plaintext message_key (j.to_vec header) nonce)
      modify (λ s. record s { send_message_number = u32 (s.send_message_number + 1) })
      lift (ok (ciphertext, header))

    -- Steps 4 to 6: the next key of the receiving chain.
    unfoldable pub decrypt_next : Bytes → MessageHeader → Step Bytes
    decrypt_next ciphertext header = do
      s ← get
      receiving_ck ← lift (or_fail s.receiving_chain_key ratchet_error)
      let (new_chain_key, message_key_vec) = derive_chain_key receiving_ck
      modify (λ s. record s { receiving_chain_key = some new_chain_key })
      message_key ← lift (copy_first_32 message_key_vec)
      plaintext ← lift (cipher_decrypt ciphertext message_key (j.to_vec header))
      modify (λ s. record s { recv_message_number = u32 (s.recv_message_number + 1) })
      lift (ok plaintext)

    unfoldable pub ratchet_if_needed : MessageHeader → Bytes → Step (Unit {0})
    ratchet_if_needed header seed s =
        if need_ratchet s.dh_receive_public header.dh_public
        then (do
          skip_missed_messages header.previous_chain_length
          dh_ratchet header.dh_public seed)
            s
        else (s, ok tt)

    -- Step 1: a stored key, already taken out of the cache.
    unfoldable pub decrypt_skipped : Bytes → MessageHeader → Bytes → Step Bytes
    decrypt_skipped ciphertext header msg_key_vec = do
      message_key ← lift (copy_first_32 msg_key_vec)
      lift (cipher_decrypt ciphertext message_key (j.to_vec header))

    -- The seed is for the key pair of a DH ratchet step.
    unfoldable pub decrypt : Bytes → MessageHeader → Bytes → Step Bytes
    decrypt ciphertext header seed s =
        let (skipped, taken) =
          take_key s.skipped_keys (hex_encode header.dh_public) header.message_number in
        elim taken [
          | some msg_key_vec ↦
              decrypt_skipped ciphertext header msg_key_vec (record s { skipped_keys = skipped })
          | none ↦
              (do
                ratchet_if_needed header seed
                skip_missed_messages header.message_number
                decrypt_next ciphertext header)
                s
        ]
