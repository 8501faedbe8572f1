-- ===== src/Crypto/Toy.antt =====
-- Concrete primitives with the documented laws, to run the model of crates/hysj-crypto on. They are
-- not secure: a public key is its secret, and a tag is the start of the key.
use hysj.Base.{
  ℕ, zero, suc, ◌+◌, ◌≤◌, ◌≡◌, refl, ap, true, Option, none, some, Bytes, bytes_eq, bytes_eq_refl,
  [], ◌∷◌, ◌++◌, length, length-append, take, drop, take-append, drop-append, ◌==◌, leb,
  if◌then◌else◌, arith,
}
use hysj.Crypto.Primitives.{Primitives, Json, hkdf_limit, message_limit}
use hysj.Crypto.Ratchet.{MessageHeader}
use hysj.Crypto.Sealed.{SealedInner}
use hysj.Crypto.Onion.{OnionLayer}

-- The first `n` bytes, with zeros after the end.
abbrev pub pad : ℕ → Bytes → Bytes
pad zero xs = []
pad (suc n) [] = 0 ∷ pad n []
pad (suc n) (x ∷ xs) = x ∷ pad n xs

pub length-pad : (n : ℕ) (xs : Bytes) → length (pad n xs) ≡ n
length-pad zero xs = refl
length-pad (suc n) [] = ap suc (length-pad n [])
length-pad (suc n) (x ∷ xs) = ap suc (length-pad n xs)

-- Sums, so that both sides agree.
abbrev mix : Bytes → Bytes → Bytes
mix [] ys = ys
mix (x ∷ xs) [] = x ∷ xs
mix (x ∷ xs) (y ∷ ys) = (x + y) ∷ mix xs ys

pub mix_comm : (xs ys : Bytes) → mix xs ys ≡ mix ys xs
mix_comm [] [] = refl
mix_comm [] (y ∷ ys) = refl
mix_comm (x ∷ xs) [] = refl
mix_comm (x ∷ xs) (y ∷ ys) = ground (arith, mix_comm xs ys)

abbrev seal_with : Bytes → Bytes → Bytes → Bytes → Option Bytes
seal_with key nonce aad msg =
    if leb (length msg) message_limit then some (pad 16 key ++ msg) else none

abbrev open_with : Bytes → Bytes → Bytes → Bytes → Option Bytes
open_with key nonce aad c = if bytes_eq (take 16 c) (pad 16 key) then some (drop 16 c) else none

pub open_with-seal_with :
    (key nonce aad msg c : Bytes)
    → seal_with key nonce aad msg ≡ some c
    → open_with key nonce aad c ≡ some msg
open_with-seal_with key nonce aad msg c h = ground (
  arith,
  take-append 16 (pad 16 key) msg (length-pad 16 key),
  drop-append 16 (pad 16 key) msg (length-pad 16 key),
  bytes_eq_refl (pad 16 key),
)

abbrev expand : Bytes → Bytes → Bytes → ℕ → Option Bytes
expand salt ikm info n = if leb n hkdf_limit then some (pad n (salt ++ (ikm ++ info))) else none

pub expand-some :
    (salt ikm info : Bytes) (n : ℕ)
    → n ≤ hkdf_limit
    → (okm : Bytes) × (expand salt ikm info n ≡ some okm) × (length okm ≡ n)
expand-some salt ikm info n h = (pad n (salt ++ (ikm ++ info)), ground arith, length-pad n _)

pub seal_with-some :
    (key nonce aad msg : Bytes)
    → length msg ≤ message_limit
    → (c : Bytes) × (seal_with key nonce aad msg ≡ some c) × (length c ≡ length msg + 16)
seal_with-some key nonce aad msg h = (
  pad 16 key ++ msg,
  ground arith,
  omega (arith, length-append (pad 16 key) msg, length-pad 16 key),
)

pub agree :
    (secret seed : Bytes) {ct ss : Bytes}
    → ◌≡◌ {A = Option (Bytes × Bytes)} (some (seed, pad 32 (secret ++ seed))) (some (ct, ss))
    → some (pad 32 (secret ++ ct)) ≡ some ss
agree secret seed h = ground arith

pub is_key : (secret : Bytes) → (length (pad 32 secret) == 32) ≡ true
is_key secret = ground (arith, length-pad 32 secret)

instance unfoldable pub toy : Primitives
toy = record {
  public_of = λ a. a;
  diffie_hellman = mix;
  length-public_of = λ a h. h;
  diffie_hellman_comm = λ a b h k. mix_comm a b;
  hkdf_expand = λ salt ikm info n. expand salt ikm info n;
  hkdf_expand-some = λ salt ikm info n h. expand-some salt ikm info n h;
  hmac = λ key text. pad 32 (text ++ key);
  length-hmac = λ key text. length-pad 32 _;
  aead_encrypt = seal_with;
  aead_decrypt = open_with;
  aead_encrypt-some = λ key nonce aad msg h. seal_with-some key nonce aad msg h;
  aead_decrypt-encrypt = open_with-seal_with;
  kem_public_of = λ secret. secret;
  kem_encapsulate = λ public seed. some (seed, pad 32 (public ++ seed));
  kem_decapsulate = λ ct secret. some (pad 32 (secret ++ ct));
  kem_correct = λ secret seed h. agree secret seed h;
  ed_is_key = λ key. length key == 32;
  ed_verify = λ key msg signature. bytes_eq signature (pad 64 (key ++ msg));
  ed_sign = λ secret msg. pad 64 (pad 32 secret ++ msg);
  ed_public_of = λ secret. pad 32 secret;
  length-ed_sign = λ secret msg. length-pad 64 _;
  length-ed_public_of = λ secret. length-pad 32 secret;
  ed_is_key-public_of = λ secret. is_key secret;
  ed_verify-sign = λ secret msg. bytes_eq_refl (pad 64 (pad 32 secret ++ msg));
}

-- A field of unknown length stands behind its length.
abbrev header_of_bytes : Bytes → Option MessageHeader
header_of_bytes (c ∷ n ∷ pk) =
    some (record { dh_public = pk; previous_chain_length = c; message_number = n })
header_of_bytes _ = none

instance unfoldable pub header_json : Json MessageHeader
header_json = record {
  to_vec = λ h. h.previous_chain_length ∷ h.message_number ∷ h.dh_public;
  from_slice = header_of_bytes;
  from_slice-to_vec = λ h. refl;
}

abbrev inner_of_bytes : Bytes → Option SealedInner
inner_of_bytes (i ∷ c ∷ rest) = some (record {
  sender_id = take i rest;
  sender_cert = take c (drop i rest);
  plaintext = drop c (drop i rest);
})
inner_of_bytes _ = none

pub inner_of_bytes-to_vec :
    (s : SealedInner)
    → inner_of_bytes
        (length s.sender_id ∷ length s.sender_cert ∷ s.sender_id ++ (s.sender_cert ++ s.plaintext))
      ≡ some s
inner_of_bytes-to_vec s = ground (
  arith,
  take-append (length s.sender_id) s.sender_id (s.sender_cert ++ s.plaintext) refl,
  drop-append (length s.sender_id) s.sender_id (s.sender_cert ++ s.plaintext) refl,
  take-append (length s.sender_cert) s.sender_cert s.plaintext refl,
  drop-append (length s.sender_cert) s.sender_cert s.plaintext refl,
)

instance unfoldable pub inner_json : Json SealedInner
inner_json = record {
  to_vec = λ s.
      length s.sender_id ∷ length s.sender_cert ∷ s.sender_id ++ (s.sender_cert ++ s.plaintext);
  from_slice = inner_of_bytes;
  from_slice-to_vec = inner_of_bytes-to_vec;
}

abbrev layer_of_bytes : Bytes → Option OnionLayer
layer_of_bytes (n ∷ rest) = some (record { next_hop = take n rest; payload = drop n rest })
layer_of_bytes [] = none

pub layer_of_bytes-to_vec :
    (l : OnionLayer) → layer_of_bytes (length l.next_hop ∷ l.next_hop ++ l.payload) ≡ some l
layer_of_bytes-to_vec l = ground (
  arith,
  take-append (length l.next_hop) l.next_hop l.payload refl,
  drop-append (length l.next_hop) l.next_hop l.payload refl,
)

instance unfoldable pub layer_json : Json OnionLayer
layer_json = record {
  to_vec = λ l. length l.next_hop ∷ l.next_hop ++ l.payload;
  from_slice = layer_of_bytes;
  from_slice-to_vec = layer_of_bytes-to_vec;
}
