-- ===== src/Vpn.antt =====
-- crates/hysj-vpn/src: WireGuard keys and the client's configuration.
use hysj.Base.{ℕ, ◌≡◌, Bool, true, Bytes, List, [], ◌∷◌, ◌++◌, length, lit}
use hysj.Base.Utf8.{is_ascii}
use hysj.Crypto.Primitives.{Primitives}
use hysj.Database.{VpnServer}

-- base64 (STANDARD.encode), the bytes of a Uuid, and the order of texts in the database.
pub record Formats : Type 0 where
  pub b64 : Bytes → Bytes
  pub uuid_bytes : ℕ → Bytes
  pub before : VpnServer → VpnServer → Bool
  pub is_ascii-b64 : (bytes : Bytes) → is_ascii (b64 bytes) ≡ true
  pub length-b64 : (bytes : Bytes) → length bytes ≡ 32 → length (b64 bytes) ≡ 44

module _ ⦃p : Primitives⦄ ⦃f : Formats⦄ where
  -- From the random bytes of the secret: (private_key_base64, public_key_base64).
  unfoldable pub generate_keypair : Bytes → Bytes × Bytes
  generate_keypair secret = (f.b64 secret, f.b64 (p.public_of secret))

  -- The random bytes are the argument.
  unfoldable pub generate_preshared_key : Bytes → Bytes
  generate_preshared_key key = f.b64 key

pub record WireGuardConfig : Type 0 where
  pub interface_private_key : Bytes
  pub interface_address : Bytes
  pub dns : Bytes
  pub peer_public_key : Bytes
  pub peer_endpoint : Bytes
  pub allowed_ips : Bytes

abbrev line : Bytes → Bytes → Bytes
line name value = name ++ (lit " = " ++ (value ++ 10 ∷ []))

unfoldable pub to_ini_string : WireGuardConfig → Bytes
to_ini_string c =
    lit "[Interface]"
    ++ (10 ∷ line (lit "PrivateKey") c.interface_private_key
        ++ (line (lit "Address") c.interface_address
            ++ (line (lit "DNS") c.dns
                ++ (10 ∷ lit "[Peer]"
                    ++ (10 ∷ line (lit "PublicKey") c.peer_public_key
                        ++ (line (lit "Endpoint") c.peer_endpoint
                            ++ line (lit "AllowedIPs") c.allowed_ips))))))

-- A JSON object of objects of texts.
abbrev pub Json2 : Type 0
Json2 = List (Bytes × List (Bytes × Bytes))

unfoldable pub to_json : WireGuardConfig → Json2
to_json c =
    (
      lit "interface",
      (lit "private_key", c.interface_private_key)
          ∷ (lit "address", c.interface_address)
          ∷ (lit "dns", c.dns)
          ∷ [],
    )
    ∷ (
      lit "peer",
      (lit "public_key", c.peer_public_key)
          ∷ (lit "endpoint", c.peer_endpoint)
          ∷ (lit "allowed_ips", c.allowed_ips)
          ∷ [],
    )
    ∷ []
