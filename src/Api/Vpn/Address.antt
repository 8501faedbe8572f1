-- ===== src/Api/Vpn/Address.antt =====
-- crates/hysj-api/src/routes/vpn.rs: the addresses that are handed out.
use hysj.Base.{ℕ, ◌+◌, ◌<◌, ◌≡◌, sym, ap, ◌∙◌, arith}
use hysj.Api.Vpn.{octets}

octets-small : (a : ℕ) → a < 254 → octets a ≡ (0, a + 2)
octets-small a h = ground arith

-- Below 254 running sessions on a server, another count gives another address.
pub octets_injective : (a b : ℕ) → a < 254 → b < 254 → octets a ≡ octets b → a ≡ b
octets_injective a b h k e =
    let same : ◌≡◌ {A = ℕ × ℕ} (0, a + 2) (0, b + 2) =
      sym (octets-small a h) ∙ e ∙ octets-small b k in
    let next : a + 2 ≡ b + 2 = ap (λ z. z.1) same in omega arith
