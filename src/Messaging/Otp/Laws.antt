-- ===== src/Messaging/Otp/Laws.antt =====
-- A code and a token serve once.
use hysj.Base.{ℕ, ◌≤◌, ◌≡◌, true, false, none, some, Bytes, bytes_eq, bytes_eq_refl, ok, arith}
use hysj.Messaging.Redis.{Redis, max_ttl}
use hysj.Messaging.Otp.{
  otp_key, token_key, store_otp, verify_otp, store_verification_token, validate_verification_token,
}

module _ ⦃r : Redis⦄ where
  -- On a connection that is up, with an expiry in Redis's range: after a code is stored for a
  -- number, a wrong code is refused and changes nothing, the right code is accepted, and after that
  -- any code is refused and changes nothing; no other key changes.
  verify_otp-store_otp :
      (phone code wrong again : Bytes) (ttl : ℕ) (c : r.Conn)
      → r.IsUp c
      → 1 ≤ ttl
      → ttl ≤ max_ttl
      → bytes_eq code wrong ≡ false
      → (c' : r.Conn) × (c'' : r.Conn) × (store_otp phone code ttl c ≡ (c', ok tt))
        × (verify_otp phone wrong c' ≡ (c', ok false))
        × (verify_otp phone code c' ≡ (c'', ok true))
        × (verify_otp phone again c'' ≡ (c'', ok false))
        × ((j : Bytes) → bytes_eq (otp_key phone) j ≡ false → r.stored j c'' ≡ r.stored j c)
  unfolding store_otp verify_otp
  verify_otp-store_otp phone code wrong again ttl c u l m w =
      let k = otp_key phone in
      let (c', e, u', s) = r.set_ex-stored k code ttl c u l m in
      let (c'', e', u'', s') = r.del-stored k c' u' in
      let here : r.stored k c' ≡ some (code, ttl) = ground (arith, s k, bytes_eq_refl k) in
      let gone : r.stored k c'' ≡ none = ground (arith, s' k, bytes_eq_refl k) in
      (
        c',
        c'',
        e,
        ground (arith, r.get-stored k c' u'),
        ground (arith, r.get-stored k c' u', bytes_eq_refl code),
        ground (arith, r.get-stored k c'' u''),
        λ j n. ground (arith, s j, s' j),
      )

  -- On a connection that is up, with an expiry in Redis's range: after a token is stored, validating
  -- it gives the number that it was stored for, and validating it again gives nothing; no other key
  -- changes.
  pub validate_verification_token-store :
      (token phone : Bytes) (ttl : ℕ) (c : r.Conn)
      → r.IsUp c
      → 1 ≤ ttl
      → ttl ≤ max_ttl
      → (c' : r.Conn) × (c'' : r.Conn) × (store_verification_token token phone ttl c ≡ (c', ok tt))
        × (validate_verification_token token c' ≡ (c'', ok (some phone)))
        × (validate_verification_token token c'' ≡ (c'', ok none))
        × ((j : Bytes) → bytes_eq (token_key token) j ≡ false → r.stored j c'' ≡ r.stored j c)
  unfolding store_verification_token validate_verification_token
  validate_verification_token-store token phone ttl c u l m =
      let k = token_key token in
      let (c', e, u', s) = r.set_ex-stored k phone ttl c u l m in
      let (c'', e', u'', s') = r.del-stored k c' u' in
      let here : r.stored k c' ≡ some (phone, ttl) = ground (arith, s k, bytes_eq_refl k) in
      let gone : r.stored k c'' ≡ none = ground (arith, s' k, bytes_eq_refl k) in
      (
        c',
        c'',
        e,
        ground (arith, r.get-stored k c' u'),
        ground (arith, r.get-stored k c'' u''),
        λ j n. ground (arith, s j, s' j),
      )
