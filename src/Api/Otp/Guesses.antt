-- ===== src/Api/Otp/Guesses.antt =====
-- How often a code may be guessed.
use hysj.Base.{
  ℕ, ◌≡◌, refl, true, false, none, some, Bytes, bytes_eq, bytes_eq_refl, List, [], ◌∷◌, ◌++◌,
  length, lit, ok, arith,
}
use hysj.Messaging.Redis.{Redis}
use hysj.Messaging.Otp
use hysj.Messaging.Otp.{otp_key, token_key, validate_verification_token}
use hysj.Api.RateLimit.{Entries, check_rate_limit}
use hysj.Api.Otp.{State, is_phone_number, limit, send_code, send_otp, verify_otp}

-- Guesses of six bytes, none of which is the code.
abbrev pub AllWrong : Bytes → List Bytes → Type 0
AllWrong code [] = Unit {0}
AllWrong code (g ∷ gs) = (bytes_eq code g ≡ false) × (length g ≡ 6) × AllWrong code gs

keys_apart : (phone token : Bytes) → bytes_eq (token_key token) (otp_key phone) ≡ false
unfolding token_key otp_key bytes_eq
keys_apart phone token = refl

module _ ⦃r : Redis⦄ where
  -- One request after the other.
  abbrev pub guess_all : Bytes → Bytes → List Bytes → State r.Conn → State r.Conn
  guess_all phone token [] st = st
  guess_all phone token (g ∷ gs) st = guess_all phone token gs (verify_otp phone g token st).0

  verify_otp-wrong :
      (phone code guess token : Bytes) (ttl : ℕ) (st : State r.Conn)
      → r.IsUp st.redis
      → r.stored (otp_key phone) st.redis ≡ some (code, ttl)
      → bytes_eq code guess ≡ false
      → length guess ≡ 6
      → verify_otp phone guess token st
        ≡ (st, ok (record { verified = false; verification_token = none }))
  unfolding verify_otp Otp.verify_otp
  verify_otp-wrong phone code guess token ttl st u s w n =
      ground (arith, r.get-stored (otp_key phone) st.redis u)

  guess_all-wrong :
      (phone code token : Bytes) (ttl : ℕ) (gs : List Bytes) (st : State r.Conn)
      → r.IsUp st.redis
      → r.stored (otp_key phone) st.redis ≡ some (code, ttl)
      → AllWrong code gs
      → guess_all phone token gs st ≡ st
  guess_all-wrong phone code token ttl [] st u s w = refl
  guess_all-wrong phone code token ttl (g ∷ gs) st u s (w, n, ws) = ground (
    arith,
    verify_otp-wrong phone code g token ttl st u s w n,
    guess_all-wrong phone code token ttl gs st u s ws,
  )

  verify_otp-right :
      (phone code token : Bytes) (ttl : ℕ) (st : State r.Conn)
      → r.IsUp st.redis
      → r.stored (otp_key phone) st.redis ≡ some (code, ttl)
      → length code ≡ 6
      → (st' : State r.Conn) × (verify_otp phone code token st
          ≡ (st', ok (record { verified = true; verification_token = some token })))
        × ((validate_verification_token token st'.redis).1 ≡ ok (some phone))
        × (verify_otp phone code token st'
            ≡ (st', ok (record { verified = false; verification_token = none })))
  unfolding verify_otp Otp.verify_otp Otp.store_verification_token validate_verification_token
  verify_otp-right phone code token ttl st u s n =
      let k = otp_key phone in
      let t = token_key token in
      let (c1, e1, u1, s1) = r.del-stored k st.redis u in
      let (c2, e2, u2, s2) = r.set_ex-stored t phone 600 c1 u1 (omega arith) (omega arith) in
      let (c3, e3, u3, s3) = r.del-stored t c2 u2 in
      let there : r.stored t c2 ≡ some (phone, 600) = ground (arith, s2 t, bytes_eq_refl t) in
      let gone : r.stored k c2 ≡ none =
        ground (arith, s2 k, s1 k, bytes_eq_refl k, keys_apart phone token) in
      (
        record st { redis = c2 },
        ground (arith, r.get-stored k st.redis u, bytes_eq_refl code),
        ground (arith, r.get-stored t c2 u2),
        ground (arith, r.get-stored k c2 u2),
      )

  -- A code can be guessed without limit: on a connection that is up, without Twilio and within both
  -- limits on requests for codes, a code of six bytes for a well-formed number is in the answer and
  -- stored; however many wrong guesses of six bytes are then tried before it expires, they change nothing, and the right
  -- one is accepted afterwards. It gives a token that stands for the number, and is not accepted again.
  pub verify_otp-send_otp :
      (ip phone code token : Bytes) (gs : List Bytes) (instant : ℕ) (e1 e2 : Entries)
      (st : State r.Conn)
      → r.IsUp st.redis
      → st.twilio ≡ none
      → check_rate_limit (lit "otp:" ++ phone) 3 3600 instant st.entries ≡ (e1, ok true)
      → check_rate_limit (lit "otp_ip:" ++ ip) 10 3600 instant e1 ≡ (e2, ok true)
      → is_phone_number phone ≡ true
      → length code ≡ 6
      → AllWrong code gs
      → (st1 : State r.Conn) × (st2 : State r.Conn) × (send_otp ip phone code instant st
          ≡ (st1, ok (record { expires_in = 300; dev_code = some code })))
        × (guess_all phone token gs st1 ≡ st1)
        × (verify_otp phone code token st1
            ≡ (st2, ok (record { verified = true; verification_token = some token })))
        × ((validate_verification_token token st2.redis).1 ≡ ok (some phone))
        × (verify_otp phone code token st2
            ≡ (st2, ok (record { verified = false; verification_token = none })))
  unfolding send_otp limit send_code Otp.store_otp
  verify_otp-send_otp ip phone code token gs instant e1 e2 st u w l1 l2 p n g =
      let k = otp_key phone in
      let (c, e, u', s) = r.set_ex-stored k code 300 st.redis u (omega arith) (omega arith) in
      let st1 : State r.Conn = record st { entries = e2; redis = c } in
      let here : r.stored k c ≡ some (code, 300) = ground (arith, s k, bytes_eq_refl k) in
      let (st2, accepted, valid, again) = verify_otp-right phone code token 300 st1 u' here n in
      (
        st1,
        st2,
        ground arith,
        guess_all-wrong phone code token 300 gs st1 u' here g,
        accepted,
        valid,
        again,
      )
