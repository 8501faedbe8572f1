-- ===== src/Api/Keys/Supply.antt =====
-- The supply of one-time pre-keys of a device: how it is filled up and how it runs out.
use hysj.Base.{
  ℕ, ◌+◌, ◌≤◌, ◌<◌, ◌≡◌, leb, refl, subst, Bool, true, not, ◌&&◌, Option, none, some, Bytes, List,
  [], map, length, ◌==◌, ok, Option-cases, inl, inr, arith,
}
use mathlib.Core.List.{Mem}
use hysj.Auth.Libraries.{Libraries}
use hysj.Database.{User, Device, PreKey, Db}
use hysj.Database.Users.{has_id, find_user, find_by_id}
use hysj.Database.Groups.{is_some}
use hysj.Database.Devices.{last_active, find_one_device_for_user}
use hysj.Database.Select.{
  select, All, Found, is_owned_by, is_free, unflagged, select-mark_used, map-mark_used,
  find_user-Found, last_active-Found, oldest-Found,
}
use hysj.Database.Keys.{oldest, mark_used, count_rows, claim_one_time_pre_key}
use hysj.Database.Bundles.{PreKeyBundleData, public_key_of}
use hysj.Database.Bundles
use hysj.Api.Auth.{decode_all}
use hysj.Api.Keys.{
  PreKeyBundleResponse, max_pre_keys_per_device, b64_option, response, fetch_bundle,
}

-- What the key that was handed out says of the tables before and after.
abbrev pub Supplied : ℕ → Option PreKey → Db → Db → Type 0
Supplied device none db db' = (select (is_free device) db.pre_keys ≡ []) × (db' ≡ db)
Supplied device (some k) db db' =
    Mem k (select (is_free device) db.pre_keys)
    × All (λ m. k.id ≤ m.id) (select (is_free device) db.pre_keys)
    × ((e : ℕ)
        → select (is_free e) db'.pre_keys
          ≡ select (λ m. is_free e m && not (m.id == k.id)) db.pre_keys)
    × (map unflagged db'.pre_keys ≡ map unflagged db.pre_keys)
    × (db' ≡ record db { pre_keys = db'.pre_keys })

-- What the statement returns: the row after its update.
abbrev as_used : Option PreKey → Option PreKey
as_used none = none
as_used (some k) = some (record k { is_used = true })

public_key_of-used : (o : Option PreKey) → public_key_of (as_used o) ≡ public_key_of o
public_key_of-used none = refl
public_key_of-used (some k) = refl

claim-Supplied :
    (device : ℕ) (db : Db)
    → (otpk : Option PreKey) × (db' : Db) × (claim_one_time_pre_key device db
        ≡ (db', ok (as_used otpk)))
      × Supplied device otpk db db'
unfolding claim_one_time_pre_key
claim-Supplied device db =
    let rows = select (is_free device) db.pre_keys in
    elim (Option-cases (oldest device db.pre_keys)) [
      | inl e ↦
          (none, db, ground arith, (subst (Found _ rows) e (oldest-Found device db.pre_keys), refl))
      | inr (k, e) ↦
          let (member, least) =
            subst (Found (λ k m. k.id ≤ m.id) rows) e (oldest-Found device db.pre_keys) in
          let db' : Db = record db { pre_keys = mark_used k.id db.pre_keys } in
          (
            some k,
            db',
            ground arith,
            (
              member,
              least,
              (λ x. select-mark_used x k.id db.pre_keys),
              map-mark_used k.id db.pre_keys,
              refl,
            ),
          )
    ]

module _ ⦃l : Libraries⦄ where
  -- The conditions under which the keys are taken.
  abbrev pub fits : ℕ → List Bytes → Db → Bool
  fits device ks db =
      not (length ks == 0)
      && leb (count_rows device db.pre_keys + length ks) max_pre_keys_per_device
      && is_some (decode_all ks)

  -- The bundle of a registered user with a device holds the identity key of the user and the id and the
  -- keys of a device of the user than which none was active later, in base64. If every one-time pre-key of
  -- that device was handed out, it has none, and nothing changes. Otherwise it has one that was not, with
  -- the least id of those; that key is no longer free for any device, every other free key is, and nothing
  -- else of the tables changes.
  pub fetch_bundle-ok :
      (user_id : ℕ) (db : Db)
      → 0 < length (select (has_id user_id) db.users)
      → 0 < length (select (is_owned_by user_id) db.devices)
      → (u : User) × (d : Device) × (otpk : Option PreKey) × (db' : Db)
        × (bundle : PreKeyBundleResponse) × Mem u (select (has_id user_id) db.users)
        × Mem d (select (is_owned_by user_id) db.devices)
        × All (λ e. e.last_active_at ≤ d.last_active_at) (select (is_owned_by user_id) db.devices)
        × (fetch_bundle user_id db ≡ (db', ok bundle))
        × (bundle.device_id ≡ l.uuid_text d.id)
        × (l.b64_decode bundle.identity_public_key ≡ some u.identity_public_key)
        × (l.b64_decode bundle.signed_pre_key ≡ some d.signed_pre_key)
        × (l.b64_decode bundle.signed_pre_key_signature ≡ some d.signed_pre_key_sig)
        × (l.b64_decode bundle.kyber_public_key ≡ some d.kyber_public_key)
        × (bundle.one_time_pre_key ≡ b64_option (public_key_of otpk))
        × Supplied d.id otpk db db'
  unfolding fetch_bundle Bundles.get_pre_key_bundle find_by_id find_one_device_for_user
  fetch_bundle-ok user_id db a b = elim (Option-cases (find_user (has_id user_id) db.users)) [
    | inl e ↦
        let none_there =
          subst (Found (λ u v. Unit {0}) (select (has_id user_id) db.users)) e
            (find_user-Found (has_id user_id) db.users) in
        absurd (ground arith)
    | inr (u, e) ↦ elim (Option-cases (last_active user_id db.devices)) [
      | inl f ↦
          let none_there =
            subst (Found _ (select (is_owned_by user_id) db.devices)) f
              (last_active-Found user_id db.devices) in
          absurd (ground arith)
      | inr (d, f) ↦
          let (member, anything) =
            subst (Found (λ u v. Unit {0}) (select (has_id user_id) db.users)) e
              (find_user-Found (has_id user_id) db.users) in
          let (owned, latest) =
            subst
              (Found (λ d e. e.last_active_at ≤ d.last_active_at)
                (select (is_owned_by user_id) db.devices))
              f (last_active-Found user_id db.devices) in
          let (otpk, db', claimed, supplied) = claim-Supplied d.id db in
          let bundle = response (record {
            identity_public_key = u.identity_public_key;
            identity_dh_public_key = u.identity_dh_public_key;
            device_id = d.id;
            signed_pre_key = d.signed_pre_key;
            signed_pre_key_sig = d.signed_pre_key_sig;
            one_time_pre_key = public_key_of otpk;
            kyber_public_key = d.kyber_public_key;
          }) in
          (
            u,
            d,
            otpk,
            db',
            bundle,
            member,
            owned,
            latest,
            ground (arith, public_key_of-used otpk),
            refl,
            l.b64_decode-b64 _,
            l.b64_decode-b64 _,
            l.b64_decode-b64 _,
            l.b64_decode-b64 _,
            refl,
            supplied,
          )
    ]
  ]
