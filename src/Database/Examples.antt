-- ===== src/Database/Examples.antt =====
-- Runs of the model of crates/hysj-db on small tables.
use hysj.Base.{ℕ, ◌≡◌, refl, true, false, Bytes, [], ◌∷◌, lit}
use hysj.Database.{PreKey, Db, empty_db}
use hysj.Database.Devices.{phone}
use hysj.Database.Keys.{claim_one_time_pre_key, oldest, mark_used}
use hysj.Database.Keys.Claims.{claim_many, DistinctIds, claim_many-DistinctIds}

abbrev pre_key : ℕ → Bytes → PreKey
pre_key id bytes = record {
  id = id;
  device_id = 4;
  public_key = bytes;
  is_used = false;
  created_at = 0;
}

-- Device 4 has two keys.
abbrev db : Db
db = record empty_db {
  devices = phone 4 9 ∷ [];
  pre_keys = pre_key 1 (lit "a") ∷ pre_key 2 (lit "b") ∷ [];
  next_pre_key_id = 3;
}

claimed_ids :
    (claim_many (4 ∷ 4 ∷ 4 ∷ []) db).1
    ≡ record (pre_key 1 (lit "a")) { is_used = true }
      ∷ record (pre_key 2 (lit "b")) { is_used = true }
      ∷ []
unfolding claim_many claim_one_time_pre_key oldest mark_used
claimed_ids = refl

claim_many-DistinctIds_example : DistinctIds (claim_many (4 ∷ 4 ∷ 4 ∷ []) db).1
claim_many-DistinctIds_example = claim_many-DistinctIds (4 ∷ 4 ∷ 4 ∷ []) db
