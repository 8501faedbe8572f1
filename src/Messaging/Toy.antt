-- ===== src/Messaging/Toy.antt =====
-- A concrete store with the documented behaviour of Redis, to run the model of crates/hysj-messaging on.
use hysj.Base.{
  ℕ, zero, suc, ◌+◌, ◌≤◌, ◌≡◌, refl, ◌==◌, Option, none, some, Bytes, bytes_eq, leb, List, [], lit,
  ◌∷◌, if◌then◌else◌, Result, ok, err, arith,
}
use hysj.Crypto.Primitives.{Json}
use hysj.Messaging.Redis.{Redis, MessagingError, redis_error, value_of, is_some, one_if, with_ttl}
use hysj.Messaging.MediaStore.{MediaMeta}
use hysj.Messaging.Wipe.{WipeType, all, device, conversation, PendingWipe}

abbrev pub Store : Type 0
Store = Bytes → Option (Bytes × ℕ)

abbrev pub write : Bytes → Option (Bytes × ℕ) → Store → Store
write k v c j = if bytes_eq k j then v else c j

-- An expiry of 0 is refused.
abbrev set : Bytes → Option (Bytes × ℕ) → ℕ → Store → Store × Result MessagingError (Unit {0})
set k v ttl c = if leb 1 ttl then (write k v c, ok tt) else (c, err redis_error)

pub set-write :
    (k : Bytes) (v : Option (Bytes × ℕ)) (ttl : ℕ) (c : Store)
    → 1 ≤ ttl
    → set k v ttl c ≡ (write k v c, ok tt)
set-write k v ttl c h = ground arith

-- SCAN knows of two keys here, and reports each twice.
abbrev present : Bytes → Store → List Bytes
present k c = if is_some (c k) then k ∷ k ∷ [] else []

abbrev matching : Bytes → Store → List Bytes
matching pattern c =
    if bytes_eq pattern (lit "msg:dev:*")
    then present (lit "msg:dev:m1") c
    else if bytes_eq pattern (lit "wipe:dev:*")
    then present (lit "wipe:dev:w1") c
    else []

instance abbrev pub toy_redis : Redis
toy_redis = record {
  Conn = Store;
  get = λ k c. (c, ok (value_of (c k)));
  exists = λ k c. (c, ok (is_some (c k)));
  set_ex = λ k v ttl c. set k (some (v, ttl)) ttl c;
  expire = λ k ttl c. set k (with_ttl ttl (c k)) ttl c;
  del = λ k c. (write k none c, ok (one_if (is_some (c k))));
  del_both = λ k l c.
      (write k none (write l none c), ok (one_if (is_some (c k)) + one_if (is_some (c l))));
  scan = λ cursor pattern n c. (c, ok (0, matching pattern c));
  IsUp = λ c. Unit {0};
  stored = λ k c. c k;
  get-stored = λ k c u. refl;
  exists-stored = λ k c u. refl;
  set_ex-stored = λ k v ttl c u l m.
      (write k (some (v, ttl)) c, set-write k (some (v, ttl)) ttl c l, tt, λ j. refl);
  expire-stored = λ k ttl c u l m.
      (write k (with_ttl ttl (c k)) c, set-write k (with_ttl ttl (c k)) ttl c l, tt, λ j. refl);
  del-stored = λ k c u. (write k none c, refl, tt, λ j. refl);
  del_both-stored = λ k l c u n. (write k none (write l none c), refl, tt, λ j. refl);
}

abbrev meta_of_bytes : Bytes → Option MediaMeta
meta_of_bytes (d ∷ s ∷ id) =
    some (record { recipient_device_id = id; duration_seconds = d; blob_size = s })
meta_of_bytes _ = none

instance abbrev pub meta_json : Json MediaMeta
meta_json = record {
  to_vec = λ m. m.duration_seconds ∷ m.blob_size ∷ m.recipient_device_id;
  from_slice = meta_of_bytes;
  from_slice-to_vec = λ m. refl;
}

abbrev pub put_opt : Option ℕ → ℕ
put_opt none = 0
put_opt (some n) = suc n

abbrev pub get_opt : ℕ → Option ℕ
get_opt zero = none
get_opt (suc n) = some n

pub get_opt-put_opt : (o : Option ℕ) → get_opt (put_opt o) ≡ o
get_opt-put_opt none = refl
get_opt-put_opt (some n) = refl

abbrev code_of : WipeType → ℕ
code_of all = 0
code_of device = 1
code_of conversation = 2

abbrev type_of : ℕ → WipeType
type_of n = if n == 0 then all else if n == 1 then device else conversation

abbrev wipe_of_bytes : Bytes → Option PendingWipe
wipe_of_bytes (now ∷ code ∷ target ∷ partner ∷ id) = some (record {
  wipe_id = id;
  command = record {
    wipe_type = type_of code;
    target_device_id = get_opt target;
    conversation_partner_id = get_opt partner;
  };
  issued_at = now;
})
wipe_of_bytes _ = none

abbrev pub wipe_bytes : PendingWipe → Bytes
wipe_bytes w =
    w.issued_at
    ∷ code_of w.command.wipe_type
    ∷ put_opt w.command.target_device_id
    ∷ put_opt w.command.conversation_partner_id
    ∷ w.wipe_id

type_of-code_of : (t : WipeType) → type_of (code_of t) ≡ t
type_of-code_of all = refl
type_of-code_of device = refl
type_of-code_of conversation = refl

pub wipe_of_bytes-wipe_bytes : (w : PendingWipe) → wipe_of_bytes (wipe_bytes w) ≡ some w
wipe_of_bytes-wipe_bytes w = ground (
  arith,
  get_opt-put_opt w.command.target_device_id,
  get_opt-put_opt w.command.conversation_partner_id,
  type_of-code_of w.command.wipe_type,
)

instance abbrev pub wipe_json : Json PendingWipe
wipe_json = record {
  to_vec = wipe_bytes;
  from_slice = wipe_of_bytes;
  from_slice-to_vec = wipe_of_bytes-wipe_bytes;
}
