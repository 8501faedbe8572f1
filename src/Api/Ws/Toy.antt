-- ===== src/Api/Ws/Toy.antt =====
-- Concrete channels and texts, to run the model of crates/hysj-api/src/ws on.
use hysj.Base.{
  ℕ, zero, suc, ◌+◌, ◌≡◌, refl, Bool, true, false, not, ◌&&◌, Option, none, some, Bytes, bytes_eq,
  List, [], ◌∷◌, ◌++◌, length, take, drop, take-append, drop-append, lit, ltb, ◌==◌, ==_refl,
  if◌then◌else◌, arith,
}
use hysj.Crypto.Primitives.{Json}
use hysj.Messaging.Toy.{put_opt, get_opt, get_opt-put_opt}
use hysj.Api.Ws.Messages.{
  EncryptedEnvelope, WsMessage, send_message, send_group_message, error_message, pin_message,
}
use hysj.Api.Ws.Sockets.{Sockets, Wire, holds}

-- Channels from `next` on do not exist yet.
pub record Channels : Type 0 where
  pub senders : ℕ → Option ℕ
  pub next : ℕ
  pub opened : ℕ → Bool
  pub texts : ℕ → List Bytes

abbrev is_up : ℕ → Channels → Bool
is_up x t = t.opened x && ltb x t.next

abbrev set {ℓ} : {A : Type ℓ} → ℕ → A → (ℕ → A) → ℕ → A
set k v f j = if k == j then v else f j

abbrev fresh : Channels → Channels
fresh t = record t {
  next = t.next + 1;
  opened = set t.next true t.opened;
  texts = set t.next [] t.texts;
}

abbrev push : ℕ → Bytes → Channels → Channels
push x text t = record t { texts = λ y. if x == y then t.texts y ++ text ∷ [] else t.texts y }

abbrev send : ℕ → Bytes → Channels → Channels × Bool
send x text t = if is_up x t then (push x text t, true) else (t, false)

abbrev shut : ℕ → Channels → Channels
shut x t = record t { opened = set x false t.opened }

fresh-up : (t : Channels) → is_up t.next (fresh t) ≡ true
fresh-up t = ground (arith, ==_refl t.next)

fresh-not_up : (t : Channels) → is_up t.next t ≡ false
fresh-not_up t = ground arith

fresh-others :
    (t : Channels) (y : ℕ)
    → (t.next == y) ≡ false
    → (is_up y (fresh t) ≡ is_up y t) × ((fresh t).texts y ≡ t.texts y)
fresh-others t y h = (ground arith, ground arith)

fresh-empty : (t : Channels) → (fresh t).texts t.next ≡ []
fresh-empty t = ground (arith, ==_refl t.next)

pub unbounded_channel-new :
    (t : Channels)
    → (t' : Channels) × (x : ℕ) × (◌≡◌ {A = Channels × ℕ} (fresh t, t.next) (t', x))
      × (is_up x t ≡ false)
      × (is_up x t' ≡ true)
      × (t'.texts x ≡ [])
      × ((e : ℕ) → t'.senders e ≡ t.senders e)
      × ((y : ℕ) → (x == y) ≡ false → (is_up y t' ≡ is_up y t) × (t'.texts y ≡ t.texts y))
unbounded_channel-new t = (
  fresh t,
  t.next,
  refl,
  fresh-not_up t,
  fresh-up t,
  fresh-empty t,
  (λ e. refl),
  λ y h. fresh-others t y h,
)

pub send-push :
    (x : ℕ) (text : Bytes) (t : Channels) → is_up x t ≡ true → send x text t ≡ (push x text t, true)
send-push x text t h = ground arith

pub send-shut :
    (x : ℕ) (text : Bytes) (t : Channels) → is_up x t ≡ false → send x text t ≡ (t, false)
send-shut x text t h = ground arith

pub is_up-shut :
    (x y : ℕ) (t : Channels) → is_up y (shut x t) ≡ (if x == y then false else is_up y t)
is_up-shut x y t = ground arith

-- The sender of `d` goes, unless `x` is it.
abbrev drop_sender : (ℕ → Bool) → Option ℕ → Channels → Channels
drop_sender keeps old t = record t {
  opened = λ y. if holds y old && not (keeps y) then false else t.opened y;
}

pub is_up-drop_sender :
    (keeps : ℕ → Bool) (old : Option ℕ) (y : ℕ) (t : Channels)
    → is_up y (drop_sender keeps old t)
      ≡ (if holds y old && not (keeps y) then false else is_up y t)
is_up-drop_sender keeps old y t = ground arith

pub is_up-drop_any :
    (old : Option ℕ) (y : ℕ) (t : Channels)
    → is_up y (drop_sender (λ z. false) old t) ≡ (if holds y old then false else is_up y t)
is_up-drop_any none y t = refl
is_up-drop_any (some x) y t = ground arith

instance abbrev pub toy_sockets : Sockets
toy_sockets = record {
  Table = Channels;
  sender = λ d t. t.senders d;
  insert = λ d x t. record (drop_sender (λ y. x == y) (t.senders d) t) {
    senders = set d (some x) t.senders;
  };
  remove =
      λ d t. record (drop_sender (λ y. false) (t.senders d) t) { senders = set d none t.senders };
  unbounded_channel = λ t. (fresh t, t.next);
  send = λ x text t. send x text t;
  close = λ x t. shut x t;
  is_open = λ x t. is_up x t;
  sent = λ x t. t.texts x;
  sender-insert = λ d x e t. refl;
  is_open-insert = λ d x y t. is_up-drop_sender (λ z. x == z) (t.senders d) y t;
  sent-insert = λ d x y t. refl;
  sender-remove = λ d e t. refl;
  is_open-remove = λ d y t. is_up-drop_any (t.senders d) y t;
  sent-remove = λ d y t. refl;
  unbounded_channel-new = λ t. unbounded_channel-new t;
  send-open =
      λ x text t h. (push x text t, send-push x text t h, (λ e. refl), (λ y. refl), λ y. refl);
  send-closed = λ x text t h. send-shut x text t h;
  sender-close = λ x e t. refl;
  is_open-close = λ x y t. is_up-shut x y t;
  sent-close = λ x y t. refl;
}

abbrev pub ws_text : WsMessage → Bytes
ws_text (send_message e) = 1 ∷ e.sealed_blob
ws_text (send_group_message g e) = 2 ∷ g ∷ e.sealed_blob
ws_text (error_message m) = 3 ∷ m
ws_text _ = 4 ∷ []

instance abbrev pub toy_wire : Wire
toy_wire = record {
  ws_text = ws_text;
  ws_parse = λ text.
      if bytes_eq text (lit "pin")
      then some (pin_message (record { group_id = 5; message_id = lit "m1"; pin = true }))
      else none;
  from_utf8_lossy = λ bytes. bytes;
  uuid_text = λ id. if id == 7 then lit "dev" else id ∷ [];
  error_text = λ e. lit "no";
  format_error = λ text. lit "format";
  push_sent = λ key push. true;
}

abbrev put_flag : Option Bytes → Bytes
put_flag none = 0 ∷ []
put_flag (some b) = 1 ∷ b

abbrev get_flag : Bytes → Option Bytes
get_flag [] = none
get_flag (zero ∷ b) = none
get_flag (suc n ∷ b) = some b

get_flag-put_flag : (o : Option Bytes) → get_flag (put_flag o) ≡ o
get_flag-put_flag none = refl
get_flag-put_flag (some b) = refl

abbrev pub envelope_bytes : EncryptedEnvelope → Bytes
envelope_bytes e =
    e.recipient_device_id
      ∷ put_opt e.ttl_seconds
      ∷ put_opt e.self_destruct_seconds
      ∷ (if e.is_forwarded then 1 else 0)
      ∷ length e.message_id
      ∷ length e.sealed_blob
      ∷ e.message_id
    ++ (e.sealed_blob ++ put_flag e.reply_to_message_id)

abbrev pub envelope_of_bytes : Bytes → Option EncryptedEnvelope
envelope_of_bytes (d ∷ ttl ∷ destruct ∷ forwarded ∷ n ∷ m ∷ rest) = some (record {
  recipient_device_id = d;
  message_id = take n rest;
  sealed_blob = take m (drop n rest);
  ttl_seconds = get_opt ttl;
  self_destruct_seconds = get_opt destruct;
  reply_to_message_id = get_flag (drop m (drop n rest));
  is_forwarded = forwarded == 1;
})
envelope_of_bytes _ = none

pub envelope_of_bytes-envelope_bytes :
    (e : EncryptedEnvelope) → envelope_of_bytes (envelope_bytes e) ≡ some e
envelope_of_bytes-envelope_bytes e =
    let tail = e.sealed_blob ++ put_flag e.reply_to_message_id in
    ground (
      arith,
      get_opt-put_opt e.ttl_seconds,
      get_opt-put_opt e.self_destruct_seconds,
      get_flag-put_flag e.reply_to_message_id,
      take-append (length e.message_id) e.message_id tail refl,
      drop-append (length e.message_id) e.message_id tail refl,
      take-append (length e.sealed_blob) e.sealed_blob (put_flag e.reply_to_message_id) refl,
      drop-append (length e.sealed_blob) e.sealed_blob (put_flag e.reply_to_message_id) refl,
    )

instance abbrev pub envelope_json : Json EncryptedEnvelope
envelope_json = record {
  to_vec = envelope_bytes;
  from_slice = envelope_of_bytes;
  from_slice-to_vec = envelope_of_bytes-envelope_bytes;
}
