-- ===== src/Api/Routes.antt =====
-- Handlers of crates/hysj-api/src/routes that use the connections of crates/hysj-api/src/state.rs: steps
-- on the whole state, with the errors of the routes.
use hysj.Base.{ok, err, panic, Result}
use hysj.Database.{DbError, Db}
use hysj.Messaging.Redis.{Redis, MessagingError}
use hysj.Api.Error.{HysjError, of_db_error, redis_error}
use hysj.Api.Ws.Sockets.{Sockets}
use hysj.Api.Ws.Connections.{State}

module _ ⦃r : Redis⦄ ⦃s : Sockets⦄ where
  abbrev pub Run : Type 0 → Type 0
  Run A = State → State × Result HysjError A

  abbrev pub lift : {A : Type 0} → Result HysjError A → Run A
  lift m st = (st, m)

  infixl 5 ◌>>=◌ ◌>>◌
  abbrev pub ◌>>=◌ : {A B : Type 0} → Run A → (A → Run B) → Run B
  ◌>>=◌ m f st = elim (m st).1 [
    | ok a ↦ f a (m st).0
    | err e ↦ ((m st).0, err e)
    | panic ↦ ((m st).0, panic)
  ]

  abbrev pub ◌>>◌ : {B : Type 0} → Run (Unit {0}) → Run B → Run B
  m >> k = m >>= λ _. k

  -- `?` on a statement and on a Redis operation.
  abbrev pub db_do : {A : Type 0} → (Db → Db × Result DbError A) → Run A
  db_do m st = elim (m st.db).1 [
    | ok a ↦ (record st { db = (m st.db).0 }, ok a)
    | err e ↦ (record st { db = (m st.db).0 }, err (of_db_error e))
    | panic ↦ (record st { db = (m st.db).0 }, panic)
  ]

  abbrev pub redis_do : {A : Type 0} → (r.Conn → r.Conn × Result MessagingError A) → Run A
  redis_do m st = elim (m st.redis).1 [
    | ok a ↦ (record st { redis = (m st.redis).0 }, ok a)
    | err e ↦ (record st { redis = (m st.redis).0 }, err redis_error)
    | panic ↦ (record st { redis = (m st.redis).0 }, panic)
  ]
