-- ===== src/Api/Error.antt =====
-- crates/hysj-shared/src/error.rs and crates/hysj-api/src/error.rs: the errors of the routes, less
-- their message text, and `?` on a statement.
use hysj.Base.{ℕ, ok, err, panic}
use hysj.Database.{DbError, not_found, conflict, query_failed, Run}

pub data HysjError : Type 0 where
  auth_failed invalid_credentials rate_limited two_factor_required : HysjError
  invalid_two_factor_code token_expired invalid_token wipe_failed crypto_error : HysjError
  database_error redis_error validation_error forbidden missing : HysjError
  internal_error internal : HysjError
  user_not_found device_not_found group_not_found pre_key_exhausted : ℕ → HysjError

-- The status codes of IntoResponse.
unfoldable pub status_code : HysjError → ℕ
status_code auth_failed = 401
status_code invalid_credentials = 401
status_code rate_limited = 429
status_code two_factor_required = 403
status_code invalid_two_factor_code = 401
status_code token_expired = 401
status_code invalid_token = 401
status_code wipe_failed = 500
status_code crypto_error = 500
status_code database_error = 500
status_code redis_error = 500
status_code validation_error = 400
status_code forbidden = 403
status_code missing = 404
status_code internal_error = 500
status_code internal = 500
status_code (user_not_found id) = 404
status_code (device_not_found id) = 404
status_code (group_not_found id) = 404
status_code (pre_key_exhausted id) = 410

-- From<hysj_db::DbError> for AppError.
abbrev pub of_db_error : DbError → HysjError
of_db_error not_found = internal
of_db_error conflict = validation_error
of_db_error query_failed = database_error

-- `?` on a statement.
abbrev pub db_do : {A : Type 0} → Run DbError A → Run HysjError A
db_do m db = elim (m db).1 [
  | ok a ↦ ((m db).0, ok a)
  | err e ↦ ((m db).0, err (of_db_error e))
  | panic ↦ ((m db).0, panic)
]
