-- ===== src/Models/Errors.antt =====
-- The exceptions of app/core/exceptions.py, with the HTTP status of each.
use ethiogram.Base.{ℕ, String}
use ethiogram.Base.Int.{ℤ}

-- Messages and code strings are left out, but for the resource or the message that tells two errors
-- of one handler apart. The last three are raised elsewhere: SQLAlchemy's `MultipleResultsFound`,
-- Python's `ValueError`, and FastAPI's `HTTPException` with its status.
pub data Error : Type 0 where
  ethiogram_error auth_error token_expired token_invalid : Error
  permission_denied admin_required super_admin_required : Error
  not_found : (resource : String) → Error
  already_exists : (resource : String) → Error
  validation_error : (message : String) → Error
  bot_token_invalid bot_token_already_registered bot_paused bot_suspended : Error
  insufficient_balance : (required : ℕ) (available : ℤ) → Error
  model_unavailable : (model_id : String) → Error
  all_models_failed agent_not_live agent_trial_expired document_processing_error : Error
  rate_limited : (retry_after : ℕ) → Error
  external_service_error telegram_api_error : Error
  multiple_results value_error : Error
  http_exception : (status : ℕ) → Error

-- A subclass keeps the status of its parent: `AdminRequiredError` that of `PermissionDeniedError`.
pub status_code : Error → ℕ
status_code Error.ethiogram_error = 500
status_code Error.auth_error = 401
status_code Error.token_expired = 401
status_code Error.token_invalid = 401
status_code Error.permission_denied = 403
status_code Error.admin_required = 403
status_code Error.super_admin_required = 403
status_code (Error.not_found _) = 404
status_code (Error.already_exists _) = 409
status_code (Error.validation_error _) = 422
status_code Error.bot_token_invalid = 400
status_code Error.bot_token_already_registered = 409
status_code Error.bot_paused = 402
status_code Error.bot_suspended = 403
status_code (Error.insufficient_balance _ _) = 402
status_code (Error.model_unavailable _) = 503
status_code Error.all_models_failed = 503
status_code Error.agent_not_live = 400
status_code Error.agent_trial_expired = 402
status_code Error.document_processing_error = 422
status_code (Error.rate_limited _) = 429
status_code Error.external_service_error = 502
status_code Error.telegram_api_error = 502
status_code Error.multiple_results = 500
status_code Error.value_error = 500
status_code (Error.http_exception status) = status
