-- ===== src/Outcome/Defs.antt =====
-- Errors and results as values.
use platform_mihomo_service.Base.{String}

-- The errors of the service (`errors.New` at the named variables), the gRPC statuses that its
-- handlers return, and the errors of other packages, which carry their message.
pub data Code : Type 0 where
  invalid_argument not_found permission_denied unauthenticated internal : Code

pub data Error : Type 0 where
  credential_not_found profile_not_found platform_account_mismatch : Error
  action_scope_denied binding_scope_denied profile_scope_denied : Error
  grant_version_revoked default_profile_already_exists : Error
  record_not_found : Error
  unknown_key : String → Error
  binding_id_required preparation_required : Error
  -- The key that has no binding id between its first two separators, and the id that is no uint64.
  invalid_account_key invalid_binding_id : String → Error
  external : String → Error
  -- `status.Error(code, text)` and `status.Error(code, err.Error())`.
  status : Code → String → Error
  status_of : Code → Error → Error

pub data Result (A : Type 0) : Type 0 where
  ok : A → Result A
  err : Error → Result A
