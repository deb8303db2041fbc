-- ===== src/Service/AccountService.antt =====
-- internal/service/mihomo_account.go: the handlers of MihomoAccountService. A nil request is
-- `none`.
pub mod Guards
pub mod Permits
use platform_mihomo_service.Base.{String, Bool, true, Option, none, some, List, [], ◌∷◌}
use platform_mihomo_service.Outcome.{M, pure, or_fail, ◌>>=◌, ◌>>◌, status, invalid_argument}
use platform_mihomo_service.Biz.{ServiceTicketClaims}
use platform_mihomo_service.Api.{
  ProfileSummary, CredentialSummary, DeviceInfo, BindCredentialRequest, BindCredentialResponse,
  AccountRequest, PlayerRequest, UpdateCredentialRequest, UpsertDeviceRequest,
}
use platform_mihomo_service.Scope.{
  ScopeGuard, require_binding_wide, scoped_guard, scoped_guard_for_platform_account,
}
use platform_mihomo_service.Scope.Action
use platform_mihomo_service.Usecase.BindUsecase.{BindCredentialInput}
use platform_mihomo_service.Usecase.BindUsecase as Bind
use platform_mihomo_service.Usecase.StatusUsecase.{
  GetCredentialStatusOutput, ValidateCredentialOutput, RefreshCredentialOutput,
}
use platform_mihomo_service.Usecase.StatusUsecase as Status
use platform_mihomo_service.Usecase.ProfileUsecase as Profiles
use platform_mihomo_service.Usecase.AuthkeyUsecase.{GetAuthKeyOutput}
use platform_mihomo_service.Usecase.AuthkeyUsecase as Authkey
use platform_mihomo_service.Usecase.ManagementUsecase.{UpdateCredentialInput}
use platform_mihomo_service.Usecase.ManagementUsecase as Management
use platform_mihomo_service.Service.Mapper.{
  Service, mapped, mapped_check, request_required, verify_service_ticket, to_bind_credential_input,
  to_bind_credential_response, to_credential_summary,
}

-- `UpdateCredential`'s input, for a request with the given device.
unfoldable pub update_input :
    UpdateCredentialRequest → ServiceTicketClaims → DeviceInfo → UpdateCredentialInput
update_input req claims device = record {
  platform_account_id = req.platform_account_id;
  bind = record {
    binding_id = claims.binding_id;
    cookie_bundle_json = req.cookie_bundle_json;
    device_id = device.device_id;
    device_fp = device.device_fp;
    device_name = device.device_name;
    region_hint = req.region_hint;
  };
}

abbrev device_required : {S A : Type 0} → Option A → M S A
device_required = or_fail (status invalid_argument "device is required")

module _ {S K : Type 0} (svc : Service S K) where
  -- The start that most handlers share: the ticket, the guard for an account and one action, and
  -- that the ticket is not limited to a profile.
  unfoldable pub account_guard : String → String → String → M S ScopeGuard
  account_guard ticket key action = do
    claims ← verify_service_ticket svc ticket
    mapped_check (scoped_guard_for_platform_account claims key (action ∷ []))

  unfoldable pub binding_wide_guard : String → String → String → M S ScopeGuard
  unfolding account_guard
  binding_wide_guard ticket key action = do
    g ← account_guard ticket key action
    mapped_check (require_binding_wide g)
    pure g

  unfoldable pub bind_credential : Option BindCredentialRequest → M S BindCredentialResponse
  bind_credential none = request_required
  bind_credential (some req) = do
    claims ← verify_service_ticket svc req.service_ticket
    g ← mapped_check (scoped_guard claims (Action.credential_bind ∷ []))
    mapped_check (require_binding_wide g)
    output ← mapped (Bind.bind_credential svc.ports (to_bind_credential_input req claims))
    pure (to_bind_credential_response output)

  unfoldable pub get_credential_status : Option AccountRequest → M S GetCredentialStatusOutput
  unfolding binding_wide_guard
  get_credential_status none = request_required
  get_credential_status (some req) = do
    binding_wide_guard req.service_ticket req.platform_account_id Action.status_read
    mapped (Status.get_credential_status svc.ports req.platform_account_id)

  unfoldable pub validate_credential : Option AccountRequest → M S ValidateCredentialOutput
  unfolding binding_wide_guard
  validate_credential none = request_required
  validate_credential (some req) = do
    binding_wide_guard req.service_ticket req.platform_account_id Action.status_read
    mapped (Status.validate_credential svc.ports req.platform_account_id)

  unfoldable pub refresh_credential : Option AccountRequest → M S RefreshCredentialOutput
  unfolding binding_wide_guard
  refresh_credential none = request_required
  refresh_credential (some req) = do
    binding_wide_guard req.service_ticket req.platform_account_id Action.credential_refresh
    mapped (Status.refresh_credential svc.ports req.platform_account_id)

  unfoldable pub list_profiles : Option AccountRequest → M S (List ProfileSummary)
  unfolding account_guard
  list_profiles none = request_required
  list_profiles (some req) = do
    g ← account_guard req.service_ticket req.platform_account_id Action.profile_read
    mapped (Profiles.list_profiles_with_scope svc.ports g req.platform_account_id)

  unfoldable pub get_primary_profile : Option AccountRequest → M S (Option ProfileSummary)
  unfolding account_guard
  get_primary_profile none = request_required
  get_primary_profile (some req) = do
    g ← account_guard req.service_ticket req.platform_account_id Action.profile_read
    mapped (Profiles.get_primary_profile_with_scope svc.ports g req.platform_account_id)

  unfoldable pub get_auth_key : Option PlayerRequest → M S GetAuthKeyOutput
  unfolding account_guard
  get_auth_key none = request_required
  get_auth_key (some req) = do
    g ← account_guard req.service_ticket req.platform_account_id Action.auth_key_issue
    mapped (
        Profiles.require_profile_access_by_player_id svc.ports g req.platform_account_id
          req.player_id)
    mapped (Authkey.get_auth_key svc.ports svc.artifacts req.platform_account_id req.player_id)

  unfoldable pub get_credential_summary : Option AccountRequest → M S CredentialSummary
  get_credential_summary none = request_required
  get_credential_summary (some req) = do
    claims ← verify_service_ticket svc req.service_ticket
    g ← mapped_check (scoped_guard claims (Action.credential_read ∷ []))
    output ←
        mapped (Management.get_credential_summary_with_scope svc.ports g req.platform_account_id)
    pure (to_credential_summary output)

  unfoldable pub update_credential : Option UpdateCredentialRequest → M S CredentialSummary
  unfolding update_input
  update_credential none = request_required
  update_credential (some req) = do
    claims ← verify_service_ticket svc req.service_ticket
    g ← mapped_check (scoped_guard claims (Action.credential_update ∷ []))
    device ← device_required req.device
    output ←
        mapped
          (Management.update_credential_with_scope svc.ports g (update_input req claims device))
    pure (to_credential_summary output)

  unfoldable pub delete_credential : Option AccountRequest → M S Bool
  delete_credential none = request_required
  delete_credential (some req) = do
    claims ← verify_service_ticket svc req.service_ticket
    g ← mapped_check (scoped_guard claims (Action.credential_delete ∷ []))
    mapped (Management.delete_credential_with_scope svc.ports g req.platform_account_id)
    pure true

  unfoldable pub upsert_device : Option UpsertDeviceRequest → M S Bool
  unfolding binding_wide_guard
  upsert_device none = request_required
  upsert_device (some req) = do
    binding_wide_guard req.service_ticket req.platform_account_id Action.device_update
    device ← device_required req.device
    mapped (
        Bind.upsert_device svc.ports req.platform_account_id device.device_id device.device_fp
          device.device_name)
    pure true

  unfoldable pub confirm_primary_profile : Option PlayerRequest → M S ProfileSummary
  unfolding binding_wide_guard
  confirm_primary_profile none = request_required
  confirm_primary_profile (some req) = do
    g ← binding_wide_guard req.service_ticket req.platform_account_id Action.profile_write
    mapped (
        Profiles.confirm_primary_profile_with_scope svc.ports g req.platform_account_id
          req.player_id)
