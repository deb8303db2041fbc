-- ===== src/Service/Mapper.antt =====
-- internal/service/binding_mapper.go, and the error mapping of internal/service/mihomo_account.go.
use platform_mihomo_service.Base.{String, Option, none, some, map}
use platform_mihomo_service.Outcome.{
  invalid_argument, not_found, permission_denied, unauthenticated, internal, Error, Result, ok, err,
  M, fail, lift, credential_not_found, profile_not_found, platform_account_mismatch,
  action_scope_denied, binding_scope_denied, profile_scope_denied, grant_version_revoked, status,
  status_of,
}
use platform_mihomo_service.Biz.{Device, ServiceTicketClaims}
use platform_mihomo_service.Biz.Repositories.{ArtifactRepository, Ports}
use platform_mihomo_service.Api.{
  DeviceInfo, ProfileSummary, DeviceSummary, CredentialSummary, BindCredentialRequest,
  BindCredentialResponse,
}
use platform_mihomo_service.Ticket.{Parser, TicketVerifier, verify_context}
use platform_mihomo_service.Usecase.BindUsecase.{BindCredentialInput, BindCredentialOutput}
use platform_mihomo_service.Usecase.ManagementUsecase.{CredentialSummaryOutput}

-- What a handler holds: the use cases' repositories, the artifact repository of the authkey use
-- case, the ticket verifier and its parser.
pub record Service (S K : Type 0) : Type 1 where
  pub ports : Ports S
  pub artifacts : ArtifactRepository S
  pub verifier : TicketVerifier S K
  pub parse : Parser S K

abbrev pub service_ticket_audience : String
service_ticket_audience = "platform-mihomo-service"

unfoldable pub map_ticket_verification_error : Error → Error
map_ticket_verification_error grant_version_revoked =
    status_of permission_denied grant_version_revoked
map_ticket_verification_error e = status unauthenticated "invalid service ticket"

unfoldable pub map_usecase_error : Error → Error
map_usecase_error credential_not_found = status_of not_found credential_not_found
map_usecase_error profile_not_found = status_of not_found profile_not_found
map_usecase_error platform_account_mismatch = status_of invalid_argument platform_account_mismatch
map_usecase_error action_scope_denied = status_of permission_denied action_scope_denied
map_usecase_error binding_scope_denied = status_of permission_denied binding_scope_denied
map_usecase_error profile_scope_denied = status_of permission_denied profile_scope_denied
map_usecase_error e = status_of internal e

abbrev pub with_error : {S A : Type 0} → (Error → Error) → M S A → M S A
with_error f m s = let (r, s') = m s in elim r [ ok a ↦ (ok a, s') | err e ↦ (err (f e), s') ]

-- `if err != nil { return nil, mapUsecaseError(err) }`
abbrev pub mapped : {S A : Type 0} → M S A → M S A
mapped m = with_error map_usecase_error m

abbrev pub mapped_check : {S A : Type 0} → Result A → M S A
mapped_check r = mapped (lift r)

abbrev pub request_required : {S A : Type 0} → M S A
request_required = fail (status invalid_argument "request is required")

module _ {S K : Type 0} (svc : Service S K) where
  unfoldable pub verify_service_ticket : String → M S ServiceTicketClaims
  unfolding map_ticket_verification_error
  verify_service_ticket raw =
      with_error map_ticket_verification_error
        (verify_context svc.verifier svc.parse raw service_ticket_audience)

-- `GetDeviceId` and the like read a missing device as empty texts.
abbrev pub device_or_empty : Option DeviceInfo → DeviceInfo
device_or_empty none = record { device_id = ""; device_fp = ""; device_name = "" }
device_or_empty (some d) = d

unfoldable pub to_bind_credential_input :
    BindCredentialRequest → ServiceTicketClaims → BindCredentialInput
to_bind_credential_input req claims = record {
  binding_id = claims.binding_id;
  cookie_bundle_json = req.cookie_bundle_json;
  device_id = (device_or_empty req.device).device_id;
  device_fp = (device_or_empty req.device).device_fp;
  device_name = (device_or_empty req.device).device_name;
  region_hint = req.region_hint;
}

-- The body of the loop over the profiles.
copied_profile : ProfileSummary → ProfileSummary
copied_profile p = record {
  id = p.id;
  platform_account_id = p.platform_account_id;
  game_biz = p.game_biz;
  region = p.region;
  player_id = p.player_id;
  nickname = p.nickname;
  level = p.level;
  is_default = p.is_default;
}

unfoldable pub to_bind_credential_response : BindCredentialOutput → BindCredentialResponse
unfolding copied_profile
to_bind_credential_response o = record {
  platform_account_id = o.platform_account_id;
  status = o.status;
  profiles = map copied_profile o.profiles;
}

unfoldable pub deref_string : Option String → String
deref_string none = ""
deref_string (some t) = t

unfoldable pub to_device_summary : Device → DeviceSummary
unfolding deref_string
to_device_summary d = record {
  device_id = d.device_id;
  device_fp = d.device_fp;
  device_name = deref_string d.device_name;
  is_valid = d.is_valid;
  last_seen_at = d.last_seen_at;
}

unfoldable pub to_credential_summary : CredentialSummaryOutput → CredentialSummary
unfolding to_device_summary
to_credential_summary o = record {
  platform_account_id = o.platform_account_id;
  status = o.status;
  last_validated_at = o.last_validated_at;
  last_refreshed_at = o.last_refreshed_at;
  devices = map to_device_summary o.devices;
  profiles = o.profiles;
}
