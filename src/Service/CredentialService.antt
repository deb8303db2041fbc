-- ===== src/Service/CredentialService.antt =====
-- internal/service/mihomo_credential_service.go
use platform_mihomo_service.Base.{Option, none, some, [], ◌∷◌, map}
use platform_mihomo_service.Outcome.{M, pure, ◌>>=◌}
use platform_mihomo_service.Biz.{Device}
use platform_mihomo_service.Api.{
  CredentialStatus, active, expired, invalid, challenge_required, ProfileSummary, AccountRequest,
}
use platform_mihomo_service.Service.SharedMessages as Shared
use platform_mihomo_service.Scope.{scoped_guard_for_platform_account}
use platform_mihomo_service.Scope.Action
use platform_mihomo_service.Usecase.ManagementUsecase as Management
use platform_mihomo_service.Usecase.ManagementUsecase.{CredentialSummaryOutput}
use platform_mihomo_service.Service.Mapper.{
  Service, mapped, mapped_check, request_required, verify_service_ticket, deref_string,
}

-- The cases of the switch on the status.
unfoldable pub to_shared_credential_status : CredentialStatus → Shared.CredentialStatus
to_shared_credential_status active = Shared.active
to_shared_credential_status expired = Shared.expired
to_shared_credential_status invalid = Shared.invalid
to_shared_credential_status challenge_required = Shared.challenge_required
to_shared_credential_status _ = Shared.unspecified

-- The bodies of the loops over the profiles and the devices.
unfoldable pub to_shared_profile : ProfileSummary → Shared.ProfileSummary
to_shared_profile p = record {
  id = p.id;
  platform_account_id = p.platform_account_id;
  game_biz = p.game_biz;
  region = p.region;
  player_id = p.player_id;
  nickname = p.nickname;
  level = p.level;
  is_default = p.is_default;
}

unfoldable pub to_shared_device : Device → Shared.DeviceSummary
unfolding deref_string
to_shared_device d = record {
  device_id = d.device_id;
  device_fp = d.device_fp;
  device_name = deref_string d.device_name;
  is_valid = d.is_valid;
  last_seen_at = d.last_seen_at;
}

unfoldable pub to_shared_credential_summary : CredentialSummaryOutput → Shared.CredentialSummary
unfolding to_shared_device to_shared_profile to_shared_credential_status
to_shared_credential_summary o = record {
  platform_account_id = o.platform_account_id;
  status = to_shared_credential_status o.status;
  last_validated_at = o.last_validated_at;
  last_refreshed_at = o.last_refreshed_at;
  devices = map to_shared_device o.devices;
  profiles = map to_shared_profile o.profiles;
}

module _ {S K : Type 0} (svc : Service S K) where
  unfoldable pub get_credential_summary : Option AccountRequest → M S Shared.CredentialSummary
  get_credential_summary none = request_required
  get_credential_summary (some req) = do
    claims ← verify_service_ticket svc req.service_ticket
    g ← mapped_check (
        scoped_guard_for_platform_account claims req.platform_account_id
          (Action.credential_read ∷ []))
    output ←
        mapped (Management.get_credential_summary_with_scope svc.ports g req.platform_account_id)
    pure (to_shared_credential_summary output)
