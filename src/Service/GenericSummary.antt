-- ===== src/Service/GenericSummary.antt =====
-- `toGenericCredentialSummary` of internal/service/platform_service_adapter.go.
use platform_mihomo_service.Base.{map}
use platform_mihomo_service.Biz.{Device}
use platform_mihomo_service.Api.{
  CredentialStatus, active, expired, invalid, challenge_required, ProfileSummary,
}
use platform_mihomo_service.Usecase.ManagementUsecase.{CredentialSummaryOutput}
use platform_mihomo_service.Service.Mapper.{deref_string}
use platform_mihomo_service.Service.GenericMessages as Generic

-- The cases of the switch on the status.
unfoldable pub to_generic_credential_status : CredentialStatus → Generic.CredentialStatus
to_generic_credential_status active = Generic.active
to_generic_credential_status expired = Generic.expired
to_generic_credential_status invalid = Generic.invalid
to_generic_credential_status challenge_required = Generic.challenge_required
to_generic_credential_status _ = Generic.unspecified

-- The bodies of the loops over the profiles and the devices.
unfoldable pub to_generic_profile : ProfileSummary → Generic.ProfileSummary
to_generic_profile p = record {
  id = p.id;
  platform_account_id = p.platform_account_id;
  game_biz = p.game_biz;
  region = p.region;
  player_id = p.player_id;
  nickname = p.nickname;
  level = p.level;
  is_default = p.is_default;
}

unfoldable pub to_generic_device : Device → Generic.DeviceSummary
unfolding deref_string
to_generic_device d = record {
  device_id = d.device_id;
  device_fp = d.device_fp;
  device_name = deref_string d.device_name;
  is_valid = d.is_valid;
  last_seen_at = d.last_seen_at;
}

unfoldable pub to_generic_credential_summary : CredentialSummaryOutput → Generic.CredentialSummary
unfolding to_generic_device to_generic_profile to_generic_credential_status
to_generic_credential_summary o = record {
  platform_account_id = o.platform_account_id;
  status = to_generic_credential_status o.status;
  last_validated_at = o.last_validated_at;
  last_refreshed_at = o.last_refreshed_at;
  devices = map to_generic_device o.devices;
  profiles = map to_generic_profile o.profiles;
}
