-- ===== src/Api.antt =====
-- The messages of api/mihomo/v1/mihomo_account.proto that the service reads and builds. A message
-- that may be absent is an `Option`; a timestamp is its time.
use platform_mihomo_service.Base.{ℕ, String, Bool, Option, List}
use platform_mihomo_service.Base.Int.{ℤ}
use platform_mihomo_service.Biz.{Time}

pub data CredentialStatus : Type 0 where
  unspecified active expired invalid challenge_required : CredentialStatus

pub record ProfileSummary : Type 0 where
  pub id : ℕ
  pub platform_account_id : String
  pub game_biz : String
  pub region : String
  pub player_id : String
  pub nickname : String
  pub level : ℤ
  pub is_default : Bool

pub record DeviceSummary : Type 0 where
  pub device_id : String
  pub device_fp : String
  pub device_name : String
  pub is_valid : Bool
  pub last_seen_at : Option Time

pub record CredentialSummary : Type 0 where
  pub platform_account_id : String
  pub status : CredentialStatus
  pub last_validated_at : Option Time
  pub last_refreshed_at : Option Time
  pub devices : List DeviceSummary
  pub profiles : List ProfileSummary

pub record DeviceInfo : Type 0 where
  pub device_id : String
  pub device_fp : String
  pub device_name : String

pub record BindCredentialRequest : Type 0 where
  pub service_ticket : String
  pub cookie_bundle_json : String
  pub device : Option DeviceInfo
  pub region_hint : String

pub record BindCredentialResponse : Type 0 where
  pub platform_account_id : String
  pub status : CredentialStatus
  pub profiles : List ProfileSummary

-- The requests that name an account and nothing else.
pub record AccountRequest : Type 0 where
  pub service_ticket : String
  pub platform_account_id : String

-- The requests that name an account and a player.
pub record PlayerRequest : Type 0 where
  pub service_ticket : String
  pub platform_account_id : String
  pub player_id : String

pub record UpdateCredentialRequest : Type 0 where
  pub service_ticket : String
  pub platform_account_id : String
  pub cookie_bundle_json : String
  pub device : Option DeviceInfo
  pub region_hint : String

pub record UpsertDeviceRequest : Type 0 where
  pub service_ticket : String
  pub platform_account_id : String
  pub device : Option DeviceInfo
