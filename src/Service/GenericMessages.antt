-- ===== src/Service/GenericMessages.antt =====
-- The messages of proto-contracts' platform/v1 that internal/service/platform_service_adapter.go fills, with the
-- fields that its literals set.
use platform_mihomo_service.Base.{ℕ, String, Bool, Option, List}
use platform_mihomo_service.Base.Int.{ℤ}
use platform_mihomo_service.Biz.{Time}

pub data CredentialStatus : Type 0 where
  unspecified active expired invalid challenge_required : CredentialStatus

pub record ProfileSummary : Type 0 where
  pub id : ℕ
  pub platform_account_id : String
  pub game_biz : String
  pub region : String
  pub player_id : String
  pub nickname : String
  pub level : ℤ
  pub is_default : Bool

pub record DeviceSummary : Type 0 where
  pub device_id : String
  pub device_fp : String
  pub device_name : String
  pub is_valid : Bool
  pub last_seen_at : Option Time

pub record CredentialSummary : Type 0 where
  pub platform_account_id : String
  pub status : CredentialStatus
  pub last_validated_at : Option Time
  pub last_refreshed_at : Option Time
  pub devices : List DeviceSummary
  pub profiles : List ProfileSummary

pub record RefreshCredentialResponse : Type 0 where
  pub status : CredentialStatus
  pub refreshed_at : Option Time
