-- ===== src/Biz.antt =====
-- internal/biz: the domain types, and the credential client's view of a game account
-- (internal/platform/mihomo/client.go). A pointer that may be nil is an `Option`; a time is its
-- count of nanoseconds; an id is a uint64, held as a natural number.
pub mod Repositories
use platform_mihomo_service.Base.{ℕ, String, Bool, Option, List}
use platform_mihomo_service.Base.Int.{ℤ}

abbrev pub Time : Type 0
Time = ℤ

pub record Credential : Type 0 where
  pub binding_id : ℕ
  pub platform_account_id : String
  pub platform : String
  pub account_id : String
  pub region : String
  pub credential_blob : String
  pub credential_version : String
  pub status : String
  pub last_validated_at : Option Time
  pub last_refreshed_at : Option Time
  pub expires_at : Option Time

pub record Device : Type 0 where
  pub binding_id : ℕ
  pub platform_account_id : String
  pub device_id : String
  pub device_fp : String
  pub device_name : Option String
  pub is_valid : Bool
  pub last_seen_at : Option Time

pub record ProfileIdentity : Type 0 where
  pub player_id : String
  pub region : String

pub record Profile : Type 0 where
  pub id : ℕ
  pub binding_id : ℕ
  pub platform_account_id : String
  pub game_biz : String
  pub region : String
  pub player_id : String
  pub nickname : String
  pub level : ℤ
  pub is_default : Bool
  pub discovered_at : Time

pub record Artifact : Type 0 where
  pub binding_id : ℕ
  pub platform_account_id : String
  pub artifact_type : String
  pub artifact_value : String
  pub scope_key : String
  pub expires_at : Time

pub record ServiceTicketClaims : Type 0 where
  pub actor_type : String
  pub actor_id : String
  pub owner_user_id : ℕ
  pub binding_id : ℕ
  pub platform : String
  pub platform_account_id : String
  pub consumer : String
  pub grant_version : ℕ
  pub profile_id : ℕ
  pub scopes : List String
  pub audience : String
  pub bot_id : String
  pub user_id : ℕ
  pub platform_service_key : String
  pub platform_account_ref_id : ℕ

pub record DiscoveredProfile : Type 0 where
  pub game_biz : String
  pub region : String
  pub player_id : String
  pub nickname : String
  pub level : ℤ
