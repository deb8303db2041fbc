-- ===== src/Store/Laws/Columns.antt =====
-- The columns of the rows of internal/data/model: the unique keys, and what the types of the columns
-- keep of a value.
use platform_mihomo_service.Base.{ℕ, String, Bool, ◌&&◌, ◌||◌, eqb, ◌==◌}
use platform_mihomo_service.Biz.{Time}
use platform_mihomo_service.Store.{
  CredentialRecord, DeviceRecord, AccountProfile, RuntimeArtifact, ConsumerGrantInvalidation,
}
use mathlib.Core.Option

-- The unique keys of the five tables, as the struct tags of internal/data/model
-- state them, where texts are compared by their weights.
abbrev pub credential_in_the_way : (String → String) → CredentialRecord → CredentialRecord → Bool
credential_in_the_way collate new old =
    eqb new.binding_id old.binding_id
    || collate new.platform_account_id == collate old.platform_account_id
    || (collate new.platform == collate old.platform
        && collate new.account_id == collate old.account_id)

abbrev pub device_in_the_way : (String → String) → DeviceRecord → DeviceRecord → Bool
device_in_the_way collate new old =
    eqb new.binding_id old.binding_id && collate new.device_id == collate old.device_id

abbrev pub profile_in_the_way : (String → String) → AccountProfile → AccountProfile → Bool
profile_in_the_way collate new old =
    eqb new.binding_id old.binding_id
    && ((collate new.player_id == collate old.player_id && collate new.region == collate old.region)
        || (new.is_default && old.is_default))

abbrev pub artifact_in_the_way : (String → String) → RuntimeArtifact → RuntimeArtifact → Bool
artifact_in_the_way collate new old =
    eqb new.binding_id old.binding_id
    && collate new.artifact_type == collate old.artifact_type
    && collate new.scope_key == collate old.scope_key

abbrev pub grant_in_the_way :
    (String → String) → ConsumerGrantInvalidation → ConsumerGrantInvalidation → Bool
grant_in_the_way collate new old =
    eqb new.binding_id old.binding_id && collate new.consumer == collate old.consumer

-- The rows as the tables keep them, under an id.
abbrev pub stored_credential : (Time → Time) → ℕ → CredentialRecord → CredentialRecord
stored_credential datetime n r = record r {
  id = n;
  last_validated_at = Option.map datetime r.last_validated_at;
  last_refreshed_at = Option.map datetime r.last_refreshed_at;
  expires_at = Option.map datetime r.expires_at;
}

abbrev pub stored_device : (Time → Time) → ℕ → DeviceRecord → DeviceRecord
stored_device datetime n r = record r { id = n; last_seen_at = Option.map datetime r.last_seen_at }

abbrev pub stored_profile : (Time → Time) → ℕ → AccountProfile → AccountProfile
stored_profile datetime n r = record r { id = n; discovered_at = datetime r.discovered_at }

abbrev pub stored_artifact : (Time → Time) → ℕ → RuntimeArtifact → RuntimeArtifact
stored_artifact datetime n r = record r { id = n; expires_at = datetime r.expires_at }

abbrev pub stored_grant : (Time → Time) → ℕ → ConsumerGrantInvalidation → ConsumerGrantInvalidation
stored_grant datetime n r = record r { id = n; invalidated_at = datetime r.invalidated_at }
