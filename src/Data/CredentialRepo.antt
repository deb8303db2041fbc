-- ===== src/Data/CredentialRepo.antt =====
-- internal/data/credential_repo.go
pub mod Reads
use platform_mihomo_service.Base.{ℕ, String, Option, none, some, eqb, ◌==◌}
use platform_mihomo_service.Outcome.{M, pure, ◌>>=◌, ◌>>◌}
use platform_mihomo_service.Biz.{Credential}
use platform_mihomo_service.Biz.Repositories.{CredentialRepository}
use platform_mihomo_service.Store.{CredentialRecord, Table, World}
use platform_mihomo_service.Data.Query.{or_none}
use mathlib.Core.Option

unfoldable pub record_from_credential : Credential → CredentialRecord
record_from_credential c = record {
  id = 0;
  binding_id = c.binding_id;
  platform_account_id = c.platform_account_id;
  platform = c.platform;
  account_id = c.account_id;
  region = c.region;
  credential_blob = c.credential_blob;
  credential_version = c.credential_version;
  status = c.status;
  last_validated_at = c.last_validated_at;
  last_refreshed_at = c.last_refreshed_at;
  expires_at = c.expires_at;
}

unfoldable pub credential_from_record : CredentialRecord → Credential
credential_from_record r = record {
  binding_id = r.binding_id;
  platform_account_id = r.platform_account_id;
  platform = r.platform;
  account_id = r.account_id;
  region = r.region;
  credential_blob = r.credential_blob;
  credential_version = r.credential_version;
  status = r.status;
  last_validated_at = r.last_validated_at;
  last_refreshed_at = r.last_refreshed_at;
  expires_at = r.expires_at;
}

-- `UpdateAll: true`: every column but the primary key takes the new value.
abbrev pub update_all : CredentialRecord → CredentialRecord → CredentialRecord
update_all new old = record new { id = old.id }

module _ {S : Type 0} (w : World S) where
  unfoldable pub save : Credential → M S (Unit {0})
  unfolding record_from_credential
  save c =
      w.credential_records.create_on_conflict (λ new old. eqb new.binding_id old.binding_id)
        update_all (record_from_credential c)

  unfoldable pub get_by_binding_id : ℕ → M S (Option Credential)
  unfolding credential_from_record
  get_by_binding_id binding_id = do
    row ← or_none (w.credential_records.first (λ r. eqb r.binding_id binding_id))
    pure (Option.map credential_from_record row)

  unfoldable pub get_by_platform_account_id : String → M S (Option Credential)
  unfolding credential_from_record
  get_by_platform_account_id key = do
    row ←
        or_none (w.credential_records.first (λ r. w.collate r.platform_account_id == w.collate key))
    pure (Option.map credential_from_record row)

  unfoldable pub delete_by_platform_account_id : String → M S (Unit {0})
  delete_by_platform_account_id key =
      w.credential_records.delete (λ r. w.collate r.platform_account_id == w.collate key)

  unfoldable pub within_transaction : (A : Type 0) → M S A → M S A
  within_transaction A fn = w.transaction A fn

  unfoldable pub credential_repo : CredentialRepository S
  unfolding save get_by_binding_id get_by_platform_account_id delete_by_platform_account_id
  credential_repo = record {
    save = save;
    get_by_binding_id = get_by_binding_id;
    get_by_platform_account_id = get_by_platform_account_id;
    delete_by_platform_account_id = delete_by_platform_account_id;
  }
