-- ===== src/Usecase/ManagementUsecase.antt =====
-- internal/usecase/management_usecase.go
use platform_mihomo_service.Base.{String, Option, List, map, ◌==◌}
use platform_mihomo_service.Outcome.{
  M, pure, lift, guard, or_fail, ◌>>=◌, ◌>>◌, credential_not_found, platform_account_mismatch,
}
use platform_mihomo_service.Biz.{Time, Credential, Device, ProfileIdentity}
use platform_mihomo_service.Biz.Repositories.{Ports}
use platform_mihomo_service.Api.{CredentialStatus, ProfileSummary}
use platform_mihomo_service.AccountKey.{binding_id_from_platform_account_id}
use platform_mihomo_service.Scope.{ScopeGuard, require_platform_account_id, require_binding_wide}
use platform_mihomo_service.Usecase.Calls.{run_in_transaction}
use platform_mihomo_service.Usecase.ProfileUsecase.{to_profile_summary, list_profiles}
use platform_mihomo_service.Usecase.BindUsecase.{
  BindCredentialInput, prepare_bind_credential, bind_prepared_credential,
}
use platform_mihomo_service.Usecase.StatusUsecase.{to_credential_status}

pub record CredentialSummaryOutput : Type 0 where
  pub platform_account_id : String
  pub status : CredentialStatus
  pub last_validated_at : Option Time
  pub last_refreshed_at : Option Time
  pub devices : List Device
  pub profiles : List ProfileSummary

pub record UpdateCredentialInput : Type 0 where
  pub platform_account_id : String
  pub bind : BindCredentialInput

unfoldable pub summary_of : Credential → List Device → List ProfileSummary → CredentialSummaryOutput
unfolding to_credential_status
summary_of c devices profiles = record {
  platform_account_id = c.platform_account_id;
  status = to_credential_status c.status;
  last_validated_at = c.last_validated_at;
  last_refreshed_at = c.last_refreshed_at;
  devices = devices;
  profiles = profiles;
}

abbrev identity_of : ProfileSummary → ProfileIdentity
identity_of s = record { player_id = s.player_id; region = s.region }

module _ {S : Type 0} (p : Ports S) where
  unfoldable pub get_credential_summary : String → M S CredentialSummaryOutput
  unfolding list_profiles summary_of
  get_credential_summary key = do
    found ← p.credentials.get_by_platform_account_id key
    credential ← or_fail credential_not_found found
    devices ← p.devices.list_by_platform_account_id key
    profiles ← list_profiles p key
    pure (summary_of credential devices profiles)

  -- The checks that a scoped call makes before its first query.
  unfoldable pub require_scope : ScopeGuard → String → M S (Unit {0})
  require_scope g key = do lift (require_platform_account_id g key); lift (require_binding_wide g)

  -- The credential of the guard's binding, which must be the requested account's.
  unfoldable pub get_scoped_credential : ScopeGuard → String → M S Credential
  get_scoped_credential g key = do
    found ← p.credentials.get_by_binding_id g.binding_id
    credential ← or_fail credential_not_found found
    guard (credential.platform_account_id == key) platform_account_mismatch
    pure credential

  unfoldable pub get_credential_summary_with_scope :
      ScopeGuard → String → M S CredentialSummaryOutput
  unfolding require_scope get_scoped_credential summary_of to_profile_summary
  get_credential_summary_with_scope g key = do
    require_scope g key
    credential ← get_scoped_credential g key
    devices ← p.devices.list_by_binding_id g.binding_id
    profiles ← p.profiles.list_by_binding_id g.binding_id
    pure (summary_of credential devices (map to_profile_summary profiles))

  unfoldable pub prune_stale_profiles : String → List ProfileSummary → M S (Unit {0})
  prune_stale_profiles key profiles = do
    binding_id ← lift (binding_id_from_platform_account_id key)
    p.profiles.delete_missing_by_binding_id binding_id (map identity_of profiles)

  unfoldable pub update_credential : UpdateCredentialInput → M S CredentialSummaryOutput
  unfolding get_credential_summary prune_stale_profiles run_in_transaction prepare_bind_credential
  update_credential input = do
    found ← p.credentials.get_by_platform_account_id input.platform_account_id
    or_fail credential_not_found found
    prepared ← prepare_bind_credential p input.bind
    guard (prepared.platform_account_id == input.platform_account_id) platform_account_mismatch
    run_in_transaction p (Unit {0}) (do
      result ← bind_prepared_credential p input.bind prepared
      prune_stale_profiles input.platform_account_id result.profiles)
    get_credential_summary input.platform_account_id

  unfoldable pub update_credential_with_scope :
      ScopeGuard → UpdateCredentialInput → M S CredentialSummaryOutput
  unfolding require_scope update_credential
  update_credential_with_scope g input = do
    require_scope g input.platform_account_id
    update_credential input

  unfoldable pub delete_credential : String → M S (Unit {0})
  delete_credential key = p.management.delete_credential_graph key

  unfoldable pub delete_credential_with_scope : ScopeGuard → String → M S (Unit {0})
  unfolding require_scope get_scoped_credential
  delete_credential_with_scope g key = do
    require_scope g key
    get_scoped_credential g key
    p.management.delete_credential_graph_by_binding_id g.binding_id
