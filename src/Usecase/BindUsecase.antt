-- ===== src/Usecase/BindUsecase.antt =====
-- internal/usecase/bind_usecase.go
use platform_mihomo_service.Base.{
  ℕ, String, Bool, true, false, not, ◌&&◌, Option, none, some, List, [], ◌∷◌, eqb, ◌==◌,
  if◌then◌else◌,
}
use platform_mihomo_service.Outcome.{
  M, pure, ignore, guard, when, or_fail, ◌>>=◌, ◌>>◌, binding_id_required, credential_not_found,
}
use platform_mihomo_service.Biz.{Time, Credential, Device, Profile, DiscoveredProfile}
use platform_mihomo_service.Biz.Repositories.{Ports}
use platform_mihomo_service.Api.{CredentialStatus, active, ProfileSummary}
use platform_mihomo_service.AccountKey.{format_platform_account_id}
use platform_mihomo_service.Usecase.Calls.{ask, clock, with_rollback, run_in_transaction}
use platform_mihomo_service.Usecase.ProfileUsecase.{to_profile_summary}

pub record BindCredentialInput : Type 0 where
  pub binding_id : ℕ
  pub cookie_bundle_json : String
  pub device_id : String
  pub device_fp : String
  pub device_name : String
  pub region_hint : String

pub record BindCredentialOutput : Type 0 where
  pub binding_id : ℕ
  pub platform_account_id : String
  pub profiles : List ProfileSummary
  pub status : CredentialStatus

pub record BindCredentialPreparation : Type 0 where
  pub platform_account_id : String
  pub account_id : String
  pub region : String
  pub discovered_profiles : List DiscoveredProfile
  pub encrypted_blob : String

-- The credential that a binding stores.
unfoldable pub bound_credential :
    BindCredentialInput → BindCredentialPreparation → Time → Credential
bound_credential input prepared now = record {
  binding_id = input.binding_id;
  platform_account_id = prepared.platform_account_id;
  platform = "mihomo";
  account_id = prepared.account_id;
  region = prepared.region;
  credential_blob = prepared.encrypted_blob;
  credential_version = "v1";
  status = "active";
  last_validated_at = some now;
  last_refreshed_at = none;
  expires_at = none;
}

abbrev name_of : String → Option String
name_of name = if not (name == "") then some name else none

unfoldable pub bound_device : BindCredentialInput → BindCredentialPreparation → Time → Device
bound_device input prepared now = record {
  binding_id = input.binding_id;
  platform_account_id = prepared.platform_account_id;
  device_id = input.device_id;
  device_fp = input.device_fp;
  device_name = name_of input.device_name;
  is_valid = true;
  last_seen_at = some now;
}

unfoldable pub bound_profile :
    BindCredentialInput → BindCredentialPreparation → Time → Bool → DiscoveredProfile → Profile
bound_profile input prepared now first d = record {
  id = 0;
  binding_id = input.binding_id;
  platform_account_id = prepared.platform_account_id;
  game_biz = d.game_biz;
  region = d.region;
  player_id = d.player_id;
  nickname = d.nickname;
  level = d.level;
  is_default = first;
  discovered_at = now;
}

-- `previousPlatformAccountID`: the key of the binding's other account, if it had one.
unfoldable pub previous_platform_account_id : Option Credential → String → String
previous_platform_account_id none key = ""
previous_platform_account_id (some c) key =
    if not (c.platform_account_id == "") && not (c.platform_account_id == key)
    then c.platform_account_id
    else ""

module _ {S : Type 0} (p : Ports S) where
  unfoldable pub prepare_bind_credential : BindCredentialInput → M S BindCredentialPreparation
  prepare_bind_credential input = do
    guard (not (eqb input.binding_id 0)) binding_id_required
    (account_id, region, discovered) ←
        ask (p.client.validate_and_discover input.cookie_bundle_json input.region_hint)
    encrypted ← p.cipher.encrypt_string input.cookie_bundle_json
    pure (record {
      platform_account_id = format_platform_account_id input.binding_id account_id;
      account_id = account_id;
      region = region;
      discovered_profiles = discovered;
      encrypted_blob = encrypted;
    })

  unfoldable pub delete_artifacts : ℕ → M S (Unit {0})
  delete_artifacts binding_id = elim p.artifacts [
    | none ↦ pure tt
    | some repo ↦ repo.delete_by_binding_id binding_id
  ]

  unfoldable pub save_existing : Option Credential → M S (Unit {0})
  save_existing none = pure tt
  save_existing (some c) = p.credentials.save c

  -- The deferred function, for the key that was prepared and the previous one.
  unfoldable pub undo_bind : Option Credential → String → String → M S (Unit {0})
  unfolding save_existing
  undo_bind existing key previous = do
    ignore (p.profiles.delete_by_platform_account_id key)
    ignore (p.devices.delete_by_platform_account_id key)
    if not (previous == "")
        then ignore (save_existing existing)
        else ignore (p.credentials.delete_by_platform_account_id key)

  -- The loop over the discovered profiles; the first one is the default.
  unfoldable pub save_profiles :
      BindCredentialInput
      → BindCredentialPreparation
      → Time
      → Bool
      → List DiscoveredProfile
      → M S (List ProfileSummary)
  save_profiles input prepared now first [] = pure []
  save_profiles input prepared now first (d ∷ ds) = do
    p.profiles.save (bound_profile input prepared now first d)
    rest ← save_profiles input prepared now false ds
    pure (to_profile_summary (bound_profile input prepared now first d) ∷ rest)

  -- The steps behind the save of the credential, which the deferred function covers.
  unfoldable pub bind_rest :
      BindCredentialInput → BindCredentialPreparation → Time → String → M S BindCredentialOutput
  bind_rest input prepared now previous = do
    p.devices.save (bound_device input prepared now)
    if not (previous == "")
        then p.profiles.delete_by_platform_account_id previous
        else p.profiles.delete_by_platform_account_id prepared.platform_account_id
    summaries ← save_profiles input prepared now true prepared.discovered_profiles
    when (not (previous == "")) (do
      p.devices.delete_by_platform_account_id previous
      p.credentials.delete_by_platform_account_id previous)
    pure (record {
      binding_id = input.binding_id;
      platform_account_id = prepared.platform_account_id;
      profiles = summaries;
      status = active;
    })

  unfoldable pub bind_prepared_credential :
      BindCredentialInput → BindCredentialPreparation → M S BindCredentialOutput
  unfolding delete_artifacts undo_bind bind_rest
  bind_prepared_credential input prepared = do
    existing ← p.credentials.get_by_binding_id input.binding_id
    delete_artifacts input.binding_id
    now ← clock p
    p.credentials.save (bound_credential input prepared now)
    let previous = previous_platform_account_id existing prepared.platform_account_id
    with_rollback (undo_bind existing prepared.platform_account_id previous)
        (bind_rest input prepared now previous)

  unfoldable pub bind_credential : BindCredentialInput → M S BindCredentialOutput
  unfolding run_in_transaction
  bind_credential input = do
    prepared ← prepare_bind_credential input
    run_in_transaction p BindCredentialOutput (bind_prepared_credential input prepared)

  unfoldable pub upsert_device : String → String → String → String → M S (Unit {0})
  upsert_device key device_id device_fp device_name = do
    found ← p.credentials.get_by_platform_account_id key
    credential ← or_fail credential_not_found found
    now ← clock p
    p.devices.save (record {
      binding_id = credential.binding_id;
      platform_account_id = key;
      device_id = device_id;
      device_fp = device_fp;
      device_name = name_of device_name;
      is_valid = true;
      last_seen_at = some now;
    })
