-- ===== src/Usecase/Keeps/Reads.antt =====
-- The use cases that only read.
use platform_mihomo_service.Base.{String}
use platform_mihomo_service.Outcome.Keeps.{Keeps, keeps_rules}
use platform_mihomo_service.Biz.Repositories.{Ports}
use platform_mihomo_service.Scope.{ScopeGuard}
use platform_mihomo_service.Usecase.ProfileUsecase.{
  list_profiles, list_scoped_profiles, list_profiles_with_scope, get_primary_profile_with_scope,
  require_profile_access_by_player_id, find_profile_by_player_id,
}
use platform_mihomo_service.Usecase.StatusUsecase.{get_credential, get_credential_status}
use platform_mihomo_service.Usecase.ManagementUsecase.{
  get_credential_summary, require_scope, get_scoped_credential, get_credential_summary_with_scope,
}
use platform_mihomo_service.Usecase.Keeps.{ReadsKeep}

module _ {S : Type 0} {P : S → Type 0} {p : Ports S} (r : ReadsKeep P p) where
  pub Keeps-list_profiles : (k : String) → Keeps P (list_profiles p k)
  unfolding list_profiles
  Keeps-list_profiles k = search (keeps_rules, r.profiles_of_account)

  Keeps-list_scoped_profiles : (g : ScopeGuard) (k : String) → Keeps P (list_scoped_profiles p g k)
  unfolding list_scoped_profiles
  Keeps-list_scoped_profiles g k = search (keeps_rules, r.profiles_of_binding)

  pub Keeps-list_profiles_with_scope :
      (g : ScopeGuard) (k : String) → Keeps P (list_profiles_with_scope p g k)
  unfolding list_profiles_with_scope
  Keeps-list_profiles_with_scope g k = search (keeps_rules, Keeps-list_scoped_profiles)

  pub Keeps-get_primary_profile_with_scope :
      (g : ScopeGuard) (k : String) → Keeps P (get_primary_profile_with_scope p g k)
  unfolding get_primary_profile_with_scope
  Keeps-get_primary_profile_with_scope g k = search (keeps_rules, Keeps-list_scoped_profiles)

  Keeps-find_profile_by_player_id :
      (k player : String) → Keeps P (find_profile_by_player_id p k player)
  unfolding find_profile_by_player_id
  Keeps-find_profile_by_player_id k player = search (keeps_rules, r.profiles_of_account)

  pub Keeps-require_profile_access_by_player_id :
      (g : ScopeGuard) (k player : String)
      → Keeps P (require_profile_access_by_player_id p g k player)
  unfolding require_profile_access_by_player_id
  Keeps-require_profile_access_by_player_id g k player =
      search (keeps_rules, Keeps-find_profile_by_player_id)

  pub Keeps-get_credential : (k : String) → Keeps P (get_credential p k)
  unfolding get_credential
  Keeps-get_credential k = search (keeps_rules, r.credential_of_account)

  pub Keeps-get_credential_status : (k : String) → Keeps P (get_credential_status p k)
  unfolding get_credential_status
  Keeps-get_credential_status k = search (keeps_rules, Keeps-get_credential)

  pub Keeps-get_credential_summary : (k : String) → Keeps P (get_credential_summary p k)
  unfolding get_credential_summary
  Keeps-get_credential_summary k =
      search (keeps_rules, r.credential_of_account, r.devices_of_account, Keeps-list_profiles)

  pub Keeps-require_scope : (g : ScopeGuard) (k : String) → Keeps P (require_scope p g k)
  unfolding require_scope
  Keeps-require_scope g k = search keeps_rules

  pub Keeps-get_scoped_credential :
      (g : ScopeGuard) (k : String) → Keeps P (get_scoped_credential p g k)
  unfolding get_scoped_credential
  Keeps-get_scoped_credential g k = search (keeps_rules, r.credential_of_binding)

  pub Keeps-get_credential_summary_with_scope :
      (g : ScopeGuard) (k : String) → Keeps P (get_credential_summary_with_scope p g k)
  unfolding get_credential_summary_with_scope
  Keeps-get_credential_summary_with_scope g k = search (
    keeps_rules, Keeps-require_scope, Keeps-get_scoped_credential, r.devices_of_binding,
    r.profiles_of_binding,
  )
