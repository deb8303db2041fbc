-- ===== src/Usecase/ProfileUsecase.antt =====
-- internal/usecase/profile_usecase.go
pub mod Scoped
use platform_mihomo_service.Base.{
  ℕ, String, Bool, true, Option, none, some, List, [], ◌∷◌, map, eqb, ◌==◌, keep, find?,
  if◌then◌else◌,
}
use platform_mihomo_service.Base.Int.{to_int32}
use platform_mihomo_service.Outcome.{
  Result, ok, err, M, pure, fail, lift, or_fail, ◌>>=◌, ◌>>◌, profile_not_found,
  profile_scope_denied,
}
use platform_mihomo_service.Biz.{Profile}
use platform_mihomo_service.Biz.Repositories.{Ports}
use platform_mihomo_service.Api.{ProfileSummary}
use platform_mihomo_service.Scope.{
  ScopeGuard, require_platform_account_id, require_binding_wide, require_profile,
}

unfoldable pub to_profile_summary : Profile → ProfileSummary
to_profile_summary p = record {
  id = p.id;
  platform_account_id = p.platform_account_id;
  game_biz = p.game_biz;
  region = p.region;
  player_id = p.player_id;
  nickname = p.nickname;
  level = to_int32 p.level;
  is_default = p.is_default;
}

-- The first default of a list that begins with `first`, or `first`.
default_or : Profile → List Profile → Profile
default_or first [] = first
default_or first (p ∷ ps) = if p.is_default then p else default_or first ps

-- The choice that GetPrimaryProfile and GetPrimaryProfileWithScope make.
unfoldable pub primary_of : List Profile → Option ProfileSummary
unfolding default_or to_profile_summary
primary_of [] = none
primary_of (p ∷ ps) = some (to_profile_summary (default_or p (p ∷ ps)))

-- `guard.RequireProfile(…) == nil`
passes : ScopeGuard → Profile → Bool
passes g p = elim (require_profile g p.binding_id p.id) [ ok _ ↦ true | err _ ↦ Bool.false ]

-- `selected`, which every further match replaces.
last_match : (Profile → Bool) → Option Profile → List Profile → Option Profile
last_match test selected [] = selected
last_match test selected (p ∷ ps) = last_match test (if test p then some p else selected) ps

-- The two filters of listScopedProfiles; the second is for a ticket that names a profile.
unfoldable pub scoped_profiles : ScopeGuard → String → List Profile → Result (List Profile)
unfolding passes
scoped_profiles g key profiles =
    let by_account = keep (λ (p : Profile). p.platform_account_id == key) profiles in
    if eqb g.profile_id 0
    then ok by_account
    else elim (keep (passes g) by_account) [ [] ↦ err profile_scope_denied | p ∷ ps ↦ ok (p ∷ ps) ]

module _ {S : Type 0} (p : Ports S) where
  unfoldable pub list_profiles : String → M S (List ProfileSummary)
  unfolding to_profile_summary
  list_profiles key = do
    profiles ← p.profiles.list_by_platform_account_id key
    pure (map to_profile_summary profiles)

  unfoldable pub list_scoped_profiles : ScopeGuard → String → M S (List Profile)
  unfolding scoped_profiles
  list_scoped_profiles g key = do
    lift (require_platform_account_id g key)
    profiles ← p.profiles.list_by_binding_id g.binding_id
    lift (scoped_profiles g key profiles)

  unfoldable pub list_profiles_with_scope : ScopeGuard → String → M S (List ProfileSummary)
  unfolding list_scoped_profiles to_profile_summary
  list_profiles_with_scope g key = do
    profiles ← list_scoped_profiles g key
    pure (map to_profile_summary profiles)

  unfoldable pub get_primary_profile : String → M S (Option ProfileSummary)
  unfolding primary_of
  get_primary_profile key = do
    profiles ← p.profiles.list_by_platform_account_id key
    pure (primary_of profiles)

  unfoldable pub get_primary_profile_with_scope : ScopeGuard → String → M S (Option ProfileSummary)
  unfolding list_scoped_profiles primary_of
  get_primary_profile_with_scope g key = do
    profiles ← list_scoped_profiles g key
    pure (primary_of profiles)

  -- The change of the default, and the selected profile as it is after that.
  unfoldable pub set_default : Profile → String → String → M S ProfileSummary
  unfolding to_profile_summary
  set_default selected key player_id = do
    p.profiles.set_default_by_binding_and_player_id selected.binding_id key player_id
    pure (to_profile_summary (record selected { is_default = true }))

  unfoldable pub confirm_primary_profile : String → String → M S ProfileSummary
  unfolding set_default
  confirm_primary_profile key player_id = do
    profiles ← p.profiles.list_by_platform_account_id key
    selected ←
        or_fail profile_not_found (find? (λ (q : Profile). q.player_id == player_id) profiles)
    set_default selected key player_id

  unfoldable pub find_profile_by_player_id : String → String → M S Profile
  find_profile_by_player_id key player_id = do
    profiles ← p.profiles.list_by_platform_account_id key
    or_fail profile_not_found (find? (λ (q : Profile). q.player_id == player_id) profiles)

  unfoldable pub find_profile_by_binding_and_player_id : ℕ → String → String → M S Profile
  unfolding last_match
  find_profile_by_binding_and_player_id binding_id key player_id = do
    profiles ← p.profiles.list_by_binding_id binding_id
    or_fail profile_not_found (
        last_match (λ (q : Profile). q.player_id == player_id) none
          (keep (λ (q : Profile). q.platform_account_id == key) profiles))

  unfoldable pub confirm_primary_profile_with_scope :
      ScopeGuard → String → String → M S ProfileSummary
  unfolding find_profile_by_binding_and_player_id set_default
  confirm_primary_profile_with_scope g key player_id = do
    lift (require_platform_account_id g key)
    lift (require_binding_wide g)
    selected ← find_profile_by_binding_and_player_id g.binding_id key player_id
    lift (require_profile g selected.binding_id selected.id)
    set_default selected key player_id

  unfoldable pub require_profile_access_by_player_id : ScopeGuard → String → String → M S (Unit {0})
  unfolding find_profile_by_player_id
  require_profile_access_by_player_id g key player_id = do
    lift (require_platform_account_id g key)
    selected ← find_profile_by_player_id key player_id
    lift (require_profile g selected.binding_id selected.id)
