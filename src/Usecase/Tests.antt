-- ===== src/Usecase/Tests.antt =====
-- The use cases at concrete profiles and credentials.
use platform_mihomo_service.Base.{
  true, false, some, none, [], ◌∷◌, ◌≡◌, ◌⊎◌, refl, keep, eqb, ◌||◌, All, if◌then◌else◌,
}
use platform_mihomo_service.Base.Int.{pos}
use platform_mihomo_service.Outcome.{ok, err, profile_scope_denied}
use platform_mihomo_service.Biz.{Profile, Credential}
use platform_mihomo_service.Api.{ProfileSummary, active}
use platform_mihomo_service.Scope.{ScopeGuard, require_profile}
use platform_mihomo_service.Data.CredentialRepo.{credential_repo}
use platform_mihomo_service.Store.Laws.{View}
use platform_mihomo_service.Store.Memory.{memory, empty_view}
use platform_mihomo_service.Usecase.ProfileUsecase.{to_profile_summary, primary_of, scoped_profiles}
use platform_mihomo_service.Usecase.ProfileUsecase.Scoped.{
  is_visible, non_empty, AmongProfiles, scoped_profiles-is_visible, primary_of-AmongProfiles,
}
use platform_mihomo_service.Usecase.StatusUsecase.{revalidate}
use platform_mihomo_service.Usecase.StatusUsecase.Revalidation.{Reported, revalidate-Agree}
use platform_mihomo_service.Wiring.{ports}

abbrev first : Profile
first = record {
  id = 1;
  binding_id = 7;
  platform_account_id = "binding_7_10001";
  game_biz = "hk4e_cn";
  region = "cn_gf01";
  player_id = "1";
  nickname = "A";
  level = pos 1;
  is_default = false;
  discovered_at = pos 0;
}

abbrev second : Profile
second = record first { id = 2; player_id = "2"; is_default = true }

-- The guard of a ticket that is limited to the second profile.
abbrev limited : ScopeGuard
limited = record { allowed_actions = []; binding_id = 7; profile_id = 2 }

only_second : scoped_profiles limited "binding_7_10001" (first ∷ (second ∷ [])) ≡ ok (second ∷ [])
unfolding scoped_profiles require_profile
only_second = refl

scoped_profiles-is_visible_example :
    scoped_profiles limited "binding_7_10001" (first ∷ (second ∷ [])) ≡ (
      if eqb 2 0 || non_empty (keep (is_visible limited "binding_7_10001") (first ∷ (second ∷ [])))
      then ok (keep (is_visible limited "binding_7_10001") (first ∷ (second ∷ [])))
      else err profile_scope_denied)
scoped_profiles-is_visible_example =
    scoped_profiles-is_visible limited "binding_7_10001" (first ∷ (second ∷ []))

primary_of-AmongProfiles_example :
    (q : ProfileSummary) × (primary_of (first ∷ (second ∷ [])) ≡ some q)
    × AmongProfiles q (first ∷ (second ∷ []))
    × ((q.is_default ≡ true)
        ⊎ ((q ≡ to_profile_summary first)
            × All (λ (p : Profile). p.is_default ≡ false) (first ∷ (second ∷ []))))
primary_of-AmongProfiles_example = primary_of-AmongProfiles first (second ∷ [])

abbrev credential : Credential
credential = record {
  binding_id = 7;
  platform_account_id = "binding_7_10001";
  platform = "mihomo";
  account_id = "10001";
  region = "cn_gf01";
  credential_blob = "cookie";
  credential_version = "v1";
  status = "expired";
  last_validated_at = none;
  last_refreshed_at = none;
  expires_at = none;
}

abbrev checked : Credential
checked = record credential { status = "active"; last_validated_at = some (pos 100) }

abbrev saved_view : View
saved_view = (revalidate (ports memory) credential false empty_view).1

revalidated :
    revalidate (ports memory) credential false empty_view ≡ (ok (active, "", checked), saved_view)
unfolding revalidate ports credential_repo
revalidated = refl

revalidate-Agree_example : Reported (ports memory) credential saved_view (active, "", checked)
revalidate-Agree_example =
    revalidate-Agree (ports memory) credential false empty_view saved_view (active, "", checked)
      revalidated
