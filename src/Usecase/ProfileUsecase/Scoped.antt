-- ===== src/Usecase/ProfileUsecase/Scoped.antt =====
-- The profiles that a guard shows, as one filter.
use platform_mihomo_service.Base.{
  String, Bool, true, false, not, ◌&&◌, ◌||◌, some, List, [], ◌∷◌, ◌≡◌, ◌≢◌, ◌⊎◌, inl, inr, refl,
  ap, keep, eqb, ◌==◌, if◌then◌else◌, arith, All,
}
use platform_mihomo_service.Outcome.{ok, err, profile_scope_denied}
use platform_mihomo_service.Biz.{Profile}
use platform_mihomo_service.Api.{ProfileSummary}
use platform_mihomo_service.Scope.{ScopeGuard, require_profile}
use platform_mihomo_service.Usecase.ProfileUsecase.{
  to_profile_summary, default_or, primary_of, passes, scoped_profiles,
}

-- The profile is the account's and, where the ticket names a profile, this one, of its binding.
abbrev pub is_visible : ScopeGuard → String → Profile → Bool
is_visible g key p =
    p.platform_account_id == key
    && (eqb g.profile_id 0
        || (not (eqb g.binding_id 0) && eqb g.binding_id p.binding_id && eqb g.profile_id p.id))

abbrev pub non_empty : {A : Type 0} → List A → Bool
non_empty [] = false
non_empty (x ∷ xs) = true

passes_lem :
    (g : ScopeGuard) (p : Profile)
    → g.profile_id ≢ 0
    → passes g p
      ≡ (not (eqb g.binding_id 0) && eqb g.binding_id p.binding_id && eqb g.profile_id p.id)
unfolding passes require_profile
passes_lem g p named = ground arith

limited_lem :
    (g : ScopeGuard) (key : String) (profiles : List Profile)
    → g.profile_id ≢ 0
    → keep (passes g) (keep (λ (p : Profile). p.platform_account_id == key) profiles)
      ≡ keep (is_visible g key) profiles
limited_lem g key [] named = refl
limited_lem g key (p ∷ ps) named = ground (arith, limited_lem g key ps, passes_lem g p)

unlimited_lem :
    (g : ScopeGuard) (key : String) (profiles : List Profile)
    → g.profile_id ≡ 0
    → keep (λ (p : Profile). p.platform_account_id == key) profiles
      ≡ keep (is_visible g key) profiles
unlimited_lem g key [] wide = refl
unlimited_lem g key (p ∷ ps) wide = ground (arith, unlimited_lem g key ps)

-- `scoped_profiles` lists exactly the visible profiles, in order; a ticket that names a profile is
-- denied where none is visible.
pub scoped_profiles-is_visible :
    (g : ScopeGuard) (key : String) (profiles : List Profile)
    → scoped_profiles g key profiles ≡ (
        if eqb g.profile_id 0 || non_empty (keep (is_visible g key) profiles)
        then ok (keep (is_visible g key) profiles)
        else err profile_scope_denied)
unfolding scoped_profiles
scoped_profiles-is_visible g key profiles =
    ground (arith, limited_lem g key profiles, unlimited_lem g key profiles)

-- A profile with this summary is among some profiles.
abbrev pub AmongProfiles : ProfileSummary → List Profile → Type 0
AmongProfiles s [] = ⊥
AmongProfiles s (p ∷ ps) = (s ≡ to_profile_summary p) ⊎ AmongProfiles s ps

default_or_lem :
    (first : Profile) (profiles : List Profile)
    → ((default_or first profiles ≡ first) × All (λ (p : Profile). p.is_default ≡ false) profiles)
      ⊎ (AmongProfiles (to_profile_summary (default_or first profiles)) profiles
          × ((default_or first profiles).is_default ≡ true))
unfolding default_or
default_or_lem first [] = inl (refl, tt)
default_or_lem first (p ∷ ps) = ground (arith, default_or_lem first ps)

-- The primary profile of a list that is not empty is one of its profiles: a default, or else the
-- first, where the list has no default.
pub primary_of-AmongProfiles :
    (first : Profile) (rest : List Profile)
    → (q : ProfileSummary) × (primary_of (first ∷ rest) ≡ some q)
      × AmongProfiles q (first ∷ rest)
      × ((q.is_default ≡ true)
          ⊎ ((q ≡ to_profile_summary first)
              × All (λ (p : Profile). p.is_default ≡ false) (first ∷ rest)))
unfolding primary_of to_profile_summary
primary_of-AmongProfiles first rest = elim (default_or_lem first (first ∷ rest)) [
  | inl (same, no_default) ↦ (
    to_profile_summary first,
    ap (λ p. some (to_profile_summary p)) same,
    inl refl,
    inr (refl, no_default),
  )
  | inr (there, is_default) ↦
      (to_profile_summary (default_or first (first ∷ rest)), refl, there, inl is_default)
]
