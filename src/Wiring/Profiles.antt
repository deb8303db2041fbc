-- ===== src/Wiring/Profiles.antt =====
-- The profiles that a scoped listing reads from the database.
use platform_mihomo_service.Base.{
  ℕ, String, Bool, true, false, ◌||◌, List, ◌≡◌, sym, ap, ◌∙◌, map, keep, eqb, if◌then◌else◌,
}
use platform_mihomo_service.Outcome.{ok, err, pure, lift, ◌>>=◌, profile_scope_denied}
use platform_mihomo_service.Outcome.Laws.{>>=-eq-ok, lift-eq-ok}
use platform_mihomo_service.Biz.{Profile}
use platform_mihomo_service.Api.{ProfileSummary}
use platform_mihomo_service.Store.{AccountProfile, World}
use platform_mihomo_service.Store.Laws.{View, IsWorld}
use platform_mihomo_service.Scope.{ScopeGuard, require_platform_account_id}
use platform_mihomo_service.Data.ProfileRepo.{profile_from_record, list_by_binding_id, profile_repo}
use platform_mihomo_service.Usecase.ProfileUsecase.{
  to_profile_summary, scoped_profiles, list_scoped_profiles, list_profiles_with_scope,
}
use platform_mihomo_service.Usecase.ProfileUsecase.Scoped.{
  is_visible, non_empty, scoped_profiles-is_visible,
}
use platform_mihomo_service.Wiring.{ports}

scoped_profiles-eq-ok :
    (g : ScopeGuard) (key : String) (profiles shown : List Profile)
    → scoped_profiles g key profiles ≡ ok shown
    → shown ≡ keep (is_visible g key) profiles
scoped_profiles-eq-ok g key profiles shown h =
    go (eqb g.profile_id 0 || non_empty (keep (is_visible g key) profiles))
      (sym (scoped_profiles-is_visible g key profiles) ∙ h)
  where
    go :
        (b : Bool)
        → (if b then ok (keep (is_visible g key) profiles) else err profile_scope_denied) ≡ ok shown
        → shown ≡ keep (is_visible g key) profiles
    go true e = cc
    go false e = cc

module _ {S : Type 0} (view : S → View) (w : World S) (ok_world : IsWorld view w) where
  -- The profiles of a binding's rows, in the order of their ids.
  abbrev pub profiles_of : ℕ → S → List Profile
  unfolding profile_from_record
  profiles_of b s =
      map profile_from_record
        (keep (λ (r : AccountProfile). eqb r.binding_id b) (view s).tables.account_profiles)

  list_by_binding_id-profiles_of :
      (b : ℕ) (s s' : S) (found : List Profile)
      → list_by_binding_id w b s ≡ (ok found, s')
      → (found ≡ profiles_of b s) × (view s' ≡ view s)
  unfolding list_by_binding_id profiles_of
  list_by_binding_id-profiles_of b s s' found h =
      let rows = w.account_profiles.find (λ r. eqb r.binding_id b) in
      let (records, u, read, done) =
        >>=-eq-ok rows (λ records. pure (map profile_from_record records)) s h in
      let (all, kept) = ok_world.profile_table.find_ok _ s records u read in
      let value : map profile_from_record records ≡ found = cc in
      let same : u ≡ s' = cc in
      (sym value ∙ ap (map profile_from_record) all, ap view (sym same) ∙ kept)

  -- A scoped listing that succeeds lists the summaries of exactly the visible profiles of the
  -- guard's binding in the database, in the order of their ids; the account key carries the guard's
  -- binding id, and nothing is changed.
  pub list_profiles_with_scope-profiles_of :
      (g : ScopeGuard) (key : String) (s s' : S) (out : List ProfileSummary)
      → list_profiles_with_scope (ports w) g key s ≡ (ok out, s')
      → (require_platform_account_id g key ≡ ok tt)
        × (out ≡ map to_profile_summary (keep (is_visible g key) (profiles_of g.binding_id s)))
        × (view s' ≡ view s)
  unfolding list_profiles_with_scope list_scoped_profiles ports profile_repo
  list_profiles_with_scope-profiles_of g key s s' out h =
      let list = list_by_binding_id w g.binding_id in
      let shown = λ (profiles : List Profile). lift {S = S} (scoped_profiles g key profiles) in
      let rest = list >>= shown in
      let (profiles, u, listed, done) =
        >>=-eq-ok (list_scoped_profiles (ports w) g key)
          (λ profiles. pure (map to_profile_summary profiles)) s h in
      let (tt, u1, checked, h1) =
        >>=-eq-ok (lift (require_platform_account_id g key)) (λ _. rest) s listed in
      let (account, same1) = lift-eq-ok (require_platform_account_id g key) s checked in
      let (found, u2, read, h2) = >>=-eq-ok list shown u1 h1 in
      let (all, kept) = list_by_binding_id-profiles_of g.binding_id u1 u2 found read in
      let (scoped, same2) = lift-eq-ok (scoped_profiles g key found) u2 h2 in
      let visible = scoped_profiles-eq-ok g key found profiles scoped in
      let value : map to_profile_summary profiles ≡ out = cc in
      let last : u ≡ s' = cc in
      (
        account,
        sym value
            ∙ ap (map to_profile_summary) visible
            ∙ ap (λ ps. map to_profile_summary (keep (is_visible g key) ps))
                (all ∙ ap (profiles_of g.binding_id) same1),
        ap view (sym last ∙ same2) ∙ kept ∙ ap view same1,
      )
