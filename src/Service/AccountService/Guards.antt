-- ===== src/Service/AccountService/Guards.antt =====
-- What the start of the binding-wide handlers guarantees to the rest of them.
use platform_mihomo_service.Base.{String, [], ◌∷◌, ◌≡◌, sym, ap, ◌∙◌}
use platform_mihomo_service.Outcome.{ok, pure, ◌>>◌}
use platform_mihomo_service.Outcome.Laws.{>>=-eq-ok}
use platform_mihomo_service.Biz.{ServiceTicketClaims}
use platform_mihomo_service.Scope.{
  ScopeGuard, scoped_guard_for_platform_account, require_binding_wide,
}
use platform_mihomo_service.Scope.Laws.{
  guard_of, scoped_guard_for_platform_account_iff, require_binding_wide_iff,
}
use platform_mihomo_service.Service.Mapper.{Service, mapped_check, verify_service_ticket}
use platform_mihomo_service.Service.Authorisation.{
  AllowsAccount, mapped_check-eq-ok, mapped_check->>=-eq-ok,
}
use platform_mihomo_service.Service.AccountService.{account_guard, binding_wide_guard}

module _ {S K : Type 0} (svc : Service S K) where
  pub account_guard-AllowsAccount :
      (ticket key action : String) (s s' : S) (g : ScopeGuard)
      → account_guard svc ticket key action s ≡ (ok g, s')
      → (c : ServiceTicketClaims) × (verify_service_ticket svc ticket s ≡ (ok c, s'))
        × AllowsAccount c key action
        × (g ≡ guard_of c)
  unfolding account_guard
  account_guard-AllowsAccount ticket key action s s' g h =
      let guard_for = λ (c : ServiceTicketClaims).
        mapped_check {S = S} (scoped_guard_for_platform_account c key (action ∷ [])) in
      let (c, u, read, guarded) = >>=-eq-ok (verify_service_ticket svc ticket) guard_for s h in
      let (passed, same) =
        mapped_check-eq-ok (scoped_guard_for_platform_account c key (action ∷ [])) u s' g guarded in
      let (platform, (holds, _), account, non_zero, is_guard) =
        (scoped_guard_for_platform_account_iff c key (action ∷ []) g).0 passed in
      (c, read ∙ ap (λ x. (ok c, x)) (sym same), ((platform, holds), account, non_zero), is_guard)

  -- The guard of a binding-wide handler is given only for a verified ticket for this platform that
  -- holds the action, carries the binding id of the account key, not zero, and is not limited to a
  -- profile; it is the ticket's guard, and only the verification has run.
  pub binding_wide_guard-AllowsAccount :
      (ticket key action : String) (s s' : S) (g : ScopeGuard)
      → binding_wide_guard svc ticket key action s ≡ (ok g, s')
      → (c : ServiceTicketClaims) × (verify_service_ticket svc ticket s ≡ (ok c, s'))
        × AllowsAccount c key action
        × (c.profile_id ≡ 0)
        × (g ≡ guard_of c)
  unfolding binding_wide_guard
  binding_wide_guard-AllowsAccount ticket key action s s' g h =
      let (g', u, guarded, h1) =
        >>=-eq-ok (account_guard svc ticket key action)
          (λ g. do mapped_check (require_binding_wide g); pure g) s h in
      let (tt, wide, done) = mapped_check->>=-eq-ok (require_binding_wide g') (λ _. pure g') u h1 in
      let (c, read, allows, is_guard) =
        account_guard-AllowsAccount ticket key action s u g' guarded in
      let same : g' ≡ g = cc in
      let state : u ≡ s' = cc in
      (
        c,
        read ∙ ap (λ x. (ok c, x)) state,
        allows,
        sym (ap (λ (x : ScopeGuard). x.profile_id) is_guard) ∙ (require_binding_wide_iff g').0 wide,
        sym same ∙ is_guard,
      )
