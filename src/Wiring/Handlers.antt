-- ===== src/Wiring/Handlers.antt =====
-- What handlers do to the database, from the ticket of the request on.
use platform_mihomo_service.Base.{String, Bool, true, some, [], ◌∷◌, ◌≡◌, ◌≢◌, sym, ap, ◌∙◌, subst}
use platform_mihomo_service.Outcome.{ok, pure, ◌>>=◌, ◌>>◌}
use platform_mihomo_service.Outcome.Laws.{>>=-eq-ok}
use platform_mihomo_service.Biz.{ServiceTicketClaims}
use platform_mihomo_service.Api.{AccountRequest}
use platform_mihomo_service.Store.{World}
use platform_mihomo_service.Store.Laws.{View, IsWorld}
use platform_mihomo_service.Scope.{ScopeGuard, scoped_guard, require_binding_wide}
use platform_mihomo_service.Scope.Laws.{require_platform_account_id_iff, require_binding_wide_iff}
use platform_mihomo_service.Scope.Action
use platform_mihomo_service.Data.GrantInvalidationRepo.{minimum_version}
use platform_mihomo_service.Data.ManagementRepo.Deletion.{without_binding}
use platform_mihomo_service.Ticket.{Parser, TicketVerifier, key_of, verify_context}
use platform_mihomo_service.Ticket.Revocation.{verify_context_keeps}
use platform_mihomo_service.Usecase.ManagementUsecase.{delete_credential_with_scope}
use platform_mihomo_service.Service.Mapper.{
  mapped, mapped_check, map_ticket_verification_error, map_usecase_error, verify_service_ticket,
  service_ticket_audience,
}
use platform_mihomo_service.Service.Authorisation.{
  with_error-eq-ok, mapped_check-eq-ok, scoped_guard-Allows, AllowsAccount,
}
use platform_mihomo_service.Service.AccountService.{delete_credential}
use platform_mihomo_service.Wiring.{ports, service}
use platform_mihomo_service.Wiring.Deletion.{delete_credential_with_scope-eq-ok}

module _ {S K : Type 0} (view : S → View) (w : World S) (ok_world : IsWorld view w)
    (parse : Parser S K) (v : TicketVerifier S K)
    (configured : v.minimum_version ≡ some (minimum_version w))
    (keeps : (raw audience : String) (s : S)
      → view (parse raw (key_of v) audience v.issuer s).1 ≡ view s) where
  verified :
      (raw : String) (s u : S) (c : ServiceTicketClaims)
      → verify_service_ticket (service w parse v) raw s ≡ (ok c, u)
      → (verify_context v parse raw service_ticket_audience s ≡ (ok c, u)) × (view u ≡ view s)
  unfolding verify_service_ticket
  verified raw s u c h =
      let done =
        with_error-eq-ok map_ticket_verification_error
          (verify_context v parse raw service_ticket_audience) s u c h in
      (
        done,
        sym (ap (λ x. view x.1) done)
            ∙ verify_context_keeps view w ok_world v parse configured keeps raw
                service_ticket_audience s,
      )

  -- `DeleteCredential` succeeds only on a ticket for this platform that holds the action, that
  -- carries the account's binding id, not zero, and that is not limited to a profile; it removes
  -- exactly what the database holds of the ticket's binding.
  pub delete_credential-without_binding :
      (req : AccountRequest) (s s' : S) (done : Bool)
      → delete_credential (service w parse v) (some req) s ≡ (ok done, s')
      → (c : ServiceTicketClaims) × ((verify_service_ticket
            (service w parse v)
            req.service_ticket
            s).0
          ≡ ok c)
        × AllowsAccount c req.platform_account_id Action.credential_delete
        × (c.profile_id ≡ 0)
        × ((view s').tables ≡ without_binding c.binding_id (view s).tables)
  unfolding delete_credential require_binding_wide
  delete_credential-without_binding req s s' done h =
      let svc = service w parse v in
      let key = req.platform_account_id in
      let delete = λ (g : ScopeGuard). delete_credential_with_scope (ports w) g key in
      let (c, u, read, h1) =
        >>=-eq-ok (verify_service_ticket svc req.service_ticket)
          (λ claims. do
            g ← mapped_check (scoped_guard claims (Action.credential_delete ∷ []))
            mapped (delete g)
            pure true)
          s h in
      let (g, u1, guarded, h2) =
        >>=-eq-ok (mapped_check (scoped_guard c (Action.credential_delete ∷ [])))
          (λ g. mapped (delete g) >>= λ _. pure true) u h1 in
      let (tt, u2, deleted, h3) = >>=-eq-ok (mapped (delete g)) (λ _. pure true) u1 h2 in
      let (passed, same1) =
        mapped_check-eq-ok (scoped_guard c (Action.credential_delete ∷ [])) u u1 g guarded in
      let (allows, is_guard) = scoped_guard-Allows c Action.credential_delete g passed in
      let (account, wide, gone) =
        delete_credential_with_scope-eq-ok view w ok_world g key u1 u2
          (with_error-eq-ok map_usecase_error (delete g) u1 u2 tt deleted) in
      let (_, kept) = verified req.service_ticket s u c read in
      let (has_key, non_zero) = (require_platform_account_id_iff g key).0 account in
      let binding : g.binding_id ≡ c.binding_id = ap (λ (x : ScopeGuard). x.binding_id) is_guard in
      let profile : g.profile_id ≡ c.profile_id = ap (λ (x : ScopeGuard). x.profile_id) is_guard in
      let there : view u1 ≡ view s = ap view same1 ∙ kept in
      let all : (view u2).tables ≡ without_binding c.binding_id (view s).tables =
        gone
        ∙ ap (λ (x : View). without_binding g.binding_id x.tables) there
        ∙ ap (λ n. without_binding n (view s).tables) binding in
      (
        c,
        ap (λ x. x.0) read,
        (allows, has_key ∙ ap (λ n. ok n) binding, subst (λ n. n ≢ 0) binding non_zero),
        sym profile ∙ (require_binding_wide_iff g).0 wide,
        ap (λ x. (view x.1).tables) (sym h3) ∙ all,
      )
