-- ===== src/Service/PlatformService/Permits.antt =====
-- What a ticket must permit for a handler of the generic service to succeed.
use platform_mihomo_service.Base.{
  Bool-cases, String, true, not, ◌&&◌, some, [], ◌≡◌, ◌⊎◌, inl, inr, eqb_iff, ◌==◌, eq_iff, arith,
  if◌then◌else◌,
}
use platform_mihomo_service.Outcome.{M, ◌>>=◌}
use platform_mihomo_service.Outcome.Needs.{
  Needs, Needs-first, Needs-rest, Needs-map, Needs-pair, Needs-check, Needs-check_and,
}
use platform_mihomo_service.Biz.{ServiceTicketClaims}
use platform_mihomo_service.Api.{AccountRequest}
use platform_mihomo_service.Scope.{ScopeGuard, scoped_guard}
use platform_mihomo_service.Scope.Action
use platform_mihomo_service.Scope.Laws.{Holds, guard_of}
use platform_mihomo_service.Usecase.BindUsecase.{BindCredentialInput}
use platform_mihomo_service.Service.Mapper.{mapped_check}
use platform_mihomo_service.Service.Authorisation.{Allows, AllowsAccount}
use platform_mihomo_service.Service.Permits.{
  Verified, ForAccount, Needs-with_error, Needs-wide, Needs-account, Needs-ticket, Needs-action,
  Needs-guarded, Needs-guarded_wide, Needs-scoped_at, Needs-scoped-ForAccount,
}
use platform_mihomo_service.Service.AccountService.Permits.{ForAll, Needs-summary_with_scope}
use platform_mihomo_service.Service.PlatformService.{
  PutCredentialRequest, InvalidateConsumerGrantRequest, GenericService, requested_account,
  consumer_grant_invalidate_scope, get_credential_summary, put_update, put_bind, put_credential,
  account_guard, refresh_credential, delete_credential, invalidate_with_claims,
  invalidate_consumer_grant,
}

is_actor :
    (actor : String)
    → not (not (actor == "admin") && not (actor == "user")) ≡ true
    → (actor ≡ "admin") ⊎ (actor ≡ "user")
is_actor actor h = ground (arith, eq_iff actor "admin", eq_iff actor "user")

module _ {S K : Type 0} (gs : GenericService S K) (s : S) where
  pub Needs-generic_summary :
      (req : AccountRequest)
      → Needs s
          (ForAll gs.service s req.service_ticket req.platform_account_id Action.credential_read)
          (get_credential_summary gs (some req))
  unfolding get_credential_summary
  Needs-generic_summary req =
      search
        (
          Needs-scoped-ForAccount gs.service,
          Needs-first,
          Needs-with_error,
          Needs-summary_with_scope,
        )
        depth 9

  -- The ticket is for the account that the request or else the ticket names.
  abbrev pub ForRequested : AccountRequest → String → Type 0
  ForRequested req action =
      Verified gs.service req.service_ticket s
        (λ c. AllowsAccount c (requested_account req c) action × (c.profile_id ≡ 0))

  Needs-account_guard :
      (req : AccountRequest) (action : String)
      → Needs s (ForRequested req action) (account_guard gs req action)
  unfolding account_guard
  Needs-account_guard req action =
      search
        (
          Needs-scoped_at gs.service req.service_ticket (requested_account req),
          Needs-rest,
          Needs-pair,
          Needs-first,
          Needs-account,
          Needs-wide,
        )
        depth 9

  pub Needs-refresh_credential :
      (req : AccountRequest)
      → Needs s (ForRequested req Action.credential_refresh) (refresh_credential gs (some req))
  unfolding refresh_credential
  Needs-refresh_credential req = search (Needs-first, Needs-account_guard)

  pub Needs-delete_credential :
      (req : AccountRequest)
      → Needs s (ForRequested req Action.credential_delete) (delete_credential gs (some req))
  unfolding delete_credential
  Needs-delete_credential req = search (Needs-first, Needs-account_guard)

  -- A request with an account needs the permission to update it, one without that to bind.
  abbrev pub MayPut : String → ScopeGuard → Type 0
  MayPut key g =
      ((key ≡ "") × Holds Action.credential_bind g.allowed_actions)
      ⊎ (Holds Action.credential_update g.allowed_actions × ForAccount g key)

  Needs-put_update :
      (g : ScopeGuard) (key : String) (i : BindCredentialInput) (u : S)
      → Needs u (MayPut key g) (put_update gs g key i)
  unfolding put_update
  Needs-put_update g key i u =
      Needs-map {R' = Holds Action.credential_update g.allowed_actions × ForAccount g key}
        (put_update gs g key i) (λ n. inr n)
        (search (Needs-pair, Needs-rest, Needs-first, Needs-action, Needs-account))

  Needs-put_bind :
      (g : ScopeGuard) (key : String) (i : BindCredentialInput) (u : S)
      → key ≡ ""
      → Needs u (MayPut key g) (put_bind gs g i)
  unfolding put_bind
  Needs-put_bind g key i u e =
      Needs-map {R' = Holds Action.credential_bind g.allowed_actions} (put_bind gs g i)
        (λ n. inl (e, n)) (search (Needs-first, Needs-action))

  Needs-put :
      (g : ScopeGuard) (key : String) (i j : BindCredentialInput) (u : S)
      → Needs u (MayPut key g) (if not (key == "") then put_update gs g key i else put_bind gs g j)
  Needs-put g key i j u = elim (Bool-cases (key == "")) [
    | inl e ↦ rw e (Needs-put_bind g key j u ((eq_iff key "").0 e))
    | inr e ↦ rw e (Needs-put_update g key i u)
  ]

  Needs-put_of_claims :
      {B : Type 0} (key : String) (c : ServiceTicketClaims) (f : ScopeGuard → M S B) (u : S)
      → ((g : ScopeGuard) (t : S) → Needs t (MayPut key g × (g.profile_id ≡ 0)) (f g))
      → Needs u
          ((c.platform ≡ "mihomo") × MayPut key (guard_of c) × (c.profile_id ≡ 0))
          (mapped_check (scoped_guard c []) >>= f)
  Needs-put_of_claims key c f u k =
      Needs-map (mapped_check (scoped_guard c []) >>= f) (λ n. (n.0, n.2.0, n.2.1))
        (Needs-guarded gs.service (λ g. MayPut key g × (g.profile_id ≡ 0)) c [] f u k)

  pub Needs-put_credential :
      (req : PutCredentialRequest)
      → Needs s
          (Verified gs.service req.service_ticket s (λ c.
            (c.platform ≡ "mihomo")
            × MayPut req.platform_account_id (guard_of c)
            × (c.profile_id ≡ 0)))
          (put_credential gs (some req))
  unfolding put_credential
  Needs-put_credential req =
      search
        (
          Needs-ticket gs.service req.service_ticket,
          Needs-put_of_claims req.platform_account_id,
          Needs-pair,
          Needs-rest,
          Needs-first,
          Needs-wide,
          Needs-put,
        )
        depth 9

  Needs-invalidate_with_claims :
      (req : InvalidateConsumerGrantRequest) (c : ServiceTicketClaims) (u : S)
      → Needs u
          (((c.actor_type ≡ "admin") ⊎ (c.actor_type ≡ "user"))
            × ((c.binding_id ≡ req.binding_id)
                × (Allows c consumer_grant_invalidate_scope × (c.profile_id ≡ 0))))
          (invalidate_with_claims gs req c)
  unfolding invalidate_with_claims
  Needs-invalidate_with_claims req c u = search (
    Needs-check_and,
    is_actor c.actor_type,
    (eqb_iff c.binding_id req.binding_id).0,
    Needs-guarded_wide gs.service,
    Needs-first,
    Needs-wide,
  )

  pub Needs-invalidate_consumer_grant :
      (req : InvalidateConsumerGrantRequest)
      → Needs s
          (Verified gs.service req.service_ticket s (λ c.
            ((c.actor_type ≡ "admin") ⊎ (c.actor_type ≡ "user"))
            × ((c.binding_id ≡ req.binding_id)
                × (Allows c consumer_grant_invalidate_scope × (c.profile_id ≡ 0)))))
          (invalidate_consumer_grant gs (some req))
  unfolding invalidate_consumer_grant
  Needs-invalidate_consumer_grant req =
      search (Needs-check, Needs-ticket gs.service req.service_ticket, Needs-invalidate_with_claims)
        depth 9
