-- ===== src/Service/PlatformService/Keeps.antt =====
-- What the handlers of the generic service keep of the state.
use platform_mihomo_service.Base.{ℕ, String, Option, none, some, ◌≡◌, refl}
use platform_mihomo_service.Outcome.{M}
use platform_mihomo_service.Outcome.Keeps.{Keeps, keeps_rules, Keeps-fail}
use platform_mihomo_service.Biz.{ServiceTicketClaims}
use platform_mihomo_service.Api.{AccountRequest}
use platform_mihomo_service.Scope.{ScopeGuard}
use platform_mihomo_service.Usecase.BindUsecase.{BindCredentialInput}
use platform_mihomo_service.Usecase.Keeps.{ReadsKeep}
use platform_mihomo_service.Service.Mapper.{verify_service_ticket}
use platform_mihomo_service.Usecase.Keeps.Reads.{Keeps-get_credential_summary_with_scope}
use platform_mihomo_service.Usecase.Keeps.Writes.{
  Keeps-bind_credential, Keeps-refresh_credential, Keeps-update_credential_with_scope,
  Keeps-delete_credential_with_scope,
}
use platform_mihomo_service.Service.Keeps.{ServiceKeeps, Keeps-with_error}
use platform_mihomo_service.Service.PlatformService.{
  PutCredentialRequest, InvalidateConsumerGrantRequest, GenericService, get_credential_summary,
  put_update, put_bind, put_credential, account_guard, refresh_credential, delete_credential,
  record_invalidation, invalidate_with_claims, invalidate_consumer_grant,
}

module _ {S K : Type 0} {P : S → Type 0} (gs : GenericService S K)
    (reads : ReadsKeep P gs.service.ports)
    (ticket : (raw : String) → Keeps P (verify_service_ticket gs.service raw)) where
  pub Keeps-get_credential_summary :
      (req : Option AccountRequest) → Keeps P (get_credential_summary gs req)
  unfolding get_credential_summary
  Keeps-get_credential_summary none = Keeps-fail _
  Keeps-get_credential_summary (some req) =
      search (keeps_rules, Keeps-with_error, ticket, Keeps-get_credential_summary_with_scope reads)
        depth 9

module _ {S K : Type 0} {P : S → Type 0} (gs : GenericService S K)
    (k : ServiceKeeps P gs.service) where
  Keeps-put_update :
      (g : ScopeGuard) (key : String) (i : BindCredentialInput) → Keeps P (put_update gs g key i)
  unfolding put_update
  Keeps-put_update g key i =
      search (keeps_rules, Keeps-with_error, Keeps-update_credential_with_scope k.ports_keep) depth
        9

  Keeps-put_bind : (g : ScopeGuard) (i : BindCredentialInput) → Keeps P (put_bind gs g i)
  unfolding put_bind
  Keeps-put_bind g i =
      search
        (
          keeps_rules,
          Keeps-with_error,
          Keeps-bind_credential k.ports_keep,
          Keeps-get_credential_summary_with_scope k.ports_keep.reads,
        )
        depth 9

  pub Keeps-put_credential : (req : Option PutCredentialRequest) → Keeps P (put_credential gs req)
  unfolding put_credential
  Keeps-put_credential none = Keeps-fail _
  Keeps-put_credential (some req) =
      search (keeps_rules, Keeps-with_error, k.ticket, Keeps-put_update, Keeps-put_bind) depth 9

  Keeps-account_guard :
      (req : AccountRequest) (action : String) → Keeps P (account_guard gs req action)
  unfolding account_guard
  Keeps-account_guard req action = search (keeps_rules, Keeps-with_error, k.ticket) depth 9

  pub Keeps-refresh_credential_handler :
      (req : Option AccountRequest) → Keeps P (refresh_credential gs req)
  unfolding refresh_credential
  Keeps-refresh_credential_handler none = Keeps-fail _
  Keeps-refresh_credential_handler (some req) =
      search
        (keeps_rules, Keeps-with_error, Keeps-account_guard, Keeps-refresh_credential k.ports_keep)
        depth 9

  pub Keeps-delete_credential : (req : Option AccountRequest) → Keeps P (delete_credential gs req)
  unfolding delete_credential
  Keeps-delete_credential none = Keeps-fail _
  Keeps-delete_credential (some req) =
      search
        (
          keeps_rules,
          Keeps-with_error,
          Keeps-account_guard,
          Keeps-delete_credential_with_scope k.ports_keep,
        )
        depth 9

  module _
      (stored : (upsert : ℕ → String → ℕ → M S (Unit {0}))
        → gs.upsert_invalidation ≡ some upsert
        → (b : ℕ) (c : String) (v : ℕ) → Keeps P (upsert b c v)) where
    Keeps-record_invalidation :
        (req : InvalidateConsumerGrantRequest) → Keeps P (record_invalidation gs req)
    unfolding record_invalidation
    Keeps-record_invalidation req = go gs.upsert_invalidation refl
      where
        go :
            (u : Option (ℕ → String → ℕ → M S (Unit {0})))
            → gs.upsert_invalidation ≡ u
            → Keeps P (record_invalidation gs req)
        go none e = rw (e, record_invalidation) (Keeps-fail _)
        go (some u) e = rw (e, record_invalidation) (Keeps-with_error _ _ (stored u e _ _ _))

    Keeps-invalidate_with_claims :
        (req : InvalidateConsumerGrantRequest) (c : ServiceTicketClaims)
        → Keeps P (invalidate_with_claims gs req c)
    unfolding invalidate_with_claims
    Keeps-invalidate_with_claims req c =
        search (keeps_rules, Keeps-with_error, Keeps-record_invalidation) depth 12

    pub Keeps-invalidate_consumer_grant :
        (req : Option InvalidateConsumerGrantRequest) → Keeps P (invalidate_consumer_grant gs req)
    unfolding invalidate_consumer_grant
    Keeps-invalidate_consumer_grant none = Keeps-fail _
    Keeps-invalidate_consumer_grant (some req) =
        search (keeps_rules, k.ticket, Keeps-invalidate_with_claims) depth 12
