-- ===== src/Service/PlatformService.antt =====
-- internal/service/platform_service_adapter.go: the handlers of GenericPlatformService. The JSON
-- decoder of a credential payload is a parameter.
pub mod Keeps
pub mod Permits
use platform_mihomo_service.Base.{
  ℕ, String, Bool, true, not, ◌&&◌, Option, none, some, List, [], ◌∷◌, eqb, ◌==◌, if◌then◌else◌,
}
use platform_mihomo_service.Outcome.{
  Result, M, pure, lift, fail, guard, ◌>>=◌, ◌>>◌, status, status_of, invalid_argument,
  permission_denied, internal,
}
use platform_mihomo_service.Biz.{ServiceTicketClaims}
use platform_mihomo_service.Api.{AccountRequest}
use platform_mihomo_service.Service.GenericMessages as Generic
use platform_mihomo_service.Service.GenericSummary.{
  to_generic_credential_status, to_generic_credential_summary,
}
use platform_mihomo_service.Scope.{
  ScopeGuard, require_action, require_platform_account_id, require_binding_wide, scoped_guard,
  scoped_guard_for_platform_account,
}
use platform_mihomo_service.Scope.Action
use platform_mihomo_service.Usecase.BindUsecase.{BindCredentialInput}
use platform_mihomo_service.Usecase.BindUsecase as Bind
use platform_mihomo_service.Usecase.StatusUsecase.{RefreshCredentialOutput}
use platform_mihomo_service.Usecase.StatusUsecase as Status
use platform_mihomo_service.Usecase.ManagementUsecase as Management
use platform_mihomo_service.Service.Mapper.{
  Service, with_error, mapped, mapped_check, request_required, verify_service_ticket,
}

abbrev pub consumer_grant_invalidate_scope : String
consumer_grant_invalidate_scope = "mihomo.consumer_grant.invalidate"

pub record GenericCredentialPayload : Type 0 where
  pub cookie_bundle : String
  pub device_id : String
  pub device_fp : String
  pub device_name : String
  pub region_hint : String

pub record PutCredentialRequest : Type 0 where
  pub service_ticket : String
  pub platform_account_id : String
  pub credential_payload_json : String

pub record InvalidateConsumerGrantRequest : Type 0 where
  pub service_ticket : String
  pub binding_id : ℕ
  pub consumer : String
  pub minimum_grant_version : ℕ

-- The service of the other handlers, with the decoder and the store of invalidations, which may be
-- nil.
pub record GenericService (S K : Type 0) : Type 1 where
  pub service : Service S K
  pub decode : String → Result GenericCredentialPayload
  pub upsert_invalidation : Option (ℕ → String → ℕ → M S (Unit {0}))

-- `DescribePlatform`'s list of actions.
unfoldable pub supported_actions : List String
supported_actions =
    Action.status_read ∷ Action.profile_read ∷ Action.profile_write ∷ Action.auth_key_issue
    ∷ Action.credential_read ∷ Action.credential_bind ∷ Action.credential_update
    ∷ Action.credential_refresh ∷ Action.credential_delete ∷ Action.device_update
    ∷ consumer_grant_invalidate_scope ∷ []

unfoldable pub bind_input_of : ServiceTicketClaims → GenericCredentialPayload → BindCredentialInput
bind_input_of claims payload = record {
  binding_id = claims.binding_id;
  cookie_bundle_json = payload.cookie_bundle;
  device_id = payload.device_id;
  device_fp = payload.device_fp;
  device_name = payload.device_name;
  region_hint = payload.region_hint;
}

-- The account that a request names, or else the ticket.
unfoldable pub requested_account : AccountRequest → ServiceTicketClaims → String
requested_account req claims =
    if req.platform_account_id == "" then claims.platform_account_id else req.platform_account_id

module _ {S K : Type 0} (gs : GenericService S K) where
  unfoldable pub get_credential_summary : Option AccountRequest → M S Generic.CredentialSummary
  get_credential_summary none = request_required
  get_credential_summary (some req) = do
    claims ← verify_service_ticket gs.service req.service_ticket
    g ← mapped_check (
        scoped_guard_for_platform_account claims req.platform_account_id
          (Action.credential_read ∷ []))
    output ←
        mapped
          (Management.get_credential_summary_with_scope gs.service.ports g req.platform_account_id)
    pure (to_generic_credential_summary output)

  -- The branch of `PutCredential` for a request that names an account.
  put_update : ScopeGuard → String → BindCredentialInput → M S Generic.CredentialSummary
  put_update g key input = do
    mapped_check (require_action g Action.credential_update)
    mapped_check (require_platform_account_id g key)
    summary ← mapped (
        Management.update_credential_with_scope gs.service.ports g
          (record { platform_account_id = key; bind = input }))
    pure (to_generic_credential_summary summary)

  put_bind : ScopeGuard → BindCredentialInput → M S Generic.CredentialSummary
  put_bind g input = do
    mapped_check (require_action g Action.credential_bind)
    bound ← mapped (Bind.bind_credential gs.service.ports input)
    summary ←
        mapped (
          Management.get_credential_summary_with_scope gs.service.ports g bound.platform_account_id)
    pure (to_generic_credential_summary summary)

  unfoldable pub put_credential : Option PutCredentialRequest → M S Generic.CredentialSummary
  unfolding put_update put_bind
  put_credential none = request_required
  put_credential (some req) = do
    claims ← verify_service_ticket gs.service req.service_ticket
    g ← mapped_check (scoped_guard claims [])
    mapped_check (require_binding_wide g)
    payload ←
        with_error (λ e. status_of invalid_argument e)
          (lift (gs.decode req.credential_payload_json))
    if not (req.platform_account_id == "")
        then put_update g req.platform_account_id (bind_input_of claims payload)
        else put_bind g (bind_input_of claims payload)

  -- The start of `RefreshCredential` and `DeleteCredential`: the guard, and the account.
  account_guard : AccountRequest → String → M S (ScopeGuard × String)
  unfolding requested_account
  account_guard req action = do
    claims ← verify_service_ticket gs.service req.service_ticket
    g ← mapped_check (scoped_guard claims (action ∷ []))
    guard (not (requested_account req claims == ""))
        (status invalid_argument "platform_account_id is required")
    mapped_check (require_platform_account_id g (requested_account req claims))
    mapped_check (require_binding_wide g)
    pure (g, requested_account req claims)

  unfoldable pub refresh_credential : Option AccountRequest → M S Generic.RefreshCredentialResponse
  unfolding account_guard
  refresh_credential none = request_required
  refresh_credential (some req) = do
    (_, key) ← account_guard req Action.credential_refresh
    output ← mapped (Status.refresh_credential gs.service.ports key)
    pure (record {
      status = to_generic_credential_status output.status;
      refreshed_at = output.refreshed_at;
    })

  unfoldable pub delete_credential : Option AccountRequest → M S Bool
  unfolding account_guard
  delete_credential none = request_required
  delete_credential (some req) = do
    (g, key) ← account_guard req Action.credential_delete
    mapped (Management.delete_credential_with_scope gs.service.ports g key)
    pure true

  -- The store's call, whose error is not shown.
  unfoldable pub record_invalidation : InvalidateConsumerGrantRequest → M S (Unit {0})
  record_invalidation req = elim gs.upsert_invalidation [
    | none ↦ fail (status internal "grant invalidation repo is not configured")
    | some upsert ↦
        with_error (λ _. status internal "failed to invalidate consumer grant")
          (upsert req.binding_id req.consumer req.minimum_grant_version)
  ]

  -- The part of `InvalidateConsumerGrant` behind the verification of the ticket.
  unfoldable pub invalidate_with_claims :
      InvalidateConsumerGrantRequest → ServiceTicketClaims → M S Bool
  unfolding record_invalidation
  invalidate_with_claims req claims = do
    guard (not (not (claims.actor_type == "admin") && not (claims.actor_type == "user")))
        (status permission_denied "only admin or user tickets can invalidate grants")
    guard (eqb claims.binding_id req.binding_id)
        (status permission_denied "ticket binding_id does not match request")
    g ← mapped_check (scoped_guard claims (consumer_grant_invalidate_scope ∷ []))
    mapped_check (require_binding_wide g)
    record_invalidation req
    pure true

  unfoldable pub invalidate_consumer_grant : Option InvalidateConsumerGrantRequest → M S Bool
  unfolding invalidate_with_claims
  invalidate_consumer_grant none = request_required
  invalidate_consumer_grant (some req) = do
    guard (not (eqb req.binding_id 0)) (status invalid_argument "binding_id is required")
    guard (not (req.consumer == "")) (status invalid_argument "consumer is required")
    guard (not (eqb req.minimum_grant_version 0))
        (status invalid_argument "minimum_grant_version is required")
    claims ← verify_service_ticket gs.service req.service_ticket
    invalidate_with_claims req claims
