-- ===== src/Service/AccountService/Permits.antt =====
-- What a ticket must permit for a handler of MihomoAccountService, or of the shared service, to
-- succeed.
use platform_mihomo_service.Base.{String, some, ◌≡◌, ap}
use platform_mihomo_service.Outcome.Needs.{Needs, Needs-first, Needs-rest}
use platform_mihomo_service.Api.{
  BindCredentialRequest, AccountRequest, PlayerRequest, UpdateCredentialRequest,
  UpsertDeviceRequest,
}
use platform_mihomo_service.Biz.Repositories.{Ports}
use platform_mihomo_service.Scope.{ScopeGuard}
use platform_mihomo_service.Scope.Action
use platform_mihomo_service.Usecase.ManagementUsecase.{
  UpdateCredentialInput, get_credential_summary_with_scope, update_credential_with_scope,
  delete_credential_with_scope,
}
use platform_mihomo_service.Service.Mapper.{Service}
use platform_mihomo_service.Service.Authorisation.{Allows, AllowsAccount}
use platform_mihomo_service.Service.Permits.{
  Verified, ForAccount, Needs-with_error, Needs-wide, Needs-require_scope, Needs-scoped_wide,
  Needs-scoped, Needs-scoped-ForAccount,
}
use platform_mihomo_service.Service.AccountService.{
  account_guard, binding_wide_guard, bind_credential, get_credential_status, validate_credential,
  refresh_credential, list_profiles, get_primary_profile, get_auth_key, get_credential_summary,
  update_credential, delete_credential, upsert_device, confirm_primary_profile,
}
use platform_mihomo_service.Service.CredentialService as Shared
use platform_mihomo_service.Service.AccountService.Guards.{
  account_guard-AllowsAccount, binding_wide_guard-AllowsAccount,
}

module _ {S : Type 0} {s : S} (p : Ports S) (g : ScopeGuard) where
  pub Needs-summary_with_scope :
      (key : String)
      → Needs s (ForAccount g key × (g.profile_id ≡ 0)) (get_credential_summary_with_scope p g key)
  unfolding get_credential_summary_with_scope
  Needs-summary_with_scope key = search (Needs-first, Needs-require_scope)

  pub Needs-delete_with_scope :
      (key : String)
      → Needs s (ForAccount g key × (g.profile_id ≡ 0)) (delete_credential_with_scope p g key)
  unfolding delete_credential_with_scope
  Needs-delete_with_scope key = search (Needs-first, Needs-require_scope)

  pub Needs-update_with_scope :
      (i : UpdateCredentialInput)
      → Needs s
          (ForAccount g i.platform_account_id × (g.profile_id ≡ 0))
          (update_credential_with_scope p g i)
  unfolding update_credential_with_scope
  Needs-update_with_scope i = search (Needs-first, Needs-require_scope)

module _ {S K : Type 0} (svc : Service S K) (s : S) where
  -- The claims are for the account and the action.
  abbrev pub ForOne : String → String → String → Type 0
  ForOne raw key action = Verified svc raw s (λ c. AllowsAccount c key action)

  -- And the ticket is not limited to a profile.
  abbrev pub ForAll : String → String → String → Type 0
  ForAll raw key action = Verified svc raw s (λ c. AllowsAccount c key action × (c.profile_id ≡ 0))

  Needs-account_guard :
      (raw key action : String) → Needs s (ForOne raw key action) (account_guard svc raw key action)
  Needs-account_guard raw key action = record {
    at = λ g t h.
        let (c, read, allows, _) = account_guard-AllowsAccount svc raw key action s t g h in
        (c, ap (λ x. x.0) read, allows);
  }

  Needs-wide_guard :
      (raw key action : String)
      → Needs s (ForAll raw key action) (binding_wide_guard svc raw key action)
  Needs-wide_guard raw key action = record {
    at = λ g t h.
        let (c, read, allows, wide, _) =
          binding_wide_guard-AllowsAccount svc raw key action s t g h in
        (c, ap (λ x. x.0) read, (allows, wide));
  }

  pub Needs-get_credential_status :
      (req : AccountRequest)
      → Needs s
          (ForAll req.service_ticket req.platform_account_id Action.status_read)
          (get_credential_status svc (some req))
  unfolding get_credential_status
  Needs-get_credential_status req = search (Needs-first, Needs-wide_guard)

  pub Needs-validate_credential :
      (req : AccountRequest)
      → Needs s
          (ForAll req.service_ticket req.platform_account_id Action.status_read)
          (validate_credential svc (some req))
  unfolding validate_credential
  Needs-validate_credential req = search (Needs-first, Needs-wide_guard)

  pub Needs-refresh_credential :
      (req : AccountRequest)
      → Needs s
          (ForAll req.service_ticket req.platform_account_id Action.credential_refresh)
          (refresh_credential svc (some req))
  unfolding refresh_credential
  Needs-refresh_credential req = search (Needs-first, Needs-wide_guard)

  pub Needs-upsert_device :
      (req : UpsertDeviceRequest)
      → Needs s
          (ForAll req.service_ticket req.platform_account_id Action.device_update)
          (upsert_device svc (some req))
  unfolding upsert_device
  Needs-upsert_device req = search (Needs-first, Needs-wide_guard)

  pub Needs-confirm_primary_profile :
      (req : PlayerRequest)
      → Needs s
          (ForAll req.service_ticket req.platform_account_id Action.profile_write)
          (confirm_primary_profile svc (some req))
  unfolding confirm_primary_profile
  Needs-confirm_primary_profile req = search (Needs-first, Needs-wide_guard)

  pub Needs-list_profiles :
      (req : AccountRequest)
      → Needs s
          (ForOne req.service_ticket req.platform_account_id Action.profile_read)
          (list_profiles svc (some req))
  unfolding list_profiles
  Needs-list_profiles req = search (Needs-first, Needs-account_guard)

  pub Needs-get_primary_profile :
      (req : AccountRequest)
      → Needs s
          (ForOne req.service_ticket req.platform_account_id Action.profile_read)
          (get_primary_profile svc (some req))
  unfolding get_primary_profile
  Needs-get_primary_profile req = search (Needs-first, Needs-account_guard)

  pub Needs-get_auth_key :
      (req : PlayerRequest)
      → Needs s
          (ForOne req.service_ticket req.platform_account_id Action.auth_key_issue)
          (get_auth_key svc (some req))
  unfolding get_auth_key
  Needs-get_auth_key req = search (Needs-first, Needs-account_guard)

  pub Needs-bind_credential :
      (req : BindCredentialRequest)
      → Needs s
          (Verified svc req.service_ticket s
            (λ c. Allows c Action.credential_bind × (c.profile_id ≡ 0)))
          (bind_credential svc (some req))
  unfolding bind_credential
  Needs-bind_credential req = search (Needs-scoped_wide svc, Needs-first, Needs-wide)

  pub Needs-get_credential_summary :
      (req : AccountRequest)
      → Needs s
          (ForAll req.service_ticket req.platform_account_id Action.credential_read)
          (get_credential_summary svc (some req))
  unfolding get_credential_summary
  Needs-get_credential_summary req =
      search (Needs-scoped svc, Needs-first, Needs-with_error, Needs-summary_with_scope) depth 9

  pub Needs-delete_credential :
      (req : AccountRequest)
      → Needs s
          (ForAll req.service_ticket req.platform_account_id Action.credential_delete)
          (delete_credential svc (some req))
  unfolding delete_credential
  Needs-delete_credential req =
      search (Needs-scoped svc, Needs-first, Needs-with_error, Needs-delete_with_scope) depth 9

  pub Needs-update_credential :
      (req : UpdateCredentialRequest)
      → Needs s
          (ForAll req.service_ticket req.platform_account_id Action.credential_update)
          (update_credential svc (some req))
  unfolding update_credential
  Needs-update_credential req =
      search (Needs-scoped svc, Needs-rest, Needs-first, Needs-with_error, Needs-update_with_scope)
        depth 9

  pub Needs-shared_summary :
      (req : AccountRequest)
      → Needs s
          (ForAll req.service_ticket req.platform_account_id Action.credential_read)
          (Shared.get_credential_summary svc (some req))
  unfolding Shared.get_credential_summary
  Needs-shared_summary req =
      search (Needs-scoped-ForAccount svc, Needs-first, Needs-with_error, Needs-summary_with_scope)
        depth 9
