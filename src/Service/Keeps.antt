-- ===== src/Service/Keeps.antt =====
-- What the handlers keep of the state, from what the use cases and the verification of a ticket
-- keep.
use platform_mihomo_service.Base.{String, Option, none, some}
use platform_mihomo_service.Outcome.{Error, Result, ok, err, M}
use platform_mihomo_service.Outcome.Keeps.{Keeps, keeps_rules, Keeps-fail}
use platform_mihomo_service.Api.{
  BindCredentialRequest, AccountRequest, PlayerRequest, UpdateCredentialRequest,
  UpsertDeviceRequest,
}
use platform_mihomo_service.Usecase.Keeps.{ReadsKeep, PortsKeep}
use platform_mihomo_service.Usecase.Keeps.Reads.{
  Keeps-list_profiles_with_scope, Keeps-get_primary_profile_with_scope,
  Keeps-require_profile_access_by_player_id, Keeps-get_credential_status,
  Keeps-get_credential_summary_with_scope,
}
use platform_mihomo_service.Usecase.Keeps.Writes.{
  Keeps-bind_credential, Keeps-upsert_device, Keeps-validate_credential, Keeps-refresh_credential,
  Keeps-confirm_primary_profile_with_scope, Keeps-get_auth_key, Keeps-update_credential_with_scope,
  Keeps-delete_credential_with_scope,
}
use platform_mihomo_service.Service.Mapper.{Service, with_error, verify_service_ticket}
use platform_mihomo_service.Service.AccountService as Account
use platform_mihomo_service.Service.CredentialService as Credential

pub Keeps-with_error :
    {S A : Type 0} {P : S → Type 0} (f : Error → Error) (m : M S A)
    → Keeps P m
    → Keeps P (with_error f m)
Keeps-with_error {S} {A} {P} f m k = record { at = λ s h. go (m s) (k.at s h) }
  where
    go :
        (x : Result A × S)
        → P x.1
        → let y : Result A × S = elim x.0 [ ok a ↦ (ok a, x.1) | err e ↦ (err (f e), x.1) ] in P y.1
    go (ok a, t) h = h
    go (err e, t) h = h

-- A service whose ports and whose verification of tickets keep a predicate.
pub record ServiceKeeps {S K : Type 0} (P : S → Type 0) (svc : Service S K) : Type 1 where
  pub ports_keep : PortsKeep P svc.ports svc.artifacts
  pub ticket : (raw : String) → Keeps P (verify_service_ticket svc raw)

module _ {S K : Type 0} {P : S → Type 0} (svc : Service S K)
    (ticket : (raw : String) → Keeps P (verify_service_ticket svc raw)) where
  Keeps-account_guard : (t key action : String) → Keeps P (Account.account_guard svc t key action)
  unfolding Account.account_guard
  Keeps-account_guard t key action = search (keeps_rules, Keeps-with_error, ticket)

  Keeps-wide_guard : (t key action : String) → Keeps P (Account.binding_wide_guard svc t key action)
  unfolding Account.binding_wide_guard
  Keeps-wide_guard t key action = search (keeps_rules, Keeps-with_error, Keeps-account_guard)

  module _ (reads : ReadsKeep P svc.ports) where
    pub Keeps-get_credential_status_handler :
        (req : Option AccountRequest) → Keeps P (Account.get_credential_status svc req)
    unfolding Account.get_credential_status
    Keeps-get_credential_status_handler none = Keeps-fail _
    Keeps-get_credential_status_handler (some req) =
        search (keeps_rules, Keeps-with_error, Keeps-wide_guard, Keeps-get_credential_status reads)
          depth 9

    pub Keeps-list_profiles_handler :
        (req : Option AccountRequest) → Keeps P (Account.list_profiles svc req)
    unfolding Account.list_profiles
    Keeps-list_profiles_handler none = Keeps-fail _
    Keeps-list_profiles_handler (some req) =
        search
          (keeps_rules, Keeps-with_error, Keeps-account_guard, Keeps-list_profiles_with_scope reads)
          depth 9

    pub Keeps-get_primary_profile_handler :
        (req : Option AccountRequest) → Keeps P (Account.get_primary_profile svc req)
    unfolding Account.get_primary_profile
    Keeps-get_primary_profile_handler none = Keeps-fail _
    Keeps-get_primary_profile_handler (some req) =
        search
          (
            keeps_rules,
            Keeps-with_error,
            Keeps-account_guard,
            Keeps-get_primary_profile_with_scope reads,
          )
          depth 9

    pub Keeps-get_credential_summary_handler :
        (req : Option AccountRequest) → Keeps P (Account.get_credential_summary svc req)
    unfolding Account.get_credential_summary
    Keeps-get_credential_summary_handler none = Keeps-fail _
    Keeps-get_credential_summary_handler (some req) =
        search
          (keeps_rules, Keeps-with_error, ticket, Keeps-get_credential_summary_with_scope reads)
          depth 9

    pub Keeps-shared_summary_handler :
        (req : Option AccountRequest) → Keeps P (Credential.get_credential_summary svc req)
    unfolding Credential.get_credential_summary
    Keeps-shared_summary_handler none = Keeps-fail _
    Keeps-shared_summary_handler (some req) =
        search
          (keeps_rules, Keeps-with_error, ticket, Keeps-get_credential_summary_with_scope reads)
          depth 9

module _ {S K : Type 0} {P : S → Type 0} (svc : Service S K) (k : ServiceKeeps P svc) where
  pub Keeps-bind_credential_handler :
      (req : Option BindCredentialRequest) → Keeps P (Account.bind_credential svc req)
  unfolding Account.bind_credential
  Keeps-bind_credential_handler none = Keeps-fail _
  Keeps-bind_credential_handler (some req) =
      search (keeps_rules, Keeps-with_error, k.ticket, Keeps-bind_credential k.ports_keep) depth 9

  pub Keeps-validate_credential_handler :
      (req : Option AccountRequest) → Keeps P (Account.validate_credential svc req)
  unfolding Account.validate_credential
  Keeps-validate_credential_handler none = Keeps-fail _
  Keeps-validate_credential_handler (some req) =
      search
        (
          keeps_rules,
          Keeps-with_error,
          Keeps-wide_guard svc k.ticket,
          Keeps-validate_credential k.ports_keep,
        )
        depth 9

  pub Keeps-refresh_credential_handler :
      (req : Option AccountRequest) → Keeps P (Account.refresh_credential svc req)
  unfolding Account.refresh_credential
  Keeps-refresh_credential_handler none = Keeps-fail _
  Keeps-refresh_credential_handler (some req) =
      search
        (
          keeps_rules,
          Keeps-with_error,
          Keeps-wide_guard svc k.ticket,
          Keeps-refresh_credential k.ports_keep,
        )
        depth 9

  pub Keeps-get_auth_key_handler :
      (req : Option PlayerRequest) → Keeps P (Account.get_auth_key svc req)
  unfolding Account.get_auth_key
  Keeps-get_auth_key_handler none = Keeps-fail _
  Keeps-get_auth_key_handler (some req) =
      search
        (
          keeps_rules,
          Keeps-with_error,
          Keeps-account_guard svc k.ticket,
          Keeps-require_profile_access_by_player_id k.ports_keep.reads,
          Keeps-get_auth_key k.ports_keep,
        )
        depth 9

  pub Keeps-update_credential_handler :
      (req : Option UpdateCredentialRequest) → Keeps P (Account.update_credential svc req)
  unfolding Account.update_credential
  Keeps-update_credential_handler none = Keeps-fail _
  Keeps-update_credential_handler (some req) =
      search
        (keeps_rules, Keeps-with_error, k.ticket, Keeps-update_credential_with_scope k.ports_keep)
        depth 9

  pub Keeps-delete_credential_handler :
      (req : Option AccountRequest) → Keeps P (Account.delete_credential svc req)
  unfolding Account.delete_credential
  Keeps-delete_credential_handler none = Keeps-fail _
  Keeps-delete_credential_handler (some req) =
      search
        (keeps_rules, Keeps-with_error, k.ticket, Keeps-delete_credential_with_scope k.ports_keep)
        depth 9

  pub Keeps-upsert_device_handler :
      (req : Option UpsertDeviceRequest) → Keeps P (Account.upsert_device svc req)
  unfolding Account.upsert_device
  Keeps-upsert_device_handler none = Keeps-fail _
  Keeps-upsert_device_handler (some req) =
      search
        (
          keeps_rules,
          Keeps-with_error,
          Keeps-wide_guard svc k.ticket,
          Keeps-upsert_device k.ports_keep,
        )
        depth 9

  pub Keeps-confirm_primary_profile_handler :
      (req : Option PlayerRequest) → Keeps P (Account.confirm_primary_profile svc req)
  unfolding Account.confirm_primary_profile
  Keeps-confirm_primary_profile_handler none = Keeps-fail _
  Keeps-confirm_primary_profile_handler (some req) =
      search
        (
          keeps_rules,
          Keeps-with_error,
          Keeps-wide_guard svc k.ticket,
          Keeps-confirm_primary_profile_with_scope k.ports_keep,
        )
        depth 9
