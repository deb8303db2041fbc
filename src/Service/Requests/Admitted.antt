-- ===== src/Service/Requests/Admitted.antt =====
-- Which tickets a request is admitted on.
use platform_mihomo_service.Base.{some, ◌≡◌, ◌⊎◌}
use platform_mihomo_service.Outcome.{Result, ok, M, pure}
use platform_mihomo_service.Outcome.Needs.{Needs, Needs-first}
use platform_mihomo_service.Scope.Action
use platform_mihomo_service.Scope.Laws.{guard_of}
use platform_mihomo_service.Service.Authorisation.{Allows}
use platform_mihomo_service.Service.Permits.{Verified}
use platform_mihomo_service.Service.AccountService.Permits.{
  ForOne, ForAll, Needs-get_credential_status, Needs-validate_credential, Needs-refresh_credential,
  Needs-upsert_device, Needs-confirm_primary_profile, Needs-list_profiles,
  Needs-get_primary_profile, Needs-get_auth_key, Needs-bind_credential,
  Needs-get_credential_summary, Needs-delete_credential, Needs-update_credential,
  Needs-shared_summary,
}
use platform_mihomo_service.Service.PlatformService.{
  GenericService, consumer_grant_invalidate_scope,
}
use platform_mihomo_service.Service.Description.{Entries}
use platform_mihomo_service.Service.PlatformService.Permits.{MayPut, ForRequested}
use platform_mihomo_service.Service.PlatformService.Permits as Platform
use platform_mihomo_service.Service.AccountService as Account
use platform_mihomo_service.Service.CredentialService as Shared
use platform_mihomo_service.Service.PlatformService as Generic
use platform_mihomo_service.Service.Requests.{
  Request, bind_credential, upsert_device, confirm_primary_profile, get_auth_key,
  get_credential_status, validate_credential, refresh_credential, list_profiles,
  get_primary_profile, get_credential_summary, delete_credential, update_credential,
  get_shared_summary, get_generic_summary, refresh_generic, delete_generic, put_credential,
  invalidate_consumer_grant, describe_platform, answered, handle,
}

module _ {S K Struct : Type 0} (gs : GenericService S K) (new_struct : Entries → Result Struct)
    (s : S) where
  -- The ticket of the request is verified, and its claims permit what the request does: the action,
  -- for the account, and, but for what reads or issues for one profile, for the whole binding.
  -- DescribePlatform needs no ticket.
  abbrev pub Admitted : Request → Type 0
  Admitted (bind_credential (some req)) =
      Verified gs.service req.service_ticket s
        (λ c. Allows c Action.credential_bind × (c.profile_id ≡ 0))
  Admitted (upsert_device (some req)) =
      ForAll gs.service s req.service_ticket req.platform_account_id Action.device_update
  Admitted (confirm_primary_profile (some req)) =
      ForAll gs.service s req.service_ticket req.platform_account_id Action.profile_write
  Admitted (get_auth_key (some req)) =
      ForOne gs.service s req.service_ticket req.platform_account_id Action.auth_key_issue
  Admitted (get_credential_status (some req)) =
      ForAll gs.service s req.service_ticket req.platform_account_id Action.status_read
  Admitted (validate_credential (some req)) =
      ForAll gs.service s req.service_ticket req.platform_account_id Action.status_read
  Admitted (refresh_credential (some req)) =
      ForAll gs.service s req.service_ticket req.platform_account_id Action.credential_refresh
  Admitted (list_profiles (some req)) =
      ForOne gs.service s req.service_ticket req.platform_account_id Action.profile_read
  Admitted (get_primary_profile (some req)) =
      ForOne gs.service s req.service_ticket req.platform_account_id Action.profile_read
  Admitted (get_credential_summary (some req)) =
      ForAll gs.service s req.service_ticket req.platform_account_id Action.credential_read
  Admitted (delete_credential (some req)) =
      ForAll gs.service s req.service_ticket req.platform_account_id Action.credential_delete
  Admitted (update_credential (some req)) =
      ForAll gs.service s req.service_ticket req.platform_account_id Action.credential_update
  Admitted (get_shared_summary (some req)) =
      ForAll gs.service s req.service_ticket req.platform_account_id Action.credential_read
  Admitted (get_generic_summary (some req)) =
      ForAll gs.service s req.service_ticket req.platform_account_id Action.credential_read
  Admitted (refresh_generic (some req)) = ForRequested gs s req Action.credential_refresh
  Admitted (delete_generic (some req)) = ForRequested gs s req Action.credential_delete
  Admitted (put_credential (some req)) = Verified gs.service req.service_ticket s (λ c.
      (c.platform ≡ "mihomo")
      × MayPut gs s req.platform_account_id (guard_of c)
      × (c.profile_id ≡ 0))
  Admitted (invalidate_consumer_grant (some req)) = Verified gs.service req.service_ticket s (λ c.
      ((c.actor_type ≡ "admin") ⊎ (c.actor_type ≡ "user"))
      × ((c.binding_id ≡ req.binding_id)
          × (Allows c consumer_grant_invalidate_scope × (c.profile_id ≡ 0))))
  Admitted describe_platform = Unit
  Admitted _ = ⊥

  Needs-answered : {A R : Type 0} (m : M S A) → Needs s R m → Needs s R (answered m)
  Needs-answered m k = Needs-first m (λ _. pure tt) k

  Needs-Admitted : (r : Request) → Needs s (Admitted r) (handle gs new_struct r)
  unfolding handle Account.bind_credential Account.get_credential_status Account.validate_credential
      Account.refresh_credential Account.list_profiles Account.get_primary_profile
      Account.get_auth_key Account.get_credential_summary Account.update_credential
      Account.delete_credential Account.upsert_device Account.confirm_primary_profile
      Shared.get_credential_summary Generic.get_credential_summary Generic.refresh_credential
      Generic.delete_credential Generic.put_credential Generic.invalidate_consumer_grant
  Needs-Admitted (bind_credential (some req)) =
      Needs-answered _ (Needs-bind_credential gs.service s req)
  Needs-Admitted (upsert_device (some req)) =
      Needs-answered _ (Needs-upsert_device gs.service s req)
  Needs-Admitted (confirm_primary_profile (some req)) =
      Needs-answered _ (Needs-confirm_primary_profile gs.service s req)
  Needs-Admitted (get_auth_key (some req)) = Needs-answered _ (Needs-get_auth_key gs.service s req)
  Needs-Admitted (get_credential_status (some req)) =
      Needs-answered _ (Needs-get_credential_status gs.service s req)
  Needs-Admitted (validate_credential (some req)) =
      Needs-answered _ (Needs-validate_credential gs.service s req)
  Needs-Admitted (refresh_credential (some req)) =
      Needs-answered _ (Needs-refresh_credential gs.service s req)
  Needs-Admitted (list_profiles (some req)) =
      Needs-answered _ (Needs-list_profiles gs.service s req)
  Needs-Admitted (get_primary_profile (some req)) =
      Needs-answered _ (Needs-get_primary_profile gs.service s req)
  Needs-Admitted (get_credential_summary (some req)) =
      Needs-answered _ (Needs-get_credential_summary gs.service s req)
  Needs-Admitted (delete_credential (some req)) =
      Needs-answered _ (Needs-delete_credential gs.service s req)
  Needs-Admitted (update_credential (some req)) =
      Needs-answered _ (Needs-update_credential gs.service s req)
  Needs-Admitted (get_shared_summary (some req)) =
      Needs-answered _ (Needs-shared_summary gs.service s req)
  Needs-Admitted (get_generic_summary (some req)) =
      Needs-answered _ (Platform.Needs-generic_summary gs s req)
  Needs-Admitted (refresh_generic (some req)) =
      Needs-answered _ (Platform.Needs-refresh_credential gs s req)
  Needs-Admitted (delete_generic (some req)) =
      Needs-answered _ (Platform.Needs-delete_credential gs s req)
  Needs-Admitted (put_credential (some req)) =
      Needs-answered _ (Platform.Needs-put_credential gs s req)
  Needs-Admitted (invalidate_consumer_grant (some req)) =
      Needs-answered _ (Platform.Needs-invalidate_consumer_grant gs s req)
  Needs-Admitted describe_platform = record { at = λ a t h. tt }
  Needs-Admitted _ = record { at = λ a t h. absurd cc }

  -- No request but DescribePlatform, which carries no ticket, succeeds but on a verified ticket whose
  -- claims permit it.
  pub handle-Admitted : (r : Request) (t : S) → handle gs new_struct r s ≡ (ok tt, t) → Admitted r
  handle-Admitted r t h = (Needs-Admitted r).at tt t h
