-- ===== src/Wiring/Requests/Tests.antt =====
-- Requests over the memory.
use platform_mihomo_service.Base.{ℕ, true, some, List, [], ◌∷◌, ◌≡◌, ◌≤◌, refl}
use platform_mihomo_service.Outcome.{Result, ok}
use platform_mihomo_service.Store.Laws.{View}
use platform_mihomo_service.Store.Memory.{memory, memory-IsWorld, empty_view}
use platform_mihomo_service.AccountKey.{binding_id_from_platform_account_id}
use platform_mihomo_service.Scope.{scoped_guard, require_binding_wide, require_platform_account_id}
use platform_mihomo_service.Data.GrantInvalidationRepo.{minimum_version, upsert}
use platform_mihomo_service.Data.CredentialRepo.{credential_repo}
use platform_mihomo_service.Data.ManagementRepo.{management_repo}
use platform_mihomo_service.Data.ArtifactRepo.{delete_by_binding_id}
use platform_mihomo_service.Ticket.{claims_of, verify_context}
use platform_mihomo_service.Ticket.Example.{known_tickets, verifier, demanding_view}
use platform_mihomo_service.Usecase.ManagementUsecase.{delete_credential_with_scope}
use platform_mihomo_service.Service.Mapper.{verify_service_ticket}
use platform_mihomo_service.Service.AccountService as Account
use platform_mihomo_service.Service.PlatformService.{GenericService}
use platform_mihomo_service.Service.PlatformService as Platform
use platform_mihomo_service.Service.Description.{Entries}
use platform_mihomo_service.Service.Description
use platform_mihomo_service.Service.Requests.{
  Request, delete_credential, list_profiles, invalidate_consumer_grant, describe_platform, handle,
  serve,
}
use platform_mihomo_service.Service.Requests.Admitted.{Admitted, handle-Admitted}
use platform_mihomo_service.Wiring.{ports, service, generic_service}
use platform_mihomo_service.Wiring.Fixtures.{
  no_decoder, invalidation, invalidated_view, consumer, bound_view, deletion,
}
use platform_mihomo_service.Wiring.Requests.{handle-reading, invalidated-serve}

abbrev server : GenericService View ℕ
server = generic_service memory known_tickets no_decoder verifier

-- A library that takes every schema.
abbrev plain : Entries → Result Entries
plain entries = ok entries

-- A deletion that finds no credential, and an invalidation of a lower version.
abbrev requests : List Request
requests =
    delete_credential (some deletion)
    ∷ describe_platform
    ∷ (invalidate_consumer_grant (some (record invalidation { minimum_grant_version = 2 })) ∷ [])

deleted :
    handle server plain (delete_credential (some deletion)) bound_view ≡ (ok tt, demanding_view)
unfolding handle Account.delete_credential verify_service_ticket verify_context claims_of
    scoped_guard require_binding_wide binding_id_from_platform_account_id
    delete_credential_with_scope require_platform_account_id ports credential_repo management_repo
    delete_by_binding_id
deleted = refl

handle-Admitted_example : Admitted server plain bound_view (delete_credential (some deletion))
handle-Admitted_example =
    handle-Admitted server plain bound_view (delete_credential (some deletion)) demanding_view
      deleted

handle-reading_example :
    (handle server plain (list_profiles (some deletion)) bound_view).1.tables ≡ bound_view.tables
handle-reading_example =
    handle-reading (λ v. v) memory memory-IsWorld known_tickets verifier refl
      (λ raw audience s. refl) no_decoder plain (list_profiles (some deletion)) tt bound_view

accepted_after :
    verify_service_ticket
      (service memory known_tickets verifier)
      "consumer"
      (serve server plain requests invalidated_view)
    ≡ (ok consumer, invalidated_view)
unfolding serve handle Description.describe_platform Account.delete_credential
    Platform.invalidate_consumer_grant verify_service_ticket verify_context minimum_version
    claims_of consumer scoped_guard require_binding_wide binding_id_from_platform_account_id
    delete_credential_with_scope require_platform_account_id ports credential_repo upsert
accepted_after = refl

invalidated :
    Platform.invalidate_consumer_grant server (some invalidation) empty_view
    ≡ (ok true, invalidated_view)
unfolding Platform.invalidate_consumer_grant verify_service_ticket verify_context claims_of
    scoped_guard upsert require_binding_wide
invalidated = refl

invalidated-serve_example : 3 ≤ consumer.grant_version
unfolding claims_of consumer
invalidated-serve_example =
    invalidated-serve (λ v. v) memory memory-IsWorld known_tickets verifier refl
      (λ raw audience s. refl) no_decoder plain invalidation empty_view invalidated_view true
      invalidated requests "consumer" consumer invalidated_view accepted_after refl refl refl
