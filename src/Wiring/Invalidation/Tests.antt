-- ===== src/Wiring/Invalidation/Tests.antt =====
-- InvalidateConsumerGrant over the memory, and a ticket after it.
use platform_mihomo_service.Base.{true, some, ◌≡◌, ◌⊎◌, refl}
use platform_mihomo_service.Outcome.{ok}
use platform_mihomo_service.Biz.{ServiceTicketClaims}
use platform_mihomo_service.Store.Memory.{fold, memory, memory-IsWorld, empty_view}
use platform_mihomo_service.Scope.{scoped_guard, require_binding_wide}
use platform_mihomo_service.Data.GrantInvalidationRepo.{upsert}
use platform_mihomo_service.Data.GrantInvalidationRepo.Demands.{Demands}
use platform_mihomo_service.Ticket.{claims_of, verify_context}
use platform_mihomo_service.Ticket.Example.{known_tickets, verifier}
use platform_mihomo_service.Service.Mapper.{verify_service_ticket}
use platform_mihomo_service.Service.Authorisation.{Allows}
use platform_mihomo_service.Service.PlatformService.{
  consumer_grant_invalidate_scope, invalidate_consumer_grant,
}
use platform_mihomo_service.Wiring.Fixtures.{no_decoder, invalidation, invalidated_view}
use platform_mihomo_service.Wiring.{service, generic_service}
use platform_mihomo_service.Wiring.Invalidation.{invalidate_consumer_grant-Demands}

invalidated :
    invalidate_consumer_grant
      (generic_service memory known_tickets no_decoder verifier)
      (some invalidation)
      empty_view
    ≡ (ok true, invalidated_view)
unfolding invalidate_consumer_grant verify_service_ticket verify_context claims_of scoped_guard
    upsert require_binding_wide
invalidated = refl

invalidate_consumer_grant-Demands_example :
    (c : ServiceTicketClaims) × ((verify_service_ticket
        (service memory known_tickets verifier)
        "owner"
        empty_view).0
      ≡ ok c)
    × ((c.actor_type ≡ "admin") ⊎ (c.actor_type ≡ "user"))
    × (c.binding_id ≡ 7)
    × Allows c consumer_grant_invalidate_scope
    × (c.profile_id ≡ 0)
    × Demands fold 7 "bot" 3 invalidated_view.tables.consumer_grant_invalidations
invalidate_consumer_grant-Demands_example =
    invalidate_consumer_grant-Demands (λ v. v) memory memory-IsWorld known_tickets verifier refl
      (λ raw audience s. refl) no_decoder invalidation empty_view invalidated_view true invalidated
