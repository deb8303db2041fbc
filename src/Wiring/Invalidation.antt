-- ===== src/Wiring/Invalidation.antt =====
-- The invalidation of a consumer's grant, and what it does to the consumer's later tickets.
mod Tests
use platform_mihomo_service.Base.{
  ℕ, String, Bool, true, not, ◌&&◌, some, [], ◌∷◌, ◌≡◌, ◌≤◌, ◌⊎◌, sym, ap, ◌∙◌, subst, eqb, eqb_iff,
  ◌==◌, arith, eq_iff,
}
use platform_mihomo_service.Outcome.{
  Result, ok, pure, guard, ◌>>=◌, status, invalid_argument, permission_denied, internal,
}
use platform_mihomo_service.Outcome.Laws.{>>=-eq-ok, guard->>=-eq-ok}
use platform_mihomo_service.Biz.{ServiceTicketClaims}
use platform_mihomo_service.Store.{World}
use platform_mihomo_service.Store.Laws.{View, IsWorld}
use platform_mihomo_service.Scope.{ScopeGuard, scoped_guard, require_binding_wide}
use platform_mihomo_service.Scope.Laws.{require_binding_wide_iff}
use platform_mihomo_service.Data.GrantInvalidationRepo.{minimum_version, upsert}
use platform_mihomo_service.Data.GrantInvalidationRepo.Demands.{Demands}
use platform_mihomo_service.Data.GrantInvalidationRepo.Minimum.{upsert-Demands}
use platform_mihomo_service.Ticket.{Parser, TicketVerifier, key_of, verify_context}
use platform_mihomo_service.Ticket.Revocation.{verify_context-Demands}
use platform_mihomo_service.Service.Mapper.{
  mapped_check, with_error, map_ticket_verification_error, verify_service_ticket,
  service_ticket_audience,
}
use platform_mihomo_service.Service.Authorisation.{
  with_error-eq-ok, mapped_check->>=-eq-ok, scoped_guard-Allows, Allows,
}
use platform_mihomo_service.Service.PlatformService.{
  GenericCredentialPayload, InvalidateConsumerGrantRequest, consumer_grant_invalidate_scope,
  invalidate_consumer_grant, invalidate_with_claims, record_invalidation,
}
use platform_mihomo_service.Wiring.{service, generic_service}

module _ {S K : Type 0} (view : S → View) (w : World S) (ok_world : IsWorld view w)
    (parse : Parser S K) (v : TicketVerifier S K)
    (configured : v.minimum_version ≡ some (minimum_version w))
    (keeps : (raw audience : String) (s : S)
      → view (parse raw (key_of v) audience v.issuer s).1 ≡ view s) where
  -- What the part behind the verification checks, before it records the version.
  allowed :
      (decode : String → Result GenericCredentialPayload) (req : InvalidateConsumerGrantRequest)
      (c : ServiceTicketClaims) (u s' : S) (done : Bool)
      → invalidate_with_claims (generic_service w parse decode v) req c u ≡ (ok done, s')
      → ((c.actor_type ≡ "admin") ⊎ (c.actor_type ≡ "user"))
        × (c.binding_id ≡ req.binding_id)
        × Allows c consumer_grant_invalidate_scope
        × (c.profile_id ≡ 0)
        × (upsert w req.binding_id req.consumer req.minimum_grant_version u ≡ (ok tt, s'))
  unfolding invalidate_with_claims record_invalidation
  allowed decode req c u s' done h =
      let store = upsert w req.binding_id req.consumer req.minimum_grant_version in
      let record_it =
        with_error (λ _. status internal "failed to invalidate consumer grant") store in
      let finish = record_it >>= λ _. pure true in
      let wide =
        λ (g : ScopeGuard). mapped_check {S = S} (require_binding_wide g) >>= λ _. finish in
      let scoped = mapped_check (scoped_guard c (consumer_grant_invalidate_scope ∷ [])) >>= wide in
      let binding =
        guard {S = S} (eqb c.binding_id req.binding_id)
          (status permission_denied "ticket binding_id does not match request")
        >>= λ _. scoped in
      let (is_actor, h1) =
        guard->>=-eq-ok (not (not (c.actor_type == "admin") && not (c.actor_type == "user")))
          (status permission_denied "only admin or user tickets can invalidate grants")
          (λ _. binding) u h in
      let (same, h2) = guard->>=-eq-ok (eqb c.binding_id req.binding_id) _ (λ _. scoped) u h1 in
      let (g, guarded, h3) =
        mapped_check->>=-eq-ok (scoped_guard c (consumer_grant_invalidate_scope ∷ [])) wide u h2 in
      let (tt, is_wide, h4) = mapped_check->>=-eq-ok (require_binding_wide g) (λ _. finish) u h3 in
      let (tt, u', recorded, h5) = >>=-eq-ok record_it (λ _. pure true) u h4 in
      let (allows, is_guard) = scoped_guard-Allows c consumer_grant_invalidate_scope g guarded in
      let stored = with_error-eq-ok _ store u u' tt recorded in
      (
        ground (arith, eq_iff c.actor_type "admin", eq_iff c.actor_type "user"),
        (eqb_iff c.binding_id req.binding_id).0 same,
        allows,
        sym (ap (λ (x : ScopeGuard). x.profile_id) is_guard)
            ∙ (require_binding_wide_iff g).0 is_wide,
        stored ∙ ap (λ x. (ok tt, x)) (ap (λ x. x.1) h5),
      )

  -- `InvalidateConsumerGrant` succeeds only on a ticket of an admin or a user, for this platform
  -- and for the request's binding, that holds the scope and is not limited to a profile; the
  -- database then demands the requested version of the binding and the consumer.
  pub invalidate_consumer_grant-Demands :
      (decode : String → Result GenericCredentialPayload) (req : InvalidateConsumerGrantRequest)
      (s s' : S) (done : Bool)
      → invalidate_consumer_grant (generic_service w parse decode v) (some req) s ≡ (ok done, s')
      → (c : ServiceTicketClaims) × ((verify_service_ticket
            (service w parse v)
            req.service_ticket
            s).0
          ≡ ok c)
        × ((c.actor_type ≡ "admin") ⊎ (c.actor_type ≡ "user"))
        × (c.binding_id ≡ req.binding_id)
        × Allows c consumer_grant_invalidate_scope
        × (c.profile_id ≡ 0)
        × Demands w.collate req.binding_id
            (w.collate req.consumer)
            req.minimum_grant_version
            (view s').tables.consumer_grant_invalidations
  unfolding invalidate_consumer_grant
  invalidate_consumer_grant-Demands decode req s s' done h =
      let gs = generic_service w parse decode v in
      let verify = verify_service_ticket (service w parse v) req.service_ticket in
      let checked = verify >>= invalidate_with_claims gs req in
      let version =
        guard {S = S} (not (eqb req.minimum_grant_version 0))
          (status invalid_argument "minimum_grant_version is required")
        >>= λ _. checked in
      let consumer =
        guard {S = S} (not (req.consumer == "")) (status invalid_argument "consumer is required")
        >>= λ _. version in
      let (_, h1) =
        guard->>=-eq-ok (not (eqb req.binding_id 0))
          (status invalid_argument "binding_id is required") (λ _. consumer) s h in
      let (_, h2) = guard->>=-eq-ok (not (req.consumer == "")) _ (λ _. version) s h1 in
      let (_, h3) = guard->>=-eq-ok (not (eqb req.minimum_grant_version 0)) _ (λ _. checked) s h2 in
      let (c, u, read, h4) = >>=-eq-ok verify (invalidate_with_claims gs req) s h3 in
      let (actor, binding, allows, wide, stored) = allowed decode req c u s' done h4 in
      (
        c,
        ap (λ x. x.0) read,
        actor,
        binding,
        allows,
        wide,
        upsert-Demands view w ok_world req.binding_id req.consumer req.minimum_grant_version u s'
            stored,
      )

  -- A ticket that is accepted where the database demands a version of its binding and consumer has
  -- at least this version.
  pub Demands-verify :
      (s s' : S) (raw : String) (r : ServiceTicketClaims) (b : ℕ) (c : String) (minimum : ℕ)
      → Demands w.collate b (w.collate c) minimum (view s).tables.consumer_grant_invalidations
      → verify_service_ticket (service w parse v) raw s ≡ (ok r, s')
      → r.actor_type ≡ "consumer"
      → r.binding_id ≡ b
      → r.consumer ≡ c
      → minimum ≤ r.grant_version
  unfolding verify_service_ticket
  Demands-verify s s' raw r b c minimum d accepted actor binding consumer =
      let rows = (view s).tables.consumer_grant_invalidations in
      let same_binding =
        subst (λ n. Demands w.collate n (w.collate c) minimum rows) (sym binding) d in
      let of_ticket =
        subst (λ k. Demands w.collate r.binding_id (w.collate k) minimum rows) (sym consumer)
          same_binding in
      verify_context-Demands view w ok_world v parse configured keeps raw service_ticket_audience s
        s' r minimum of_ticket
        (with_error-eq-ok map_ticket_verification_error
          (verify_context v parse raw service_ticket_audience) s s' r accepted)
        actor

  -- After an invalidation, no ticket of the consumer for the binding with a lower version is
  -- accepted by any handler: an accepted one has at least the requested version.
  invalidated_verify :
      (decode : String → Result GenericCredentialPayload) (req : InvalidateConsumerGrantRequest)
      (s s' s'' : S) (done : Bool) (raw : String) (r : ServiceTicketClaims)
      → invalidate_consumer_grant (generic_service w parse decode v) (some req) s ≡ (ok done, s')
      → verify_service_ticket (service w parse v) raw s' ≡ (ok r, s'')
      → r.actor_type ≡ "consumer"
      → r.binding_id ≡ req.binding_id
      → r.consumer ≡ req.consumer
      → req.minimum_grant_version ≤ r.grant_version
  invalidated_verify decode req s s' s'' done raw r h accepted actor binding consumer =
      let (c, _, _, _, _, _, d) = invalidate_consumer_grant-Demands decode req s s' done h in
      Demands-verify s' s'' raw r req.binding_id req.consumer req.minimum_grant_version d accepted
        actor binding consumer
