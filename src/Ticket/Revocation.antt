-- ===== src/Ticket/Revocation.antt =====
-- A verifier that reads the invalidations of the database refuses the tickets below the demanded
-- version.
use platform_mihomo_service.Base.{ℕ, String, Bool, some, refl, ◌≡◌, ◌≤◌, sym, ◌∙◌, ap, subst, arith}
use platform_mihomo_service.Outcome.{ok, pure, ◌>>=◌, guard, external}
use platform_mihomo_service.Outcome.Laws.{>>=_keeps, guard_keeps}
use platform_mihomo_service.Biz.{ServiceTicketClaims}
use platform_mihomo_service.Store.{World}
use platform_mihomo_service.Store.Laws.{View, IsWorld}
use platform_mihomo_service.Data.GrantInvalidationRepo.{minimum_version}
use platform_mihomo_service.Data.GrantInvalidationRepo.Demands.{Demands}
use platform_mihomo_service.Data.GrantInvalidationRepo.Minimum.{
  minimum_version_keeps, minimum_version-Demands,
}
use platform_mihomo_service.Ticket.{
  TicketClaims, check_claims, check_consumer, check_version, Parser, TicketVerifier, key_of,
  claims_of, verify_context,
}
use platform_mihomo_service.Ticket.Laws.{verify_context-eq-ok, check_claims-minimum}

module _ {S K : Type 0} (view : S → View) (w : World S) (ok_world : IsWorld view w)
    (v : TicketVerifier S K) (parse : Parser S K) where
  check_claims_keeps :
      (c : TicketClaims)
      → v.minimum_version ≡ some (minimum_version w)
      → (s : S) → view (check_claims v c s).1 ≡ view s
  unfolding check_claims check_consumer check_version
  check_claims_keeps c configured s =
      ground (arith, minimum_version_keeps view w ok_world c.binding_id c.consumer s)

  -- Where the verifier reads the database's minimum versions and the parser leaves the database as
  -- it is, an accepted ticket of a consumer has at least the version that the database demands of
  -- its binding and consumer.
  pub verify_context-Demands :
      (configured : v.minimum_version ≡ some (minimum_version w))
      (keeps : (raw audience : String) (s : S)
        → view (parse raw (key_of v) audience v.issuer s).1 ≡ view s)
      (raw audience : String) (s s' : S) (r : ServiceTicketClaims) (minimum : ℕ)
      → Demands w.collate r.binding_id
          (w.collate r.consumer)
          minimum
          (view s).tables.consumer_grant_invalidations
      → verify_context v parse raw audience s ≡ (ok r, s')
      → r.actor_type ≡ "consumer"
      → minimum ≤ r.grant_version
  unfolding claims_of
  verify_context-Demands configured keeps raw audience s s' r minimum d h consumer =
      let (c, u, parsed, checked, same) = verify_context-eq-ok v parse raw audience s s' r h in
      let (n, u', read, high) =
        check_claims-minimum v c (minimum_version w) u s' configured
          (sym (ap (λ (x : ServiceTicketClaims). x.actor_type) same) ∙ consumer) checked in
      let kept : view s ≡ view u = sym (keeps raw audience s) ∙ ap (λ x. view x.1) parsed in
      let there =
        subst
          (λ x.
            Demands w.collate r.binding_id (w.collate r.consumer) minimum
              x.tables.consumer_grant_invalidations)
          kept d in
      let at_claims =
        subst
          (λ (x : ServiceTicketClaims).
            Demands w.collate x.binding_id (w.collate x.consumer) minimum
              (view u).tables.consumer_grant_invalidations)
          same there in
      let low =
        minimum_version-Demands view w ok_world c.binding_id c.consumer minimum n u u' at_claims
          read in
      let version : r.grant_version ≡ c.grant_version =
        ap (λ (x : ServiceTicketClaims). x.grant_version) same in
      ground arith

  -- The verification of a ticket leaves the database and the cache as they are.
  pub verify_context_keeps :
      v.minimum_version ≡ some (minimum_version w)
      → ((raw audience : String) (s : S)
          → view (parse raw (key_of v) audience v.issuer s).1 ≡ view s)
      → (raw audience : String) (s : S) → view (verify_context v parse raw audience s).1 ≡ view s
  unfolding verify_context
  verify_context_keeps configured keeps raw audience s =
      let checked = λ (c : TicketClaims). check_claims v c >>= λ _. pure (claims_of c audience) in
      let valid = λ (b : Bool). guard {S = S} b (external "invalid service ticket") in
      >>=_keeps view (parse raw (key_of v) audience v.issuer)
        (λ (x : TicketClaims × Bool). valid x.1 >>= λ _. checked x.0) (keeps raw audience)
        (λ (x : TicketClaims × Bool).
          >>=_keeps view (valid x.1) (λ _. checked x.0) (guard_keeps view x.1 _)
            (λ _.
              >>=_keeps view (check_claims v x.0) (λ _. pure (claims_of x.0 audience))
                (check_claims_keeps x.0 configured) (λ _ u. refl)))
        s
