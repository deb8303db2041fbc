-- ===== src/Service/Permits.antt =====
-- What a ticket must permit for the start of a handler to succeed.
use platform_mihomo_service.Base.{String, List, [], ◌∷◌, ◌≡◌, ◌≢◌, All, sym, ap, subst}
use platform_mihomo_service.Outcome.{Error, ok, M, lift, ◌>>=◌}
use platform_mihomo_service.Outcome.Laws.{>>=-eq-ok, lift-eq-ok}
use platform_mihomo_service.Outcome.Needs.{Needs, Needs-bind, Needs-map}
use platform_mihomo_service.Biz.{ServiceTicketClaims}
use platform_mihomo_service.Biz.Repositories.{Ports}
use platform_mihomo_service.AccountKey.{binding_id_from_platform_account_id}
use platform_mihomo_service.Scope.{
  ScopeGuard, scoped_guard, require_action, require_platform_account_id, require_binding_wide,
  scoped_guard_for_platform_account,
}
use platform_mihomo_service.Scope.Laws.{
  Holds, guard_of, scoped_guard_iff, require_action_iff, require_platform_account_id_iff,
  require_binding_wide_iff, scoped_guard_for_platform_account_iff,
}
use platform_mihomo_service.Usecase.ManagementUsecase.{require_scope}
use platform_mihomo_service.Service.Mapper.{
  Service, with_error, mapped_check, verify_service_ticket,
}
use platform_mihomo_service.Service.Authorisation.{
  Allows, AllowsAccount, with_error-eq-ok, mapped_check-eq-ok,
}

-- The account key carries the guard's binding id, which is not zero.
abbrev pub ForAccount : ScopeGuard → String → Type 0
ForAccount g key = (binding_id_from_platform_account_id key ≡ ok g.binding_id) × (g.binding_id ≢ 0)

module _ {S : Type 0} {s : S} where
  pub Needs-with_error :
      {A : Type 0} {R : Type 0} (f : Error → Error) (m : M S A)
      → Needs s R m
      → Needs s R (with_error f m)
  Needs-with_error f m k = record { at = λ a t h. k.at a t (with_error-eq-ok f m s t a h) }

  pub Needs-account :
      (g : ScopeGuard) (key : String)
      → Needs s (ForAccount g key) (mapped_check {S = S} (require_platform_account_id g key))
  Needs-account g key = record {
    at = λ a t h.
        (require_platform_account_id_iff g key).0
          (mapped_check-eq-ok (require_platform_account_id g key) s t a h).0;
  }

  pub Needs-action :
      (g : ScopeGuard) (action : String)
      → Needs s (Holds action g.allowed_actions) (mapped_check {S = S} (require_action g action))
  Needs-action g action = record {
    at = λ a t h.
        (require_action_iff g action).0 (mapped_check-eq-ok (require_action g action) s t a h).0;
  }

  pub Needs-wide :
      (g : ScopeGuard) → Needs s (g.profile_id ≡ 0) (mapped_check {S = S} (require_binding_wide g))
  Needs-wide g = record {
    at = λ a t h.
        (require_binding_wide_iff g).0 (mapped_check-eq-ok (require_binding_wide g) s t a h).0;
  }

  -- The scoped calls of the management use case.
  pub Needs-require_scope :
      (p : Ports S) (g : ScopeGuard) (key : String)
      → Needs s (ForAccount g key × (g.profile_id ≡ 0)) (require_scope p g key)
  unfolding require_scope
  Needs-require_scope p g key =
      Needs-bind (lift (require_platform_account_id g key)) (λ _. lift (require_binding_wide g))
        (λ a u first. record {
          at = λ b t h. (
            (require_platform_account_id_iff g key).0
                (lift-eq-ok (require_platform_account_id g key) s first).0,
            (require_binding_wide_iff g).0 (lift-eq-ok (require_binding_wide g) u h).0,
          );
        })

module _ {S K : Type 0} (svc : Service S K) where
  -- The ticket is verified, and its claims are of the given kind.
  abbrev pub Verified : String → S → (ServiceTicketClaims → Type 0) → Type 0
  Verified raw s Kind =
      (c : ServiceTicketClaims) × ((verify_service_ticket svc raw s).0 ≡ ok c) × Kind c

  module _ {B : Type 0} where
    pub Needs-ticket :
        {Kind : ServiceTicketClaims → Type 0} (raw : String) (f : ServiceTicketClaims → M S B)
        (s : S)
        → ((c : ServiceTicketClaims) (u : S) → Needs u (Kind c) (f c))
        → Needs s (Verified raw s Kind) (verify_service_ticket svc raw >>= f)
    Needs-ticket raw f s k = record {
      at = λ b t h.
          let (c, u, read, rest) = >>=-eq-ok (verify_service_ticket svc raw) f s h in
          (c, ap (λ x. x.0) read, (k c u).at b t rest);
    }

    -- The guard that is built from the claims is the ticket's.
    pub Needs-guard :
        {R : Type 0} (c : ServiceTicketClaims) (actions : List String) (f : ScopeGuard → M S B)
        (s : S)
        → ((c.platform ≡ "mihomo")
            → All (λ a. Holds a c.scopes) actions
            → Needs s R (f (guard_of c)))
        → Needs s R (mapped_check (scoped_guard c actions) >>= f)
    Needs-guard {R} c actions f s k = Needs-bind (mapped_check (scoped_guard c actions)) f (λ g u h.
        let (made, same_state) = mapped_check-eq-ok (scoped_guard c actions) s u g h in
        let (platform, holds, same) = (scoped_guard_iff c actions g).0 made in
        subst (λ x. Needs x R (f g)) (sym same_state)
          (subst (λ x. Needs s R (f x)) (sym same) (k platform holds)))

    pub Needs-guard_for_account :
        {R : Type 0} (c : ServiceTicketClaims) (key action : String) (f : ScopeGuard → M S B)
        (s : S)
        → (AllowsAccount c key action → Needs s R (f (guard_of c)))
        → Needs s R (mapped_check (scoped_guard_for_platform_account c key (action ∷ [])) >>= f)
    Needs-guard_for_account {R} c key action f s k =
        let made_of = scoped_guard_for_platform_account c key (action ∷ []) in
        Needs-bind (mapped_check made_of) f (λ g u h.
          let (made, same_state) = mapped_check-eq-ok made_of s u g h in
          let (platform, (holds, _), account, non_zero, same) =
            (scoped_guard_for_platform_account_iff c key (action ∷ []) g).0 made in
          subst (λ x. Needs x R (f g)) (sym same_state)
            (subst (λ x. Needs s R (f x)) (sym same) (k ((platform, holds), account, non_zero))))

    -- A handler that builds the ticket's guard for an action, and asks it for an account, which the
    -- claims may name.
    pub Needs-scoped_at :
        (raw : String) (key : ServiceTicketClaims → String) (action : String)
        (f : ServiceTicketClaims → ScopeGuard → M S B) (s : S)
        → ((c : ServiceTicketClaims) (g : ScopeGuard) (u : S)
            → Needs u (ForAccount g (key c) × (g.profile_id ≡ 0)) (f c g))
        → Needs s (Verified raw s (λ c. AllowsAccount c (key c) action × (c.profile_id ≡ 0))) (
            verify_service_ticket svc raw >>= λ c.
            mapped_check (scoped_guard c (action ∷ [])) >>= f c)
    Needs-scoped_at raw key action f s k =
        Needs-ticket raw (λ c. mapped_check (scoped_guard c (action ∷ [])) >>= f c) s
          (λ c u. Needs-guard c (action ∷ []) (f c) u (λ platform holds.
            Needs-map (f c (guard_of c))
              (λ needs. (((platform, holds.0), needs.0.0, needs.0.1), needs.1))
              (k c (guard_of c) u)))

    pub Needs-scoped :
        (raw key action : String) (f : ServiceTicketClaims → ScopeGuard → M S B) (s : S)
        → ((c : ServiceTicketClaims) (g : ScopeGuard) (u : S)
            → Needs u (ForAccount g key × (g.profile_id ≡ 0)) (f c g))
        → Needs s (Verified raw s (λ c. AllowsAccount c key action × (c.profile_id ≡ 0))) (
            verify_service_ticket svc raw >>= λ c.
            mapped_check (scoped_guard c (action ∷ [])) >>= f c)
    Needs-scoped raw key action f s k = Needs-scoped_at raw (λ c. key) action f s k

    -- What is asked of the guard that is made of the claims.
    pub Needs-guarded :
        (Kind : ScopeGuard → Type 0) (c : ServiceTicketClaims) (actions : List String)
        (f : ScopeGuard → M S B) (s : S)
        → ((g : ScopeGuard) (u : S) → Needs u (Kind g) (f g))
        → Needs s
            ((c.platform ≡ "mihomo") × All (λ a. Holds a c.scopes) actions × Kind (guard_of c))
            (mapped_check (scoped_guard c actions) >>= f)
    Needs-guarded Kind c actions f s k = Needs-guard c actions f s (λ platform holds.
        Needs-map (f (guard_of c)) (λ n. (platform, holds, n)) (k (guard_of c) s))

    pub Needs-guarded_wide :
        (c : ServiceTicketClaims) (action : String) (f : ScopeGuard → M S B) (s : S)
        → ((g : ScopeGuard) (u : S) → Needs u (g.profile_id ≡ 0) (f g))
        → Needs s
            (Allows c action × (c.profile_id ≡ 0))
            (mapped_check (scoped_guard c (action ∷ [])) >>= f)
    Needs-guarded_wide c action f s k =
        Needs-map (mapped_check (scoped_guard c (action ∷ [])) >>= f) (λ n. ((n.0, n.1.0), n.2))
          (Needs-guarded (λ g. g.profile_id ≡ 0) c (action ∷ []) f s k)

    -- A handler that asks of the ticket's guard only that it is not limited to a profile.
    pub Needs-scoped_wide :
        (raw action : String) (f : ServiceTicketClaims → ScopeGuard → M S B) (s : S)
        → ((c : ServiceTicketClaims) (g : ScopeGuard) (u : S) → Needs u (g.profile_id ≡ 0) (f c g))
        → Needs s (Verified raw s (λ c. Allows c action × (c.profile_id ≡ 0))) (
            verify_service_ticket svc raw >>= λ c.
            mapped_check (scoped_guard c (action ∷ [])) >>= f c)
    Needs-scoped_wide raw action f s k =
        Needs-ticket raw (λ c. mapped_check (scoped_guard c (action ∷ [])) >>= f c) s
          (λ c u. Needs-guarded_wide c action (f c) u (k c))

    -- The same behind the guard for an account.
    pub Needs-scoped-ForAccount :
        (raw key action : String) (f : ServiceTicketClaims → ScopeGuard → M S B) (s : S)
        → ((c : ServiceTicketClaims) (g : ScopeGuard) (u : S)
            → Needs u (ForAccount g key × (g.profile_id ≡ 0)) (f c g))
        → Needs s (Verified raw s (λ c. AllowsAccount c key action × (c.profile_id ≡ 0))) (
            verify_service_ticket svc raw >>= λ c.
            mapped_check (scoped_guard_for_platform_account c key (action ∷ [])) >>= f c)
    Needs-scoped-ForAccount raw key action f s k =
        Needs-ticket raw
          (λ c. mapped_check (scoped_guard_for_platform_account c key (action ∷ [])) >>= f c) s
          (λ c u. Needs-guard_for_account c key action (f c) u (λ allows.
            Needs-map (f c (guard_of c)) (λ needs. (allows, needs.1)) (k c (guard_of c) u)))
