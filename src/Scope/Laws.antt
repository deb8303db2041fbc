-- ===== src/Scope/Laws.antt =====
-- What a guard admits, and what the guards built from a ticket guarantee.
use platform_mihomo_service.Base.{
  ℕ, String, true, List, [], ◌∷◌, ◌≡◌, ◌≢◌, ◌↔◌, ◌⊎◌, inl, inr, refl, ◌==◌, eq_iff, any, All, arith,
}
use platform_mihomo_service.Outcome.{Result, ok, err}
use platform_mihomo_service.Biz.{ServiceTicketClaims}
use platform_mihomo_service.AccountKey.{binding_id_from_platform_account_id}
use platform_mihomo_service.Scope.{
  ScopeGuard, require_action, require_platform_account_id, require_binding_wide, require_profile,
  require_actions, to_scope_guard, scoped_guard, scoped_guard_for_platform_account,
}

-- A text is among the members of a list.
abbrev pub Holds : String → List String → Type 0
Holds a [] = ⊥
Holds a (x ∷ xs) = (x ≡ a) ⊎ Holds a xs

any-Holds : (a : String) (xs : List String) → any (λ x. x == a) xs ≡ true → Holds a xs
any-Holds a [] h = cc
any-Holds a (x ∷ xs) h = ground (arith, eq_iff x a, any-Holds a xs)

Holds-any : (a : String) (xs : List String) → Holds a xs → any (λ x. x == a) xs ≡ true
Holds-any a [] h = absurd h
Holds-any a (x ∷ xs) (inl e) = ground (arith, eq_iff x a)
Holds-any a (x ∷ xs) (inr h) = ground (arith, Holds-any a xs h)

-- An account key passes the guard exactly when it carries the guard's own binding id, which is
-- not zero.
pub require_platform_account_id_iff :
    (g : ScopeGuard) (key : String)
    → (require_platform_account_id g key ≡ ok tt)
      ↔ ((binding_id_from_platform_account_id key ≡ ok g.binding_id) × (g.binding_id ≢ 0))
unfolding require_platform_account_id
require_platform_account_id_iff g key = go (binding_id_from_platform_account_id key) refl
  where
    go :
        (r : Result ℕ)
        → binding_id_from_platform_account_id key ≡ r
        → (require_platform_account_id g key ≡ ok tt)
          ↔ ((binding_id_from_platform_account_id key ≡ ok g.binding_id) × (g.binding_id ≢ 0))
    go (ok n) e = ground arith
    go (err x) e = ground arith

-- A profile passes the guard exactly when it belongs to the guard's binding, which is not zero,
-- and the ticket names no profile or names this one.
pub require_profile_iff :
    (g : ScopeGuard) (binding_id profile_id : ℕ)
    → (require_profile g binding_id profile_id ≡ ok tt) ↔ (
        (g.binding_id ≢ 0)
        × (g.binding_id ≡ binding_id)
        × ((g.profile_id ≡ 0) ⊎ (g.profile_id ≡ profile_id)))
unfolding require_profile
require_profile_iff g b p = ground arith

pub require_binding_wide_iff :
    (g : ScopeGuard) → (require_binding_wide g ≡ ok tt) ↔ (g.profile_id ≡ 0)
unfolding require_binding_wide
require_binding_wide_iff g = ground arith

pub require_action_iff :
    (g : ScopeGuard) (action : String)
    → (require_action g action ≡ ok tt) ↔ Holds action g.allowed_actions
unfolding require_action
require_action_iff g a =
    ground (arith, any-Holds a g.allowed_actions, Holds-any a g.allowed_actions)

require_actions_iff :
    (g : ScopeGuard) (actions : List String)
    → (require_actions g actions ≡ ok tt) ↔ All (λ a. Holds a g.allowed_actions) actions
unfolding require_actions require_action
require_actions_iff g [] = ground arith
require_actions_iff g (a ∷ actions) = ground (
  arith,
  require_actions_iff g actions,
  any-Holds a g.allowed_actions,
  Holds-any a g.allowed_actions,
)

-- The guard that stands for a ticket.
abbrev pub guard_of : ServiceTicketClaims → ScopeGuard
guard_of c = record {
  allowed_actions = c.scopes;
  binding_id = c.binding_id;
  profile_id = c.profile_id;
}

-- The guard of a ticket for some actions is issued exactly when the ticket is for this platform and
-- its scopes hold every action; it carries the ticket's scopes, binding and profile.
pub scoped_guard_iff :
    (c : ServiceTicketClaims) (actions : List String) (g : ScopeGuard)
    → (scoped_guard c actions ≡ ok g)
      ↔ ((c.platform ≡ "mihomo") × All (λ a. Holds a c.scopes) actions × (g ≡ guard_of c))
unfolding scoped_guard to_scope_guard
scoped_guard_iff c actions g =
    ground (arith, eq_iff c.platform "mihomo", require_actions_iff (guard_of c) actions)

-- The guard for an account is issued exactly when, moreover, the account key carries the ticket's
-- binding id, which is not zero.
pub scoped_guard_for_platform_account_iff :
    (c : ServiceTicketClaims) (key : String) (actions : List String) (g : ScopeGuard)
    → (scoped_guard_for_platform_account c key actions ≡ ok g) ↔ (
        (c.platform ≡ "mihomo")
        × All (λ a. Holds a c.scopes) actions
        × (binding_id_from_platform_account_id key ≡ ok c.binding_id)
        × (c.binding_id ≢ 0)
        × (g ≡ guard_of c))
unfolding scoped_guard_for_platform_account to_scope_guard
scoped_guard_for_platform_account_iff c key actions g = ground (
  arith,
  eq_iff c.platform "mihomo",
  require_actions_iff (guard_of c) actions,
  require_platform_account_id_iff (guard_of c) key,
)
