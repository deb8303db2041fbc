-- ===== src/Scope.antt =====
-- internal/usecase/scope_guard.go, and the guards that the handlers build from a ticket's claims:
-- toScopeGuard of internal/service/binding_mapper.go, scopedGuard and
-- scopedGuardForPlatformAccount of internal/service/mihomo_account.go.
pub mod Action
pub mod Laws
mod Tests
use platform_mihomo_service.Base.{
  ℕ, String, Bool, true, false, not, ◌&&◌, ◌||◌, List, [], ◌∷◌, eqb, ◌==◌, any, if◌then◌else◌,
}
use platform_mihomo_service.Outcome.{
  Result, ok, err, action_scope_denied, binding_scope_denied, profile_scope_denied,
}
use platform_mihomo_service.Outcome.Check.{◌>>=◌, ◌>>◌, guard}
use platform_mihomo_service.Biz.{ServiceTicketClaims}
use platform_mihomo_service.AccountKey.{binding_id_from_platform_account_id}

-- The set of allowed actions is the list of its members.
pub record ScopeGuard : Type 0 where
  pub allowed_actions : List String
  pub binding_id : ℕ
  pub profile_id : ℕ

module _ (g : ScopeGuard) where
  unfoldable pub require_action : String → Result (Unit {0})
  require_action action = guard (any (λ a. a == action) g.allowed_actions) action_scope_denied

  -- The test `err != nil || bindingID == 0 || g.BindingID != bindingID`.
  unfoldable pub require_platform_account_id : String → Result (Unit {0})
  require_platform_account_id key = elim (binding_id_from_platform_account_id key) [
    | err e ↦ err binding_scope_denied
    | ok n ↦ guard (not (eqb n 0 || not (eqb g.binding_id n))) binding_scope_denied
  ]

  unfoldable pub require_binding_wide : Result (Unit {0})
  require_binding_wide = guard (eqb g.profile_id 0) profile_scope_denied

  unfoldable pub require_profile : ℕ → ℕ → Result (Unit {0})
  require_profile binding_id profile_id = do
    guard (not (eqb g.binding_id 0 || not (eqb g.binding_id binding_id))) binding_scope_denied
    guard (not (not (eqb g.profile_id 0) && not (eqb g.profile_id profile_id))) profile_scope_denied

  -- The loop over the required actions.
  unfoldable pub require_actions : List String → Result (Unit {0})
  unfolding require_action
  require_actions [] = ok tt
  require_actions (action ∷ actions) = do require_action action; require_actions actions

unfoldable pub to_scope_guard : ServiceTicketClaims → Result ScopeGuard
to_scope_guard claims = do
  guard (claims.platform == "mihomo") binding_scope_denied
  ok (record {
    allowed_actions = claims.scopes;
    binding_id = claims.binding_id;
    profile_id = claims.profile_id;
  })

unfoldable pub scoped_guard : ServiceTicketClaims → List String → Result ScopeGuard
unfolding to_scope_guard require_actions
scoped_guard claims actions = do g ← to_scope_guard claims; require_actions g actions; ok g

unfoldable pub scoped_guard_for_platform_account :
    ServiceTicketClaims → String → List String → Result ScopeGuard
unfolding to_scope_guard require_actions require_platform_account_id
scoped_guard_for_platform_account claims key actions = do
  g ← to_scope_guard claims
  require_actions g actions
  require_platform_account_id g key
  ok g
