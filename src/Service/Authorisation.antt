-- ===== src/Service/Authorisation.antt =====
-- What a handler knows behind its checks: the ticket's claims, and what they allow.
use platform_mihomo_service.Base.{String, [], ◌∷◌, ◌≡◌, ◌≢◌, refl, arith}
use platform_mihomo_service.Outcome.{Error, Result, ok, err, M, lift, ◌>>=◌}
use platform_mihomo_service.Outcome.Laws.{lift-eq-ok}
use platform_mihomo_service.Biz.{ServiceTicketClaims}
use platform_mihomo_service.AccountKey.{binding_id_from_platform_account_id}
use platform_mihomo_service.Scope.{ScopeGuard, scoped_guard}
use platform_mihomo_service.Scope.Laws.{Holds, guard_of, scoped_guard_iff}
use platform_mihomo_service.Service.Mapper.{with_error, mapped_check, map_usecase_error}

module _ {S A : Type 0} where
  pub with_error-eq-ok :
      (f : Error → Error) (m : M S A) (s t : S) (a : A)
      → with_error f m s ≡ (ok a, t)
      → m s ≡ (ok a, t)
  with_error-eq-ok f m s t a h = go (m s) refl
    where
      go : (x : Result A × S) → m s ≡ x → m s ≡ (ok a, t)
      go (ok b, u) e = ground arith
      go (err x, u) e = absurd (ground arith)

  -- A check that passes behind the mapping of errors passes, and leaves the state.
  pub mapped_check-eq-ok :
      (r : Result A) (s t : S) (a : A) → mapped_check r s ≡ (ok a, t) → (r ≡ ok a) × (t ≡ s)
  mapped_check-eq-ok r s t a h =
      lift-eq-ok r s (with_error-eq-ok map_usecase_error (lift r) s t a h)

module _ {S A B : Type 0} where
  pub mapped_check->>=-eq-ok :
      (r : Result A) (f : A → M S B) (s : S) {b : B} {t : S}
      → (mapped_check r >>= f) s ≡ (ok b, t)
      → (a : A) × (r ≡ ok a) × (f a s ≡ (ok b, t))
  mapped_check->>=-eq-ok (ok a) f s h = (a, refl, h)
  mapped_check->>=-eq-ok (err e) f s h = cc

-- The ticket is for this platform, and its scopes hold the action.
abbrev pub Allows : ServiceTicketClaims → String → Type 0
Allows c action = (c.platform ≡ "mihomo") × Holds action c.scopes

-- And the account key carries the ticket's binding id, which is not zero.
abbrev pub AllowsAccount : ServiceTicketClaims → String → String → Type 0
AllowsAccount c key action =
    Allows c action
    × (binding_id_from_platform_account_id key ≡ ok c.binding_id)
    × (c.binding_id ≢ 0)

-- The guard that a handler builds for one action, from the claims it verified.
pub scoped_guard-Allows :
    (c : ServiceTicketClaims) (action : String) (g : ScopeGuard)
    → scoped_guard c (action ∷ []) ≡ ok g
    → Allows c action × (g ≡ guard_of c)
scoped_guard-Allows c action g h =
    let (platform, (holds, _), same) = (scoped_guard_iff c (action ∷ []) g).0 h in
    ((platform, holds), same)
