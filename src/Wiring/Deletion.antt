-- ===== src/Wiring/Deletion.antt =====
-- The deletion of a credential under a guard, over the database.
use platform_mihomo_service.Base.{String, Option, none, some, ◌≡◌, refl, sym, ap, ◌∙◌, ◌==◌}
use platform_mihomo_service.Outcome.{
  ok, lift, pure, guard, or_fail, ◌>>=◌, credential_not_found, platform_account_mismatch,
}
use platform_mihomo_service.Outcome.Laws.{>>=-eq-ok, lift-eq-ok, >>=_keeps, guard_keeps}
use platform_mihomo_service.Biz.{Credential}
use platform_mihomo_service.Store.{World}
use platform_mihomo_service.Store.Laws.{View, IsWorld}
use platform_mihomo_service.Scope.{ScopeGuard, require_platform_account_id, require_binding_wide}
use platform_mihomo_service.Data.CredentialRepo.{get_by_binding_id, credential_repo}
use platform_mihomo_service.Data.CredentialRepo.Reads.{get_by_binding_id_keeps}
use platform_mihomo_service.Data.ManagementRepo.{
  delete_credential_graph_by_binding_id, management_repo,
}
use platform_mihomo_service.Data.ManagementRepo.Deletion.{
  without_binding, delete_credential_graph-without_binding,
}
use platform_mihomo_service.Usecase.ManagementUsecase.{
  require_scope, get_scoped_credential, delete_credential_with_scope,
}
use platform_mihomo_service.Wiring.{ports}

module _ {S : Type 0} (view : S → View) (w : World S) (ok_world : IsWorld view w) where
  require_scope-eq-ok :
      (g : ScopeGuard) (key : String) (s t : S)
      → require_scope (ports w) g key s ≡ (ok tt, t)
      → (require_platform_account_id g key ≡ ok tt) × (require_binding_wide g ≡ ok tt) × (t ≡ s)
  unfolding require_scope
  require_scope-eq-ok g key s t h =
      let (tt, u, first, rest) =
        >>=-eq-ok (lift (require_platform_account_id g key)) (λ _. lift (require_binding_wide g)) s
          h in
      let (account, same) = lift-eq-ok (require_platform_account_id g key) s first in
      let (wide, same') = lift-eq-ok (require_binding_wide g) u rest in
      (account, wide, same' ∙ same)

  or_fail_keeps :
      (o : Option Credential) (s : S) → view (or_fail credential_not_found o s).1 ≡ view s
  or_fail_keeps none s = refl
  or_fail_keeps (some c) s = refl

  get_scoped_credential_keeps :
      (g : ScopeGuard) (key : String) (s : S)
      → view (get_scoped_credential (ports w) g key s).1 ≡ view s
  unfolding get_scoped_credential ports credential_repo
  get_scoped_credential_keeps g key s =
      let same_account = λ (c : Credential).
        guard {S = S} (c.platform_account_id == key) platform_account_mismatch in
      >>=_keeps view (get_by_binding_id w g.binding_id)
        (λ found. or_fail credential_not_found found >>= λ c. same_account c >>= λ _. pure c)
        (get_by_binding_id_keeps view w ok_world g.binding_id)
        (λ found.
          >>=_keeps view (or_fail credential_not_found found) (λ c. same_account c >>= λ _. pure c)
            (or_fail_keeps found)
            (λ c.
              >>=_keeps view (same_account c) (λ _. pure c) (guard_keeps view _ _) (λ _ u. refl)))
        s

  -- A scoped deletion that succeeds passed both checks of the guard, and removes from the database
  -- exactly what belongs to the guard's binding.
  pub delete_credential_with_scope-eq-ok :
      (g : ScopeGuard) (key : String) (s s' : S)
      → delete_credential_with_scope (ports w) g key s ≡ (ok tt, s')
      → (require_platform_account_id g key ≡ ok tt)
        × (require_binding_wide g ≡ ok tt)
        × ((view s').tables ≡ without_binding g.binding_id (view s).tables)
  unfolding delete_credential_with_scope ports management_repo
  delete_credential_with_scope-eq-ok g key s s' h =
      let delete = delete_credential_graph_by_binding_id w g.binding_id in
      let scoped = get_scoped_credential (ports w) g key in
      let (tt, u, passed, h1) =
        >>=-eq-ok (require_scope (ports w) g key) (λ _. scoped >>= λ _. delete) s h in
      let (account, wide, same) = require_scope-eq-ok g key s u passed in
      let (c, u', read, deleted) = >>=-eq-ok scoped (λ _. delete) u h1 in
      let gone =
        delete_credential_graph-without_binding view w ok_world g.binding_id u' s' deleted in
      let kept : view u' ≡ view s =
        sym (ap (λ x. view x.1) read) ∙ get_scoped_credential_keeps g key u ∙ ap view same in
      (account, wide, gone ∙ ap (λ (v : View). without_binding g.binding_id v.tables) kept)
