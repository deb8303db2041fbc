-- ===== src/Wiring/Atomicity.antt =====
-- A binding that fails changes no row.
use platform_mihomo_service.Base.{List, String, not, ◌≡◌, refl, sym, ap, ◌∙◌, subst, eqb}
use platform_mihomo_service.Outcome.{
  Error, Result, ok, err, pure, guard, ◌>>=◌, binding_id_required,
}
use platform_mihomo_service.Outcome.Laws.{>>=_of_ok, >>=_of_err, >>=_keeps, guard_keeps}
use platform_mihomo_service.Biz.{DiscoveredProfile}
use platform_mihomo_service.Store.{World}
use platform_mihomo_service.Store.Laws.{View, Ended, IsWorld}
use platform_mihomo_service.Store.Transactions.{rolled_back_lem}
use platform_mihomo_service.Usecase.BindUsecase.{
  BindCredentialInput, BindCredentialOutput, BindCredentialPreparation, prepare_bind_credential,
  bind_prepared_credential, bind_credential,
}
use platform_mihomo_service.Usecase.Calls.{ask, run_in_transaction}
use platform_mihomo_service.AccountKey.{format_platform_account_id}
use platform_mihomo_service.Wiring.{ports}

module _ {S : Type 0} (view : S → View) (w : World S) (ok_world : IsWorld view w) where
  abbrev prepared_as :
      BindCredentialInput
      → String × String × List DiscoveredProfile
      → String
      → BindCredentialPreparation
  prepared_as input (account_id, region, discovered) encrypted = record {
    platform_account_id = format_platform_account_id input.binding_id account_id;
    account_id = account_id;
    region = region;
    discovered_profiles = discovered;
    encrypted_blob = encrypted;
  }

  -- The preparation of a binding reaches no row.
  pub prepare_keeps :
      (input : BindCredentialInput) (s : S)
      → view (prepare_bind_credential (ports w) input s).1 ≡ view s
  unfolding prepare_bind_credential ports
  prepare_keeps input s =
      let given = guard {S = S} (not (eqb input.binding_id 0)) binding_id_required in
      let discover =
        ask (w.client.validate_and_discover input.cookie_bundle_json input.region_hint) in
      let encrypt = w.cipher.encrypt_string input.cookie_bundle_json in
      >>=_keeps view given (λ _. discover >>= λ x. encrypt >>= λ e. pure (prepared_as input x e))
        (guard_keeps view (not (eqb input.binding_id 0)) binding_id_required)
        (λ _.
          >>=_keeps view discover (λ x. encrypt >>= λ e. pure (prepared_as input x e))
            (ok_world.discover_view input.cookie_bundle_json input.region_hint)
            (λ x.
              >>=_keeps view encrypt (λ e. pure (prepared_as input x e))
                (ok_world.encrypt_view input.cookie_bundle_json) (λ e u. refl)))
        s

  -- A call of `bind_credential` that fails leaves all tables as they were: the transaction undoes
  -- what the steps of the binding and of their deferred function did.
  pub bind_credential_of_err :
      (input : BindCredentialInput) (s s' : S) (e : Error)
      → bind_credential (ports w) input s ≡ (err e, s')
      → (view s').tables ≡ (view s).tables
  unfolding bind_credential run_in_transaction ports
  bind_credential_of_err input s s' e h = go (prepare_bind_credential (ports w) input s) refl
    where
      go :
          (x : Result BindCredentialPreparation × S)
          → prepare_bind_credential (ports w) input s ≡ x
          → (view s').tables ≡ (view s).tables
      go (err x, u) same =
          let end =
            sym (
              >>=_of_err (prepare_bind_credential (ports w) input)
                (λ prepared.
                  run_in_transaction (ports w) BindCredentialOutput
                    (bind_prepared_credential (ports w) input prepared))
                s same)
            ∙ h in
          let kept = prepare_keeps input s in cc
      go (ok prepared, u) same =
          let body = bind_prepared_credential (ports w) input prepared in
          let end : w.transaction BindCredentialOutput body u ≡ (err e, s') =
            sym (
              >>=_of_ok (prepare_bind_credential (ports w) input)
                (λ prepared.
                  run_in_transaction (ports w) BindCredentialOutput
                    (bind_prepared_credential (ports w) input prepared))
                s same)
            ∙ h in
          let undone = rolled_back_lem view u s' (body u) e (
            subst (Ended view u (body u)) end
              (ok_world.transaction_ends BindCredentialOutput body u)) in
          undone
          ∙ ap (λ x. (view x.1).tables) (sym same)
          ∙ ap (λ (v : View). v.tables) (prepare_keeps input s)
