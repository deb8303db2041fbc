-- ===== src/Usecase/Keeps/Writes.antt =====
-- The use cases that write.
use platform_mihomo_service.Base.{ℕ, String, Bool, false, Option, none, some, List, [], ◌∷◌}
use platform_mihomo_service.Base.Int.{◌+ℤ◌}
use platform_mihomo_service.Outcome.{Result, ok, err, M}
use platform_mihomo_service.Outcome.Keeps.{Keeps, keeps_rules, Keeps-bind, Keeps-pure}
use platform_mihomo_service.Biz.{Time, Credential, Profile, Artifact, DiscoveredProfile}
use platform_mihomo_service.Biz.Repositories.{ArtifactRepository, Ports}
use platform_mihomo_service.Api.{ProfileSummary}
use platform_mihomo_service.Scope.{ScopeGuard}
use platform_mihomo_service.Usecase.Calls.{ask, clock, with_rollback}
use platform_mihomo_service.Usecase.ProfileUsecase.{
  set_default, find_profile_by_binding_and_player_id, confirm_primary_profile_with_scope,
}
use platform_mihomo_service.Usecase.BindUsecase.{
  BindCredentialInput, BindCredentialPreparation, prepare_bind_credential, save_existing, undo_bind,
  bound_profile, save_profiles, bind_rest, bind_prepared_credential, bind_credential, upsert_device,
}
use platform_mihomo_service.Usecase.StatusUsecase.{
  store_outcome, revalidate, validate_credential, refresh_credential,
}
use platform_mihomo_service.Usecase.AuthkeyUsecase.{
  seconds, issued_artifact, issue_and_store, get_auth_key,
}
use platform_mihomo_service.Usecase.ManagementUsecase.{
  UpdateCredentialInput, prune_stale_profiles, update_credential, update_credential_with_scope,
  delete_credential_with_scope,
}
use platform_mihomo_service.Usecase.Keeps.{PortsKeep, Keeps-clock, Keeps-ask, Keeps-probe}
use platform_mihomo_service.Usecase.Keeps.Reads.{
  Keeps-get_credential, Keeps-get_credential_summary, Keeps-require_scope,
  Keeps-get_scoped_credential,
}

-- A rollback that keeps what the call keeps.
Keeps-with_rollback :
    {S A : Type 0} {P : S → Type 0} (undo : M S (Unit {0})) (rest : M S A)
    → Keeps P undo
    → Keeps P rest
    → Keeps P (with_rollback undo rest)
Keeps-with_rollback {S} {A} {P} undo rest ku kr = record { at = λ s h. go (rest s) (kr.at s h) }
  where
    go :
        (x : Result A × S)
        → P x.1
        → let y : Result A × S = elim x.0 [ ok a ↦ (ok a, x.1) | err e ↦ (err e, (undo x.1).1) ] in
          P y.1
    go (ok a, t) h = h
    go (err e, t) h = ku.at t h

module _ {S : Type 0} {P : S → Type 0} {p : Ports S} {artifacts : ArtifactRepository S}
    (k : PortsKeep P p artifacts) where
  Keeps-prepare_bind_credential : (i : BindCredentialInput) → Keeps P (prepare_bind_credential p i)
  unfolding prepare_bind_credential
  Keeps-prepare_bind_credential i = search (keeps_rules, Keeps-ask, k.discover, k.encrypt)

  Keeps-save_existing : (c : Option Credential) → Keeps P (save_existing p c)
  unfolding save_existing
  Keeps-save_existing none = search keeps_rules
  Keeps-save_existing (some c) = k.save_credential c

  Keeps-undo_bind :
      (c : Option Credential) (key previous : String) → Keeps P (undo_bind p c key previous)
  unfolding undo_bind
  Keeps-undo_bind c key previous =
      search
        (keeps_rules, k.delete_profiles, k.delete_devices, k.delete_credential, Keeps-save_existing)

  Keeps-save_profiles :
      (i : BindCredentialInput) (prepared : BindCredentialPreparation) (now : Time) (first : Bool)
      (ds : List DiscoveredProfile)
      → Keeps P (save_profiles p i prepared now first ds)
  unfolding save_profiles
  Keeps-save_profiles i prepared now first [] = search keeps_rules
  Keeps-save_profiles i prepared now first (d ∷ ds) =
      Keeps-bind (p.profiles.save (bound_profile i prepared now first d)) _ (k.save_profile _) (λ u.
        Keeps-bind (save_profiles p i prepared now false ds) _
          (Keeps-save_profiles i prepared now false ds) (λ r. Keeps-pure _))

  Keeps-bind_rest :
      (i : BindCredentialInput) (prepared : BindCredentialPreparation) (now : Time)
      (previous : String)
      → Keeps P (bind_rest p i prepared now previous)
  unfolding bind_rest
  Keeps-bind_rest i prepared now previous =
      search
        (
          keeps_rules, k.save_device, k.delete_profiles, k.delete_devices, k.delete_credential,
          Keeps-save_profiles,
        )
        depth 8

  Keeps-bind_prepared_credential :
      (i : BindCredentialInput) (prepared : BindCredentialPreparation)
      → Keeps P (bind_prepared_credential p i prepared)
  unfolding bind_prepared_credential
  Keeps-bind_prepared_credential i prepared =
      search
        (
          keeps_rules, k.reads.credential_of_binding, k.delete_artifacts_of, Keeps-clock,
          k.read_clock, k.save_credential, Keeps-with_rollback, Keeps-undo_bind, Keeps-bind_rest,
        )
        depth 8

  pub Keeps-bind_credential : (i : BindCredentialInput) → Keeps P (bind_credential p i)
  unfolding bind_credential
  Keeps-bind_credential i =
      search
        (keeps_rules, k.transaction, Keeps-prepare_bind_credential, Keeps-bind_prepared_credential)

  pub Keeps-upsert_device : (key id fp name : String) → Keeps P (upsert_device p key id fp name)
  unfolding upsert_device
  Keeps-upsert_device key id fp name =
      search (keeps_rules, k.reads.credential_of_account, k.save_device, Keeps-clock, k.read_clock)

  Keeps-store_outcome :
      (c : Credential) (mark : Bool) (refusal : Option String) (now : Time)
      → Keeps P (store_outcome p c mark refusal now)
  unfolding store_outcome
  Keeps-store_outcome c mark (some message) now = search (keeps_rules, k.save_credential)
  Keeps-store_outcome c mark none now = search (keeps_rules, k.save_credential)

  Keeps-revalidate : (c : Credential) (mark : Bool) → Keeps P (revalidate p c mark)
  unfolding revalidate
  Keeps-revalidate c mark =
      search (keeps_rules, Keeps-probe, k.discover, Keeps-clock, k.read_clock, Keeps-store_outcome)

  pub Keeps-validate_credential : (key : String) → Keeps P (validate_credential p key)
  unfolding validate_credential
  Keeps-validate_credential key =
      search (keeps_rules, Keeps-get_credential k.reads, Keeps-revalidate)

  pub Keeps-refresh_credential : (key : String) → Keeps P (refresh_credential p key)
  unfolding refresh_credential
  Keeps-refresh_credential key =
      search (keeps_rules, Keeps-get_credential k.reads, Keeps-revalidate)

  Keeps-set_default :
      (selected : Profile) (key player : String) → Keeps P (set_default p selected key player)
  unfolding set_default
  Keeps-set_default selected key player = search (keeps_rules, k.set_default)

  Keeps-find_profile :
      (b : ℕ) (key player : String) → Keeps P (find_profile_by_binding_and_player_id p b key player)
  unfolding find_profile_by_binding_and_player_id
  Keeps-find_profile b key player = search (keeps_rules, k.reads.profiles_of_binding)

  pub Keeps-confirm_primary_profile_with_scope :
      (g : ScopeGuard) (key player : String)
      → Keeps P (confirm_primary_profile_with_scope p g key player)
  unfolding confirm_primary_profile_with_scope
  Keeps-confirm_primary_profile_with_scope g key player =
      search (keeps_rules, Keeps-find_profile, Keeps-set_default)

  Keeps-issue_and_store :
      (c : Credential) (cookie key player : String) (stored : Option Artifact)
      → Keeps P (issue_and_store p artifacts c cookie key player stored)
  unfolding issue_and_store
  Keeps-issue_and_store c cookie key player (some a) = search keeps_rules
  Keeps-issue_and_store c cookie key player none =
      Keeps-bind (ask (p.client.issue_auth_key cookie player)) _
        (Keeps-ask _ (k.issue cookie player))
        (λ r. Keeps-bind (clock p) _ (Keeps-clock p k.read_clock) (λ now.
          let expires_at = now +ℤ seconds r.1 in
          Keeps-bind (artifacts.put (issued_artifact c key player r.0 expires_at)) _
            (k.put_artifact _)
            (λ u. Keeps-pure (record { auth_key = r.0; expires_at = expires_at }))))

  pub Keeps-get_auth_key : (key player : String) → Keeps P (get_auth_key p artifacts key player)
  unfolding get_auth_key
  Keeps-get_auth_key key player =
      search (keeps_rules, k.reads.credential_of_account, k.get_artifact, Keeps-issue_and_store)

  Keeps-prune_stale_profiles :
      (key : String) (ps : List ProfileSummary) → Keeps P (prune_stale_profiles p key ps)
  unfolding prune_stale_profiles
  Keeps-prune_stale_profiles key ps = search (keeps_rules, k.delete_missing)

  Keeps-update_credential : (i : UpdateCredentialInput) → Keeps P (update_credential p i)
  unfolding update_credential
  Keeps-update_credential i =
      search
        (
          keeps_rules,
          k.reads.credential_of_account,
          Keeps-prepare_bind_credential,
          k.transaction,
          Keeps-bind_prepared_credential,
          Keeps-prune_stale_profiles,
          Keeps-get_credential_summary k.reads,
        )
        depth 8

  pub Keeps-update_credential_with_scope :
      (g : ScopeGuard) (i : UpdateCredentialInput) → Keeps P (update_credential_with_scope p g i)
  unfolding update_credential_with_scope
  Keeps-update_credential_with_scope g i =
      search (keeps_rules, Keeps-require_scope k.reads, Keeps-update_credential)

  pub Keeps-delete_credential_with_scope :
      (g : ScopeGuard) (key : String) → Keeps P (delete_credential_with_scope p g key)
  unfolding delete_credential_with_scope
  Keeps-delete_credential_with_scope g key = search (
    keeps_rules,
    Keeps-require_scope k.reads,
    Keeps-get_scoped_credential k.reads,
    k.delete_graph,
  )
