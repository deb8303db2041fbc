-- ===== src/Data/ManagementRepo.antt =====
-- internal/data/management_repo.go: the deletion of a credential with all that hangs on it.
pub mod Deletion
use platform_mihomo_service.Base.{ℕ, String, not, List, [], ◌∷◌, eqb, keep, ◌==◌}
use platform_mihomo_service.Outcome.{M, pure, ◌>>=◌, ◌>>◌}
use platform_mihomo_service.Biz.Repositories.{CredentialManagementRepository}
use platform_mihomo_service.Store.{World}
use platform_mihomo_service.Data.ArtifactRepo

module _ {S : Type 0} (w : World S) where
  -- The rows whose binding id is 0 are dropped.
  binding_ids_for_platform_account_id : String → M S (List ℕ)
  binding_ids_for_platform_account_id key = do
    rows ← w.union_binding_ids key
    pure (keep (λ n. not (eqb n 0)) rows)

  delete_artifacts_of : List ℕ → M S (Unit {0})
  delete_artifacts_of [] = pure tt
  delete_artifacts_of (binding_id ∷ rest) = do
    ArtifactRepo.delete_by_binding_id w binding_id
    delete_artifacts_of rest

  -- The test `len(bindingIDs) == 0`.
  delete_artifacts : String → List ℕ → M S (Unit {0})
  unfolding delete_artifacts_of
  delete_artifacts key [] = ArtifactRepo.delete_by_platform_account_id w key
  delete_artifacts key (n ∷ rest) = delete_artifacts_of (n ∷ rest)

  unfoldable pub delete_graph_in_transaction : String → M S (Unit {0})
  unfolding binding_ids_for_platform_account_id delete_artifacts
  delete_graph_in_transaction key = do
    binding_ids ← binding_ids_for_platform_account_id key
    delete_artifacts key binding_ids
    w.account_profiles.delete (λ r. w.collate r.platform_account_id == w.collate key)
    w.device_records.delete (λ r. w.collate r.platform_account_id == w.collate key)
    w.credential_records.delete (λ r. w.collate r.platform_account_id == w.collate key)

  unfoldable pub delete_credential_graph : String → M S (Unit {0})
  unfolding delete_graph_in_transaction
  delete_credential_graph key = w.transaction (Unit {0}) (delete_graph_in_transaction key)

  unfoldable pub delete_binding_graph_in_transaction : ℕ → M S (Unit {0})
  delete_binding_graph_in_transaction binding_id = do
    ArtifactRepo.delete_by_binding_id w binding_id
    w.account_profiles.delete (λ r. eqb r.binding_id binding_id)
    w.device_records.delete (λ r. eqb r.binding_id binding_id)
    w.credential_records.delete (λ r. eqb r.binding_id binding_id)

  unfoldable pub delete_credential_graph_by_binding_id : ℕ → M S (Unit {0})
  unfolding delete_binding_graph_in_transaction
  delete_credential_graph_by_binding_id binding_id =
      w.transaction (Unit {0}) (delete_binding_graph_in_transaction binding_id)

  unfoldable pub management_repo : CredentialManagementRepository S
  unfolding delete_credential_graph delete_credential_graph_by_binding_id
  management_repo = record {
    delete_credential_graph = delete_credential_graph;
    delete_credential_graph_by_binding_id = delete_credential_graph_by_binding_id;
  }
