-- ===== src/Data/ManagementRepo/Deletion.antt =====
-- What the deletion of a binding's credential leaves of the database.
use platform_mihomo_service.Base.{ℕ, not, ◌≡◌, ap, ◌∙◌, subst, keep, eqb}
use platform_mihomo_service.Outcome.{ok, ◌>>◌}
use platform_mihomo_service.Outcome.Laws.{>>=-eq-ok}
use platform_mihomo_service.Store.{
  CredentialRecord, DeviceRecord, AccountProfile, RuntimeArtifact, World,
}
use platform_mihomo_service.Store.Laws.{Tables, View, Ended, IsWorld}
use platform_mihomo_service.Store.Transactions.{committed_lem}
use platform_mihomo_service.Data.ArtifactRepo
use platform_mihomo_service.Data.ArtifactRepo.Deletion.{delete_by_binding_id_tables}
use platform_mihomo_service.Data.ManagementRepo.{
  delete_binding_graph_in_transaction, delete_credential_graph_by_binding_id,
}

-- The tables without the rows of a binding; the versions that it still accepts of its consumers
-- stay.
abbrev pub without_binding : ℕ → Tables → Tables
without_binding b t = record t {
  credential_records =
      keep (λ (r : CredentialRecord). not (eqb r.binding_id b)) t.credential_records;
  device_records = keep (λ (r : DeviceRecord). not (eqb r.binding_id b)) t.device_records;
  account_profiles = keep (λ (r : AccountProfile). not (eqb r.binding_id b)) t.account_profiles;
  runtime_artifacts = keep (λ (r : RuntimeArtifact). not (eqb r.binding_id b)) t.runtime_artifacts;
}

module _ {S : Type 0} (view : S → View) (w : World S) (ok_world : IsWorld view w) where
  graph_in_transaction :
      (b : ℕ) (s s' : S)
      → delete_binding_graph_in_transaction w b s ≡ (ok tt, s')
      → (view s').tables ≡ without_binding b (view s).tables
  unfolding delete_binding_graph_in_transaction
  graph_in_transaction b s s' h =
      let credentials = w.credential_records.delete (λ r. eqb r.binding_id b) in
      let devices = w.device_records.delete (λ r. eqb r.binding_id b) in
      let profiles = w.account_profiles.delete (λ r. eqb r.binding_id b) in
      let artifacts = ArtifactRepo.delete_by_binding_id w b in
      let (tt, s1, first, h1) = >>=-eq-ok artifacts (λ _. do profiles; devices; credentials) s h in
      let (tt, s2, second, h2) = >>=-eq-ok profiles (λ _. do devices; credentials) s1 h1 in
      let (tt, s3, third, h3) = >>=-eq-ok devices (λ _. credentials) s2 h2 in
      let e1 = delete_by_binding_id_tables view w ok_world b s s1 first in
      let e2 = ap (λ (v : View). v.tables) (ok_world.profile_table.delete_ok _ s1 s2 second) in
      let e3 = ap (λ (v : View). v.tables) (ok_world.device_table.delete_ok _ s2 s3 third) in
      let e4 = ap (λ (v : View). v.tables) (ok_world.credential_table.delete_ok _ s3 s' h3) in cc

  -- A deletion of a binding's credential that succeeds removes exactly the binding's credential,
  -- devices, profiles and artifacts from the database, and nothing else.
  pub delete_credential_graph-without_binding :
      (b : ℕ) (s s' : S)
      → delete_credential_graph_by_binding_id w b s ≡ (ok tt, s')
      → (view s').tables ≡ without_binding b (view s).tables
  unfolding delete_credential_graph_by_binding_id
  delete_credential_graph-without_binding b s s' h =
      let body = delete_binding_graph_in_transaction w b in
      let (u, done, same) =
        committed_lem view s s' (body s) tt
          (subst (Ended view s (body s)) h (ok_world.transaction_ends (Unit {0}) body s)) in
      ap (λ (v : View). v.tables) same ∙ graph_in_transaction b s u done
