-- ===== src/Data/Keeps.antt =====
-- What the repositories of credentials and devices, and the deletion of a binding, keep of the
-- tables.
use platform_mihomo_service.Base.{ℕ, String}
use platform_mihomo_service.Outcome.Keeps.{Keeps, keeps_rules}
use platform_mihomo_service.Biz.{Credential, Device}
use platform_mihomo_service.Store.{World}
use platform_mihomo_service.Store.Laws.{
  Tables, View, IsWorld, credential_lens, device_lens, profile_lens, artifact_lens,
}
use platform_mihomo_service.Store.Keeps.{
  On, IsFree, Keeps-first, Keeps-find, Keeps-delete, Keeps-upsert, Keeps-transaction,
}
use platform_mihomo_service.Data.Query.{Keeps-or_none}
use platform_mihomo_service.Data.CredentialRepo as Credentials
use platform_mihomo_service.Data.DeviceRepo as Devices
use platform_mihomo_service.Data.ManagementRepo.{
  delete_binding_graph_in_transaction, delete_credential_graph_by_binding_id,
}
use platform_mihomo_service.Data.ArtifactRepo.Keeps.{Keeps-delete_by_binding_id}

-- A predicate of the tables that stands whatever rows the tables of the accounts have.
pub record IsOfGrants (Q : Tables → Type 0) : Type 0 where
  pub credentials : IsFree credential_lens Q
  pub devices : IsFree device_lens Q
  pub profiles : IsFree profile_lens Q
  pub artifacts : IsFree artifact_lens Q

module _ {S : Type 0} (view : S → View) (Q : Tables → Type 0) (w : World S)
    (ok_world : IsWorld view w) where
  abbrev P : S → Type 0
  P = On view Q

  pub Keeps-credential_of_binding : (b : ℕ) → Keeps P (Credentials.get_by_binding_id w b)
  unfolding Credentials.get_by_binding_id
  Keeps-credential_of_binding b = search (
    keeps_rules,
    Keeps-or_none,
    Keeps-first view Q credential_lens _ _ w.credential_records ok_world.credential_table,
  )

  pub Keeps-credential_of_account :
      (k : String) → Keeps P (Credentials.get_by_platform_account_id w k)
  unfolding Credentials.get_by_platform_account_id
  Keeps-credential_of_account k = search (
    keeps_rules,
    Keeps-or_none,
    Keeps-first view Q credential_lens _ _ w.credential_records ok_world.credential_table,
  )

  pub Keeps-devices_of_binding : (b : ℕ) → Keeps P (Devices.list_by_binding_id w b)
  unfolding Devices.list_by_binding_id
  Keeps-devices_of_binding b =
      search (keeps_rules, Keeps-find view Q device_lens _ _ w.device_records ok_world.device_table)

  pub Keeps-devices_of_account : (k : String) → Keeps P (Devices.list_by_platform_account_id w k)
  unfolding Devices.list_by_platform_account_id
  Keeps-devices_of_account k =
      search (keeps_rules, Keeps-find view Q device_lens _ _ w.device_records ok_world.device_table)

  module _ (free : IsOfGrants Q) where
    pub Keeps-save_credential : (c : Credential) → Keeps P (Credentials.save w c)
    unfolding Credentials.save
    Keeps-save_credential c =
        Keeps-upsert view Q credential_lens _ _ w.credential_records ok_world.credential_table
          free.credentials _ _ _

    pub Keeps-delete_credential :
        (k : String) → Keeps P (Credentials.delete_by_platform_account_id w k)
    unfolding Credentials.delete_by_platform_account_id
    Keeps-delete_credential k =
        Keeps-delete view Q credential_lens _ _ w.credential_records ok_world.credential_table
          free.credentials _

    pub Keeps-save_device : (d : Device) → Keeps P (Devices.save w d)
    unfolding Devices.save
    Keeps-save_device d =
        Keeps-upsert view Q device_lens _ _ w.device_records ok_world.device_table free.devices _ _
          _

    pub Keeps-delete_devices : (k : String) → Keeps P (Devices.delete_by_platform_account_id w k)
    unfolding Devices.delete_by_platform_account_id
    Keeps-delete_devices k =
        Keeps-delete view Q device_lens _ _ w.device_records ok_world.device_table free.devices _

    Keeps-binding_graph : (b : ℕ) → Keeps P (delete_binding_graph_in_transaction w b)
    unfolding delete_binding_graph_in_transaction
    Keeps-binding_graph b = search (
      keeps_rules,
      Keeps-delete_by_binding_id view Q w ok_world free.artifacts,
      Keeps-delete view Q profile_lens _ _ w.account_profiles ok_world.profile_table free.profiles,
      Keeps-delete view Q device_lens _ _ w.device_records ok_world.device_table free.devices,
      Keeps-delete view Q credential_lens _ _ w.credential_records ok_world.credential_table
          free.credentials,
    )

    pub Keeps-delete_graph : (b : ℕ) → Keeps P (delete_credential_graph_by_binding_id w b)
    unfolding delete_credential_graph_by_binding_id
    Keeps-delete_graph b =
        Keeps-transaction view Q w ok_world (delete_binding_graph_in_transaction w b)
          (Keeps-binding_graph b)
