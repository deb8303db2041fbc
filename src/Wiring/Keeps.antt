-- ===== src/Wiring/Keeps.antt =====
-- The interface of Usecase/Keeps.antt, for the ports that main wires.
use platform_mihomo_service.Base.{◌≡◌, sym, subst}
use platform_mihomo_service.Store.{World}
use platform_mihomo_service.Store.Laws.{Tables, View, IsWorld}
use platform_mihomo_service.Store.Keeps.{On, Keeps-transaction}
use platform_mihomo_service.Data.CredentialRepo.{credential_repo, within_transaction}
use platform_mihomo_service.Data.DeviceRepo.{device_repo}
use platform_mihomo_service.Data.ProfileRepo.{profile_repo}
use platform_mihomo_service.Data.ArtifactRepo.{artifact_repo}
use platform_mihomo_service.Data.ManagementRepo.{management_repo}
use platform_mihomo_service.Data.Keeps.{
  IsOfGrants, Keeps-credential_of_binding, Keeps-credential_of_account, Keeps-devices_of_binding,
  Keeps-devices_of_account, Keeps-save_credential, Keeps-delete_credential, Keeps-save_device,
  Keeps-delete_devices, Keeps-delete_graph,
}
use platform_mihomo_service.Data.ProfileRepo.Keeps.{
  Keeps-list_by_binding_id, Keeps-list_by_platform_account_id, Keeps-save, Keeps-set_default,
  Keeps-delete_missing, Keeps-delete_profiles,
}
use platform_mihomo_service.Data.ArtifactRepo.Keeps.{
  Keeps-get_by_binding_id, Keeps-put, Keeps-delete_by_binding_id,
}
use platform_mihomo_service.Usecase.Calls.{run_in_transaction}
use platform_mihomo_service.Usecase.BindUsecase.{delete_artifacts}
use platform_mihomo_service.Usecase.Keeps.{ReadsKeep, PortsKeep}
use platform_mihomo_service.Wiring.{ports}

module _ {S : Type 0} (view : S → View) (Q : Tables → Type 0) (w : World S)
    (ok_world : IsWorld view w) where
  same_view : {s t : S} → view t ≡ view s → On view Q s → On view Q t
  same_view e h = subst (λ v. Q v.tables) (sym e) h

  pub reads_keep : ReadsKeep (On view Q) (ports w)
  unfolding ports credential_repo device_repo profile_repo
  reads_keep = record {
    credential_of_binding = Keeps-credential_of_binding view Q w ok_world;
    credential_of_account = Keeps-credential_of_account view Q w ok_world;
    devices_of_binding = Keeps-devices_of_binding view Q w ok_world;
    devices_of_account = Keeps-devices_of_account view Q w ok_world;
    profiles_of_binding = Keeps-list_by_binding_id view Q w ok_world;
    profiles_of_account = Keeps-list_by_platform_account_id view Q w ok_world;
  }

  pub ports_keep : IsOfGrants Q → PortsKeep (On view Q) (ports w) (artifact_repo w)
  unfolding ports credential_repo device_repo profile_repo management_repo artifact_repo
      delete_artifacts run_in_transaction within_transaction
  ports_keep free = record {
    reads = reads_keep;
    save_credential = Keeps-save_credential view Q w ok_world free;
    delete_credential = Keeps-delete_credential view Q w ok_world free;
    save_device = Keeps-save_device view Q w ok_world free;
    delete_devices = Keeps-delete_devices view Q w ok_world free;
    save_profile = Keeps-save view Q w ok_world free.profiles;
    set_default = Keeps-set_default view Q w ok_world free.profiles;
    delete_missing = Keeps-delete_missing view Q w ok_world free.profiles;
    delete_profiles = Keeps-delete_profiles view Q w ok_world free.profiles;
    delete_graph = Keeps-delete_graph view Q w ok_world free;
    delete_artifacts_of = Keeps-delete_by_binding_id view Q w ok_world free.artifacts;
    get_artifact = Keeps-get_by_binding_id view Q w ok_world;
    put_artifact = Keeps-put view Q w ok_world free.artifacts;
    transaction = λ m k. Keeps-transaction view Q w ok_world m k;
    discover = λ cookie region s. same_view (ok_world.discover_view cookie region s);
    issue = λ cookie player s. same_view (ok_world.issue_view cookie player s);
    encrypt = λ t. record { at = λ s. same_view (ok_world.encrypt_view t s) };
    read_clock = λ s. same_view (ok_world.clock_view s);
  }
