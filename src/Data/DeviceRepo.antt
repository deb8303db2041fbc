-- ===== src/Data/DeviceRepo.antt =====
-- internal/data/device_repo.go
use platform_mihomo_service.Base.{ℕ, String, Bool, ◌&&◌, List, map, eqb, ◌==◌}
use platform_mihomo_service.Outcome.{M, pure, ◌>>=◌}
use platform_mihomo_service.Biz.{Device}
use platform_mihomo_service.Biz.Repositories.{DeviceRepository}
use platform_mihomo_service.Store.{DeviceRecord, World}

unfoldable pub record_from_device : Device → DeviceRecord
record_from_device d = record {
  id = 0;
  binding_id = d.binding_id;
  platform_account_id = d.platform_account_id;
  device_id = d.device_id;
  device_fp = d.device_fp;
  device_name = d.device_name;
  is_valid = d.is_valid;
  last_seen_at = d.last_seen_at;
}

unfoldable pub device_from_record : DeviceRecord → Device
device_from_record r = record {
  binding_id = r.binding_id;
  platform_account_id = r.platform_account_id;
  device_id = r.device_id;
  device_fp = r.device_fp;
  device_name = r.device_name;
  is_valid = r.is_valid;
  last_seen_at = r.last_seen_at;
}

-- The columns of the conflict, and those that it updates.
abbrev pub same_device : (String → String) → DeviceRecord → DeviceRecord → Bool
same_device collate new old =
    eqb new.binding_id old.binding_id && collate new.device_id == collate old.device_id

abbrev pub update_device : DeviceRecord → DeviceRecord → DeviceRecord
update_device new old = record old {
  platform_account_id = new.platform_account_id;
  device_fp = new.device_fp;
  device_name = new.device_name;
  is_valid = new.is_valid;
  last_seen_at = new.last_seen_at;
}

module _ {S : Type 0} (w : World S) where
  unfoldable pub save : Device → M S (Unit {0})
  unfolding record_from_device
  save d =
      w.device_records.create_on_conflict (same_device w.collate) update_device
        (record_from_device d)

  unfoldable pub list_by_binding_id : ℕ → M S (List Device)
  unfolding device_from_record
  list_by_binding_id binding_id = do
    records ← w.device_records.find (λ r. eqb r.binding_id binding_id)
    pure (map device_from_record records)

  unfoldable pub list_by_platform_account_id : String → M S (List Device)
  unfolding device_from_record
  list_by_platform_account_id key = do
    records ← w.device_records.find (λ r. w.collate r.platform_account_id == w.collate key)
    pure (map device_from_record records)

  unfoldable pub delete_by_binding_id : ℕ → M S (Unit {0})
  delete_by_binding_id binding_id = w.device_records.delete (λ r. eqb r.binding_id binding_id)

  unfoldable pub delete_by_platform_account_id : String → M S (Unit {0})
  delete_by_platform_account_id key =
      w.device_records.delete (λ r. w.collate r.platform_account_id == w.collate key)

  unfoldable pub device_repo : DeviceRepository S
  unfolding save list_by_binding_id list_by_platform_account_id delete_by_binding_id
      delete_by_platform_account_id
  device_repo = record {
    save = save;
    list_by_binding_id = list_by_binding_id;
    list_by_platform_account_id = list_by_platform_account_id;
    delete_by_binding_id = delete_by_binding_id;
    delete_by_platform_account_id = delete_by_platform_account_id;
  }
