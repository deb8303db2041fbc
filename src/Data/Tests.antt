-- ===== src/Data/Tests.antt =====
-- The repositories over the memory.
use platform_mihomo_service.Base.{ℕ, true, false, List, [], ◌∷◌, ◌≡◌, map, any, refl}
use platform_mihomo_service.Base.Int.{pos}
use platform_mihomo_service.Outcome.{ok, err, external}
use platform_mihomo_service.Store.{AccountProfile}
use platform_mihomo_service.Store.Laws.{View}
use platform_mihomo_service.Store.Memory.{fold, memory, memory-IsWorld, lost_connection, empty_view}
use platform_mihomo_service.Data.GrantInvalidationRepo.{upsert, minimum_version}
use platform_mihomo_service.Data.GrantInvalidationRepo.Demands.{Demands}
use platform_mihomo_service.Data.GrantInvalidationRepo.Minimum.{upsert-Demands}
use platform_mihomo_service.Data.ProfileRepo.{set_default_by_binding_and_player_id}
use platform_mihomo_service.Data.ProfileRepo.Default.{
  with_default, is_player, set_default-with_default,
}
use platform_mihomo_service.Data.ArtifactRepo.{delete_by_binding_id}
use platform_mihomo_service.Data.ManagementRepo.{delete_credential_graph_by_binding_id}
use platform_mihomo_service.Data.ManagementRepo.Deletion.{
  without_binding, delete_credential_graph-without_binding,
}

abbrev demanding : ℕ → View
demanding version = record empty_view {
  tables = record empty_view.tables {
    consumer_grant_invalidations =
        record {
          id = 1;
          binding_id = 7;
          consumer = "bot";
          minimum_grant_version = version;
          invalidated_at = pos 0;
        }
        ∷ [];
  };
}

raised : upsert memory 7 "bot" 4 (demanding 2) ≡ (ok tt, demanding 4)
unfolding upsert
raised = refl

-- A lower version than the one there is has no effect.
not_lowered : upsert memory 7 "bot" 1 (demanding 4) ≡ (ok tt, demanding 4)
unfolding upsert
not_lowered = refl

upsert-Demands_example : Demands fold 7 "bot" 4 (demanding 4).tables.consumer_grant_invalidations
upsert-Demands_example =
    upsert-Demands (λ v. v) memory memory-IsWorld 7 "bot" 4 (demanding 2) (demanding 4) raised

read_back : minimum_version memory 7 "bot" (demanding 4) ≡ (ok 4, demanding 4)
unfolding minimum_version
read_back = refl

abbrev player : AccountProfile
player = record {
  id = 1;
  binding_id = 7;
  platform_account_id = "binding_7_10001";
  game_biz = "hk4e_cn";
  region = "cn_gf01";
  player_id = "1008611";
  nickname = "Traveler";
  level = pos 60;
  is_default = false;
  discovered_at = pos 0;
}

abbrev other_player : AccountProfile
other_player = record player { id = 2; player_id = "9"; is_default = true }

abbrev with_profiles : List AccountProfile → View
with_profiles rows = record empty_view {
  tables = record empty_view.tables { account_profiles = rows };
}

abbrev before : View
before = with_profiles (player ∷ (other_player ∷ []))

abbrev after : View
after =
    with_profiles
      (record player { is_default = true } ∷ (record other_player { is_default = false } ∷ []))

moved :
    set_default_by_binding_and_player_id memory 7 "binding_7_10001" "1008611" before
    ≡ (ok tt, after)
unfolding set_default_by_binding_and_player_id
moved = refl

set_default-with_default_example :
    (after.tables.account_profiles
      ≡ map (with_default fold 7 "binding_7_10001" "1008611") before.tables.account_profiles)
    × (any (is_player fold 7 "binding_7_10001" "1008611") before.tables.account_profiles ≡ true)
set_default-with_default_example =
    set_default-with_default (λ v. v) memory memory-IsWorld 7 "binding_7_10001" "1008611" before
      after moved

removed : delete_credential_graph_by_binding_id memory 7 before ≡ (ok tt, empty_view)
unfolding delete_credential_graph_by_binding_id delete_by_binding_id
removed = refl

delete_credential_graph-without_binding_example :
    empty_view.tables ≡ without_binding 7 before.tables
delete_credential_graph-without_binding_example =
    delete_credential_graph-without_binding (λ v. v) memory memory-IsWorld 7 before empty_view
      removed

-- The artifacts, profiles and devices are gone before the credential's deletion fails.
rolled_back :
    delete_credential_graph_by_binding_id lost_connection 7 before
    ≡ (err (external "lost connection"), before)
unfolding delete_credential_graph_by_binding_id delete_by_binding_id
rolled_back = refl
