-- ===== src/Wiring/AuthKeys/Tests.antt =====
-- An auth key that is issued over the memory, and handed out again.
use platform_mihomo_service.Base.{[], ◌∷◌, ◌≡◌, refl}
use platform_mihomo_service.Base.Int.{pos}
use platform_mihomo_service.Outcome.{ok}
use platform_mihomo_service.Store.{CredentialRecord}
use platform_mihomo_service.Store.Laws.{View, Among}
use platform_mihomo_service.Store.Memory.{memory, memory-IsWorld, fold}
use platform_mihomo_service.Data.CredentialRepo.{credential_repo}
use platform_mihomo_service.Data.ArtifactRepo.{artifact_repo, put, get_by_binding_id}
use platform_mihomo_service.Usecase.AuthkeyUsecase.{
  GetAuthKeyOutput, issued_artifact, issue_and_store, get_auth_key,
}
use platform_mihomo_service.Wiring.Fixtures.{bound_view}
use platform_mihomo_service.Wiring.{ports}
use platform_mihomo_service.Wiring.AuthKeys.{IsHandedOut, get_auth_key-IsHandedOut}

abbrev output : GetAuthKeyOutput
output = record { auth_key = "stub-authkey"; expires_at = pos 300000000100 }

abbrev issued_view : View
issued_view = record bound_view {
  tables = record bound_view.tables {
    runtime_artifacts =
        record {
          id = 1;
          binding_id = 7;
          platform_account_id = "binding_7_10001";
          artifact_type = "authkey";
          artifact_value = "stub-authkey";
          scope_key = "9";
          expires_at = pos 300000000000;
        }
        ∷ [];
  };
}

first_key :
    get_auth_key (ports memory) (artifact_repo memory) "binding_7_10001" "9" bound_view
    ≡ (ok output, issued_view)
unfolding get_auth_key issue_and_store issued_artifact ports credential_repo artifact_repo put
    get_by_binding_id
first_key = refl

same_key :
    get_auth_key (ports memory) (artifact_repo memory) "binding_7_10001" "9" issued_view
    ≡ (ok (record output { expires_at = pos 300000000000 }), issued_view)
unfolding get_auth_key issue_and_store ports credential_repo artifact_repo get_by_binding_id
same_key = refl

get_auth_key-IsHandedOut_example :
    (r : CredentialRecord) × Among r bound_view.tables.credential_records
    × (fold r.platform_account_id ≡ fold "binding_7_10001")
    × IsHandedOut (λ v. v) memory memory-IsWorld r.binding_id "9" output bound_view issued_view
get_auth_key-IsHandedOut_example =
    get_auth_key-IsHandedOut (λ v. v) memory memory-IsWorld "binding_7_10001" "9" bound_view
      issued_view output first_key
