-- ===== src/Upstream/Tests.antt =====
-- The use cases without an upstream, over the memory.
use platform_mihomo_service.Base.{false, some, none, eqb, if◌then◌else◌, ◌≡◌, refl}
use platform_mihomo_service.Base.Int.{pos}
use platform_mihomo_service.Base.Text.{contains_lower}
use platform_mihomo_service.Outcome.{ok, err, external, binding_id_required}
use platform_mihomo_service.Biz.{Credential}
use platform_mihomo_service.Api.{invalid}
use platform_mihomo_service.Store.Laws.{View}
use platform_mihomo_service.Store.Memory.{memory, empty_view}
use platform_mihomo_service.Data.CredentialRepo.{credential_repo}
use platform_mihomo_service.Usecase.BindUsecase.{BindCredentialInput, bind_credential}
use platform_mihomo_service.Usecase.StatusUsecase.{revalidate}
use platform_mihomo_service.Wiring.{ports}
use platform_mihomo_service.Upstream.Unconfigured.{
  unconfigured, Invalidated, bind_credential-unconfigured, revalidate-Invalidated,
}

abbrev input : BindCredentialInput
input = record {
  binding_id = 7;
  cookie_bundle_json = "{}";
  device_id = "d-1";
  device_fp = "fp";
  device_name = "";
  region_hint = "cn_gf01";
}

bind_credential-unconfigured_example :
    bind_credential (unconfigured (ports memory)) input empty_view ≡ (
      err (
          if eqb input.binding_id 0
          then binding_id_required
          else external "mihomo upstream client not configured"),
      empty_view,
    )
bind_credential-unconfigured_example = bind_credential-unconfigured (ports memory) input empty_view

abbrev credential : Credential
credential = record {
  binding_id = 7;
  platform_account_id = "binding_7_10001";
  platform = "mihomo";
  account_id = "10001";
  region = "cn_gf01";
  credential_blob = "cookie";
  credential_version = "v1";
  status = "active";
  last_validated_at = none;
  last_refreshed_at = none;
  expires_at = none;
}

abbrev refused_credential : Credential
refused_credential = record credential { status = "invalid"; last_validated_at = some (pos 100) }

abbrev saved_view : View
saved_view = (revalidate (unconfigured (ports memory)) credential false empty_view).1

revalidated :
    revalidate (unconfigured (ports memory)) credential false empty_view
    ≡ (ok (invalid, "INVALID_CREDENTIAL", refused_credential), saved_view)
unfolding revalidate ports credential_repo contains_lower
revalidated = refl

revalidate-Invalidated_example :
    Invalidated (ports memory) saved_view (invalid, "INVALID_CREDENTIAL", refused_credential)
revalidate-Invalidated_example =
    revalidate-Invalidated (ports memory) credential false empty_view saved_view
      (invalid, "INVALID_CREDENTIAL", refused_credential) revalidated
