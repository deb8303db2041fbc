-- ===== src/Upstream.antt =====
-- internal/platform/mihomo/client_stub.go: the client of tests, and the one that main wires.
pub mod Unconfigured
mod Tests
use platform_mihomo_service.Base.Int.{pos}
use platform_mihomo_service.Base.{[], ◌∷◌}
use platform_mihomo_service.Biz.Repositories.{Client, answer, failure}

module _ {S : Type 0} where
  abbrev pub stub_client : Client S
  stub_client = record {
    validate_and_discover = λ cookie_bundle_json region_hint s. (
      answer (
        "10001",
        "cn_gf01",
        record {
          game_biz = "hk4e_cn";
          region = "cn_gf01";
          player_id = "1008611";
          nickname = "Traveler";
          level = pos 60;
        }
            ∷ [],
      ),
      s,
    );
    issue_auth_key = λ cookie_bundle_json player_id s. (answer ("stub-authkey", pos 300), s);
  }

  abbrev pub unconfigured_client : Client S
  unconfigured_client = record {
    validate_and_discover =
        λ cookie_bundle_json region_hint s. (failure "mihomo upstream client not configured", s);
    issue_auth_key =
        λ cookie_bundle_json player_id s. (failure "mihomo upstream client not configured", s);
  }
