-- ===== src/Wiring/Fixtures.antt =====
-- A state, requests and claims for the tests of the wired services.
use platform_mihomo_service.Base.{String, true, none, [], ◌∷◌}
use platform_mihomo_service.Base.Int.{pos}
use platform_mihomo_service.Outcome.{Result, err, external}
use platform_mihomo_service.Biz.{ServiceTicketClaims}
use platform_mihomo_service.Api.{AccountRequest}
use platform_mihomo_service.Store.Laws.{View}
use platform_mihomo_service.Store.Memory.{empty_view}
use platform_mihomo_service.Ticket.{claims_of}
use platform_mihomo_service.Ticket.Example.{consumer_claims, demanding_view}
use platform_mihomo_service.Service.PlatformService.{
  GenericCredentialPayload, InvalidateConsumerGrantRequest,
}

abbrev pub no_decoder : String → Result GenericCredentialPayload
no_decoder t = err (external "no decoder")

abbrev pub invalidation : InvalidateConsumerGrantRequest
invalidation = record {
  service_ticket = "owner";
  binding_id = 7;
  consumer = "bot";
  minimum_grant_version = 3;
}

abbrev pub invalidated_view : View
invalidated_view = record empty_view {
  tables = record empty_view.tables {
    consumer_grant_invalidations =
        record {
          id = 1;
          binding_id = 7;
          consumer = "bot";
          minimum_grant_version = 3;
          invalidated_at = pos 0;
        }
        ∷ [];
  };
}

unfoldable pub consumer : ServiceTicketClaims
unfolding claims_of
consumer = claims_of consumer_claims "platform-mihomo-service"

-- A binding with a credential and a profile.
abbrev pub bound_view : View
bound_view = record demanding_view {
  tables = record demanding_view.tables {
    credential_records =
        record {
          id = 1;
          binding_id = 7;
          platform_account_id = "binding_7_10001";
          platform = "mihomo";
          account_id = "10001";
          region = "cn_gf01";
          credential_blob = "cookie";
          credential_version = "v1";
          status = "active";
          last_validated_at = none;
          last_refreshed_at = none;
          expires_at = none;
        }
        ∷ [];
    account_profiles =
        record {
          id = 1;
          binding_id = 7;
          platform_account_id = "binding_7_9";
          game_biz = "hk4e_cn";
          region = "cn_gf01";
          player_id = "9";
          nickname = "Old";
          level = pos 1;
          is_default = true;
          discovered_at = pos 0;
        }
        ∷ [];
  };
}

abbrev pub deletion : AccountRequest
deletion = record { service_ticket = "owner"; platform_account_id = "binding_7_10001" }
