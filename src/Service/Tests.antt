-- ===== src/Service/Tests.antt =====
-- A request for a summary, and the description of the platform.
use platform_mihomo_service.Base.{ℕ, some, ◌≡◌, refl}
use platform_mihomo_service.Api.{AccountRequest}
use platform_mihomo_service.Store.Laws.{View}
use platform_mihomo_service.Store.Memory.{memory, empty_view}
use platform_mihomo_service.Ticket.Example.{known_tickets, verifier}
use platform_mihomo_service.Wiring.{generic_service}
use platform_mihomo_service.Service.CredentialService as Credentials
use platform_mihomo_service.Service.PlatformService.{GenericService}
use platform_mihomo_service.Service.PlatformService as Platform
use platform_mihomo_service.Service.Summaries.{same_summary, get_credential_summary_agrees}
use platform_mihomo_service.Outcome.{pure, ◌>>=◌, ok, err, external, status, internal}
use platform_mihomo_service.Service.Description.{
  Entries, described, describe_platform, credential_schema_entries,
}

abbrev request : AccountRequest
request = record { service_ticket = "owner"; platform_account_id = "binding_7_10001" }

abbrev generic : GenericService View ℕ
generic =
    generic_service memory known_tickets (λ raw. err (external "unexpected end of JSON input"))
      verifier

get_credential_summary_agrees_example :
    Platform.get_credential_summary generic (some request) empty_view
    ≡ (Credentials.get_credential_summary generic.service (some request) >>= λ r.
          pure (same_summary r))
        empty_view
get_credential_summary_agrees_example =
    get_credential_summary_agrees generic (some request) empty_view

-- DescribePlatform answers with the schema that structpb builds, or reports that it built none.
described_schema :
    describe_platform {Struct = Entries} (λ entries. ok entries)
    ≡ ok (described credential_schema_entries)
unfolding describe_platform
described_schema = refl

refused_schema :
    describe_platform {Struct = Entries} (λ entries. err (external "invalid type"))
    ≡ err (status internal "failed to build credential schema")
unfolding describe_platform
refused_schema = refl
