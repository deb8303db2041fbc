-- ===== src/Wiring.antt =====
-- The use cases and the services over the repositories, as main wires them
-- (cmd/platform-mihomo-service/main.go).
pub mod Atomicity
pub mod AuthKeys
pub mod Bootstrap
pub mod Deletion
pub mod Handlers
pub mod Invalidation
pub mod Keeps
pub mod Profiles
pub mod Requests
mod Fixtures
mod Tests
use platform_mihomo_service.Base.{String, Bool, Option, some}
use platform_mihomo_service.Outcome.{Result, lift}
use platform_mihomo_service.Biz.Repositories.{Ports}
use platform_mihomo_service.Store.{World}
use platform_mihomo_service.Data.CredentialRepo.{credential_repo, within_transaction}
use platform_mihomo_service.Data.DeviceRepo.{device_repo}
use platform_mihomo_service.Data.ProfileRepo.{profile_repo}
use platform_mihomo_service.Data.ArtifactRepo.{artifact_repo}
use platform_mihomo_service.Data.ManagementRepo.{management_repo}
use platform_mihomo_service.Data.GrantInvalidationRepo.{minimum_version, upsert}
use platform_mihomo_service.Ticket.{Parser, TicketVerifier, new_static_public_key_resolver, resolve}
use platform_mihomo_service.Service.Mapper.{Service}
use platform_mihomo_service.Service.PlatformService.{GenericCredentialPayload, GenericService}

module _ {S : Type 0} (w : World S) where
  unfoldable pub ports : Ports S
  unfolding within_transaction
  ports = record {
    credentials = credential_repo w;
    devices = device_repo w;
    profiles = profile_repo w;
    artifacts = some (artifact_repo w);
    management = management_repo w;
    within_transaction = some (within_transaction w);
    client = w.client;
    cipher = w.cipher;
    now = w.now;
  }

module _ {S K : Type 0} (w : World S) (parse : Parser S K) where
  -- `NewStaticKeyTicketVerifier` with `WithGrantVersionLookup`, as main builds it.
  unfoldable pub ticket_verifier : String → String → Bool → K → TicketVerifier S K
  unfolding new_static_public_key_resolver resolve
  ticket_verifier issuer kid key_is_empty key = record {
    issuer = issuer;
    resolver = some (λ k. lift (resolve (new_static_public_key_resolver kid key_is_empty key) k));
    minimum_version = some (minimum_version w);
  }

  abbrev pub service : TicketVerifier S K → Service S K
  service verifier = record {
    ports = ports w;
    artifacts = artifact_repo w;
    verifier = verifier;
    parse = parse;
  }

  abbrev pub generic_service :
      (String → Result GenericCredentialPayload) → TicketVerifier S K → GenericService S K
  generic_service decode verifier = record {
    service = service verifier;
    decode = decode;
    upsert_invalidation = some (upsert w);
  }
