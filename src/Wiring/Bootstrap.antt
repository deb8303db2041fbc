-- ===== src/Wiring/Bootstrap.antt =====
-- The start of main (cmd/platform-mihomo-service/main.go): validateBootstrap,
-- newTicketVerifierFromSecurity, and the constructors of internal/data/ticket_verifier.go.
pub mod Usable
mod Tests
use Prim.Native.String.{len}
use platform_mihomo_service.Base.Int.{ℤ, pos, ltb_ℤ}
use platform_mihomo_service.Base.{
  ℕ, String, Bool, true, false, not, Option, none, some, List, [], ◌∷◌, eqb, ◌==◌,
}
use platform_mihomo_service.Outcome as Calls
use platform_mihomo_service.Outcome.{M, Result, ok, external}
use platform_mihomo_service.Outcome.Check.{guard, ◌>>=◌, ◌>>◌}
use platform_mihomo_service.Ticket.{TicketVerifier, new_static_public_key_resolver, resolve}
use platform_mihomo_service.Ticket.PublicKey.{PemLibrary, parse_ed25519_public_key_pem}

-- The messages of internal/conf/conf.proto that are checked; any of them may be absent.
pub record Grpc : Type 0 where
  pub network : String
  pub addr : String
  pub timeout_seconds : ℤ

pub record Server : Type 0 where
  pub grpc : Option Grpc

pub record Security : Type 0 where
  pub credential_encryption_key : String
  pub service_ticket_issuer : String
  pub service_ticket_public_key_pem : String
  pub service_ticket_key_id : String

pub record Bootstrap : Type 0 where
  pub server : Option Server
  pub security : Option Security

-- The getters read an absent message as its zero values.
unfoldable pub grpc_or_empty : Option Grpc → Grpc
grpc_or_empty none = record { network = ""; addr = ""; timeout_seconds = pos 0 }
grpc_or_empty (some g) = g

unfoldable pub get_grpc : Bootstrap → Grpc
unfolding grpc_or_empty
get_grpc bc = elim bc.server [ none ↦ grpc_or_empty none | some s ↦ grpc_or_empty s.grpc ]

abbrev empty_security : Security
empty_security = record {
  credential_encryption_key = "";
  service_ticket_issuer = "";
  service_ticket_public_key_pem = "";
  service_ticket_key_id = "";
}

unfoldable pub get_security : Bootstrap → Security
get_security bc = elim bc.security [ none ↦ empty_security | some s ↦ s ]

abbrev pub is_empty : List ℕ → Bool
is_empty [] = true
is_empty (b ∷ bs) = false

module _ {S : Type 0} where
  unfoldable pub new_ticket_verifier_with_resolver :
      {K : Type 0} → String → Option (String → M S K) → TicketVerifier S K
  new_ticket_verifier_with_resolver issuer resolver = record {
    issuer = issuer;
    resolver = resolver;
    minimum_version = none;
  }

  unfoldable pub new_static_key_ticket_verifier :
      String → String → List ℕ → TicketVerifier S (List ℕ)
  unfolding new_ticket_verifier_with_resolver new_static_public_key_resolver resolve
  new_static_key_ticket_verifier issuer kid public_key = new_ticket_verifier_with_resolver issuer (
      some (λ k.
        Calls.lift
          (resolve (new_static_public_key_resolver kid (is_empty public_key) public_key) k)))

  unfoldable pub new_ticket_verifier : String → List ℕ → TicketVerifier S (List ℕ)
  unfolding new_static_key_ticket_verifier
  new_ticket_verifier issuer key = new_static_key_ticket_verifier issuer "default" key

module _ (library : PemLibrary) where
  abbrev pub require : Bool → String → Result (Unit {0})
  require passed message = guard passed (external message)

  unfoldable pub validate_bootstrap : Bootstrap → Result (Unit {0})
  unfolding get_grpc get_security parse_ed25519_public_key_pem
  validate_bootstrap bc = do
    require (not ((get_grpc bc).network == "")) "server.grpc.network is required"
    require (not ((get_grpc bc).addr == "")) "server.grpc.addr is required"
    require (ltb_ℤ (pos 0) (get_grpc bc).timeout_seconds)
        "server.grpc.timeout_seconds must be greater than zero"
    require (not ((get_security bc).service_ticket_issuer == ""))
        "security.service_ticket_issuer is required"
    require (eqb (len (get_security bc).credential_encryption_key) 32)
        "security.credential_encryption_key must be 32 bytes"
    require (not ((get_security bc).service_ticket_key_id == ""))
        "security.service_ticket_key_id is required"
    require (not ((get_security bc).service_ticket_public_key_pem == ""))
        "security.service_ticket_public_key_pem is required"
    parse_ed25519_public_key_pem library (get_security bc).service_ticket_public_key_pem
    ok tt

  module _ {S : Type 0} where
    unfoldable pub new_ticket_verifier_from_security : Security → Result (TicketVerifier S (List ℕ))
    unfolding new_static_key_ticket_verifier parse_ed25519_public_key_pem
    new_ticket_verifier_from_security security = do
      public_key ← parse_ed25519_public_key_pem library security.service_ticket_public_key_pem
      ok (
          new_static_key_ticket_verifier security.service_ticket_issuer
            security.service_ticket_key_id public_key)

-- `WithGrantVersionLookup`
unfoldable pub with_grant_version_lookup :
    {S K : Type 0} → TicketVerifier S K → (ℕ → String → M S ℕ) → TicketVerifier S K
with_grant_version_lookup v minimum_version = record v { minimum_version = some minimum_version }
