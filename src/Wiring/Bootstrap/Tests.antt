-- ===== src/Wiring/Bootstrap/Tests.antt =====
-- A configuration that main accepts, and the header of a ticket under it.
use Prim.Native.String.{len}
use platform_mihomo_service.Base.Int.{pos}
use platform_mihomo_service.Base.{
  ℕ, zero, suc, none, some, List, [], ◌∷◌, length, ◌==◌, ◌≡◌, refl, if◌then◌else◌,
}
use platform_mihomo_service.Outcome.{ok, err, external}
use platform_mihomo_service.Biz.Repositories.{answer}
use platform_mihomo_service.Ticket.{TicketVerifier}
use platform_mihomo_service.Ticket.PublicKey.{
  PemLibrary, ed25519, parse_ed25519_public_key_pem, public_key_size,
}
use platform_mihomo_service.Wiring.Bootstrap.{
  Bootstrap, get_security, validate_bootstrap, new_ticket_verifier_from_security,
}
use platform_mihomo_service.Wiring.Bootstrap.Usable.{GivesKey, validate_bootstrap-GivesKey}

abbrev ones : ℕ → List ℕ
ones zero = []
ones (suc n) = 1 ∷ ones n

-- One block, with a key of 32 bytes.
abbrev library : PemLibrary
library = record {
  decode = λ pem. if pem == "key" then some (ones 32) else none;
  parse_pkix_public_key = λ block. answer (ed25519 block);
}

abbrev configuration : Bootstrap
configuration = record {
  server = some (record {
    grpc = some (record { network = "tcp"; addr = ":9000"; timeout_seconds = pos 5 });
  });
  security = some (record {
    credential_encryption_key = "0123456789abcdef0123456789abcdef";
    service_ticket_issuer = "paigram";
    service_ticket_public_key_pem = "key";
    service_ticket_key_id = "2024-01";
  });
}

-- Without a server, the network is missing.
without_server :
    validate_bootstrap library (record configuration { server = none })
    ≡ err (external "server.grpc.network is required")
unfolding validate_bootstrap
without_server = refl

validate_bootstrap-GivesKey_example :
    (len (get_security configuration).credential_encryption_key ≡ 32)
    × (key : List ℕ) × (v : TicketVerifier ℕ (List ℕ)) × (parse_ed25519_public_key_pem library
          (get_security configuration).service_ticket_public_key_pem
        ≡ ok key)
    × (length key ≡ public_key_size)
    × (new_ticket_verifier_from_security library (get_security configuration) ≡ ok v)
    × GivesKey v (get_security configuration).service_ticket_key_id key
unfolding validate_bootstrap
validate_bootstrap-GivesKey_example = validate_bootstrap-GivesKey library configuration refl
