-- ===== src/Ticket/Tests.antt =====
-- The verification of concrete tickets.
use platform_mihomo_service.Base.{String, true, ◌≡◌, ◌≤◌, eq_iff, inr, refl, arith}
use platform_mihomo_service.Outcome.{ok}
use platform_mihomo_service.Biz.{ServiceTicketClaims}
use platform_mihomo_service.Store.Laws.{View}
use platform_mihomo_service.Store.Memory.{memory, memory-IsWorld}
use platform_mihomo_service.Data.GrantInvalidationRepo.{minimum_version}
use platform_mihomo_service.Ticket.{TicketClaims, key_of, claims_of, verify_context}
use platform_mihomo_service.Ticket.Example.{
  consumer_claims, known_tickets, verifier, demanding_view,
}
use platform_mihomo_service.Ticket.Laws.{
  HasClaims, verify_context-HasClaims, verify_context_of_HasClaims,
}
use platform_mihomo_service.Ticket.Revocation.{verify_context-Demands}

abbrev audience : String
audience = "platform-mihomo-service"

abbrev accepted : ServiceTicketClaims
unfolding claims_of
accepted = claims_of consumer_claims audience

accepted_lem :
    verify_context verifier known_tickets "consumer" audience demanding_view
    ≡ (ok accepted, demanding_view)
unfolding verify_context minimum_version claims_of
accepted_lem = refl

verify_context-HasClaims_example :
    (c : TicketClaims) × (u : View) × (known_tickets "consumer"
        (key_of verifier)
        audience
        "paigram"
        demanding_view
      ≡ (ok (c, true), u))
    × HasClaims c
    × (accepted ≡ claims_of c audience)
verify_context-HasClaims_example =
    verify_context-HasClaims verifier known_tickets "consumer" audience demanding_view
      demanding_view accepted accepted_lem

verify_context-Demands_example : 2 ≤ accepted.grant_version
unfolding claims_of accepted
verify_context-Demands_example =
    verify_context-Demands (λ v. v) memory memory-IsWorld verifier known_tickets refl
      (λ raw aud s. refl) "consumer" audience demanding_view demanding_view accepted 2
      ((inr (omega arith), tt), refl) accepted_lem refl

consumer_claims-HasClaims : HasClaims consumer_claims
consumer_claims-HasClaims =
    ground (arith, eq_iff "consumer" "", eq_iff "c-1" "", eq_iff "mihomo" "", eq_iff "bot" "")

verify_context_of_HasClaims_example :
    (verify_context verifier known_tickets "consumer" audience demanding_view).0
    ≡ ok (claims_of consumer_claims audience)
unfolding minimum_version
verify_context_of_HasClaims_example =
    verify_context_of_HasClaims verifier known_tickets "consumer" audience demanding_view
      demanding_view demanding_view consumer_claims (minimum_version memory) 2 refl refl
      consumer_claims-HasClaims refl (omega arith)
