-- ===== src/Ticket/Example.antt =====
-- Tickets, a parser and a verifier for the theorems' instances.
use platform_mihomo_service.Base.{ℕ, String, true, some, [], ◌∷◌, ◌==◌, if◌then◌else◌}
use platform_mihomo_service.Outcome.{ok, M, pure}
use platform_mihomo_service.Store.Laws.{View}
use platform_mihomo_service.Store.Memory.{memory, empty_view}
use platform_mihomo_service.Base.Int.{pos}
use platform_mihomo_service.Data.GrantInvalidationRepo.{minimum_version}
use platform_mihomo_service.Ticket.{TicketClaims, Parser, TicketVerifier}

-- A consumer's ticket of version 3.
abbrev pub consumer_claims : TicketClaims
consumer_claims = record {
  actor_type = "consumer";
  actor_id = "c-1";
  owner_user_id = 1;
  binding_id = 7;
  platform = "mihomo";
  platform_account_id = "binding_7_10001";
  consumer = "bot";
  grant_version = 3;
  profile_id = 0;
  scopes = "mihomo.profile.read" ∷ [];
  allowed_actions = [];
  bot_id = "";
  user_id = 0;
  platform_service_key = "";
  platform_account_ref_id = 0;
}

-- The ticket of the binding's owner.
abbrev pub owner_claims : TicketClaims
owner_claims = record consumer_claims {
  actor_type = "user";
  consumer = "";
  grant_version = 0;
  scopes = "mihomo.credential.delete" ∷ ("mihomo.consumer_grant.invalidate" ∷ []);
}

-- A parser that knows two tickets, and asks for no key.
abbrev pub known_tickets : Parser View ℕ
known_tickets raw key audience issuer v =
    (ok (if raw == "owner" then owner_claims else consumer_claims, true), v)

abbrev pub static_key : String → M View ℕ
static_key kid = pure 1

abbrev pub verifier : TicketVerifier View ℕ
verifier = record {
  issuer = "paigram";
  resolver = some static_key;
  minimum_version = some (minimum_version memory);
}

-- The database in which the consumer needs version 2.
abbrev pub demanding_view : View
demanding_view = record empty_view {
  tables = record empty_view.tables {
    consumer_grant_invalidations =
        record {
          id = 1;
          binding_id = 7;
          consumer = "bot";
          minimum_grant_version = 2;
          invalidated_at = pos 0;
        }
        ∷ [];
  };
}
