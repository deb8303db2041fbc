-- ===== src/Scope/Tests.antt =====
-- The guards of a ticket, at a concrete ticket.
use platform_mihomo_service.Base.{◌≡◌, ◌≢◌, ◌↔◌, ◌⊎◌, [], ◌∷◌, All, refl}
use platform_mihomo_service.Outcome.{ok, err, binding_scope_denied}
use platform_mihomo_service.Biz.{ServiceTicketClaims}
use platform_mihomo_service.AccountKey.{binding_id_from_platform_account_id}
use platform_mihomo_service.Scope.{require_profile, scoped_guard_for_platform_account}
use platform_mihomo_service.Scope.Action
use platform_mihomo_service.Scope.Laws.{
  Holds, guard_of, require_profile_iff, scoped_guard_for_platform_account_iff,
}

abbrev ticket : ServiceTicketClaims
ticket = record {
  actor_type = "user";
  actor_id = "u-1";
  owner_user_id = 1;
  binding_id = 7;
  platform = "mihomo";
  platform_account_id = "binding_7_10001";
  consumer = "";
  grant_version = 0;
  profile_id = 3;
  scopes = Action.profile_read ∷ [];
  audience = "platform-mihomo-service";
  bot_id = "";
  user_id = 1;
  platform_service_key = "";
  platform_account_ref_id = 7;
}

-- The key of another binding is denied.
other_binding :
    scoped_guard_for_platform_account ticket "binding_8_10001" (Action.profile_read ∷ [])
    ≡ err binding_scope_denied
unfolding scoped_guard_for_platform_account binding_id_from_platform_account_id
other_binding = refl

scoped_guard_for_platform_account_iff_example :
    (scoped_guard_for_platform_account ticket "binding_7_10001" (Action.profile_read ∷ [])
      ≡ ok (guard_of ticket))
    ↔ ((ticket.platform ≡ "mihomo")
        × All (λ a. Holds a ticket.scopes) (Action.profile_read ∷ [])
        × (binding_id_from_platform_account_id "binding_7_10001" ≡ ok ticket.binding_id)
        × (ticket.binding_id ≢ 0)
        × (guard_of ticket ≡ guard_of ticket))
scoped_guard_for_platform_account_iff_example =
    scoped_guard_for_platform_account_iff ticket "binding_7_10001" (Action.profile_read ∷ [])
      (guard_of ticket)

require_profile_iff_example : (require_profile (guard_of ticket) 7 3 ≡ ok tt) ↔ (
    (ticket.binding_id ≢ 0)
    × (ticket.binding_id ≡ 7)
    × ((ticket.profile_id ≡ 0) ⊎ (ticket.profile_id ≡ 3)))
require_profile_iff_example = require_profile_iff (guard_of ticket) 7 3
