-- ===== src/Wiring/Tests.antt =====
-- The handlers and use cases over the memory, at concrete requests.
use platform_mihomo_service.Base.{true, some, [], ◌∷◌, ◌≡◌, map, keep, refl}
use platform_mihomo_service.Base.Int.{pos}
use platform_mihomo_service.Outcome.{ok, err, default_profile_already_exists}
use platform_mihomo_service.Biz.{ServiceTicketClaims}
use platform_mihomo_service.Api.{ProfileSummary}
use platform_mihomo_service.Store.Memory.{memory, memory-IsWorld}
use platform_mihomo_service.Scope.Action
use platform_mihomo_service.Scope.{scoped_guard, require_binding_wide, require_platform_account_id}
use platform_mihomo_service.AccountKey.{
  format_platform_account_id, binding_id_from_platform_account_id,
}
use platform_mihomo_service.Data.ManagementRepo.Deletion.{without_binding}
use platform_mihomo_service.Data.CredentialRepo.{credential_repo}
use platform_mihomo_service.Data.ManagementRepo.{management_repo}
use platform_mihomo_service.Data.ArtifactRepo.{artifact_repo, delete_by_binding_id}
use platform_mihomo_service.Data.DeviceRepo.{device_repo}
use platform_mihomo_service.Data.ProfileRepo.{profile_repo}
use platform_mihomo_service.Usecase.ManagementUsecase.{delete_credential_with_scope}
use platform_mihomo_service.Ticket.{claims_of, verify_context}
use platform_mihomo_service.Ticket.Example.{owner_claims, known_tickets, verifier, demanding_view}
use platform_mihomo_service.Usecase.BindUsecase.{
  BindCredentialInput, bind_credential, prepare_bind_credential, bind_prepared_credential,
  previous_platform_account_id, save_profiles, bound_profile,
}
use platform_mihomo_service.Service.Mapper.{verify_service_ticket}
use platform_mihomo_service.Service.Authorisation.{AllowsAccount}
use platform_mihomo_service.Service.AccountService.{delete_credential, binding_wide_guard}
use platform_mihomo_service.Wiring.Fixtures.{bound_view, deletion}
use platform_mihomo_service.Wiring.{ports, service}
use platform_mihomo_service.Wiring.Atomicity.{bind_credential_of_err}
use platform_mihomo_service.Wiring.Handlers.{delete_credential-without_binding}
use platform_mihomo_service.Wiring.Profiles.{profiles_of, list_profiles_with_scope-profiles_of}
use platform_mihomo_service.Usecase.ProfileUsecase.{to_profile_summary, list_profiles_with_scope}
use platform_mihomo_service.Usecase.ProfileUsecase.Scoped.{is_visible}
use platform_mihomo_service.Scope.{ScopeGuard, scoped_guard_for_platform_account}
use platform_mihomo_service.Scope.Laws.{guard_of}
use platform_mihomo_service.Service.AccountService.Guards.{binding_wide_guard-AllowsAccount}

deleted :
    delete_credential (service memory known_tickets verifier) (some deletion) bound_view
    ≡ (ok true, demanding_view)
unfolding delete_credential verify_service_ticket verify_context claims_of scoped_guard
    require_binding_wide binding_id_from_platform_account_id delete_credential_with_scope
    require_platform_account_id ports credential_repo management_repo delete_by_binding_id
deleted = refl

delete_credential-without_binding_example :
    (c : ServiceTicketClaims) × ((verify_service_ticket
        (service memory known_tickets verifier)
        "owner"
        bound_view).0
      ≡ ok c)
    × AllowsAccount c "binding_7_10001" Action.credential_delete
    × (c.profile_id ≡ 0)
    × (demanding_view.tables ≡ without_binding c.binding_id bound_view.tables)
delete_credential-without_binding_example =
    delete_credential-without_binding (λ v. v) memory memory-IsWorld known_tickets verifier refl
      (λ raw audience s. refl) deletion bound_view demanding_view true deleted

-- The old profile is a default of the binding that the new account's key does not reach.
abbrev input : BindCredentialInput
input = record {
  binding_id = 7;
  cookie_bundle_json = "new cookie";
  device_id = "d-1";
  device_fp = "fp";
  device_name = "";
  region_hint = "";
}

conflicting :
    bind_credential (ports memory) input bound_view
    ≡ (err default_profile_already_exists, bound_view)
unfolding bind_credential ports prepare_bind_credential bind_prepared_credential credential_repo
    artifact_repo device_repo previous_platform_account_id format_platform_account_id profile_repo
    save_profiles bound_profile
conflicting = refl

bind_credential_of_err_example : bound_view.tables ≡ bound_view.tables
bind_credential_of_err_example =
    bind_credential_of_err (λ v. v) memory memory-IsWorld input bound_view bound_view
      default_profile_already_exists conflicting

abbrev reader : ScopeGuard
reader = record { allowed_actions = []; binding_id = 7; profile_id = 0 }

abbrev old_profile : ProfileSummary
old_profile = record {
  id = 1;
  platform_account_id = "binding_7_9";
  game_biz = "hk4e_cn";
  region = "cn_gf01";
  player_id = "9";
  nickname = "Old";
  level = pos 1;
  is_default = true;
}

listed :
    list_profiles_with_scope (ports memory) reader "binding_7_9" bound_view
    ≡ (ok (old_profile ∷ []), bound_view)
unfolding list_profiles_with_scope ports profile_repo require_platform_account_id
    binding_id_from_platform_account_id
listed = refl

list_profiles_with_scope-profiles_of_example :
    (require_platform_account_id reader "binding_7_9" ≡ ok tt)
    × ((old_profile ∷ [])
        ≡ map to_profile_summary (
            keep
              (is_visible reader "binding_7_9")
              (profiles_of (λ v. v) memory memory-IsWorld 7 bound_view)))
    × (bound_view ≡ bound_view)
list_profiles_with_scope-profiles_of_example =
    list_profiles_with_scope-profiles_of (λ v. v) memory memory-IsWorld reader "binding_7_9"
      bound_view bound_view (old_profile ∷ []) listed

abbrev owner : ServiceTicketClaims
unfolding claims_of
owner = claims_of owner_claims "platform-mihomo-service"

abbrev owner_guard : ScopeGuard
unfolding owner
owner_guard = guard_of owner

guarded :
    binding_wide_guard
      (service memory known_tickets verifier)
      "owner"
      "binding_7_10001"
      Action.credential_delete
      bound_view
    ≡ (ok owner_guard, bound_view)
unfolding binding_wide_guard verify_service_ticket verify_context claims_of owner owner_guard
    require_binding_wide scoped_guard_for_platform_account binding_id_from_platform_account_id
guarded = refl

binding_wide_guard-AllowsAccount_example :
    (c : ServiceTicketClaims) × (verify_service_ticket
        (service memory known_tickets verifier)
        "owner"
        bound_view
      ≡ (ok c, bound_view))
    × AllowsAccount c "binding_7_10001" Action.credential_delete
    × (c.profile_id ≡ 0)
    × (owner_guard ≡ guard_of c)
binding_wide_guard-AllowsAccount_example =
    binding_wide_guard-AllowsAccount (service memory known_tickets verifier) "owner"
      "binding_7_10001" Action.credential_delete bound_view bound_view owner_guard guarded
