-- ===== src/Service/Summaries.antt =====
-- The summaries of internal/service/mihomo_credential_service.go and of
-- internal/service/platform_service_adapter.go.
use platform_mihomo_service.Base.{Option, none, some, List, [], ◌∷◌, ◌≡◌, refl, sym, ◌∙◌, ap, map}
use platform_mihomo_service.Outcome.{M, pure, ◌>>=◌}
use platform_mihomo_service.Outcome.Laws.{>>=_assoc}
use platform_mihomo_service.Api.{
  CredentialStatus, active, expired, invalid, challenge_required, unspecified, AccountRequest,
}
use platform_mihomo_service.Scope.{ScopeGuard, scoped_guard_for_platform_account}
use platform_mihomo_service.Scope.Action
use platform_mihomo_service.Biz.{ServiceTicketClaims}
use platform_mihomo_service.Usecase.ManagementUsecase as Management
use platform_mihomo_service.Usecase.ManagementUsecase.{CredentialSummaryOutput}
use platform_mihomo_service.Service.Mapper.{mapped, mapped_check, verify_service_ticket}
use platform_mihomo_service.Service.CredentialService.{
  to_shared_credential_status, to_shared_profile, to_shared_device, to_shared_credential_summary,
}
use platform_mihomo_service.Service.CredentialService as Credentials
use platform_mihomo_service.Service.GenericSummary.{
  to_generic_credential_status, to_generic_profile, to_generic_device,
  to_generic_credential_summary,
}
use platform_mihomo_service.Service.PlatformService.{GenericService}
use platform_mihomo_service.Service.PlatformService as Platform
use platform_mihomo_service.Service.SharedMessages as Shared
use platform_mihomo_service.Service.GenericMessages as Generic

-- The message of the generic service with the content of one of the shared service.
abbrev pub same_status : Shared.CredentialStatus → Generic.CredentialStatus
same_status Shared.unspecified = Generic.unspecified
same_status Shared.active = Generic.active
same_status Shared.expired = Generic.expired
same_status Shared.invalid = Generic.invalid
same_status Shared.challenge_required = Generic.challenge_required

abbrev pub same_profile : Shared.ProfileSummary → Generic.ProfileSummary
same_profile p = record {
  id = p.id;
  platform_account_id = p.platform_account_id;
  game_biz = p.game_biz;
  region = p.region;
  player_id = p.player_id;
  nickname = p.nickname;
  level = p.level;
  is_default = p.is_default;
}

abbrev pub same_device : Shared.DeviceSummary → Generic.DeviceSummary
same_device d = record {
  device_id = d.device_id;
  device_fp = d.device_fp;
  device_name = d.device_name;
  is_valid = d.is_valid;
  last_seen_at = d.last_seen_at;
}

abbrev pub same_summary : Shared.CredentialSummary → Generic.CredentialSummary
same_summary s = record {
  platform_account_id = s.platform_account_id;
  status = same_status s.status;
  last_validated_at = s.last_validated_at;
  last_refreshed_at = s.last_refreshed_at;
  devices = map same_device s.devices;
  profiles = map same_profile s.profiles;
}

map-map :
    {A B C : Type 0} (f : A → B) (g : B → C) (h : A → C)
    → ((a : A) → h a ≡ g (f a))
    → (xs : List A) → map h xs ≡ map g (map f xs)
map-map f g h e [] = refl
map-map f g h e (x ∷ xs) = rw (e x, map-map f g h e xs) refl

status_agrees :
    (c : CredentialStatus)
    → to_generic_credential_status c ≡ same_status (to_shared_credential_status c)
unfolding to_shared_credential_status to_generic_credential_status
status_agrees unspecified = refl
status_agrees active = refl
status_agrees expired = refl
status_agrees invalid = refl
status_agrees challenge_required = refl

summary_agrees :
    (o : CredentialSummaryOutput)
    → to_generic_credential_summary o ≡ same_summary (to_shared_credential_summary o)
unfolding to_shared_credential_summary to_generic_credential_summary to_shared_profile
    to_generic_profile to_shared_device to_generic_device
summary_agrees o =
    rw
      (
        status_agrees o.status,
        map-map to_shared_device same_device to_generic_device (λ d. refl) o.devices,
        map-map to_shared_profile same_profile to_generic_profile (λ p. refl) o.profiles,
      )
      refl

-- The generic service answers each request for a summary with the content of what the shared
-- service answers, or with the same error, and the two change the same.
pub get_credential_summary_agrees :
    {S K : Type 0} (gs : GenericService S K) (req : Option AccountRequest) (s : S)
    → Platform.get_credential_summary gs req s
      ≡ (Credentials.get_credential_summary gs.service req >>= λ r. pure (same_summary r)) s
unfolding Credentials.get_credential_summary Platform.get_credential_summary
get_credential_summary_agrees gs none s = refl
get_credential_summary_agrees {S = S} gs (some req) s =
    let verify = verify_service_ticket gs.service req.service_ticket in
    let allow = λ (claims : ServiceTicketClaims). mapped_check {S = S} (
      scoped_guard_for_platform_account claims req.platform_account_id
        (Action.credential_read ∷ [])) in
    let read = λ (g : ScopeGuard).
      mapped
        (Management.get_credential_summary_with_scope gs.service.ports g req.platform_account_id) in
    let same = λ (r : Shared.CredentialSummary). pure {S = S} (same_summary r) in
    let shared = λ (o : CredentialSummaryOutput). pure {S = S} (to_shared_credential_summary o) in
    let answers = λ (g : ScopeGuard). read g >>= shared in
    let last : (g : ScopeGuard)
        → Path (M S Generic.CredentialSummary)
            (read g >>= λ o. pure (to_generic_credential_summary o)) (answers g >>= same) =
      λ g.
        ap (λ (f : CredentialSummaryOutput → Generic.CredentialSummary). read g >>= λ o. pure (f o))
          (λ i o. summary_agrees o i)
        ∙ sym (>>=_assoc (read g) shared same) in
    let middle : (c : ServiceTicketClaims)
        → Path (M S Generic.CredentialSummary)
            (allow c >>= λ g. read g >>= λ o. pure (to_generic_credential_summary o))
            ((allow c >>= answers) >>= same) =
      λ c.
        ap (λ (f : ScopeGuard → M S Generic.CredentialSummary). allow c >>= f) (λ i g. last g i)
        ∙ sym (>>=_assoc (allow c) answers same) in
    ap (λ (m : M S Generic.CredentialSummary). m s)
      (ap (λ (f : ServiceTicketClaims → M S Generic.CredentialSummary). verify >>= f)
          (λ i c. middle c i)
        ∙ sym (>>=_assoc verify (λ c. allow c >>= answers) same))
