-- ===== src/Service/Requests/Keeps.antt =====
-- What a request, and a sequence of requests, keeps of the state.
use platform_mihomo_service.Base.{ℕ, String, some, List, [], ◌∷◌, ◌≡◌}
use platform_mihomo_service.Outcome.{Result, M}
use platform_mihomo_service.Outcome.Keeps.{Keeps, Keeps-pure, Keeps-lift, Keeps-bind}
use platform_mihomo_service.Usecase.Keeps.{ReadsKeep}
use platform_mihomo_service.Service.Mapper.{verify_service_ticket}
use platform_mihomo_service.Service.Keeps.{
  ServiceKeeps, Keeps-bind_credential_handler, Keeps-get_credential_status_handler,
  Keeps-validate_credential_handler, Keeps-refresh_credential_handler, Keeps-list_profiles_handler,
  Keeps-get_primary_profile_handler, Keeps-get_auth_key_handler,
  Keeps-get_credential_summary_handler, Keeps-update_credential_handler,
  Keeps-delete_credential_handler, Keeps-upsert_device_handler,
  Keeps-confirm_primary_profile_handler, Keeps-shared_summary_handler,
}
use platform_mihomo_service.Service.Description.{Entries}
use platform_mihomo_service.Service.PlatformService.{GenericService}
use platform_mihomo_service.Service.PlatformService.Keeps as Platform
use platform_mihomo_service.Service.Requests.{
  Request, bind_credential, upsert_device, confirm_primary_profile, get_auth_key,
  get_credential_status, validate_credential, refresh_credential, list_profiles,
  get_primary_profile, get_credential_summary, delete_credential, update_credential,
  get_shared_summary, get_generic_summary, refresh_generic, delete_generic, put_credential,
  invalidate_consumer_grant, describe_platform, answered, handle, serve,
}

-- The requests that only read.
abbrev pub IsRead : Request → Type 0
IsRead (get_credential_status req) = Unit
IsRead (list_profiles req) = Unit
IsRead (get_primary_profile req) = Unit
IsRead (get_credential_summary req) = Unit
IsRead (get_shared_summary req) = Unit
IsRead (get_generic_summary req) = Unit
IsRead describe_platform = Unit
IsRead _ = ⊥

Keeps-answered : {S A : Type 0} {P : S → Type 0} (m : M S A) → Keeps P m → Keeps P (answered m)
Keeps-answered m k = Keeps-bind m _ k (λ _. Keeps-pure tt)

module _ {S K Struct : Type 0} {P : S → Type 0} (gs : GenericService S K)
    (new_struct : Entries → Result Struct) where
  -- A request that only reads keeps what the reads keep.
  pub Keeps-reading :
      ReadsKeep P gs.service.ports
      → ((raw : String) → Keeps P (verify_service_ticket gs.service raw))
      → (r : Request) → IsRead r
      → Keeps P (handle gs new_struct r)
  unfolding handle
  Keeps-reading reads ticket (get_credential_status req) h =
      Keeps-answered _ (Keeps-get_credential_status_handler gs.service ticket reads req)
  Keeps-reading reads ticket (list_profiles req) h =
      Keeps-answered _ (Keeps-list_profiles_handler gs.service ticket reads req)
  Keeps-reading reads ticket (get_primary_profile req) h =
      Keeps-answered _ (Keeps-get_primary_profile_handler gs.service ticket reads req)
  Keeps-reading reads ticket (get_credential_summary req) h =
      Keeps-answered _ (Keeps-get_credential_summary_handler gs.service ticket reads req)
  Keeps-reading reads ticket (get_shared_summary req) h =
      Keeps-answered _ (Keeps-shared_summary_handler gs.service ticket reads req)
  Keeps-reading reads ticket (get_generic_summary req) h =
      Keeps-answered _ (Platform.Keeps-get_credential_summary gs reads ticket req)
  Keeps-reading reads ticket describe_platform h = Keeps-answered _ (Keeps-lift _)
  Keeps-reading reads ticket _ h = absurd h

  module _ (k : ServiceKeeps P gs.service)
      (stored : (upsert : ℕ → String → ℕ → M S (Unit {0}))
        → gs.upsert_invalidation ≡ some upsert
        → (b : ℕ) (c : String) (v : ℕ) → Keeps P (upsert b c v)) where
    Keeps-handle : (r : Request) → Keeps P (handle gs new_struct r)
    unfolding handle
    Keeps-handle (bind_credential req) =
        Keeps-answered _ (Keeps-bind_credential_handler gs.service k req)
    Keeps-handle (upsert_device req) =
        Keeps-answered _ (Keeps-upsert_device_handler gs.service k req)
    Keeps-handle (confirm_primary_profile req) =
        Keeps-answered _ (Keeps-confirm_primary_profile_handler gs.service k req)
    Keeps-handle (get_auth_key req) = Keeps-answered _ (Keeps-get_auth_key_handler gs.service k req)
    Keeps-handle (validate_credential req) =
        Keeps-answered _ (Keeps-validate_credential_handler gs.service k req)
    Keeps-handle (refresh_credential req) =
        Keeps-answered _ (Keeps-refresh_credential_handler gs.service k req)
    Keeps-handle (delete_credential req) =
        Keeps-answered _ (Keeps-delete_credential_handler gs.service k req)
    Keeps-handle (update_credential req) =
        Keeps-answered _ (Keeps-update_credential_handler gs.service k req)
    Keeps-handle (refresh_generic req) =
        Keeps-answered _ (Platform.Keeps-refresh_credential_handler gs k req)
    Keeps-handle (delete_generic req) = Keeps-answered _ (Platform.Keeps-delete_credential gs k req)
    Keeps-handle (put_credential req) = Keeps-answered _ (Platform.Keeps-put_credential gs k req)
    Keeps-handle (invalidate_consumer_grant req) =
        Keeps-answered _ (Platform.Keeps-invalidate_consumer_grant gs k stored req)
    Keeps-handle (get_credential_status req) =
        Keeps-reading k.ports_keep.reads k.ticket (get_credential_status req) tt
    Keeps-handle (list_profiles req) =
        Keeps-reading k.ports_keep.reads k.ticket (list_profiles req) tt
    Keeps-handle (get_primary_profile req) =
        Keeps-reading k.ports_keep.reads k.ticket (get_primary_profile req) tt
    Keeps-handle (get_credential_summary req) =
        Keeps-reading k.ports_keep.reads k.ticket (get_credential_summary req) tt
    Keeps-handle (get_shared_summary req) =
        Keeps-reading k.ports_keep.reads k.ticket (get_shared_summary req) tt
    Keeps-handle (get_generic_summary req) =
        Keeps-reading k.ports_keep.reads k.ticket (get_generic_summary req) tt
    Keeps-handle describe_platform = Keeps-reading k.ports_keep.reads k.ticket describe_platform tt

    -- What every request keeps, every sequence of requests keeps.
    pub serve_keeps : (rs : List Request) (s : S) → P s → P (serve gs new_struct rs s)
    unfolding serve
    serve_keeps [] s h = h
    serve_keeps (r ∷ rs) s h = serve_keeps rs (handle gs new_struct r s).1 ((Keeps-handle r).at s h)
