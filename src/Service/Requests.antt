-- ===== src/Service/Requests.antt =====
-- The requests that the three services take (service MihomoAccountService of
-- api/mihomo/v1/mihomo_account.proto, and the services of internal/service), and what a server does
-- with a sequence of them. What is answered is left out: whether a request succeeds, and what it
-- leaves of the state, is kept.
pub mod Admitted
pub mod Keeps
use platform_mihomo_service.Base.{Option, List, [], ◌∷◌}
use platform_mihomo_service.Outcome.{Result, M, pure, lift, ◌>>=◌}
use platform_mihomo_service.Api.{
  BindCredentialRequest, AccountRequest, PlayerRequest, UpdateCredentialRequest,
  UpsertDeviceRequest,
}
use platform_mihomo_service.Service.AccountService as Account
use platform_mihomo_service.Service.CredentialService as Credential
use platform_mihomo_service.Service.PlatformService.{
  PutCredentialRequest, InvalidateConsumerGrantRequest, GenericService,
}
use platform_mihomo_service.Service.PlatformService as Platform
use platform_mihomo_service.Service.Description.{Entries}
use platform_mihomo_service.Service.Description

pub data Request : Type 0 where
  bind_credential : Option BindCredentialRequest → Request
  upsert_device : Option UpsertDeviceRequest → Request
  confirm_primary_profile get_auth_key : Option PlayerRequest → Request
  get_credential_status validate_credential refresh_credential : Option AccountRequest → Request
  list_profiles get_primary_profile : Option AccountRequest → Request
  get_credential_summary delete_credential : Option AccountRequest → Request
  update_credential : Option UpdateCredentialRequest → Request
  get_shared_summary : Option AccountRequest → Request
  get_generic_summary refresh_generic delete_generic : Option AccountRequest → Request
  put_credential : Option PutCredentialRequest → Request
  invalidate_consumer_grant : Option InvalidateConsumerGrantRequest → Request
  describe_platform : Request

-- A call whose answer is left out.
abbrev pub answered : {S A : Type 0} → M S A → M S (Unit {0})
answered m = m >>= λ _. pure tt

-- `new_struct` is structpb.NewStruct, which DescribePlatform calls.
module _ {S K Struct : Type 0} (gs : GenericService S K)
    (new_struct : Entries → Result Struct) where
  -- The handler of a request.
  unfoldable pub handle : Request → M S (Unit {0})
  handle (bind_credential req) = answered (Account.bind_credential gs.service req)
  handle (upsert_device req) = answered (Account.upsert_device gs.service req)
  handle (confirm_primary_profile req) = answered (Account.confirm_primary_profile gs.service req)
  handle (get_auth_key req) = answered (Account.get_auth_key gs.service req)
  handle (get_credential_status req) = answered (Account.get_credential_status gs.service req)
  handle (validate_credential req) = answered (Account.validate_credential gs.service req)
  handle (refresh_credential req) = answered (Account.refresh_credential gs.service req)
  handle (list_profiles req) = answered (Account.list_profiles gs.service req)
  handle (get_primary_profile req) = answered (Account.get_primary_profile gs.service req)
  handle (get_credential_summary req) = answered (Account.get_credential_summary gs.service req)
  handle (delete_credential req) = answered (Account.delete_credential gs.service req)
  handle (update_credential req) = answered (Account.update_credential gs.service req)
  handle (get_shared_summary req) = answered (Credential.get_credential_summary gs.service req)
  handle (get_generic_summary req) = answered (Platform.get_credential_summary gs req)
  handle (refresh_generic req) = answered (Platform.refresh_credential gs req)
  handle (delete_generic req) = answered (Platform.delete_credential gs req)
  handle (put_credential req) = answered (Platform.put_credential gs req)
  handle (invalidate_consumer_grant req) = answered (Platform.invalidate_consumer_grant gs req)
  handle describe_platform = answered (lift (Description.describe_platform new_struct))

  -- The state after a sequence of requests, each of which succeeds or fails.
  unfoldable pub serve : List Request → S → S
  unfolding handle
  serve [] s = s
  serve (r ∷ rs) s = serve rs (handle r s).1
