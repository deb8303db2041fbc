-- ===== src/Biz/Repositories.antt =====
-- The repository interfaces of internal/biz, and the client interface of internal/platform/mihomo:
-- what the use cases are given. `S` is the state of the world outside the process.
use platform_mihomo_service.Base.{ℕ, String, Option, List}
use platform_mihomo_service.Base.Int.{ℤ}
use platform_mihomo_service.Outcome.{Result, M}
use platform_mihomo_service.Biz.{
  Time, Credential, Device, ProfileIdentity, Profile, Artifact, DiscoveredProfile,
}

pub record CredentialRepository (S : Type 0) : Type 0 where
  pub save : Credential → M S (Unit {0})
  pub get_by_binding_id : ℕ → M S (Option Credential)
  pub get_by_platform_account_id : String → M S (Option Credential)
  pub delete_by_platform_account_id : String → M S (Unit {0})

pub record DeviceRepository (S : Type 0) : Type 0 where
  pub save : Device → M S (Unit {0})
  pub list_by_binding_id : ℕ → M S (List Device)
  pub list_by_platform_account_id : String → M S (List Device)
  pub delete_by_binding_id : ℕ → M S (Unit {0})
  pub delete_by_platform_account_id : String → M S (Unit {0})

pub record ProfileRepository (S : Type 0) : Type 0 where
  pub save : Profile → M S (Unit {0})
  pub set_default_by_binding_and_player_id : ℕ → String → String → M S (Unit {0})
  pub list_by_binding_id : ℕ → M S (List Profile)
  pub list_by_platform_account_id : String → M S (List Profile)
  pub delete_missing_by_binding_id : ℕ → List ProfileIdentity → M S (Unit {0})
  pub delete_by_platform_account_id : String → M S (Unit {0})
  pub delete_missing_by_platform_account_id : String → List ProfileIdentity → M S (Unit {0})

pub record ArtifactRepository (S : Type 0) : Type 0 where
  pub put : Artifact → M S (Unit {0})
  pub get_by_binding_id : ℕ → String → String → M S (Option Artifact)
  pub get : String → String → String → M S (Option Artifact)
  pub delete_by_binding_id : ℕ → M S (Unit {0})
  pub delete_by_platform_account_id : String → M S (Unit {0})

pub record CredentialManagementRepository (S : Type 0) : Type 0 where
  pub delete_credential_graph : String → M S (Unit {0})
  pub delete_credential_graph_by_binding_id : ℕ → M S (Unit {0})

-- The text of an upstream error is what `err.Error()` says.
pub data Reply (A : Type 0) : Type 0 where
  answer : A → Reply A
  failure : String → Reply A

pub record Client (S : Type 0) : Type 0 where
  pub validate_and_discover :
      String → String → S → Reply (String × String × List DiscoveredProfile) × S
  pub issue_auth_key : String → String → S → Reply (String × ℤ) × S

-- internal/crypto under the service's key: encryption draws a random nonce.
pub record Cipher (S : Type 0) : Type 0 where
  pub encrypt_string : String → M S String
  pub decrypt_string : String → Result String

-- What the use cases hold. The artifact repository may be nil, and the credential repository may
-- offer no transactions; the clock is `time.Now().UTC()`.
pub record Ports (S : Type 0) : Type 1 where
  pub credentials : CredentialRepository S
  pub devices : DeviceRepository S
  pub profiles : ProfileRepository S
  pub artifacts : Option (ArtifactRepository S)
  pub management : CredentialManagementRepository S
  pub within_transaction : Option ((A : Type 0) → M S A → M S A)
  pub client : Client S
  pub cipher : Cipher S
  pub now : S → Time × S
