-- ===== src/Usecase/AuthkeyUsecase.antt =====
-- internal/usecase/authkey_usecase.go
use platform_mihomo_service.Base.{String, Option, none, some, ◌+◌, ◌*◌}
use platform_mihomo_service.Base.Int.{ℤ, pos, negsuc, ◌+ℤ◌, to_int64}
use platform_mihomo_service.Outcome.{M, pure, lift, or_fail, ◌>>=◌, ◌>>◌, credential_not_found}
use platform_mihomo_service.Biz.{Time, Credential, Artifact}
use platform_mihomo_service.Biz.Repositories.{ArtifactRepository, Ports}
use platform_mihomo_service.Usecase.Calls.{ask, clock}

abbrev pub auth_key_artifact_type : String
auth_key_artifact_type = "authkey"

pub record GetAuthKeyOutput : Type 0 where
  pub auth_key : String
  pub expires_at : Time

-- `time.Duration(seconds) * time.Second`, in an int64.
abbrev pub seconds : ℤ → ℤ
seconds (pos n) = to_int64 (pos (n * 1000000000))
seconds (negsuc n) = to_int64 (negsuc (n * 1000000000 + 999999999))

-- The artifact that keeps an issued key.
unfoldable pub issued_artifact : Credential → String → String → String → Time → Artifact
issued_artifact credential key player_id auth_key expires_at = record {
  binding_id = credential.binding_id;
  platform_account_id = key;
  artifact_type = auth_key_artifact_type;
  artifact_value = auth_key;
  scope_key = player_id;
  expires_at = expires_at;
}

-- The end of `GetAuthKey`: a stored key is handed out, or a new one is issued and stored.
unfoldable pub issue_and_store :
    {S : Type 0}
    → Ports S
    → ArtifactRepository S
    → Credential
    → String
    → String
    → String
    → Option Artifact
    → M S GetAuthKeyOutput
issue_and_store p artifacts credential cookie key player_id (some a) =
    pure (record { auth_key = a.artifact_value; expires_at = a.expires_at })
issue_and_store p artifacts credential cookie key player_id none = do
  (auth_key, expires_in_seconds) ← ask (p.client.issue_auth_key cookie player_id)
  now ← clock p
  let expires_at = now +ℤ seconds expires_in_seconds
  artifacts.put (issued_artifact credential key player_id auth_key expires_at)
  pure (record { auth_key = auth_key; expires_at = expires_at })

-- The artifact repository of this use case is not optional.
unfoldable pub get_auth_key :
    {S : Type 0} → Ports S → ArtifactRepository S → String → String → M S GetAuthKeyOutput
unfolding issue_and_store
get_auth_key p artifacts key player_id = do
  found ← p.credentials.get_by_platform_account_id key
  credential ← or_fail credential_not_found found
  cookie ← lift (p.cipher.decrypt_string credential.credential_blob)
  stored ← artifacts.get_by_binding_id credential.binding_id auth_key_artifact_type player_id
  issue_and_store p artifacts credential cookie key player_id stored
