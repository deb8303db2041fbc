-- ===== src/Usecase/StatusUsecase.antt =====
-- internal/usecase/status_usecase.go
pub mod Revalidation
use platform_mihomo_service.Base.{
  ℕ, String, Bool, true, false, Option, none, some, ◌==◌, if◌then◌else◌,
}
use platform_mihomo_service.Base.Text.{contains_lower}
use platform_mihomo_service.Outcome.{ok, M, pure, lift, or_fail, ◌>>=◌, ◌>>◌, credential_not_found}
use platform_mihomo_service.Biz.{Time, Credential}
use platform_mihomo_service.Biz.Repositories.{Reply, answer, failure, Ports}
use platform_mihomo_service.Api.{
  CredentialStatus, unspecified, active, expired, invalid, challenge_required,
}
use platform_mihomo_service.Usecase.Calls.{clock}

pub record GetCredentialStatusOutput : Type 0 where
  pub status : CredentialStatus
  pub last_validated_at : Option Time

pub record ValidateCredentialOutput : Type 0 where
  pub status : CredentialStatus
  pub error_code : String

pub record RefreshCredentialOutput : Type 0 where
  pub status : CredentialStatus
  pub refreshed_at : Option Time

unfoldable pub to_credential_status : String → CredentialStatus
to_credential_status status =
    if status == "active"
    then active
    else if status == "expired"
    then expired
    else if status == "invalid"
    then invalid
    else if status == "challenge_required"
    then challenge_required
    else unspecified

-- The argument is the text of the upstream error.
unfoldable pub classify_credential_status : String → String
classify_credential_status message =
    if contains_lower message "challenge"
    then "challenge_required"
    else if contains_lower message "expire"
    then "expired"
    else "invalid"

unfoldable pub classify_error_code : String → String
classify_error_code message =
    if contains_lower message "challenge"
    then "CHALLENGE_REQUIRED"
    else if contains_lower message "expire"
    then "CREDENTIAL_EXPIRED"
    else "INVALID_CREDENTIAL"

-- The credential as `revalidate` stores it, when the upstream refuses it and when it accepts it.
unfoldable pub refused : Credential → Time → String → Credential
unfolding classify_credential_status
refused c now message = record c {
  last_validated_at = some now;
  status = classify_credential_status message;
}

unfoldable pub accepted : Credential → Time → Bool → Credential
accepted c now mark_refreshed = record c {
  last_validated_at = some now;
  status = "active";
  last_refreshed_at = if mark_refreshed then some now else c.last_refreshed_at;
}

module _ {S : Type 0} (p : Ports S) where
  unfoldable pub get_credential : String → M S Credential
  get_credential key = do
    found ← p.credentials.get_by_platform_account_id key
    or_fail credential_not_found found

  -- The upstream's answer, whose error does not end the call.
  unfoldable pub probe : Credential → String → M S (Option String)
  probe c cookie s =
      let (r, s') = p.client.validate_and_discover cookie c.region s in
      elim r [ answer _ ↦ (ok none, s') | failure message ↦ (ok (some message), s') ]

  -- The two ends of `revalidate`: the status, the error code, and the credential that the caller
  -- holds afterwards.
  unfoldable pub store_outcome :
      Credential → Bool → Option String → Time → M S (CredentialStatus × String × Credential)
  unfolding refused accepted classify_error_code to_credential_status
  store_outcome c mark_refreshed (some message) now = do
    p.credentials.save (refused c now message)
    pure (
      to_credential_status (refused c now message).status,
      classify_error_code message,
      refused c now message,
    )
  store_outcome c mark_refreshed none now = do
    p.credentials.save (accepted c now mark_refreshed)
    pure (active, "", accepted c now mark_refreshed)

  unfoldable pub revalidate : Credential → Bool → M S (CredentialStatus × String × Credential)
  unfolding probe store_outcome
  revalidate c mark_refreshed = do
    cookie ← lift (p.cipher.decrypt_string c.credential_blob)
    refusal ← probe c cookie
    now ← clock p
    store_outcome c mark_refreshed refusal now

  unfoldable pub get_credential_status : String → M S GetCredentialStatusOutput
  unfolding get_credential to_credential_status
  get_credential_status key = do
    c ← get_credential key
    pure
        (record { status = to_credential_status c.status; last_validated_at = c.last_validated_at })

  unfoldable pub validate_credential : String → M S ValidateCredentialOutput
  unfolding get_credential revalidate
  validate_credential key = do
    c ← get_credential key
    (status, error_code, _) ← revalidate c false
    pure (record { status = status; error_code = error_code })

  unfoldable pub refresh_credential : String → M S RefreshCredentialOutput
  unfolding get_credential revalidate
  refresh_credential key = do
    c ← get_credential key
    (status, _, after) ← revalidate c true
    pure (record { status = status; refreshed_at = after.last_refreshed_at })
