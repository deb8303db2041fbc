-- ===== src/Crypto/Credentials.antt =====
-- internal/crypto/blob.go under the bind use case (internal/usecase/bind_usecase.go).
use platform_mihomo_service.Base.{String, List, not, eqb, ◌≡◌, ◌∙◌, ap, sym}
use platform_mihomo_service.Outcome.{Result, ok, err, M, pure, ◌>>=◌, binding_id_required}
use platform_mihomo_service.Outcome.Laws.{>>=-eq-ok, guard->>=-eq-ok}
use platform_mihomo_service.Biz.{Time, DiscoveredProfile}
use platform_mihomo_service.Biz.Repositories.{Ports}
use platform_mihomo_service.AccountKey.{format_platform_account_id}
use platform_mihomo_service.Usecase.Calls.{ask}
use platform_mihomo_service.Usecase.BindUsecase.{
  BindCredentialInput, BindCredentialPreparation, prepare_bind_credential, bound_credential,
}
use platform_mihomo_service.Crypto.Library.{Bytes, CryptoLibrary}
use platform_mihomo_service.Crypto.Encryption.{encrypt_string}
use platform_mihomo_service.Crypto.Decryption.{decrypt_string}
use platform_mihomo_service.Crypto.RoundTrip.{IsCryptoLibrary, decrypt_string_of_encrypted}

blob_of : {S : Type 0} → Result BindCredentialPreparation × S → String
blob_of (ok prepared, s) = prepared.encrypted_blob
blob_of (err e, s) = ""

module _ {S Block Gcm : Type 0} (library : CryptoLibrary S Block Gcm) (key : Bytes)
    (p : Ports S) where
  -- The ports of the use cases with the cipher of the service's key.
  abbrev pub with_key : Ports S
  with_key = record p {
    cipher = record {
      encrypt_string = encrypt_string library key;
      decrypt_string = decrypt_string library key;
    };
  }

  -- The credential that a binding stores holds the cookies of the request: what is decrypted of it
  -- later is what the request had.
  pub bound_credential-decrypt_string :
      IsCryptoLibrary library
      → (input : BindCredentialInput) (s s' : S) (prepared : BindCredentialPreparation) (now : Time)
      → library.to_text (library.to_bytes input.cookie_bundle_json) ≡ input.cookie_bundle_json
      → prepare_bind_credential with_key input s ≡ (ok prepared, s')
      → decrypt_string library key (bound_credential input prepared now).credential_blob
        ≡ ok input.cookie_bundle_json
  unfolding prepare_bind_credential bound_credential blob_of
  bound_credential-decrypt_string h input s s' prepared now k e =
      let encrypt = encrypt_string library key input.cookie_bundle_json in
      let end : String × String × List DiscoveredProfile → String → M S BindCredentialPreparation =
        λ x encrypted. pure (record {
          platform_account_id = format_platform_account_id input.binding_id x.0;
          account_id = x.0;
          region = x.1;
          discovered_profiles = x.2;
          encrypted_blob = encrypted;
        }) in
      let discover =
        ask (p.client.validate_and_discover input.cookie_bundle_json input.region_hint) in
      let (_, e1) =
        guard->>=-eq-ok (not (eqb input.binding_id 0)) binding_id_required
          (λ _. discover >>= λ x. encrypt >>= end x) s e in
      let (x, s1, _, e2) = >>=-eq-ok discover (λ x. encrypt >>= end x) s e1 in
      let (encrypted, s2, sealed, e3) = >>=-eq-ok encrypt (end x) s1 e2 in
      let value : encrypted ≡ prepared.encrypted_blob = ap blob_of e3 in
      ap (decrypt_string library key) (sym value)
      ∙ decrypt_string_of_encrypted library h key input.cookie_bundle_json encrypted s1 s2 k sealed
