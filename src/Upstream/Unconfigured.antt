-- ===== src/Upstream/Unconfigured.antt =====
-- The use cases on the client that main wires (cmd/platform-mihomo-service/main.go), the
-- UnconfiguredClient of internal/platform/mihomo/client_stub.go.
use platform_mihomo_service.Base.{
  String, Bool, eqb, if◌then◌else◌, Option, some, ◌≡◌, ◌∙◌, refl, ap, subst, Bool-cases, inl, inr,
}
use platform_mihomo_service.Outcome.{ok, err, external, binding_id_required, lift, pure, ◌>>=◌}
use platform_mihomo_service.Outcome.Laws.{>>=-eq-ok}
use platform_mihomo_service.Biz.{Time, Credential}
use platform_mihomo_service.Biz.Repositories.{Ports}
use platform_mihomo_service.Api.{CredentialStatus, invalid}
use platform_mihomo_service.Usecase.Calls.{clock}
use platform_mihomo_service.Usecase.BindUsecase.{
  BindCredentialInput, bind_credential, prepare_bind_credential,
}
use platform_mihomo_service.Base.Text.{contains_lower}
use platform_mihomo_service.Usecase.StatusUsecase.{
  revalidate, probe, store_outcome, refused, classify_credential_status, classify_error_code,
  to_credential_status,
}
use platform_mihomo_service.Upstream.{unconfigured_client}

-- The ports of the use cases with that client.
abbrev pub unconfigured : {S : Type 0} → Ports S → Ports S
unconfigured p = record p { client = unconfigured_client }

-- Every binding is refused, and reaches neither a repository nor the cipher.
pub bind_credential-unconfigured :
    {S : Type 0} (p : Ports S) (input : BindCredentialInput) (s : S)
    → bind_credential (unconfigured p) input s ≡ (
      err (
          if eqb input.binding_id 0
          then binding_id_required
          else external "mihomo upstream client not configured"),
      s,
    )
unfolding bind_credential prepare_bind_credential
bind_credential-unconfigured p input s = elim (Bool-cases (eqb input.binding_id 0)) [
  | inl e ↦ rw e refl
  | inr e ↦ rw e refl
]

abbrev message : String
message = "mihomo upstream client not configured"

module _ {S : Type 0} (p : Ports S) where
  -- What a revalidation reports and stores of the credential.
  abbrev pub Invalidated : S → CredentialStatus × String × Credential → Type 0
  Invalidated s' (status, code, after) =
      (status ≡ invalid)
      × (code ≡ "INVALID_CREDENTIAL")
      × (after.status ≡ "invalid")
      × (u : S) × (p.credentials.save after u ≡ (ok tt, s'))

  stored_refusal :
      (c : Credential) (mark : Bool) (now : Time) (u s' : S)
      (out : CredentialStatus × String × Credential)
      → store_outcome (unconfigured p) c mark (some message) now u ≡ (ok out, s')
      → Invalidated s' out
  unfolding store_outcome refused classify_credential_status to_credential_status
      classify_error_code contains_lower
  stored_refusal c mark now u s' out h =
      let after = refused c now message in
      let (_, v, stored, end) =
        >>=-eq-ok (p.credentials.save after)
          (λ _. pure (to_credential_status after.status, classify_error_code message, after)) u h in
      let value : (to_credential_status after.status, classify_error_code message, after) ≡ out =
        cc in
      subst (Invalidated s') value
        (refl, refl, refl, u, stored ∙ ap (λ x. (ok tt, x)) (ap (λ x. x.1) end))

  -- A revalidation that succeeds finds every credential invalid, and stores it as invalid.
  pub revalidate-Invalidated :
      (c : Credential) (mark_refreshed : Bool) (s s' : S)
      (out : CredentialStatus × String × Credential)
      → revalidate (unconfigured p) c mark_refreshed s ≡ (ok out, s')
      → Invalidated s' out
  unfolding revalidate probe
  revalidate-Invalidated c mark s s' out h =
      let q = unconfigured p in
      let decrypt = lift {S = S} (p.cipher.decrypt_string c.credential_blob) in
      let end = λ (refusal : Option String). clock q >>= store_outcome q c mark refusal in
      let (cookie, s1, _, h1) = >>=-eq-ok decrypt (λ cookie. probe q c cookie >>= end) s h in
      let (now, s2, _, h2) = >>=-eq-ok (clock q) (store_outcome q c mark (some message)) s1 h1 in
      stored_refusal c mark now s2 s' out h2
