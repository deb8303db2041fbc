-- ===== src/Usecase/StatusUsecase/Revalidation.antt =====
-- What a revalidation stores, and what it reports.
use platform_mihomo_service.Base.{
  String, Bool, true, false, Option, none, some, ◌≡◌, ◌⊎◌, inl, inr, subst, refl, ap, ◌∙◌,
  if◌then◌else◌,
}
use platform_mihomo_service.Base.Text.{contains_lower}
use platform_mihomo_service.Outcome.{ok, pure, lift, ◌>>=◌}
use platform_mihomo_service.Outcome.Laws.{>>=-eq-ok}
use platform_mihomo_service.Biz.{Time, Credential}
use platform_mihomo_service.Biz.Repositories.{Ports}
use platform_mihomo_service.Api.{CredentialStatus, active, expired, invalid, challenge_required}
use platform_mihomo_service.Usecase.Calls.{clock}
use platform_mihomo_service.Usecase.StatusUsecase.{
  to_credential_status, classify_credential_status, classify_error_code, refused, accepted, probe,
  store_outcome, revalidate,
}

-- A status and an error code that belong together.
abbrev pub Agree : CredentialStatus → String → Type 0
Agree status code =
    ((status ≡ active) × (code ≡ ""))
    ⊎ ((status ≡ challenge_required) × (code ≡ "CHALLENGE_REQUIRED"))
    ⊎ ((status ≡ expired) × (code ≡ "CREDENTIAL_EXPIRED"))
    ⊎ ((status ≡ invalid) × (code ≡ "INVALID_CREDENTIAL"))

-- The credential after a revalidation differs from the one before it only in its status and times.
abbrev pub SameCredential : Credential → Credential → Type 0
SameCredential c d =
    (d.binding_id ≡ c.binding_id)
    × (d.platform_account_id ≡ c.platform_account_id)
    × (d.credential_blob ≡ c.credential_blob)
    × (d.region ≡ c.region)

classified :
    (message : String)
    → Agree
        (to_credential_status (classify_credential_status message))
        (classify_error_code message)
unfolding to_credential_status classify_credential_status classify_error_code
classified message = go (contains_lower message "challenge") (contains_lower message "expire")
  where
    go :
        (challenge expire : Bool)
        → Agree
            (to_credential_status
              (if challenge then "challenge_required" else if expire then "expired" else "invalid"))
            (if challenge
              then "CHALLENGE_REQUIRED"
              else if expire
              then "CREDENTIAL_EXPIRED"
              else "INVALID_CREDENTIAL")
    go true expire = inr (inl (refl, refl))
    go false true = inr (inr (inl (refl, refl)))
    go false false = inr (inr (inr (refl, refl)))

module _ {S : Type 0} (p : Ports S) where
  abbrev pub Reported : Credential → S → CredentialStatus × String × Credential → Type 0
  Reported c s' (status, code, after) =
      (u : S) × (p.credentials.save after u ≡ (ok tt, s'))
      × (status ≡ to_credential_status after.status)
      × Agree status code
      × SameCredential c after
      × (now : Time) × (after.last_validated_at ≡ some now)

  -- The save of the new credential, and what is reported of it.
  saved :
      (c : Credential) (s s' : S) (now : Time) (status : CredentialStatus) (code : String)
      (after : Credential) (out : CredentialStatus × String × Credential)
      → (p.credentials.save after >>= λ _. pure (status, code, after)) s ≡ (ok out, s')
      → status ≡ to_credential_status after.status
      → Agree status code
      → SameCredential c after
      → after.last_validated_at ≡ some now
      → Reported c s' out
  saved c s s' now status code after out h same agree kept at_now =
      let (tt, u, stored, done) =
        >>=-eq-ok (p.credentials.save after) (λ _. pure (status, code, after)) s h in
      let value : (status, code, after) ≡ out = cc in
      subst (Reported c s') value
        (s, stored ∙ ap (λ x. (ok tt, x)) (ap (λ x. x.1) done), same, agree, kept, now, at_now)

  stored_outcome :
      (c : Credential) (mark : Bool) (refusal : Option String) (now : Time) (u s' : S)
      (out : CredentialStatus × String × Credential)
      → store_outcome p c mark refusal now u ≡ (ok out, s')
      → Reported c s' out
  unfolding store_outcome refused accepted classify_credential_status to_credential_status
  stored_outcome c mark (some message) now u s' out h =
      saved c u s' now (to_credential_status (refused c now message).status)
        (classify_error_code message) (refused c now message) out h refl (classified message)
        (refl, refl, refl, refl) refl
  stored_outcome c mark none now u s' out h =
      saved c u s' now active "" (accepted c now mark) out h refl (inl (refl, refl))
        (refl, refl, refl, refl) refl

  -- A revalidation that succeeds has stored the credential that it hands back, which has a new
  -- status and a time of the check; the status that it reports is the stored one, and agrees with
  -- the error code.
  pub revalidate-Agree :
      (c : Credential) (mark_refreshed : Bool) (s s' : S)
      (out : CredentialStatus × String × Credential)
      → revalidate p c mark_refreshed s ≡ (ok out, s')
      → Reported c s' out
  unfolding revalidate
  revalidate-Agree c mark s s' out h =
      let decrypt = lift {S = S} (p.cipher.decrypt_string c.credential_blob) in
      let end = λ (refusal : Option String). clock p >>= store_outcome p c mark refusal in
      let (cookie, s1, _, h1) = >>=-eq-ok decrypt (λ cookie. probe p c cookie >>= end) s h in
      let (refusal, s2, _, h2) = >>=-eq-ok (probe p c cookie) end s1 h1 in
      let (now, s3, _, h3) = >>=-eq-ok (clock p) (store_outcome p c mark refusal) s2 h2 in
      stored_outcome c mark refusal now s3 s' out h3
