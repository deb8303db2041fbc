-- ===== src/Wiring/AuthKeys.antt =====
-- Where the auth key comes from that GetAuthKey of internal/usecase/authkey_usecase.go hands out, over
-- the repositories of internal/data.
mod Tests
use platform_mihomo_service.Base.{
  ℕ, String, Option, none, some, ◌≡◌, ◌⊎◌, inl, inr, refl, sym, ◌∙◌, ap, subst,
}
use platform_mihomo_service.Base.Int.{ℤ, ◌+ℤ◌}
use platform_mihomo_service.Outcome.{
  Result, ok, err, pure, lift, or_fail, ◌>>=◌, ◌>>◌, credential_not_found,
}
use platform_mihomo_service.Outcome.Laws.{>>=-eq-ok, lift-eq-ok, or_fail-eq-ok, ok-injective}
use platform_mihomo_service.Biz.{Credential, Artifact}
use platform_mihomo_service.Store.{CredentialRecord, World}
use platform_mihomo_service.Store.Laws.{View, Among, IsWorld}
use platform_mihomo_service.Data.CredentialRepo.{
  get_by_platform_account_id, credential_repo, credential_from_record,
}
use platform_mihomo_service.Data.CredentialRepo.Reads.{get_by_platform_account_id-eq-some}
use platform_mihomo_service.Data.ArtifactCache.{cache_key_by_binding}
use platform_mihomo_service.Data.ArtifactRepo.{artifact_repo, get_by_binding_id}
use platform_mihomo_service.Data.ArtifactRepo
use platform_mihomo_service.Data.ArtifactRepo.Stored.{IsStored, IsFor, as_stored, put-IsStored}
use platform_mihomo_service.Data.ArtifactRepo.Found.{IsCached, get_by_binding_id-eq-some}
use platform_mihomo_service.Usecase.Calls.{ask, clock}
use platform_mihomo_service.Usecase.AuthkeyUsecase.{
  GetAuthKeyOutput, auth_key_artifact_type, seconds, issued_artifact, issue_and_store, get_auth_key,
}
use platform_mihomo_service.Wiring.{ports}

-- The output that hands out an artifact.
abbrev pub output_of : Artifact → GetAuthKeyOutput
output_of a = record { auth_key = a.artifact_value; expires_at = a.expires_at }

module _ {S : Type 0} (view : S → View) (w : World S) (ok_world : IsWorld view w) where
  issued :
      (c : Credential) (cookie key player : String) (s u : S) (out : GetAuthKeyOutput)
      → issue_and_store (ports w) (artifact_repo w) c cookie key player none s ≡ (ok out, u)
      → (a : Artifact) × (out ≡ output_of a)
        × IsFor w.collate c.binding_id auth_key_artifact_type player a
        × IsStored (as_stored w.datetime a) (view u).tables
  unfolding issue_and_store issued_artifact ports artifact_repo
  issued c cookie key player s u out h =
      let rest = λ (reply : String × ℤ). (do
        now ← clock (ports w)
        let expires_at = now +ℤ seconds reply.1
        ArtifactRepo.put w (issued_artifact c key player reply.0 expires_at)
        pure (record { auth_key = reply.0; expires_at = expires_at })) in
      let (reply, s1, _, h1) = >>=-eq-ok (ask (w.client.issue_auth_key cookie player)) rest s h in
      let expires_at = λ (now : ℤ). now +ℤ seconds reply.1 in
      let (now, s2, _, h2) =
        >>=-eq-ok (clock (ports w))
          (λ now. do
            ArtifactRepo.put w (issued_artifact c key player reply.0 (expires_at now))
            pure (record { auth_key = reply.0; expires_at = expires_at now }))
          s1 h1 in
      let a = issued_artifact c key player reply.0 (expires_at now) in
      let (tt, s3, stored, done) =
        >>=-eq-ok (ArtifactRepo.put w a) (λ _. pure (output_of a)) s2 h2 in
      let value : out ≡ output_of a =
        sym (ok-injective (ap (λ (x : Result GetAuthKeyOutput × S). x.0) done)) in
      let last : s3 ≡ u = ap (λ (x : Result GetAuthKeyOutput × S). x.1) done in
      (
        a,
        value,
        (refl, refl, refl),
        subst (λ x. IsStored (as_stored w.datetime a) (view x).tables) last
            (put-IsStored view w ok_world a s2 s3 stored),
      )

  -- The key and the expiry are those of an artifact that the cache had under the binding, the type
  -- and the player, in a state with the database and the cache of the first one, or that the database
  -- holds for them in the last state: as it is, or with the expiry as the column keeps it.
  abbrev pub IsHandedOut : ℕ → String → GetAuthKeyOutput → View → S → Type 0
  IsHandedOut b player out v u =
      (a : Artifact) × (out ≡ output_of a)
      × (((s : S) × (view s ≡ v)
            × IsCached view w ok_world (cache_key_by_binding w b auth_key_artifact_type player) a s)
          ⊎ (IsFor w.collate b auth_key_artifact_type player a
              × (IsStored a (view u).tables ⊎ IsStored (as_stored w.datetime a) (view u).tables)))

  issue_and_store-IsHandedOut :
      (c : Credential) (cookie key player : String) (stored : Option Artifact) (s t u : S)
      (out : GetAuthKeyOutput)
      → get_by_binding_id w c.binding_id auth_key_artifact_type player s ≡ (ok stored, t)
      → issue_and_store (ports w) (artifact_repo w) c cookie key player stored t ≡ (ok out, u)
      → IsHandedOut c.binding_id player out (view s) u
  unfolding issue_and_store
  issue_and_store-IsHandedOut c cookie key player none s t u out asked h =
      let (a, value, is_for, stored) = issued c cookie key player t u out h in
      (a, value, inr (is_for, inr stored))
  issue_and_store-IsHandedOut c cookie key player (some a) s t u out asked h =
      let value : out ≡ output_of a =
        sym (ok-injective (ap (λ (x : Result GetAuthKeyOutput × S). x.0) h)) in
      let last : t ≡ u = ap (λ (x : Result GetAuthKeyOutput × S). x.1) h in
      (
        a,
        value,
        elim (get_by_binding_id-eq-some view w ok_world c.binding_id auth_key_artifact_type player a
            s t asked) [
              | inl hit ↦ inl (s, refl, hit)
              | inr (is_for, stored) ↦
                  inr (is_for, inl (subst (λ x. IsStored a (view x).tables) last stored))
            ],
      )

  -- Where GetAuthKey succeeds, the database has a credential whose account key has the weight of the
  -- one given, and what is handed out is the key and the expiry of an artifact: one that the cache
  -- had under the credential's binding and the player, or an auth key of that binding and of a player
  -- of that weight that the database holds afterwards, with this expiry or with this expiry as its
  -- column keeps it.
  pub get_auth_key-IsHandedOut :
      (key player : String) (s u : S) (out : GetAuthKeyOutput)
      → get_auth_key (ports w) (artifact_repo w) key player s ≡ (ok out, u)
      → (r : CredentialRecord) × Among r (view s).tables.credential_records
        × (w.collate r.platform_account_id ≡ w.collate key)
        × IsHandedOut r.binding_id player out (view s) u
  unfolding get_auth_key ports credential_repo artifact_repo credential_from_record
  get_auth_key-IsHandedOut key player s u out h =
      let repo = artifact_repo w in
      let issue = λ (c : Credential) (cookie : String) (stored : Option Artifact).
        issue_and_store (ports w) repo c cookie key player stored in
      let read = λ (c : Credential) (cookie : String). (do
        stored ← repo.get_by_binding_id c.binding_id auth_key_artifact_type player
        issue c cookie stored) in
      let decrypt = λ (c : Credential). (do
        cookie ← lift (w.cipher.decrypt_string c.credential_blob)
        read c cookie) in
      let (found, s1, first, h1) =
        >>=-eq-ok (get_by_platform_account_id w key)
          (λ found. do c ← or_fail credential_not_found found; decrypt c) s h in
      let (c, s2, given, h2) = >>=-eq-ok (or_fail credential_not_found found) decrypt s1 h1 in
      let (there, same2) = or_fail-eq-ok credential_not_found found s1 given in
      let (r, among, under_key, of_row, same1) =
        get_by_platform_account_id-eq-some view w ok_world key c s s1 (rw there at first) in
      let (cookie, s3, decrypted, h3) =
        >>=-eq-ok (lift (w.cipher.decrypt_string c.credential_blob)) (read c) s2 h2 in
      let (_, same3) = lift-eq-ok (w.cipher.decrypt_string c.credential_blob) s2 decrypted in
      let (stored, s4, asked, done) =
        >>=-eq-ok (repo.get_by_binding_id c.binding_id auth_key_artifact_type player)
          (issue c cookie) s3 h3 in
      let before : view s3 ≡ view s = ap view (same3 ∙ same2) ∙ same1 in
      let binding : c.binding_id ≡ r.binding_id =
        ap (λ (c : Credential). c.binding_id) (sym of_row) in
      let handed = issue_and_store-IsHandedOut c cookie key player stored s3 s4 u out asked done in
      (
        r,
        among,
        under_key,
        subst (λ b. IsHandedOut b player out (view s) u) binding
            (subst (λ v. IsHandedOut c.binding_id player out v u) before handed),
      )
