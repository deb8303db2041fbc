-- ===== src/Data/ArtifactRepo/Stored.antt =====
-- What a write of internal/data/artifact_repo.go stores.
use platform_mihomo_service.Base.{
  ℕ, String, true, Option, none, some, List, [], ◌∷◌, ◌++◌, ◌≡◌, inl, inr, refl, sym, subst, any,
  All-of, Bool-cases,
}
use platform_mihomo_service.Outcome.{ok, ◌>>◌}
use platform_mihomo_service.Outcome.Laws.{>>=-eq-ok}
use platform_mihomo_service.Biz.{Time, Artifact}
use platform_mihomo_service.Store.{RuntimeArtifact, Redis, World}
use platform_mihomo_service.Store.Laws.{
  Tables, View, Among, updated, upserted, IsWorld, stored_artifact,
}
use platform_mihomo_service.Data.ArtifactRepo.{
  record_from_artifact, artifact_from_record, same_artifact, update_all, write_row, put_with, put,
  previous_of, put_cache,
}
use platform_mihomo_service.Data.ArtifactRepo.Keeps.{Keeps-put_cache}

-- A row of the table holds the artifact.
abbrev pub IsStored : Artifact → Tables → Type 0
unfolding artifact_from_record
IsStored a t = (r : RuntimeArtifact) × Among r t.runtime_artifacts × (artifact_from_record r ≡ a)

-- The artifact as the table keeps it: the expiry has the precision of its column.
abbrev pub as_stored : (Time → Time) → Artifact → Artifact
as_stored datetime a = record a { expires_at = datetime a.expires_at }

-- The artifact of a binding, and of a type and a scope that the table does not tell from these.
abbrev pub IsFor : (String → String) → ℕ → String → String → Artifact → Type 0
IsFor collate b type scope a =
    (a.binding_id ≡ b)
    × (collate a.artifact_type ≡ collate type)
    × (collate a.scope_key ≡ collate scope)

Among-last : (r : RuntimeArtifact) (rows : List RuntimeArtifact) → Among r (rows ++ r ∷ [])
Among-last r [] = inl refl
Among-last r (x ∷ rows) = inr (Among-last r rows)

module _ (collate : String → String) where
  Among-updated :
      (new : RuntimeArtifact) (rows : List RuntimeArtifact)
      → any (same_artifact collate new) rows ≡ true
      → (id : ℕ) × Among
          (record new { id = id })
          (updated (same_artifact collate new) (update_all new) rows)
  Among-updated new [] h = absurd cc
  Among-updated new (x ∷ rows) h = elim (Bool-cases (same_artifact collate new x)) [
    | inl hit ↦ (x.id, inl (sym (rw hit refl)))
    | inr miss ↦ let (id, there) = Among-updated new rows (rw miss at h) in (id, inr there)
  ]

  -- An upsert leaves the new row, under some id.
  Among-upserted :
      (new : RuntimeArtifact) (id : ℕ) (rows : List RuntimeArtifact)
      → (n : ℕ) × Among
          (record new { id = n })
          (upserted (same_artifact collate) update_all new (record new { id = id }) rows)
  Among-upserted new id rows = elim (Bool-cases (any (same_artifact collate new) rows)) [
    | inl hit ↦ rw hit (Among-updated new rows hit)
    | inr miss ↦ rw miss (id, Among-last (record new { id = id }) rows)
  ]

module _ {S : Type 0} (view : S → View) (w : World S) (ok_world : IsWorld view w) where
  abbrev tables : S → Tables
  tables s = (view s).tables

  write_row-IsStored :
      (a : Artifact) (s u : S)
      → write_row w a s ≡ (ok tt, u)
      → IsStored (as_stored w.datetime a) (tables u)
  unfolding write_row record_from_artifact artifact_from_record
  write_row-IsStored a s u h =
      let new = record_from_artifact a in
      let (id, _, e) =
        ok_world.artifact_table.upsert_ok (same_artifact w.collate) update_all new s u
          (All-of _ (λ _. refl) _) h in
      let (n, there) =
        Among-upserted w.collate (stored_artifact w.datetime id new) id
          (tables s).runtime_artifacts in
      subst (λ v. IsStored (as_stored w.datetime a) v.tables) (sym e)
        (stored_artifact w.datetime n new, there, refl)

  put_with-IsStored :
      (a : Artifact) (redis : Option (Redis S)) (s u : S)
      → w.redis ≡ redis
      → put_with w a redis s ≡ (ok tt, u)
      → IsStored (as_stored w.datetime a) (tables u)
  unfolding put_with
  put_with-IsStored a none s u e h = write_row-IsStored a s u h
  put_with-IsStored a (some redis) s u e h =
      let (previous, s1, _, h1) =
        >>=-eq-ok (previous_of w a) (λ previous. do write_row w a; put_cache w redis a previous) s
          h in
      let (tt, s2, written, h2) =
        >>=-eq-ok (write_row w a) (λ _. put_cache w redis a previous) s1 h1 in
      let kept =
        (Keeps-put_cache view (IsStored (as_stored w.datetime a)) w ok_world redis e a previous).at
          s2 (write_row-IsStored a s1 s2 written) in
      subst (λ x. IsStored (as_stored w.datetime a) (tables x.1)) h2 kept

  -- An artifact that is put is stored in the database, its expiry as the column keeps it.
  pub put-IsStored :
      (a : Artifact) (s u : S)
      → put w a s ≡ (ok tt, u)
      → IsStored (as_stored w.datetime a) (tables u)
  unfolding put
  put-IsStored a s u h = put_with-IsStored a w.redis s u refl h
