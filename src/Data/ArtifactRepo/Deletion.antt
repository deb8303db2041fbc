-- ===== src/Data/ArtifactRepo/Deletion.antt =====
-- What a deletion of artifacts leaves of the tables.
use platform_mihomo_service.Base.{
  ℕ, String, Bool, not, Option, none, some, List, [], ◌∷◌, ◌≡◌, refl, sym, ap, ◌∙◌, subst, keep,
  eqb,
}
use platform_mihomo_service.Outcome.{ok, ◌>>◌}
use platform_mihomo_service.Outcome.Laws.{>>=-eq-ok}
use platform_mihomo_service.Store.{RuntimeArtifact, Redis, World}
use platform_mihomo_service.Store.Laws.{Tables, View, IsWorld}
use platform_mihomo_service.Data.ArtifactCache.{cache_keys_for_records, delete_cache_keys}
use platform_mihomo_service.Data.ArtifactRepo.{
  records_for_deletion, delete_where, delete_by_binding_id,
}

module _ {S : Type 0} (view : S → View) (w : World S) (ok_world : IsWorld view w) where
  abbrev pub tables : S → Tables
  tables s = (view s).tables

  listed_tables :
      (q : RuntimeArtifact → Bool) (s u : S) (found : List RuntimeArtifact)
      → records_for_deletion w q s ≡ (ok found, u)
      → tables u ≡ tables s
  unfolding records_for_deletion
  listed_tables q s u found h = go w.redis refl
    where
      go : (r : Option (Redis S)) → w.redis ≡ r → tables u ≡ tables s
      go none e =
          let same : s ≡ u = ap (λ x. x.1) (rw (e, records_for_deletion) at h) in
          ap tables (sym same)
      go (some r) e =
          let (_, same) =
            ok_world.artifact_table.find_ok q s found u (rw (e, records_for_deletion) at h) in
          ap (λ (v : View). v.tables) same

  uncached_tables :
      (keys : List String) (s u : S) → delete_cache_keys w keys s ≡ (ok tt, u) → tables u ≡ tables s
  unfolding delete_cache_keys
  uncached_tables [] s u h = cc
  uncached_tables (k ∷ keys) s u h = go w.redis refl
    where
      go : (r : Option (Redis S)) → w.redis ≡ r → tables u ≡ tables s
      go none e =
          let same : s ≡ u = ap (λ x. x.1) (rw (e, delete_cache_keys) at h) in ap tables (sym same)
      go (some r) e =
          let done : r.del (k ∷ keys) s ≡ (ok tt, u) = rw (e, delete_cache_keys) at h in
          subst (λ x. tables x ≡ tables s) (ap (λ x. x.1) done)
            (ok_world.redis_del_tables r (k ∷ keys) s e)

  -- Artifacts that are deleted are those of the condition, in the database; the other tables stay.
  delete_where_tables :
      (q : RuntimeArtifact → Bool) (s u : S)
      → delete_where w q s ≡ (ok tt, u)
      → tables u ≡ record (tables s) {
        runtime_artifacts = keep (λ r. not (q r)) (tables s).runtime_artifacts;
      }
  unfolding delete_where
  delete_where_tables q s u h =
      let (found, s1, listed, h1) =
        >>=-eq-ok (records_for_deletion w q)
          (λ records. do
            w.runtime_artifacts.delete q
            delete_cache_keys w (cache_keys_for_records w records))
          s h in
      let (tt, s2, deleted, h2) =
        >>=-eq-ok (w.runtime_artifacts.delete q)
          (λ _. delete_cache_keys w (cache_keys_for_records w found)) s1 h1 in
      let removed =
        ap (λ (v : View). v.tables) (ok_world.artifact_table.delete_ok q s1 s2 deleted) in
      let kept = listed_tables q s s1 found listed in
      uncached_tables (cache_keys_for_records w found) s2 u h2
      ∙ removed
      ∙ ap
          (λ (t : Tables). record t {
            runtime_artifacts = keep (λ r. not (q r)) t.runtime_artifacts;
          })
          kept

  pub delete_by_binding_id_tables :
      (b : ℕ) (s u : S)
      → delete_by_binding_id w b s ≡ (ok tt, u)
      → tables u ≡ record (tables s) {
        runtime_artifacts =
            keep (λ (r : RuntimeArtifact). not (eqb r.binding_id b)) (tables s).runtime_artifacts;
      }
  unfolding delete_by_binding_id
  delete_by_binding_id_tables b s u h = delete_where_tables (λ r. eqb r.binding_id b) s u h
