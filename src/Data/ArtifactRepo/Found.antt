-- ===== src/Data/ArtifactRepo/Found.antt =====
-- Where a read of internal/data/artifact_repo.go finds the artifact that it returns.
use platform_mihomo_service.Base.{
  ℕ, String, Bool, true, ◌&&◌, Option, none, some, ◌≡◌, ◌⊎◌, inl, inr, refl, sym, ◌∙◌, ap, subst,
  eqb, ◌==◌, eq_iff, arith,
}
use platform_mihomo_service.Base.Int.{ltb_ℤ}
use platform_mihomo_service.Outcome.{Result, ok, err, pure, ◌>>=◌, record_not_found}
use platform_mihomo_service.Outcome.Laws.{>>=-eq-ok, ok-injective}
use platform_mihomo_service.Biz.{Time, Artifact}
use platform_mihomo_service.Store.{RuntimeArtifact, Redis, World}
use platform_mihomo_service.Store.Laws.{Tables, View, Among, IsWorld}
use platform_mihomo_service.Data.Query.{or_none}
use platform_mihomo_service.Data.ArtifactCache.{
  hit_of, write_back, read_time, cached, cache_key_by_binding,
}
use platform_mihomo_service.Data.ArtifactRepo.{
  artifact_from_record, get_row, remember, read_through, hit_or_read, cached_or_read,
  get_by_binding_id,
}
use platform_mihomo_service.Data.ArtifactRepo.Keeps.{Keeps-remember}
use platform_mihomo_service.Data.ArtifactRepo.Stored.{IsStored, IsFor}
use mathlib.Core.Option

module _ {S : Type 0} (view : S → View) (w : World S) (ok_world : IsWorld view w) where
  abbrev tables : S → Tables
  tables s = (view s).tables

  get_row-eq-some :
      (q : RuntimeArtifact → Bool) (a : Artifact) (s u : S)
      → get_row w q s ≡ (ok (some a), u)
      → (r : RuntimeArtifact) × Among r (tables u).runtime_artifacts
        × (q r ≡ true)
        × (artifact_from_record r ≡ a)
  unfolding get_row
  get_row-eq-some q a s u h = go (w.runtime_artifacts.first q s) refl (
      >>=-eq-ok (or_none (w.runtime_artifacts.first q))
        (λ row. pure (Option.map artifact_from_record row)) s h)
    where
      go :
          (x : Result RuntimeArtifact × S)
          → w.runtime_artifacts.first q s ≡ x
          → ((row : Option RuntimeArtifact) × (t : S) × (or_none (w.runtime_artifacts.first q) s
                ≡ (ok row, t))
              × (pure (Option.map artifact_from_record row) t ≡ (ok (some a), u)))
          → (r : RuntimeArtifact) × Among r (tables u).runtime_artifacts
            × (q r ≡ true)
            × (artifact_from_record r ≡ a)
      go (ok r, t) e (row, t1, read, done) =
          let (there, hit, same) = ok_world.artifact_table.first_ok q s r t e in
          let found : row ≡ some r = cc in
          let end : u ≡ t = cc in
          let value : Path (Option Artifact) (some (artifact_from_record r)) (some a) = cc in
          (
            r,
            subst (λ v. Among r v.tables.runtime_artifacts) (sym (ap view end ∙ same)) there,
            hit,
            cc,
          )
      go (err record_not_found, t) e (none, t1, read, done) = absurd cc
      go (err record_not_found, t) e (some r, t1, read, done) = absurd cc
      go (err x, t) e (row, t1, read, done) = absurd cc

  remember-eq-some :
      (name : String) (redis : Option (Redis S)) (found : Option Artifact) (a : Artifact) (s u : S)
      → remember w name redis found s ≡ (ok (some a), u)
      → found ≡ some a
  unfolding remember
  remember-eq-some name redis none a s u h = absurd cc
  remember-eq-some name none (some b) a s u h = cc
  remember-eq-some name (some redis) (some b) a s u h =
      let (tt, t, _, done) =
        >>=-eq-ok (write_back w redis name b (w.marshal b)) (λ _. pure (some b)) s h in
      cc

  read_through-IsStored :
      (name : String) (q : Time → RuntimeArtifact → Bool) (a : Artifact) (s u : S)
      → read_through w name q s ≡ (ok (some a), u)
      → IsStored a (tables u)
        × ((now : Time) × (r : RuntimeArtifact) × (q now r ≡ true) × (artifact_from_record r ≡ a))
  unfolding read_through
  read_through-IsStored name q a s u h =
      let rest = λ (now : Time). (do found ← get_row w (q now); remember w name w.redis found) in
      let (now, s1, _, h1) = >>=-eq-ok (read_time w) rest s h in
      let (found, s2, read, h2) = >>=-eq-ok (get_row w (q now)) (remember w name w.redis) s1 h1 in
      let value = remember-eq-some name w.redis found a s2 u h2 in
      let (r, there, hit, same) = get_row-eq-some (q now) a s1 s2 (rw value at read) in
      let kept =
        (Keeps-remember view (IsStored a) w ok_world name w.redis refl found).at s2
          (r, there, same) in
      (subst (λ x. IsStored a (tables x.1)) h2 kept, (now, r, hit, same))

  hit_or_read-eq-some :
      (name : String) (q : Time → RuntimeArtifact → Bool) (hit : Option Artifact) (a : Artifact)
      (s u : S)
      → hit_or_read w name q hit s ≡ (ok (some a), u)
      → (hit ≡ some a) ⊎ (read_through w name q s ≡ (ok (some a), u))
  unfolding hit_or_read
  hit_or_read-eq-some name q none a s u h = inr h
  hit_or_read-eq-some name q (some b) a s u h = inl cc

  selected-IsFor :
      (b : ℕ) (type scope : String) (now : Time) (r : RuntimeArtifact)
      → (eqb r.binding_id b
          && w.collate r.artifact_type == w.collate type
          && w.collate r.scope_key == w.collate scope
          && ltb_ℤ now r.expires_at)
        ≡ true
      → IsFor w.collate b type scope (artifact_from_record r)
  unfolding artifact_from_record
  selected-IsFor b type scope now r h = ground (
    arith,
    eq_iff (w.collate r.artifact_type) (w.collate type),
    eq_iff (w.collate r.scope_key) (w.collate scope),
  )

  -- A read of the cache under a name finds the artifact.
  abbrev pub IsCached : String → Artifact → S → Type 0
  IsCached name a s =
      (redis : Redis S) × (w.redis ≡ some redis)
      × (hit_of w.unmarshal (redis.get name s).0 ≡ some a)

  cached-eq-ok :
      (redis : Redis S) (name : String) (hit : Option Artifact) (s t : S)
      → cached w redis name s ≡ (ok hit, t)
      → hit_of w.unmarshal (redis.get name s).0 ≡ hit
  unfolding cached
  cached-eq-ok redis name hit s t h =
      ok-injective (ap (λ (x : Result (Option Artifact) × S). x.0) h)

  cached_or_read-eq-some :
      (name : String) (q : Time → RuntimeArtifact → Bool) (redis : Option (Redis S)) (a : Artifact)
      (s u : S)
      → w.redis ≡ redis
      → cached_or_read w name q redis s ≡ (ok (some a), u)
      → IsCached name a s
        ⊎ (IsStored a (tables u)
            × ((now : Time) × (r : RuntimeArtifact) × (q now r ≡ true)
                × (artifact_from_record r ≡ a)))
  unfolding cached_or_read
  cached_or_read-eq-some name q none a s u e h = inr (read_through-IsStored name q a s u h)
  cached_or_read-eq-some name q (some redis) a s u e h =
      let (hit, t, asked, rest) = >>=-eq-ok (cached w redis name) (hit_or_read w name q) s h in
      elim (hit_or_read-eq-some name q hit a t u rest) [
        | inl found ↦ inl (redis, e, cached-eq-ok redis name hit s t asked ∙ found)
        | inr read ↦ inr (read_through-IsStored name q a t u read)
      ]

  -- An artifact that a read by binding returns is the cache's, or is stored in the database.
  pub get_by_binding_id-eq-some :
      (b : ℕ) (type scope : String) (a : Artifact) (s u : S)
      → get_by_binding_id w b type scope s ≡ (ok (some a), u)
      → IsCached (cache_key_by_binding w b type scope) a s
        ⊎ (IsFor w.collate b type scope a × IsStored a (tables u))
  unfolding get_by_binding_id
  get_by_binding_id-eq-some b type scope a s u h =
      elim (cached_or_read-eq-some (cache_key_by_binding w b type scope)
        (λ now r.
          eqb r.binding_id b
          && w.collate r.artifact_type == w.collate type
          && w.collate r.scope_key == w.collate scope
          && ltb_ℤ now r.expires_at)
        w.redis a s u refl h) [
          | inl hit ↦ inl hit
          | inr (stored, (now, r, selected, same)) ↦ inr (
            subst (IsFor w.collate b type scope) same (selected-IsFor b type scope now r selected),
            stored,
          )
        ]
