-- ===== src/Data/ArtifactRepo/Keeps.antt =====
-- What the artifact repository keeps of the tables: its reads every predicate of them, its writes
-- the predicates that stand whatever artifacts there are.
use platform_mihomo_service.Base.{
  ℕ, String, Bool, Option, none, some, List, [], ◌∷◌, ◌≡◌, refl, sym, subst,
}
use platform_mihomo_service.Outcome.{Result, ok, err}
use platform_mihomo_service.Outcome.Keeps.{Keeps, keeps_rules, Keeps-pure}
use platform_mihomo_service.Biz.{Time, Artifact}
use platform_mihomo_service.Store.{RuntimeArtifact, Redis, World}
use platform_mihomo_service.Store.Laws.{Tables, View, IsWorld, artifact_lens}
use platform_mihomo_service.Store.Keeps.{
  On, IsFree, Keeps-first, Keeps-find, Keeps-delete, Keeps-upsert, Keeps-redis_get, Keeps-redis_set,
  Keeps-redis_del,
}
use platform_mihomo_service.Data.Query.{Keeps-or_none}
use platform_mihomo_service.Data.ArtifactCache.{
  read_time, store_or_drop, cached, write_back, delete_cache_keys,
}
use platform_mihomo_service.Data.ArtifactRepo.{
  put_cache, previous_of, write_row, put_with, put, get_row, remember, read_through, hit_or_read,
  cached_or_read, get_by_binding_id, records_for_deletion, delete_where, delete_by_binding_id,
}

module _ {S : Type 0} (view : S → View) (Q : Tables → Type 0) (w : World S)
    (ok_world : IsWorld view w) where
  abbrev P : S → Type 0
  P = On view Q

  Keeps-read_time : (s : S) → P s → P (w.now s).1
  Keeps-read_time s h = subst (λ v. Q v.tables) (sym (ok_world.clock_view s)) h

  at_time : (v : World S) → v ≡ w → Keeps P (read_time v)
  unfolding read_time
  at_time v e = record { at = λ s h. rw e (Keeps-read_time s h) }

  Keeps-row : (q : RuntimeArtifact → Bool) → Keeps P (w.runtime_artifacts.first q)
  Keeps-row q = Keeps-first view Q artifact_lens _ _ w.runtime_artifacts ok_world.artifact_table q

  module _ (redis : Redis S) (has_redis : w.redis ≡ some redis) where
    Keeps-del : (keys : List String) → Keeps P (redis.del keys)
    Keeps-del keys = Keeps-redis_del view Q w ok_world redis has_redis keys

    Keeps-store_or_drop :
        (name : String) (expires_at : Time) (payload : String)
        → Keeps P (store_or_drop w redis name expires_at payload)
    unfolding store_or_drop
    Keeps-store_or_drop name expires_at payload =
        search (keeps_rules, at_time, Keeps-del, Keeps-redis_set view Q w ok_world redis has_redis)

    pub Keeps-put_cache :
        (a : Artifact) (previous : String) → Keeps P (put_cache w redis a previous)
    unfolding put_cache
    Keeps-put_cache a previous = search (keeps_rules, Keeps-del, Keeps-store_or_drop)

    Keeps-cached : (name : String) → Keeps P (cached w redis name)
    unfolding cached
    Keeps-cached name =
        let read = Keeps-redis_get view Q w ok_world redis has_redis name in
        record { at = λ s h. read.at s h }

    Keeps-write_back :
        (name : String) (a : Artifact) (payload : Result String)
        → Keeps P (write_back w redis name a payload)
    unfolding write_back
    Keeps-write_back name a (ok payload) = search (keeps_rules, Keeps-store_or_drop)
    Keeps-write_back name a (err e) = Keeps-pure tt

  Keeps-get_row : (q : RuntimeArtifact → Bool) → Keeps P (get_row w q)
  unfolding get_row
  Keeps-get_row q = search (keeps_rules, Keeps-or_none, Keeps-row)

  pub Keeps-remember :
      (name : String) (redis : Option (Redis S))
      → w.redis ≡ redis
      → (found : Option Artifact) → Keeps P (remember w name redis found)
  unfolding remember
  Keeps-remember name redis e none = Keeps-pure none
  Keeps-remember name none e (some a) = Keeps-pure (some a)
  Keeps-remember name (some redis) e (some a) = search (keeps_rules, Keeps-write_back redis e)

  Keeps-read_through :
      (name : String) (q : Time → RuntimeArtifact → Bool) → Keeps P (read_through w name q)
  unfolding read_through
  Keeps-read_through name q =
      search (keeps_rules, at_time, Keeps-get_row, Keeps-remember name w.redis refl)

  Keeps-hit_or_read :
      (name : String) (q : Time → RuntimeArtifact → Bool) (hit : Option Artifact)
      → Keeps P (hit_or_read w name q hit)
  unfolding hit_or_read
  Keeps-hit_or_read name q none = Keeps-read_through name q
  Keeps-hit_or_read name q (some a) = Keeps-pure (some a)

  Keeps-cached_or_read :
      (name : String) (q : Time → RuntimeArtifact → Bool) (redis : Option (Redis S))
      → w.redis ≡ redis
      → Keeps P (cached_or_read w name q redis)
  unfolding cached_or_read
  Keeps-cached_or_read name q none e = Keeps-read_through name q
  Keeps-cached_or_read name q (some redis) e =
      search (keeps_rules, Keeps-cached redis e, Keeps-hit_or_read)

  pub Keeps-get_by_binding_id :
      (b : ℕ) (type scope : String) → Keeps P (get_by_binding_id w b type scope)
  unfolding get_by_binding_id
  Keeps-get_by_binding_id b type scope = search Keeps-cached_or_read

  module _ (free : IsFree artifact_lens Q) where
    Keeps-write_row : (a : Artifact) → Keeps P (write_row w a)
    unfolding write_row
    Keeps-write_row a =
        Keeps-upsert view Q artifact_lens _ _ w.runtime_artifacts ok_world.artifact_table free _ _ _

    Keeps-previous_of : (a : Artifact) → Keeps P (previous_of w a)
    unfolding previous_of
    Keeps-previous_of a = record { at = λ s h. (Keeps-row _).at s h }

    Keeps-put_with :
        (a : Artifact) (redis : Option (Redis S)) → w.redis ≡ redis → Keeps P (put_with w a redis)
    unfolding put_with
    Keeps-put_with a none e = Keeps-write_row a
    Keeps-put_with a (some redis) e =
        search (keeps_rules, Keeps-previous_of, Keeps-write_row, Keeps-put_cache redis e)

    pub Keeps-put : (a : Artifact) → Keeps P (put w a)
    unfolding put
    Keeps-put a = Keeps-put_with a w.redis refl

    Keeps-listed : (q : RuntimeArtifact → Bool) → Keeps P (records_for_deletion w q)
    unfolding records_for_deletion
    Keeps-listed q = go w.redis refl
      where
        go : (r : Option (Redis S)) → w.redis ≡ r → Keeps P (records_for_deletion w q)
        go none e = rw (e, records_for_deletion) (Keeps-pure [])
        go (some r) e =
            rw (e, records_for_deletion)
              (Keeps-find view Q artifact_lens _ _ w.runtime_artifacts ok_world.artifact_table q)

    Keeps-uncached : (keys : List String) → Keeps P (delete_cache_keys w keys)
    unfolding delete_cache_keys
    Keeps-uncached [] = Keeps-pure tt
    Keeps-uncached (k ∷ keys) = go w.redis refl
      where
        go : (r : Option (Redis S)) → w.redis ≡ r → Keeps P (delete_cache_keys w (k ∷ keys))
        go none e = rw (e, delete_cache_keys) (Keeps-pure tt)
        go (some r) e = rw (e, delete_cache_keys) (Keeps-del r e (k ∷ keys))

    Keeps-removed : (q : RuntimeArtifact → Bool) → Keeps P (w.runtime_artifacts.delete q)
    Keeps-removed q =
        Keeps-delete view Q artifact_lens _ _ w.runtime_artifacts ok_world.artifact_table free q

    pub Keeps-delete_by_binding_id : (b : ℕ) → Keeps P (delete_by_binding_id w b)
    unfolding delete_by_binding_id delete_where
    Keeps-delete_by_binding_id b = search (keeps_rules, Keeps-listed, Keeps-removed, Keeps-uncached)
