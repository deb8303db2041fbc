-- ===== src/Data/ArtifactRepo.antt =====
-- internal/data/artifact_repo.go: runtime artifacts, in the database behind a cache. Redis may be
-- absent (a nil client).
pub mod Deletion
pub mod Keeps
pub mod Stored
pub mod Found
use platform_mihomo_service.Base.{
  ℕ, String, Bool, true, false, not, ◌&&◌, Option, none, some, List, [], ◌∷◌, eqb, ◌==◌,
  if◌then◌else◌,
}
use platform_mihomo_service.Base.Int.{ℤ, pos, negsuc, ◌-ℤ◌, ltb_ℤ, leb_ℤ}
use platform_mihomo_service.Outcome.{Result, ok, err, M, pure, lift, ignore, ◌>>=◌, ◌>>◌}
use platform_mihomo_service.Biz.{Time, Artifact}
use platform_mihomo_service.Biz.Repositories.{ArtifactRepository}
use platform_mihomo_service.Store.{RuntimeArtifact, Redis, World}
use platform_mihomo_service.AccountKey.{format_uint}
use platform_mihomo_service.Data.ArtifactCache.{
  hit_of, until, cache_key, cache_key_by_binding, binding_cache_pattern, read_time, store_or_drop,
  cached, write_back, cache_keys_for_records, delete_cache_keys,
}
use platform_mihomo_service.Data.Query.{or_none}
use Prim.Native.String.{◌++◌}
use mathlib.Core.Option

unfoldable pub record_from_artifact : Artifact → RuntimeArtifact
record_from_artifact a = record {
  id = 0;
  binding_id = a.binding_id;
  platform_account_id = a.platform_account_id;
  artifact_type = a.artifact_type;
  artifact_value = a.artifact_value;
  scope_key = a.scope_key;
  expires_at = a.expires_at;
}

unfoldable pub artifact_from_record : RuntimeArtifact → Artifact
artifact_from_record r = record {
  binding_id = r.binding_id;
  platform_account_id = r.platform_account_id;
  artifact_type = r.artifact_type;
  artifact_value = r.artifact_value;
  scope_key = r.scope_key;
  expires_at = r.expires_at;
}

abbrev pub same_artifact : (String → String) → RuntimeArtifact → RuntimeArtifact → Bool
same_artifact collate new old =
    eqb new.binding_id old.binding_id
    && collate new.artifact_type == collate old.artifact_type
    && collate new.scope_key == collate old.scope_key

abbrev pub update_all : RuntimeArtifact → RuntimeArtifact → RuntimeArtifact
update_all new old = record new { id = old.id }

-- The key of the row in the way, or `""` where the lookup fails.
abbrev previous_key : Result RuntimeArtifact → String
previous_key (ok r) = r.platform_account_id
previous_key (err e) = ""

module _ {S : Type 0} (w : World S) where
  -- The part of `Put` behind the test for Redis.
  pub put_cache : Redis S → Artifact → String → M S (Unit {0})
  unfolding cache_key cache_key_by_binding store_or_drop
  put_cache redis a previous = do
    payload ← lift (w.marshal a)
    if not (previous == "") && not (previous == a.platform_account_id)
        then redis.del (cache_key w previous a.artifact_type a.scope_key ∷ [])
        else pure tt
    redis.del (cache_key w a.platform_account_id a.artifact_type a.scope_key ∷ [])
    store_or_drop w redis (cache_key_by_binding w a.binding_id a.artifact_type a.scope_key)
        a.expires_at payload

  -- `previous.PlatformAccountID`, where the lookup's error is dropped.
  previous_of : Artifact → M S String
  previous_of a s =
      let (r, s') =
        w.runtime_artifacts.first
          (λ row.
            eqb row.binding_id a.binding_id
            && w.collate row.artifact_type == w.collate a.artifact_type
            && w.collate row.scope_key == w.collate a.scope_key)
          s in
      (ok (previous_key r), s')

  write_row : Artifact → M S (Unit {0})
  unfolding record_from_artifact
  write_row a =
      w.runtime_artifacts.create_on_conflict (same_artifact w.collate) update_all
        (record_from_artifact a)

  -- `Put`, for a client of Redis that may be nil.
  put_with : Artifact → Option (Redis S) → M S (Unit {0})
  unfolding put_cache previous_of write_row
  put_with a none = write_row a
  put_with a (some redis) = do previous ← previous_of a; write_row a; put_cache redis a previous

  unfoldable pub put : Artifact → M S (Unit {0})
  unfolding put_with
  put a = put_with a w.redis

  -- `get`: the first row that a condition selects.
  get_row : (RuntimeArtifact → Bool) → M S (Option Artifact)
  unfolding artifact_from_record
  get_row condition = do
    row ← or_none (w.runtime_artifacts.first condition)
    pure (Option.map artifact_from_record row)

  -- The end of a read, with what was found in the database.
  pub remember : String → Option (Redis S) → Option Artifact → M S (Option Artifact)
  unfolding write_back
  remember cache_name redis none = pure none
  remember cache_name none (some a) = pure (some a)
  remember cache_name (some redis) (some a) = do
    write_back w redis cache_name a (w.marshal a)
    pure (some a)

  -- The query on the database, with `time.Now()` for the expiry, and the write back.
  read_through : String → (Time → RuntimeArtifact → Bool) → M S (Option Artifact)
  unfolding get_row read_time remember
  read_through cache_name condition = do
    now ← read_time w
    found ← get_row (condition now)
    remember cache_name w.redis found

  -- What a read does after the cache was asked.
  hit_or_read : String → (Time → RuntimeArtifact → Bool) → Option Artifact → M S (Option Artifact)
  unfolding read_through
  hit_or_read cache_name condition (some a) = pure (some a)
  hit_or_read cache_name condition none = read_through cache_name condition

  cached_or_read :
      String → (Time → RuntimeArtifact → Bool) → Option (Redis S) → M S (Option Artifact)
  unfolding cached read_through hit_or_read
  cached_or_read cache_name condition none = read_through cache_name condition
  cached_or_read cache_name condition (some redis) = do
    hit ← cached w redis cache_name
    hit_or_read cache_name condition hit

  unfoldable pub get_by_binding_id : ℕ → String → String → M S (Option Artifact)
  unfolding cached_or_read cache_key_by_binding
  get_by_binding_id binding_id artifact_type scope_key =
      cached_or_read (cache_key_by_binding w binding_id artifact_type scope_key)
        (λ now r.
          eqb r.binding_id binding_id
          && w.collate r.artifact_type == w.collate artifact_type
          && w.collate r.scope_key == w.collate scope_key
          && ltb_ℤ now r.expires_at)
        w.redis

  unfoldable pub get : String → String → String → M S (Option Artifact)
  unfolding cached_or_read cache_key
  get key artifact_type scope_key =
      cached_or_read (cache_key w key artifact_type scope_key)
        (λ now r.
          w.collate r.platform_account_id == w.collate key
          && w.collate r.artifact_type == w.collate artifact_type
          && w.collate r.scope_key == w.collate scope_key
          && ltb_ℤ now r.expires_at)
        w.redis

  -- `recordsForBindingCacheDeletion` and `recordsForPlatformCacheDeletion`
  records_for_deletion : (RuntimeArtifact → Bool) → M S (List RuntimeArtifact)
  records_for_deletion condition = elim w.redis [
    | none ↦ pure []
    | some redis ↦ w.runtime_artifacts.find condition
  ]

  delete_where : (RuntimeArtifact → Bool) → M S (Unit {0})
  unfolding records_for_deletion cache_keys_for_records delete_cache_keys
  delete_where condition = do
    records ← records_for_deletion condition
    w.runtime_artifacts.delete condition
    delete_cache_keys w (cache_keys_for_records w records)

  unfoldable pub delete_by_platform_account_id : String → M S (Unit {0})
  unfolding delete_where
  delete_by_platform_account_id key =
      delete_where (λ r. w.collate r.platform_account_id == w.collate key)

  unfoldable pub delete_by_binding_id : ℕ → M S (Unit {0})
  unfolding delete_where
  delete_by_binding_id binding_id = delete_where (λ r. eqb r.binding_id binding_id)

  unfoldable pub artifact_repo : ArtifactRepository S
  unfolding put get_by_binding_id get delete_by_binding_id delete_by_platform_account_id
  artifact_repo = record {
    put = put;
    get_by_binding_id = get_by_binding_id;
    get = get;
    delete_by_binding_id = delete_by_binding_id;
    delete_by_platform_account_id = delete_by_platform_account_id;
  }
