-- ===== src/Data/ArtifactCache.antt =====
-- The cache of internal/data/artifact_repo.go: its keys, and the calls of Redis on one artifact.
use platform_mihomo_service.Base.{ℕ, String, Option, none, some, List, [], ◌∷◌, if◌then◌else◌}
use platform_mihomo_service.Base.Int.{ℤ, pos, negsuc, ◌-ℤ◌, ltb_ℤ, leb_ℤ}
use platform_mihomo_service.Outcome.{Result, ok, err, M, pure, ignore, ◌>>=◌}
use platform_mihomo_service.Biz.{Time, Artifact}
use platform_mihomo_service.Store.{RuntimeArtifact, Redis, World}
use platform_mihomo_service.AccountKey.{format_uint}
use Prim.Native.String.{◌++◌}

-- The artifact that a payload of the cache decodes to, if it was read and does.
abbrev pub hit_of : (String → Result Artifact) → Result String → Option Artifact
hit_of unmarshal (err e) = none
hit_of unmarshal (ok payload) = elim (unmarshal payload) [ ok a ↦ some a | err e ↦ none ]

-- `time.Until(t)` at the instant `now`, which stays within an int64.
abbrev pub until : Time → Time → ℤ
until t now =
    let d = t -ℤ now in
    if ltb_ℤ (pos 9223372036854775807) d
    then pos 9223372036854775807
    else if ltb_ℤ d (negsuc 9223372036854775807)
    then negsuc 9223372036854775807
    else d

module _ {S : Type 0} (w : World S) where
  unfoldable pub cache_key : String → String → String → String
  cache_key key artifact_type scope_key =
      w.prefix ++ ("artifact:" ++ (key ++ (":" ++ (artifact_type ++ (":" ++ scope_key)))))

  unfoldable pub cache_key_by_binding : ℕ → String → String → String
  unfolding format_uint
  cache_key_by_binding binding_id artifact_type scope_key =
      w.prefix
      ++ ("artifact:binding:"
          ++ (format_uint binding_id ++ (":" ++ (artifact_type ++ (":" ++ scope_key)))))

  unfoldable pub binding_cache_pattern : ℕ → String
  unfolding format_uint
  binding_cache_pattern binding_id =
      w.prefix ++ ("artifact:binding:" ++ (format_uint binding_id ++ ":*"))

  -- `time.Now()`
  unfoldable pub read_time : M S Time
  read_time s = let (now, s') = w.now s in (ok now, s')

  -- An artifact's payload is cached until it expires, or dropped where it has.
  unfoldable pub store_or_drop : Redis S → String → Time → String → M S (Unit {0})
  unfolding read_time
  store_or_drop redis name expires_at payload = do
    now ← read_time
    if leb_ℤ (until expires_at now) (pos 0)
        then redis.del (name ∷ [])
        else redis.set name payload (until expires_at now)

  -- A cached payload that decodes; any error of Redis or of the decoder is a miss.
  unfoldable pub cached : Redis S → String → M S (Option Artifact)
  cached redis cache_name s =
      let (r, s') = redis.get cache_name s in (ok (hit_of w.unmarshal r), s')

  -- What a read writes back; its errors are dropped.
  unfoldable pub write_back : Redis S → String → Artifact → Result String → M S (Unit {0})
  unfolding store_or_drop
  write_back redis cache_name a (err e) = pure tt
  write_back redis cache_name a (ok payload) =
      ignore (store_or_drop redis cache_name a.expires_at payload)

  unfoldable pub cache_keys_for_records : List RuntimeArtifact → List String
  unfolding cache_key cache_key_by_binding
  cache_keys_for_records [] = []
  cache_keys_for_records (r ∷ records) =
      cache_key r.platform_account_id r.artifact_type r.scope_key
      ∷ (cache_key_by_binding r.binding_id r.artifact_type r.scope_key
          ∷ cache_keys_for_records records)

  unfoldable pub delete_cache_keys : List String → M S (Unit {0})
  delete_cache_keys [] = pure tt
  delete_cache_keys (k ∷ keys) = elim w.redis [ none ↦ pure tt | some redis ↦ redis.del (k ∷ keys) ]
