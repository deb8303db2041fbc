-- ===== src/Store/Laws.antt =====
-- What is relied on of MySQL under gorm, and of Redis: the documented behaviour of one statement,
-- of a transaction and of one command, on a view of the state. A statement changes no other table,
-- and one that fails changes nothing; a transaction that fails is rolled back.
mod Columns
pub use platform_mihomo_service.Store.Laws.Columns.{
  credential_in_the_way, device_in_the_way, profile_in_the_way, artifact_in_the_way,
  grant_in_the_way, stored_credential, stored_device, stored_profile, stored_artifact, stored_grant,
}
use platform_mihomo_service.Base.{
  ℕ, String, Bool, true, false, not, ◌&&◌, ◌||◌, Option, some, List, [], ◌∷◌, ◌++◌, map, ◌≡◌, ◌≢◌,
  ◌⊎◌, All, any, keep, length, eqb, ◌==◌, if◌then◌else◌,
}
use platform_mihomo_service.Base.Int.{ℤ}
use platform_mihomo_service.Outcome.{Error, Result, ok, err, record_not_found}
use platform_mihomo_service.Biz.{Time}
use platform_mihomo_service.Store.{
  CredentialRecord, DeviceRecord, AccountProfile, RuntimeArtifact, ConsumerGrantInvalidation, Table,
  Redis, World,
}
use mathlib.Core.Option

pub record Tables : Type 0 where
  pub credential_records : List CredentialRecord
  pub device_records : List DeviceRecord
  pub account_profiles : List AccountProfile
  pub runtime_artifacts : List RuntimeArtifact
  pub consumer_grant_invalidations : List ConsumerGrantInvalidation

-- The rows of the database by ascending id, and what was last written under each key of the cache.
pub record View : Type 0 where
  pub tables : Tables
  pub cache : String → Option String

-- One of the tables of a database.
pub record Lens (Row : Type 0) : Type 0 where
  pub rows : Tables → List Row
  pub put : Tables → List Row → Tables

module _ {A : Type 0} where
  abbrev pub Among : A → List A → Type 0
  Among a [] = ⊥
  Among a (x ∷ xs) = (x ≡ a) ⊎ Among a xs

module _ {Row : Type 0} where
  -- UPDATE … WHERE
  abbrev pub updated : (Row → Bool) → (Row → Row) → List Row → List Row
  updated q f = map (λ r. if q r then f r else r)

  -- INSERT … ON DUPLICATE KEY UPDATE: the row that is in the way is updated, or else `added`, the
  -- new row with the id that it gets, is put behind the others.
  abbrev pub upserted : (Row → Row → Bool) → (Row → Row → Row) → Row → Row → List Row → List Row
  upserted same merge new added rows =
      if any (same new) rows then updated (same new) (merge new) rows else rows ++ added ∷ []

module _ {S Row : Type 0} (view : S → View) (lens : Lens Row) where
  -- The rows of the table in a state, and the view after they are replaced.
  abbrev pub rows_at : S → List Row
  rows_at s = lens.rows (view s).tables

  abbrev pub with_rows : S → List Row → View
  with_rows s rows = record (view s) { tables = lens.put (view s).tables rows }

  -- `in_the_way new old` says that a unique key of the table forbids both rows, and `with_id` gives
  -- a row its id, and its times the precision of their columns.
  pub record IsTable (in_the_way : Row → Row → Bool) (with_id : ℕ → Row → Row) (t : Table S Row)
      : Type 0 where
    pub first_ok :
        (q : Row → Bool) (s : S) (r : Row) (s' : S)
        → t.first q s ≡ (ok r, s')
        → Among r (rows_at s) × (q r ≡ true) × (view s' ≡ view s)
    pub first_none :
        (q : Row → Bool) (s s' : S)
        → t.first q s ≡ (err record_not_found, s')
        → All (λ r. q r ≡ false) (rows_at s)
    pub first_err :
        (q : Row → Bool) (s : S) (e : Error) (s' : S) → t.first q s ≡ (err e, s') → view s' ≡ view s
    pub find_ok :
        (q : Row → Bool) (s : S) (found : List Row) (s' : S)
        → t.find q s ≡ (ok found, s')
        → (found ≡ keep q (rows_at s)) × (view s' ≡ view s)
    pub find_err :
        (q : Row → Bool) (s : S) (e : Error) (s' : S) → t.find q s ≡ (err e, s') → view s' ≡ view s
    pub count_ok :
        (q : Row → Bool) (s : S) (n : ℕ) (s' : S)
        → t.count q s ≡ (ok n, s')
        → (n ≡ length (keep q (rows_at s))) × (view s' ≡ view s)
    pub count_err :
        (q : Row → Bool) (s : S) (e : Error) (s' : S) → t.count q s ≡ (err e, s') → view s' ≡ view s
    pub delete_ok :
        (q : Row → Bool) (s s' : S)
        → t.delete q s ≡ (ok tt, s')
        → view s' ≡ with_rows s (keep (λ r. not (q r)) (rows_at s))
    pub delete_err :
        (q : Row → Bool) (s : S) (e : Error) (s' : S)
        → t.delete q s ≡ (err e, s')
        → view s' ≡ view s
    pub update_ok :
        (q : Row → Bool) (f : Row → Row) (s : S) (n : ℕ) (s' : S)
        → ((id : ℕ) (r : Row) → f (with_id id r) ≡ with_id id (f r))
        → t.update q f s ≡ (ok n, s')
        → (view s' ≡ with_rows s (updated q f (rows_at s))) × ((n ≡ 0) ⊎ (any q (rows_at s) ≡ true))
    pub update_rows :
        (q : Row → Bool) (f : Row → Row) (s : S)
        → (rows : List Row) × (view (t.update q f s).1 ≡ with_rows s rows)
    pub update_err :
        (q : Row → Bool) (f : Row → Row) (s : S) (e : Error) (s' : S)
        → t.update q f s ≡ (err e, s')
        → view s' ≡ view s
    pub create_ok :
        (new : Row) (s s' : S)
        → t.create new s ≡ (ok tt, s')
        → (id : ℕ) × (id ≢ 0) × (view s' ≡ with_rows s (rows_at s ++ with_id id new ∷ []))
    pub create_err :
        (new : Row) (s : S) (e : Error) (s' : S) → t.create new s ≡ (err e, s') → view s' ≡ view s
    pub upsert_ok :
        (same : Row → Row → Bool) (merge : Row → Row → Row) (new : Row) (s s' : S)
        → All (λ old. same new old ≡ in_the_way new old) (rows_at s)
        → t.create_on_conflict same merge new s ≡ (ok tt, s')
        → (id : ℕ) × (id ≢ 0)
          × (view s'
              ≡ with_rows s (upserted same merge (with_id id new) (with_id id new) (rows_at s)))
    pub upsert_rows :
        (same : Row → Row → Bool) (merge : Row → Row → Row) (new : Row) (s : S)
        → (rows : List Row) × (view (t.create_on_conflict same merge new s).1 ≡ with_rows s rows)
    pub upsert_err :
        (same : Row → Row → Bool) (merge : Row → Row → Row) (new : Row) (s : S) (e : Error) (s' : S)
        → t.create_on_conflict same merge new s ≡ (err e, s')
        → view s' ≡ view s

-- How a transaction ended, from what its body did from the same state.
pub data Ended {S A : Type 0} (view : S → View) (s : S) (body result : Result A × S) : Type 0 where
  committed :
      (a : A) (u s' : S)
      → body ≡ (ok a, u)
      → result ≡ (ok a, s')
      → view s' ≡ view u
      → Ended view s body result
  rolled_back :
      (e : Error) (s' : S)
      → result ≡ (err e, s')
      → (view s').tables ≡ (view s).tables
      → Ended view s body result

abbrev pub credential_lens : Lens CredentialRecord
credential_lens = record {
  rows = λ t. t.credential_records;
  put = λ t rows. record t { credential_records = rows };
}

abbrev pub device_lens : Lens DeviceRecord
device_lens = record {
  rows = λ t. t.device_records;
  put = λ t rows. record t { device_records = rows };
}

abbrev pub profile_lens : Lens AccountProfile
profile_lens = record {
  rows = λ t. t.account_profiles;
  put = λ t rows. record t { account_profiles = rows };
}

abbrev pub artifact_lens : Lens RuntimeArtifact
artifact_lens = record {
  rows = λ t. t.runtime_artifacts;
  put = λ t rows. record t { runtime_artifacts = rows };
}

abbrev pub grant_lens : Lens ConsumerGrantInvalidation
grant_lens = record {
  rows = λ t. t.consumer_grant_invalidations;
  put = λ t rows. record t { consumer_grant_invalidations = rows };
}

-- A world whose database and cache behave as documented, seen through `view`. The upstream client,
-- the cipher and the clock do not reach the database or the cache.
pub record IsWorld {S : Type 0} (view : S → View) (w : World S) : Type 1 where
  pub credential_table :
      IsTable view credential_lens
        (credential_in_the_way w.collate)
        (stored_credential w.datetime)
        w.credential_records
  pub device_table :
      IsTable view device_lens
        (device_in_the_way w.collate)
        (stored_device w.datetime)
        w.device_records
  pub profile_table :
      IsTable view profile_lens
        (profile_in_the_way w.collate)
        (stored_profile w.datetime)
        w.account_profiles
  pub artifact_table :
      IsTable view artifact_lens
        (artifact_in_the_way w.collate)
        (stored_artifact w.datetime)
        w.runtime_artifacts
  pub grant_table :
      IsTable view grant_lens
        (grant_in_the_way w.collate)
        (stored_grant w.datetime)
        w.consumer_grant_invalidations
  pub transaction_ends :
      (A : Type 0) (body : S → Result A × S) (s : S)
      → Ended view s (body s) (w.transaction A body s)
  pub redis_del_tables :
      (redis : Redis S) (keys : List String) (s : S)
      → w.redis ≡ some redis
      → (view (redis.del keys s).1).tables ≡ (view s).tables
  pub redis_get_tables :
      (redis : Redis S) (key : String) (s : S)
      → w.redis ≡ some redis
      → (view (redis.get key s).1).tables ≡ (view s).tables
  pub redis_set_tables :
      (redis : Redis S) (key payload : String) (ttl : ℤ) (s : S)
      → w.redis ≡ some redis
      → (view (redis.set key payload ttl s).1).tables ≡ (view s).tables
  pub clock_view : (s : S) → view (w.now s).1 ≡ view s
  pub discover_view :
      (cookie region : String) (s : S)
      → view (w.client.validate_and_discover cookie region s).1 ≡ view s
  pub issue_view :
      (cookie player : String) (s : S) → view (w.client.issue_auth_key cookie player s).1 ≡ view s
  pub encrypt_view : (text : String) (s : S) → view (w.cipher.encrypt_string text s).1 ≡ view s
