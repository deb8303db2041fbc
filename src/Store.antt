-- ===== src/Store.antt =====
-- The rows of internal/data/model, and the interfaces of the packages behind the repositories:
-- gorm's statements over a MySQL table, its transactions, and go-redis. Those packages are
-- parameters; what is relied on of them stands in Store/Laws.antt.
pub mod Keeps
pub mod Laws
pub mod Memory
pub mod Transactions
use platform_mihomo_service.Base.{ℕ, String, Bool, Option, List, eqb, ◌==◌, ◌&&◌, ◌||◌}
use platform_mihomo_service.Base.Int.{ℤ}
use platform_mihomo_service.Outcome.{Result, M}
use platform_mihomo_service.Biz.{Time, Artifact}
use platform_mihomo_service.Biz.Repositories.{Client, Cipher}

-- The columns `created_at` and `updated_at`, which the database keeps and no code reads, are left
-- out of every row; so is `default_profile_marker`, which is computed from `is_default`.
pub record CredentialRecord : Type 0 where
  pub id : ℕ
  pub binding_id : ℕ
  pub platform_account_id : String
  pub platform : String
  pub account_id : String
  pub region : String
  pub credential_blob : String
  pub credential_version : String
  pub status : String
  pub last_validated_at : Option Time
  pub last_refreshed_at : Option Time
  pub expires_at : Option Time

pub record DeviceRecord : Type 0 where
  pub id : ℕ
  pub binding_id : ℕ
  pub platform_account_id : String
  pub device_id : String
  pub device_fp : String
  pub device_name : Option String
  pub is_valid : Bool
  pub last_seen_at : Option Time

pub record AccountProfile : Type 0 where
  pub id : ℕ
  pub binding_id : ℕ
  pub platform_account_id : String
  pub game_biz : String
  pub region : String
  pub player_id : String
  pub nickname : String
  pub level : ℤ
  pub is_default : Bool
  pub discovered_at : Time

pub record RuntimeArtifact : Type 0 where
  pub id : ℕ
  pub binding_id : ℕ
  pub platform_account_id : String
  pub artifact_type : String
  pub artifact_value : String
  pub scope_key : String
  pub expires_at : Time

pub record ConsumerGrantInvalidation : Type 0 where
  pub id : ℕ
  pub binding_id : ℕ
  pub consumer : String
  pub minimum_grant_version : ℕ
  pub invalidated_at : Time

-- gorm's statements over one table. A condition is the text of a WHERE clause, read as a test of a
-- row; a statement that fails returns an error. `first` stands for `Take` and `First`, which fail
-- with ErrRecordNotFound where no row matches; `find` lists by ascending id; `update` returns
-- RowsAffected. `create_on_conflict same merge row` inserts, or updates the row that is in the way
-- on the columns that `same` compares.
pub record Table (S Row : Type 0) : Type 0 where
  pub first : (Row → Bool) → M S Row
  pub find : (Row → Bool) → M S (List Row)
  pub count : (Row → Bool) → M S ℕ
  pub delete : (Row → Bool) → M S (Unit {0})
  pub update : (Row → Bool) → (Row → Row) → M S ℕ
  pub create : Row → M S (Unit {0})
  pub create_on_conflict : (Row → Row → Bool) → (Row → Row → Row) → Row → M S (Unit {0})

-- The commands of go-redis that are used. `set` takes the time to live.
pub record Redis (S : Type 0) : Type 0 where
  pub get : String → M S String
  pub set : String → String → ℤ → M S (Unit {0})
  pub del : List String → M S (Unit {0})

-- Everything that the service reaches outside its process. `union_binding_ids` is the raw UNION
-- query of internal/data/management_repo.go; `marshal` and `unmarshal` are encoding/json on an
-- artifact. `collate` gives the weight of a text under the collation of the tables
-- (initialize/migrate/sql: utf8mb4_unicode_ci): a query and a unique key compare weights. `datetime`
-- is what a column of type DATETIME(3) keeps of a time.
pub record World (S : Type 0) : Type 1 where
  pub credential_records : Table S CredentialRecord
  pub device_records : Table S DeviceRecord
  pub account_profiles : Table S AccountProfile
  pub runtime_artifacts : Table S RuntimeArtifact
  pub consumer_grant_invalidations : Table S ConsumerGrantInvalidation
  pub union_binding_ids : String → M S (List ℕ)
  pub transaction : (A : Type 0) → M S A → M S A
  pub collate : String → String
  pub datetime : Time → Time
  pub redis : Option (Redis S)
  pub prefix : String
  pub marshal : Artifact → Result String
  pub unmarshal : String → Result Artifact
  pub now : S → Time × S
  pub client : Client S
  pub cipher : Cipher S
