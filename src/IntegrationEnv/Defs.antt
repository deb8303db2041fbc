-- ===== src/IntegrationEnv/Defs.antt =====
-- The errors of internal/testutil/integrationenv/env.go, its maps, and what the tools find outside
-- the process.
use platform_mihomo_service.Base.Int.{ℤ}
use platform_mihomo_service.Base.{
  ◌≡◌, refl, String, Option, none, some, Bool, ◌==◌, if◌then◌else◌, List, [], ◌∷◌,
}

-- `Source`, with the constants of env.go as constructors.
pub data Source : Type 0 where
  shell file default_value : Source

-- One constructor for each error that is made, with what its message names.
pub data EnvError : Type 0 where
  read_failed : String → EnvError
  invalid_line empty_key : String → String → EnvError
  no_integer : String → Source → EnvError
  variable_required : String → EnvError
  open_mysql_failed ping_mysql_failed ping_redis_failed : EnvError
  no_working_directory no_start_path no_repo_root : EnvError

pub data Checked (A : Type 0) : Type 0 where
  done : A → Checked A
  failed : EnvError → Checked A

infixl 5 ◌>>=◌ ◌>>◌
abbrev pub ◌>>=◌ : {A B : Type 0} → Checked A → (A → Checked B) → Checked B
done a >>= f = f a
failed e >>= f = failed e

abbrev pub ◌>>◌ : {A B : Type 0} → Checked A → Checked B → Checked B
m >> k = m >>= λ _. k

pub >>=-eq-done :
    {A B : Type 0} (m : Checked A) (f : A → Checked B) (b : B)
    → m >>= f ≡ done b
    → (a : A) × (m ≡ done a) × (f a ≡ done b)
>>=-eq-done (done a) f b h = (a, refl, h)
>>=-eq-done (failed e) f b h = absurd (cc h)

-- A map with text keys; the first entry of a key is its value.
abbrev pub Table : Type 0 → Type 0
Table A = List (String × A)

module _ {A : Type 0} where
  abbrev pub get : String → Table A → Option A
  get k [] = none
  get k ((j, a) ∷ t) = if j == k then some a else get k t

  abbrev pub put : String → A → Table A → Table A
  put k a t = (k, a) ∷ t

-- The result of `os.ReadFile`.
pub data FileRead : Type 0 where
  contents : String → FileRead
  missing unreadable : FileRead

-- What the functions of packages os, filepath, database/sql and go-redis answer: the environment
-- (`os.LookupEnv`), the working directory (`os.Getwd`), `filepath.Abs`, `os.ReadFile`, whether
-- `os.Stat` finds a file that is no directory, whether `sql.Open` takes the DSN and `PingContext`
-- succeeds, and whether Redis at an address, with a password and a database, answers a ping.
pub record Host : Type 0 where
  pub lookup_env : String → Option String
  pub getwd : Option String
  pub abs : String → Option String
  pub read_file : String → FileRead
  pub is_regular : String → Bool
  pub opens_mysql : String → Bool
  pub pings_mysql : String → Bool
  pub pings_redis : String → String → ℤ → Bool
