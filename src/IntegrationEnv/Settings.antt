-- ===== src/IntegrationEnv/Settings.antt =====
-- Env, Load, pickString, pickStringDefault and pickIntDefault of
-- internal/testutil/integrationenv/env.go.
pub mod Resolved
mod Sources
pub mod Loaded
use Prim.Native.String.{[], ◌∷◌, ◌++◌}
use platform_mihomo_service.Base.Int.{ℤ, pos, negsuc}
use platform_mihomo_service.Base.{
  ℕ, ◌-◌, ◌^◌, String, Option, none, some, Bool, true, false, not, ◌||◌, leb, ltb, eqb, ◌==◌,
  if◌then◌else◌, List,
}
use platform_mihomo_service.AccountKey.{parse_uint}
use platform_mihomo_service.IntegrationEnv.Text.{same_char, trim_space, begins_with}
use platform_mihomo_service.IntegrationEnv.Defs.{
  Source, shell, file, default_value, EnvError, no_integer, Checked, done, failed, Table, get, put,
  Host, ◌>>=◌,
}
use platform_mihomo_service.IntegrationEnv.DotEnv.{read_dot_env}

pub record Env : Type 0 where
  pub database_addr : String
  pub database_username : String
  pub database_password : String
  pub database_base_name : String
  pub database_config : String
  pub redis_addr : String
  pub redis_password : String
  pub redis_db : ℤ
  pub redis_prefix : String
  pub env_file : String
  pub sources : Table Source

abbrev pub default_database_config : String
default_database_config = "charset=utf8mb4&parseTime=True&loc=UTC&multiStatements=true"

-- `filepath.Join` of a clean directory that is not "." and the name of a file.
unfoldable pub join : String → String → String
join dir name = if dir == "" then name else if dir == "/" then "/" ++ name else dir ++ ("/" ++ name)

-- A number of 64 bits with its sign, from its absolute value.
unfoldable pub signed : Bool → Option ℕ → Option ℤ
signed negative none = none
signed negative (some n) =
    if negative
    then (if leb n (2 ^ 63)
        then (if eqb n 0 then some (pos 0) else some (negsuc (n - 1)))
        else none)
    else if ltb n (2 ^ 63)
    then some (pos n)
    else none

-- `strconv.Atoi`
unfoldable pub atoi : String → Option ℤ
unfolding signed parse_uint
atoi [] = none
atoi (c ∷ s) =
    if same_char "-" c
    then signed true (parse_uint s)
    else if same_char "+" c
    then signed false (parse_uint s)
    else signed false (parse_uint (c ∷ s))

abbrev pub is_set : Option Source → Bool
is_set none = false
is_set (some s) = true

-- The `if` of `pickStringDefault`, on what `pickString` gives.
abbrev pub picked_or_default : String → String → Table Source × String → Table Source × String
picked_or_default key fallback (picked, value) =
    if not (value == "") || is_set (get key picked)
    then (picked, value)
    else (put key default_value picked, fallback)

abbrev pub integer_or_fail : String → Source → Option ℤ → Checked ℤ
integer_or_fail key source none = failed (no_integer key source)
integer_or_fail key source (some n) = done n

-- The functions change the map of sources: they take it and return it beside their result.
module _ (host : Host) (file_values : Table String) where
  unfoldable pub pick_string : String → Table Source → Table Source × String
  pick_string key sources = elim (host.lookup_env key) [
    | some value ↦ (put key shell sources, value)
    | none ↦ elim (get key file_values) [
      | some value ↦ (put key file sources, value)
      | none ↦ (sources, "")
    ]
  ]

  unfoldable pub pick_string_default : String → String → Table Source → Table Source × String
  unfolding pick_string
  pick_string_default key fallback sources =
      picked_or_default key fallback (pick_string key sources)

  unfoldable pub pick_int_default : String → ℤ → Table Source → Table Source × Checked ℤ
  unfolding trim_space atoi
  pick_int_default key fallback sources = elim (host.lookup_env key) [
    | some raw ↦ (put key shell sources, integer_or_fail key shell (atoi (trim_space raw)))
    | none ↦ elim (get key file_values) [
      | some raw ↦ (put key file sources, integer_or_fail key file (atoi (trim_space raw)))
      | none ↦ (put key default_value sources, done fallback)
    ]
  ]

  -- `Load` once the file has been read. The environment that comes with an error is dropped: no
  -- caller reads it.
  unfoldable pub load_values : String → Checked Env
  unfolding pick_string pick_string_default pick_int_default
  load_values env_file =
      let (s1, addr) = pick_string "PAI_TEST_DATABASE_ADDR" List.[] in
      let (s2, username) = pick_string "PAI_TEST_DATABASE_USERNAME" s1 in
      let (s3, password) = pick_string "PAI_TEST_DATABASE_PASSWORD" s2 in
      let (s4, base_name) = pick_string "PAI_TEST_DATABASE_DBNAME" s3 in
      let (s5, config) =
        pick_string_default "PAI_TEST_DATABASE_CONFIG" default_database_config s4 in
      let (s6, redis_addr) = pick_string "PAI_TEST_REDIS_ADDR" s5 in
      let (s7, redis_password) = pick_string "PAI_TEST_REDIS_PASSWORD" s6 in
      let (s8, redis_db) = pick_int_default "PAI_TEST_REDIS_DB" (pos 0) s7 in
      let (s9, redis_prefix) = pick_string_default "PAI_TEST_REDIS_PREFIX" "itest" s8 in
      redis_db >>= λ db. done (record {
        database_addr = addr;
        database_username = username;
        database_password = password;
        database_base_name = base_name;
        database_config = config;
        redis_addr = redis_addr;
        redis_password = redis_password;
        redis_db = db;
        redis_prefix = redis_prefix;
        env_file = env_file;
        sources = s9;
      })

unfoldable pub load : Host → String → Checked Env
unfolding read_dot_env load_values join
load host repo_root =
    let env_file = join repo_root ".env.integration.local" in
    read_dot_env host env_file >>= λ values. load_values host values env_file
