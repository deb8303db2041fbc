-- ===== src/IntegrationEnv/Doctor.antt =====
-- mysqlDSN, CheckMySQL and CheckRedis of internal/testutil/integrationenv/env.go, and main of
-- cmd/integration-doctor/main.go.
pub mod Reachable
use Prim.Native.String.{[], ◌∷◌, ◌++◌}
use platform_mihomo_service.Base.{
  ℕ, String, Option, none, some, Bool, true, false, not, ◌==◌, if◌then◌else◌, List,
}
use platform_mihomo_service.IntegrationEnv.Text.{same_char, trim_space}
use platform_mihomo_service.IntegrationEnv.Defs.{
  Checked, done, failed, EnvError, variable_required, open_mysql_failed, ping_mysql_failed,
  ping_redis_failed, no_working_directory, Host, ◌>>=◌, ◌>>◌,
}
use platform_mihomo_service.IntegrationEnv.Names.{
  Entropy, unique_database_name, unique_redis_prefix,
}
use platform_mihomo_service.IntegrationEnv.Settings.{Env, load}
use platform_mihomo_service.IntegrationEnv.Report.{summary}
use platform_mihomo_service.IntegrationEnv.RepoRoot.{find_repo_root}

-- `strings.TrimPrefix(config, "?")`
unfoldable pub without_question_mark : String → String
without_question_mark [] = []
without_question_mark (c ∷ s) = if same_char "?" c then s else c ∷ s

unfoldable pub mysql_dsn : Env → String → String
unfolding without_question_mark
mysql_dsn e db_name =
    let query = without_question_mark e.database_config in
    let target =
      e.database_username
      ++ (":" ++ (e.database_password ++ ("@tcp(" ++ (e.database_addr ++ (")/" ++ db_name))))) in
    if query == "" then target else target ++ ("?" ++ query)

abbrev pub demand : Bool → EnvError → Checked (Unit {0})
demand true e = done tt
demand false e = failed e

-- `strings.TrimSpace(value) == ""`
abbrev pub is_blank : String → Bool
unfolding trim_space
is_blank value = trim_space value == ""

unfoldable pub check_mysql : Host → Env → Checked (Unit {0})
unfolding mysql_dsn trim_space
check_mysql host e = do
  demand (not (is_blank e.database_addr)) (variable_required "PAI_TEST_DATABASE_ADDR")
  demand (not (is_blank e.database_username)) (variable_required "PAI_TEST_DATABASE_USERNAME")
  demand (not (is_blank e.database_base_name)) (variable_required "PAI_TEST_DATABASE_DBNAME")
  demand (host.opens_mysql (mysql_dsn e "")) open_mysql_failed
  demand (host.pings_mysql (mysql_dsn e "")) ping_mysql_failed

unfoldable pub check_redis : Host → Env → Bool → Checked (Unit {0})
unfolding trim_space
check_redis host e require_redis =
    if is_blank e.redis_addr
    then (if require_redis then failed (variable_required "PAI_TEST_REDIS_ADDR") else done tt)
    else demand (host.pings_redis e.redis_addr e.redis_password e.redis_db) ping_redis_failed

-- What the tool prints, from the environment on; the two suffixes are drawn from two states of the
-- process's surroundings.
unfoldable pub report : Entropy → Entropy → String → Env → List String
unfolding unique_database_name unique_redis_prefix summary
report for_database for_redis gowork e =
    summary e (unique_database_name for_database e.database_base_name "doctor")
      (unique_redis_prefix for_redis e.redis_prefix "doctor") gowork false

unfoldable pub examine : Host → Env → Checked (Unit {0})
unfolding check_mysql check_redis
examine host e = do
  check_mysql host e
  if not (e.redis_addr == "") then check_redis host e false else done tt

abbrev pub require_working_directory : Option String → Checked String
require_working_directory none = failed no_working_directory
require_working_directory (some wd) = done wd

-- `main` once the root is there: the lines that it prints, or the error of `log.Fatal`.
unfoldable pub examine_repository :
    Host → Entropy → Entropy → String → String → Checked (List String)
unfolding load examine report
examine_repository host for_database for_redis gowork root = do
  e ← load host root
  examine host e
  done (report for_database for_redis gowork e)

-- `none` where the search for the root runs out of rounds.
unfoldable pub main : Host → Entropy → Entropy → String → Option (Checked (List String))
unfolding find_repo_root examine_repository
main host for_database for_redis gowork = elim host.getwd [
  | none ↦ some (failed no_working_directory)
  | some wd ↦ elim (find_repo_root host wd) [
    | none ↦ none
    | some root ↦ some (root >>= examine_repository host for_database for_redis gowork)
  ]
]
