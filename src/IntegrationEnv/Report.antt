-- ===== src/IntegrationEnv/Report.antt =====
-- Summary of internal/testutil/integrationenv/env.go with sourceOrUnset, valueOrUnset and
-- redactSecret.
pub mod Redaction
use Prim.Native.String.{◌++◌}
use platform_mihomo_service.Base.Int.{ℤ, pos, negsuc}
use platform_mihomo_service.Base.{
  suc, String, Option, none, some, Bool, true, false, ◌==◌, if◌then◌else◌, List, [], ◌∷◌,
}
use platform_mihomo_service.AccountKey.{format_uint}
use platform_mihomo_service.IntegrationEnv.Text.{trim_space}
use platform_mihomo_service.IntegrationEnv.Defs.{Source, shell, file, default_value, Table, get}
use platform_mihomo_service.IntegrationEnv.Settings.{Env}

unfoldable pub source_text : Source → String
source_text shell = "shell"
source_text file = "file"
source_text default_value = "default"

unfoldable pub source_or_unset : Table Source → String → String
unfolding source_text
source_or_unset sources key = elim (get key sources) [
  | some source ↦ source_text source
  | none ↦ "unset"
]

unfoldable pub value_or_unset : String → String
unfolding trim_space
value_or_unset value = if trim_space value == "" then "<unset>" else value

unfoldable pub redact_secret : String → String
redact_secret value = if value == "" then "<empty>" else "<redacted>"

-- `%d` and `%t`
unfoldable pub format_int : ℤ → String
unfolding format_uint
format_int (pos n) = format_uint n
format_int (negsuc n) = "-" ++ format_uint (suc n)

unfoldable pub format_bool : Bool → String
format_bool true = "true"
format_bool false = "false"

-- `fmt.Sprintf("<label>=%s (source=%s)", value, source)`
unfoldable pub sourced : String → String → String → String
sourced label value source = label ++ ("=" ++ (value ++ (" (source=" ++ (source ++ ")"))))

unfoldable pub summary : Env → String → String → String → Bool → List String
unfolding source_or_unset value_or_unset redact_secret format_int format_bool sourced
summary e generated_db_name generated_redis_prefix gowork require_redis =
    let source = source_or_unset e.sources in
    ("env.file=" ++ value_or_unset e.env_file)
    ∷ sourced "database.addr" (value_or_unset e.database_addr) (source "PAI_TEST_DATABASE_ADDR")
    ∷ sourced "database.username" (value_or_unset e.database_username)
        (source "PAI_TEST_DATABASE_USERNAME")
    ∷ sourced "database.password" (redact_secret e.database_password)
        (source "PAI_TEST_DATABASE_PASSWORD")
    ∷ sourced "database.base" (value_or_unset e.database_base_name)
        (source "PAI_TEST_DATABASE_DBNAME")
    ∷ ("database.name=" ++ value_or_unset generated_db_name)
    ∷ sourced "database.config" (value_or_unset e.database_config)
        (source "PAI_TEST_DATABASE_CONFIG")
    ∷ ("redis.required=" ++ format_bool require_redis)
    ∷ sourced "redis.addr" (value_or_unset e.redis_addr) (source "PAI_TEST_REDIS_ADDR")
    ∷ sourced "redis.password" (redact_secret e.redis_password) (source "PAI_TEST_REDIS_PASSWORD")
    ∷ sourced "redis.db" (format_int e.redis_db) (source "PAI_TEST_REDIS_DB")
    ∷ sourced "redis.prefix" (value_or_unset generated_redis_prefix)
        (source "PAI_TEST_REDIS_PREFIX")
    ∷ ("gowork=" ++ (if gowork == "" then "<unset>" else gowork))
    ∷ []
