-- ===== src/IntegrationEnv/Tests.antt =====
-- The tools of the integration tests, at concrete settings.
use platform_mihomo_service.Base.Int.{pos}
use platform_mihomo_service.Base.{
  String, some, none, true, false, ◌==◌, ◌≡◌, ◌≤◌, inl, refl, [], ◌∷◌, All, if◌then◌else◌,
}
use platform_mihomo_service.IntegrationEnv.Text.{size}
use platform_mihomo_service.IntegrationEnv.Defs.{
  Table, Host, contents, missing, done, get, shell, file, default_value,
}
use platform_mihomo_service.IntegrationEnv.Names.{
  Entropy, is_plain, sanitize_identifier, random_suffix, unique_database_name, unique_redis_prefix,
}
use platform_mihomo_service.IntegrationEnv.Names.Identifier.{
  IsIdentifier, sanitize_identifier-IsIdentifier,
}
use platform_mihomo_service.IntegrationEnv.Names.Unique.{
  size-unique_database_name, unique_database_name-random_suffix,
}
use platform_mihomo_service.IntegrationEnv.DotEnv.{split_lines, read_dot_env}
use platform_mihomo_service.IntegrationEnv.DotEnv.Last.{
  IsAccepted, last_given, read_dot_env-last_given, read_dot_env_of_IsAccepted,
}
use platform_mihomo_service.IntegrationEnv.Settings.{Env, default_database_config, join, load}
use platform_mihomo_service.IntegrationEnv.Settings.Resolved.{origin, IsNumber}
use platform_mihomo_service.IntegrationEnv.Settings.Loaded.{AllSettled, load-AllSettled}
use platform_mihomo_service.IntegrationEnv.Report.{summary}
use platform_mihomo_service.IntegrationEnv.Report.Redaction.{with_passwords, summary-with_passwords}
use platform_mihomo_service.IntegrationEnv.RepoRoot.{find_repo_root}
use platform_mihomo_service.IntegrationEnv.RepoRoot.Nearest.{Settles, find_repo_root-Settles}
use platform_mihomo_service.IntegrationEnv.Doctor.{main, report}
use platform_mihomo_service.IntegrationEnv.Doctor.Reachable.{Found, main-Found}

abbrev entropy : Entropy
entropy = record { random = some (222, 173, 190, 239); unix_nano = 0 }

abbrev no_entropy : Entropy
no_entropy = record { random = none; unix_nano = 1700000000000000000 }

suffixes : (random_suffix entropy ≡ "deadbeef") × (random_suffix no_entropy ≡ "17979cfe")
unfolding random_suffix
suffixes = (refl, refl)

sanitized_names :
    (sanitize_identifier " Test/Foo--Bar! " "_" "test" ≡ "test_foo_bar")
    × (sanitize_identifier "//" "_" "test" ≡ "test")
    × (unique_database_name entropy "itest" "TestBind" ≡ "itest_testbind_deadbeef")
    × (unique_redis_prefix entropy "itest" "TestBind" ≡ "itest:testbind:deadbeef")
unfolding sanitize_identifier unique_database_name unique_redis_prefix
sanitized_names = (refl, refl, refl, refl)

long_name :
    unique_database_name entropy "a_rather_long_base_name_of_a_database"
      "TestThatHasALongNameAsTestsHave"
    ≡ "a_rather_long_base_name_testthathasalongnameastestshave_deadbeef"
unfolding unique_database_name
long_name = refl

size-unique_database_name_example : size (unique_database_name entropy "itest" "TestBind") ≤ 64
size-unique_database_name_example = size-unique_database_name entropy "itest" "TestBind"

unique_database_name-random_suffix_example : random_suffix entropy ≡ random_suffix entropy
unfolding unique_database_name
unique_database_name-random_suffix_example =
    unique_database_name-random_suffix entropy entropy "itest" "A b" "itest" "a B" refl

sanitize_identifier-IsIdentifier_example :
    IsIdentifier "_" (sanitize_identifier " Test/Foo--Bar! " "_" "test")
unfolding is_plain
sanitize_identifier-IsIdentifier_example =
    sanitize_identifier-IsIdentifier "_" refl " Test/Foo--Bar! " "test"
      (inl (refl, inl (refl, inl (refl, inl (refl, refl)))))

abbrev dot_env : String
dot_env =
    "# local\nPAI_TEST_DATABASE_ADDR=localhost:3306\nPAI_TEST_DATABASE_USERNAME = \"root\"\nPAI_TEST_DATABASE_ADDR='db:3306'\nPAI_TEST_DATABASE_DBNAME=mihomo\nPAI_TEST_REDIS_DB= 3\n"

-- A checkout in /src/repo, with the user's shell setting one variable.
abbrev host : Host
host = record {
  lookup_env = λ key. if key == "PAI_TEST_DATABASE_USERNAME" then some "ci" else none;
  getwd = some "/src/repo/cmd";
  abs = λ path. some path;
  read_file =
      λ path. if path == "/src/repo/.env.integration.local" then contents dot_env else missing;
  is_regular = λ path. path == "/src/repo/go.mod";
  opens_mysql = λ dsn. true;
  pings_mysql =
      λ dsn. dsn == "ci:@tcp(db:3306)/?charset=utf8mb4&parseTime=True&loc=UTC&multiStatements=true";
  pings_redis = λ addr password db. true;
}

abbrev values : Table String
values =
    ("PAI_TEST_REDIS_DB", "3")
    ∷ ("PAI_TEST_DATABASE_DBNAME", "mihomo")
    ∷ ("PAI_TEST_DATABASE_ADDR", "db:3306")
    ∷ ("PAI_TEST_DATABASE_USERNAME", "root")
    ∷ ("PAI_TEST_DATABASE_ADDR", "localhost:3306")
    ∷ []

abbrev env_path : String
env_path = "/src/repo/.env.integration.local"

values_read : read_dot_env host env_path ≡ done values
unfolding read_dot_env
values_read = refl

read_dot_env-last_given_example :
    All (IsAccepted env_path) (split_lines dot_env)
    × (get "PAI_TEST_DATABASE_ADDR" values
        ≡ last_given env_path "PAI_TEST_DATABASE_ADDR" (split_lines dot_env))
read_dot_env-last_given_example =
    read_dot_env-last_given host env_path dot_env "PAI_TEST_DATABASE_ADDR" values refl values_read

lines-IsAccepted : All (IsAccepted env_path) (split_lines dot_env)
lines-IsAccepted = (read_dot_env-last_given host env_path dot_env "" values refl values_read).0

read_dot_env_of_IsAccepted_example : (v : Table String) × (read_dot_env host env_path ≡ done v)
read_dot_env_of_IsAccepted_example =
    read_dot_env_of_IsAccepted host env_path dot_env refl lines-IsAccepted

-- The shell's user name comes before the file's, and the file's second address before its first.
abbrev settings : Env
settings = record {
  database_addr = "db:3306";
  database_username = "ci";
  database_password = "";
  database_base_name = "mihomo";
  database_config = default_database_config;
  redis_addr = "";
  redis_password = "";
  redis_db = pos 3;
  redis_prefix = "itest";
  env_file = env_path;
  sources =
      ("PAI_TEST_REDIS_PREFIX", default_value)
      ∷ ("PAI_TEST_REDIS_DB", file)
      ∷ ("PAI_TEST_DATABASE_CONFIG", default_value)
      ∷ ("PAI_TEST_DATABASE_DBNAME", file)
      ∷ ("PAI_TEST_DATABASE_USERNAME", shell)
      ∷ ("PAI_TEST_DATABASE_ADDR", file)
      ∷ [];
}

settings_loaded : load host "/src/repo" ≡ done settings
unfolding load
settings_loaded = refl

load-AllSettled_example :
    (file_values : Table String) × (read_dot_env host (join "/src/repo" ".env.integration.local")
      ≡ done file_values)
    × AllSettled host file_values settings
    × IsNumber (origin host file_values "PAI_TEST_REDIS_DB") (pos 0) settings.redis_db
load-AllSettled_example = load-AllSettled host "/src/repo" settings settings_loaded

abbrev secret_settings : Env
secret_settings = with_passwords settings "hunter2" ""

summary-with_passwords_example :
    summary (with_passwords secret_settings "correct horse" "") "db" "prefix" "" false
    ≡ summary secret_settings "db" "prefix" "" false
summary-with_passwords_example =
    summary-with_passwords secret_settings "correct horse" "" "db" "prefix" "" false refl refl

find_repo_root-Settles_example : Settles host "/src/repo/cmd" (find_repo_root host "/src/repo/cmd")
find_repo_root-Settles_example = find_repo_root-Settles host "/src/repo/cmd" "/src/repo/cmd" refl

root_found : find_repo_root host "/src/repo/cmd" ≡ some (done "/src/repo")
unfolding find_repo_root
root_found = refl

main-Found_example : Found host entropy no_entropy "off" (report entropy no_entropy "off" settings)
unfolding main
main-Found_example =
    main-Found host entropy no_entropy "off" (report entropy no_entropy "off" settings) refl
