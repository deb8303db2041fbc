-- ===== src/IntegrationEnv/Settings/Loaded.antt =====
-- What Load of internal/testutil/integrationenv/env.go gives.
use platform_mihomo_service.Base.Int.{ℤ, pos}
use platform_mihomo_service.Base.{String, none, some, ◌≡◌, refl, ap, subst, List}
use platform_mihomo_service.IntegrationEnv.Defs.{
  default_value, Checked, done, failed, Table, get, Host, >>=-eq-done,
}
use platform_mihomo_service.IntegrationEnv.DotEnv.{read_dot_env}
use platform_mihomo_service.IntegrationEnv.Settings.{
  Env, default_database_config, join, pick_string, pick_string_default, pick_int_default,
  load_values, load,
}
use platform_mihomo_service.IntegrationEnv.Settings.Resolved.{
  origin, source_of, value_of, IsNumber, pick_string-value, pick_string_default-value,
  pick_int_default-IsNumber,
}
use platform_mihomo_service.IntegrationEnv.Settings.Sources.{
  after_strings, after_config, after_passwords, after_db, after_all, config-fresh,
  redis_prefix-fresh, sources_settled,
}

module _ (host : Host) (file_values : Table String) where
  -- A variable without a default: its value, empty where it is set nowhere, and its source.
  abbrev pub IsSettled : Env → String → String → Type 0
  IsSettled env key value =
      (value ≡ value_of (origin host file_values key) "")
      × (get key env.sources ≡ source_of (origin host file_values key) none)

  -- A variable with a default.
  abbrev pub IsDefaulted : Env → String → String → String → Type 0
  IsDefaulted env key fallback value =
      (value ≡ value_of (origin host file_values key) fallback)
      × (get key env.sources ≡ source_of (origin host file_values key) (some default_value))

  -- What `Load` gives where the database of Redis is db.
  loaded : String → ℤ → Env
  unfolding after_all pick_string pick_string_default
  loaded env_file db =
      let s1 = (pick_string host file_values "PAI_TEST_DATABASE_ADDR" List.[]).0 in
      let s2 = (pick_string host file_values "PAI_TEST_DATABASE_USERNAME" s1).0 in
      let s3 = (pick_string host file_values "PAI_TEST_DATABASE_PASSWORD" s2).0 in
      let s6 =
        (pick_string host file_values "PAI_TEST_REDIS_ADDR" (after_config host file_values)).0 in
      record {
        database_addr = (pick_string host file_values "PAI_TEST_DATABASE_ADDR" List.[]).1;
        database_username = (pick_string host file_values "PAI_TEST_DATABASE_USERNAME" s1).1;
        database_password = (pick_string host file_values "PAI_TEST_DATABASE_PASSWORD" s2).1;
        database_base_name = (pick_string host file_values "PAI_TEST_DATABASE_DBNAME" s3).1;
        database_config =
            (pick_string_default host file_values "PAI_TEST_DATABASE_CONFIG" default_database_config
              (after_strings host file_values)).1;
        redis_addr =
            (pick_string host file_values "PAI_TEST_REDIS_ADDR" (after_config host file_values)).1;
        redis_password = (pick_string host file_values "PAI_TEST_REDIS_PASSWORD" s6).1;
        redis_db = db;
        redis_prefix =
            (pick_string_default host file_values "PAI_TEST_REDIS_PREFIX" "itest"
              (after_db host file_values)).1;
        env_file = env_file;
        sources = (after_all host file_values);
      }

  load_values-loaded :
      (env_file : String) (env : Env)
      → load_values host file_values env_file ≡ done env
      → (db : ℤ) × ((pick_int_default host file_values "PAI_TEST_REDIS_DB"
            (pos 0)
            (after_passwords host file_values)).1
          ≡ done db)
        × (loaded env_file db ≡ env)
        × (db ≡ env.redis_db)
  unfolding load_values loaded
  load_values-loaded env_file env h =
      let (db, number, built) =
        >>=-eq-done
          (pick_int_default host file_values "PAI_TEST_REDIS_DB" (pos 0)
            (after_passwords host file_values)).1
          (λ db. done (loaded env_file db)) env h in
      let same : loaded env_file db ≡ env = cc built in
      (db, number, same, ap (λ v. v.redis_db) same)

  -- Every variable of an environment has the value and the source that its origin gives.
  abbrev pub AllSettled : Env → Type 0
  AllSettled env =
      IsSettled env "PAI_TEST_DATABASE_ADDR" env.database_addr
      × IsSettled env "PAI_TEST_DATABASE_USERNAME" env.database_username
      × IsSettled env "PAI_TEST_DATABASE_PASSWORD" env.database_password
      × IsSettled env "PAI_TEST_DATABASE_DBNAME" env.database_base_name
      × IsDefaulted env "PAI_TEST_DATABASE_CONFIG" default_database_config env.database_config
      × IsSettled env "PAI_TEST_REDIS_ADDR" env.redis_addr
      × IsSettled env "PAI_TEST_REDIS_PASSWORD" env.redis_password
      × IsDefaulted env "PAI_TEST_REDIS_PREFIX" "itest" env.redis_prefix

  loaded-AllSettled : (env_file : String) (db : ℤ) → AllSettled (loaded env_file db)
  unfolding loaded
  loaded-AllSettled env_file db =
      let (addr, username, password, base_name, config, redis_addr, redis_password, prefix) =
        sources_settled host file_values in
      (
        (pick_string-value host file_values "PAI_TEST_DATABASE_ADDR" _, addr),
        (pick_string-value host file_values "PAI_TEST_DATABASE_USERNAME" _, username),
        (pick_string-value host file_values "PAI_TEST_DATABASE_PASSWORD" _, password),
        (pick_string-value host file_values "PAI_TEST_DATABASE_DBNAME" _, base_name),
        (
          pick_string_default-value host file_values "PAI_TEST_DATABASE_CONFIG"
              default_database_config (after_strings host file_values)
              (config-fresh host file_values),
          config,
        ),
        (pick_string-value host file_values "PAI_TEST_REDIS_ADDR" _, redis_addr),
        (pick_string-value host file_values "PAI_TEST_REDIS_PASSWORD" _, redis_password),
        (
          pick_string_default-value host file_values "PAI_TEST_REDIS_PREFIX" "itest"
              (after_db host file_values) (redis_prefix-fresh host file_values),
          prefix,
        ),
      )

-- An environment that is loaded holds every variable from where it is set first: the process's
-- environment, the file, and the default, where there is one; it names that source, and the number
-- of Redis's database is read from the variable's text.
pub load-AllSettled :
    (host : Host) (repo_root : String) (env : Env)
    → load host repo_root ≡ done env
    → (file_values : Table String) × (read_dot_env host (join repo_root ".env.integration.local")
        ≡ done file_values)
      × AllSettled host file_values env
      × IsNumber (origin host file_values "PAI_TEST_REDIS_DB") (pos 0) env.redis_db
unfolding load
load-AllSettled host repo_root env h =
    go (read_dot_env host (join repo_root ".env.integration.local")) refl
  where
    go :
        (r : Checked (Table String))
        → read_dot_env host (join repo_root ".env.integration.local") ≡ r
        → (file_values : Table String) × (read_dot_env host
              (join repo_root ".env.integration.local")
            ≡ done file_values)
          × AllSettled host file_values env
          × IsNumber (origin host file_values "PAI_TEST_REDIS_DB") (pos 0) env.redis_db
    go (done values) e =
        let (db, number, same, same_db) =
          load_values-loaded host values (join repo_root ".env.integration.local") env
            (rw (e, load) at h) in
        (
          values,
          e,
          subst (AllSettled host values) same
              (loaded-AllSettled host values (join repo_root ".env.integration.local") db),
          subst (IsNumber (origin host values "PAI_TEST_REDIS_DB") (pos 0)) same_db
              (pick_int_default-IsNumber host values "PAI_TEST_REDIS_DB" (pos 0) db _ number),
        )
    go (failed f) e = absurd (cc (rw (e, load) at h))
