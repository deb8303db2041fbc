-- ===== src/IntegrationEnv/Settings/Sources.antt =====
-- The map of sources that Load of internal/testutil/integrationenv/env.go builds, variable by
-- variable.
use platform_mihomo_service.Base.Int.{pos}
use platform_mihomo_service.Base.{
  String, Option, none, some, false, ◌==◌, if◌then◌else◌, ◌≡◌, refl, ap, ◌∙◌, List,
}
use platform_mihomo_service.IntegrationEnv.Defs.{Source, default_value, Table, get, Host}
use platform_mihomo_service.IntegrationEnv.Settings.{
  default_database_config, pick_string, pick_string_default, pick_int_default,
}
use platform_mihomo_service.IntegrationEnv.Settings.Resolved.{
  origin, source_of, pick_string-source, pick_string_default-source, pick_int_default-source,
}

module _ (host : Host) (file_values : Table String) where
  -- The sources after the fourth, the fifth, the eighth and the ninth variable.
  abbrev pub after_strings : Table Source
  after_strings =
      let s1 = (pick_string host file_values "PAI_TEST_DATABASE_ADDR" List.[]).0 in
      let s2 = (pick_string host file_values "PAI_TEST_DATABASE_USERNAME" s1).0 in
      let s3 = (pick_string host file_values "PAI_TEST_DATABASE_PASSWORD" s2).0 in
      (pick_string host file_values "PAI_TEST_DATABASE_DBNAME" s3).0

  unfoldable pub after_config : Table Source
  after_config =
      (pick_string_default host file_values "PAI_TEST_DATABASE_CONFIG" default_database_config
        after_strings).0

  unfoldable pub after_passwords : Table Source
  unfolding after_config
  after_passwords =
      let s6 = (pick_string host file_values "PAI_TEST_REDIS_ADDR" after_config).0 in
      (pick_string host file_values "PAI_TEST_REDIS_PASSWORD" s6).0

  unfoldable pub after_db : Table Source
  unfolding after_passwords
  after_db = (pick_int_default host file_values "PAI_TEST_REDIS_DB" (pos 0) after_passwords).0

  unfoldable pub after_all : Table Source
  unfolding after_db
  after_all = (pick_string_default host file_values "PAI_TEST_REDIS_PREFIX" "itest" after_db).0

  pub config-fresh : get "PAI_TEST_DATABASE_CONFIG" after_strings ≡ none
  config-fresh = simp (pick_string-source host file_values)

  get-after_config :
      (j : String)
      → get j after_config ≡ (
          if "PAI_TEST_DATABASE_CONFIG" == j
          then source_of (origin host file_values "PAI_TEST_DATABASE_CONFIG") (some default_value)
          else get j after_strings)
  unfolding after_config
  get-after_config j =
      pick_string_default-source host file_values "PAI_TEST_DATABASE_CONFIG" default_database_config
        j after_strings config-fresh

  get-after_passwords :
      (j : String)
      → get j after_passwords ≡ (
          let other =
            if "PAI_TEST_REDIS_ADDR" == j
            then source_of (origin host file_values "PAI_TEST_REDIS_ADDR") (get j after_config)
            else get j after_config in
          if "PAI_TEST_REDIS_PASSWORD" == j
          then source_of (origin host file_values "PAI_TEST_REDIS_PASSWORD") other
          else other)
  unfolding after_passwords
  get-after_passwords j =
      pick_string-source host file_values "PAI_TEST_REDIS_PASSWORD" j
        (pick_string host file_values "PAI_TEST_REDIS_ADDR" after_config).0
      ∙ ap
          (λ o.
            if "PAI_TEST_REDIS_PASSWORD" == j
            then source_of (origin host file_values "PAI_TEST_REDIS_PASSWORD") o
            else o)
          (pick_string-source host file_values "PAI_TEST_REDIS_ADDR" j after_config)

  get-after_db :
      (j : String)
      → get j after_db ≡ (
          if "PAI_TEST_REDIS_DB" == j
          then source_of (origin host file_values "PAI_TEST_REDIS_DB") (some default_value)
          else get j after_passwords)
  unfolding after_db
  get-after_db j =
      pick_int_default-source host file_values "PAI_TEST_REDIS_DB" j (pos 0) after_passwords

  pub redis_prefix-fresh : get "PAI_TEST_REDIS_PREFIX" after_db ≡ none
  redis_prefix-fresh =
      simp
        (get-after_db, get-after_passwords, get-after_config, pick_string-source host file_values)

  get-after_all :
      (j : String)
      → get j after_all ≡ (
          if "PAI_TEST_REDIS_PREFIX" == j
          then source_of (origin host file_values "PAI_TEST_REDIS_PREFIX") (some default_value)
          else get j after_db)
  unfolding after_all
  get-after_all j =
      pick_string_default-source host file_values "PAI_TEST_REDIS_PREFIX" "itest" j after_db
        redis_prefix-fresh

  abbrev pub HasSource : String → Option Source → Type 0
  HasSource key other = get key after_all ≡ source_of (origin host file_values key) other

  source_after_all :
      (key : String)
      → ("PAI_TEST_REDIS_PREFIX" == key) ≡ false
      → ("PAI_TEST_REDIS_DB" == key) ≡ false
      → get key after_all ≡ get key after_passwords
  source_after_all key h k = rw (get-after_all key, h, get-after_db key, k) refl

  source_after_config :
      (key : String)
      → ("PAI_TEST_REDIS_PREFIX" == key) ≡ false
      → ("PAI_TEST_REDIS_DB" == key) ≡ false
      → ("PAI_TEST_REDIS_PASSWORD" == key) ≡ false
      → ("PAI_TEST_REDIS_ADDR" == key) ≡ false
      → ("PAI_TEST_DATABASE_CONFIG" == key) ≡ false
      → get key after_all ≡ get key after_strings
  source_after_config key h k l m n =
      source_after_all key h k ∙ rw (get-after_passwords key, l, m, get-after_config key, n) refl

  pub sources_settled :
      HasSource "PAI_TEST_DATABASE_ADDR" none
      × HasSource "PAI_TEST_DATABASE_USERNAME" none
      × HasSource "PAI_TEST_DATABASE_PASSWORD" none
      × HasSource "PAI_TEST_DATABASE_DBNAME" none
      × HasSource "PAI_TEST_DATABASE_CONFIG" (some default_value)
      × HasSource "PAI_TEST_REDIS_ADDR" none
      × HasSource "PAI_TEST_REDIS_PASSWORD" none
      × HasSource "PAI_TEST_REDIS_PREFIX" (some default_value)
  sources_settled = (
    source_after_config "PAI_TEST_DATABASE_ADDR" refl refl refl refl refl
        ∙ simp (pick_string-source host file_values),
    source_after_config "PAI_TEST_DATABASE_USERNAME" refl refl refl refl refl
        ∙ simp (pick_string-source host file_values),
    source_after_config "PAI_TEST_DATABASE_PASSWORD" refl refl refl refl refl
        ∙ simp (pick_string-source host file_values),
    source_after_config "PAI_TEST_DATABASE_DBNAME" refl refl refl refl refl
        ∙ simp (pick_string-source host file_values),
    source_after_all "PAI_TEST_DATABASE_CONFIG" refl refl
        ∙ simp (get-after_passwords, get-after_config),
    source_after_all "PAI_TEST_REDIS_ADDR" refl refl
        ∙ simp (get-after_passwords, get-after_config, pick_string-source host file_values),
    source_after_all "PAI_TEST_REDIS_PASSWORD" refl refl
        ∙ simp (get-after_passwords, get-after_config, pick_string-source host file_values),
    simp get-after_all,
  )
