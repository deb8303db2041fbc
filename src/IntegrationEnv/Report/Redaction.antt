-- ===== src/IntegrationEnv/Report/Redaction.antt =====
-- That Summary of internal/testutil/integrationenv/env.go shows no password.
use platform_mihomo_service.Base.{String, Bool, ◌==◌, ◌≡◌, refl}
use platform_mihomo_service.IntegrationEnv.Settings.{Env}
use platform_mihomo_service.IntegrationEnv.Report.{redact_secret, summary}

-- The environment with other passwords.
abbrev pub with_passwords : Env → String → String → Env
with_passwords e database redis = record e { database_password = database; redis_password = redis }

redact_secret-agrees : (p q : String) → (p == "") ≡ (q == "") → redact_secret p ≡ redact_secret q
unfolding redact_secret
redact_secret-agrees p q h = rw h refl

-- Two environments that differ in their passwords have the same summary, if the same passwords are
-- empty in both.
pub summary-with_passwords :
    (e : Env) (database redis database_name redis_prefix gowork : String) (require_redis : Bool)
    → (e.database_password == "") ≡ (database == "")
    → (e.redis_password == "") ≡ (redis == "")
    → summary (with_passwords e database redis) database_name redis_prefix gowork require_redis
      ≡ summary e database_name redis_prefix gowork require_redis
unfolding summary
summary-with_passwords e database redis database_name redis_prefix gowork require_redis h k =
    rw
      (
        redact_secret-agrees e.database_password database h,
        redact_secret-agrees e.redis_password redis k,
      )
      refl
