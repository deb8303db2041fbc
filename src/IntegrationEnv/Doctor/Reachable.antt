-- ===== src/IntegrationEnv/Doctor/Reachable.antt =====
-- What a report of cmd/integration-doctor/main.go says of the services that it names.
use platform_mihomo_service.Base.{
  String, Option, none, some, true, false, ◌==◌, ◌≡◌, refl, ap, Bool-cases, List, arith, inl, inr,
  ◌⊎◌, eq_iff,
}
use platform_mihomo_service.IntegrationEnv.Defs.{Checked, done, failed, Host, >>=-eq-done}
use platform_mihomo_service.IntegrationEnv.Text.{trim_space}
use platform_mihomo_service.IntegrationEnv.Names.{Entropy}
use platform_mihomo_service.IntegrationEnv.Settings.{Env, load}
use platform_mihomo_service.IntegrationEnv.RepoRoot.{find_repo_root}
use platform_mihomo_service.IntegrationEnv.Doctor.{
  is_blank, mysql_dsn, check_mysql, check_redis, examine, examine_repository, report, main,
}

-- The variables of the database are there, and the driver reaches it.
abbrev pub ReachesMySql : Host → Env → Type 0
ReachesMySql host e =
    (is_blank e.database_addr ≡ false)
    × (is_blank e.database_username ≡ false)
    × (is_blank e.database_base_name ≡ false)
    × (host.opens_mysql (mysql_dsn e "") ≡ true)
    × (host.pings_mysql (mysql_dsn e "") ≡ true)

-- Redis has no address, or answers there.
abbrev pub ReachesRedis : Host → Env → Type 0
ReachesRedis host e =
    (is_blank e.redis_addr ≡ true)
    ⊎ (host.pings_redis e.redis_addr e.redis_password e.redis_db ≡ true)

check_mysql-ReachesMySql :
    (host : Host) (e : Env) → check_mysql host e ≡ done tt → ReachesMySql host e
unfolding check_mysql
check_mysql-ReachesMySql host e h = ground arith

check_redis-ReachesRedis :
    (host : Host) (e : Env) → check_redis host e false ≡ done tt → ReachesRedis host e
unfolding check_redis
check_redis-ReachesRedis host e h = ground arith

is_blank_of_empty : (s : String) → (s == "") ≡ true → is_blank s ≡ true
unfolding trim_space
is_blank_of_empty s h = ap is_blank ((eq_iff s "").0 h)

examine-Reaches :
    (host : Host) (e : Env) → examine host e ≡ done tt → ReachesMySql host e × ReachesRedis host e
unfolding examine
examine-Reaches host e h =
    let (_, mysql, redis) = >>=-eq-done (check_mysql host e) _ tt h in
    (
      check_mysql-ReachesMySql host e mysql,
      elim (Bool-cases (e.redis_addr == "")) [
        | inl empty ↦ inl (is_blank_of_empty e.redis_addr empty)
        | inr more ↦ check_redis-ReachesRedis host e (rw more at redis)
      ],
    )

-- What the tool found before it printed the lines.
abbrev pub Found : Host → Entropy → Entropy → String → List String → Type 0
Found host for_database for_redis gowork lines =
    (wd : String) × (root : String) × (e : Env) × (host.getwd ≡ some wd)
    × (find_repo_root host wd ≡ some (done root))
    × (load host root ≡ done e)
    × ReachesMySql host e
    × ReachesRedis host e
    × (lines ≡ report for_database for_redis gowork e)

examine_repository-Found :
    (host : Host) (for_database for_redis : Entropy) (gowork root : String) (lines : List String)
    → examine_repository host for_database for_redis gowork root ≡ done lines
    → (e : Env) × (load host root ≡ done e)
      × ReachesMySql host e
      × ReachesRedis host e
      × (lines ≡ report for_database for_redis gowork e)
unfolding examine_repository
examine_repository-Found host for_database for_redis gowork root lines h =
    let (e, loaded, rest) = >>=-eq-done (load host root) _ lines h in
    let (_, examined, printed) = >>=-eq-done (examine host e) _ lines rest in
    let (mysql, redis) = examine-Reaches host e examined in (e, loaded, mysql, redis, cc printed)

-- The tool prints its report only where the environment of the repository's root was read, MySQL
-- was reached, and Redis too, if it has an address.
pub main-Found :
    (host : Host) (for_database for_redis : Entropy) (gowork : String) (lines : List String)
    → main host for_database for_redis gowork ≡ some (done lines)
    → Found host for_database for_redis gowork lines
unfolding main
main-Found host for_database for_redis gowork lines h = go host.getwd refl
  where
    searched :
        (wd : String)
        → host.getwd ≡ some wd
        → (r : Option (Checked String)) → find_repo_root host wd ≡ r
        → Found host for_database for_redis gowork lines
    searched wd e none k = absurd (cc (rw (e, k, main) at h))
    searched wd e (some (failed f)) k = absurd (cc (rw (e, k, main) at h))
    searched wd e (some (done root)) k =
        let printed : examine_repository host for_database for_redis gowork root ≡ done lines =
          cc (rw (e, k, main) at h) in
        let (env, loaded, mysql, redis, shown) =
          examine_repository-Found host for_database for_redis gowork root lines printed in
        (wd, root, env, e, k, loaded, mysql, redis, shown)

    go : (o : Option String) → host.getwd ≡ o → Found host for_database for_redis gowork lines
    go none e = absurd (cc (rw (e, main) at h))
    go (some wd) e = searched wd e (find_repo_root host wd) refl
