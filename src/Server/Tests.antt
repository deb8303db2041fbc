-- ===== src/Server/Tests.antt =====
-- A server whose framework has registered the health service already, and one without services.
use platform_mihomo_service.Base.{ℕ, true, Option, none, some, [], ◌∷◌, ◌≡◌, refl, arith, eq_iff}
use platform_mihomo_service.Server.{ServiceNames, Registrar, new_grpc_server}
use platform_mihomo_service.Server.Registered.{count, once, new_grpc_server-count}

abbrev names : ServiceNames
names = record {
  health = "grpc.health.v1.Health";
  account = "mihomo.v1.MihomoAccountService";
  credential = "mihomo.v1.MihomoCredentialService";
  platform = "platform.v1.PlatformService";
}

abbrev framework : Registrar
framework = record { provides_info = true; services = names.health ∷ [] }

abbrev present : Option ℕ
present = some 1

abbrev absent : Option ℕ
absent = none

abbrev complete : Registrar
complete = new_grpc_server names framework present absent present

complete_once :
    (count names.health complete.services ≡ 1)
    × (count names.account complete.services ≡ once present)
    × (count names.credential complete.services ≡ once absent)
    × (count names.platform complete.services ≡ once present)
complete_once =
    new_grpc_server-count names framework present absent present
      (
        ground (arith, eq_iff names.health names.account),
        ground (arith, eq_iff names.health names.credential),
        ground (arith, eq_iff names.health names.platform),
        ground (arith, eq_iff names.account names.credential),
        ground (arith, eq_iff names.account names.platform),
        ground (arith, eq_iff names.credential names.platform),
      )
      refl (omega arith) refl refl refl
