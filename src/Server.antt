-- ===== src/Server.antt =====
-- internal/server/grpc.go: which services the gRPC server has. The server of the framework is the
-- names that are registered with it.
pub mod Registered
mod Tests
use platform_mihomo_service.Base.{
  ℕ, String, Bool, true, false, Option, none, some, List, [], ◌∷◌, ◌++◌, any, ◌==◌, if◌then◌else◌,
}

-- The service descriptors' names, which are the framework's and generated.
pub record ServiceNames : Type 0 where
  pub health : String
  pub account : String
  pub credential : String
  pub platform : String

-- A `grpc.ServiceRegistrar`, told apart by whether it is a `serviceInfoProvider`, with the names of
-- the services that are registered.
pub record Registrar : Type 0 where
  pub provides_info : Bool
  pub services : List String

abbrev pub register : String → Registrar → Registrar
register name r = record r { services = r.services ++ (name ∷ []) }

abbrev pub has_service : String → Registrar → Bool
has_service name r = any (λ s. s == name) r.services

-- A test of `GetServiceInfo`, which only a provider has.
unfoldable pub register_health_server : ServiceNames → Registrar → Registrar
register_health_server names r =
    if r.provides_info
    then (if has_service names.health r then r else register names.health r)
    else register names.health r

abbrev pub register_if : {A : Type 0} → Option A → String → Registrar → Registrar
register_if none name r = r
register_if (some svc) name r = register name r

-- What `NewGRPCServer` makes of the server that the framework gives it, with three services that
-- may be nil.
unfoldable pub new_grpc_server :
    {A B C : Type 0} → ServiceNames → Registrar → Option A → Option B → Option C → Registrar
unfolding register_health_server
new_grpc_server names server mihomo_svc shared_svc generic_svc =
    register_if generic_svc names.platform (
      register_if shared_svc names.credential
        (register_if mihomo_svc names.account (register_health_server names server)))
