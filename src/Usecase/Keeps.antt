-- ===== src/Usecase/Keeps.antt =====
-- What the use cases of internal/usecase keep of the state, from what their repositories keep.
pub mod Reads
pub mod Writes
use platform_mihomo_service.Base.{ℕ, String, Option, none, some, List}
use platform_mihomo_service.Outcome.{Result, ok, M}
use platform_mihomo_service.Outcome.Keeps.{Keeps}
use platform_mihomo_service.Biz.{
  Credential, Device, Profile, ProfileIdentity, Artifact, DiscoveredProfile,
}
use platform_mihomo_service.Biz.Repositories.{Reply, answer, failure, Ports, ArtifactRepository}
use platform_mihomo_service.Usecase.Calls.{ask, clock, run_in_transaction}
use platform_mihomo_service.Usecase.BindUsecase.{delete_artifacts}
use platform_mihomo_service.Usecase.StatusUsecase.{probe}

module _ {S : Type 0} (P : S → Type 0) (p : Ports S) where
  -- The calls that read.
  pub record ReadsKeep : Type 0 where
    pub credential_of_binding : (b : ℕ) → Keeps P (p.credentials.get_by_binding_id b)
    pub credential_of_account : (k : String) → Keeps P (p.credentials.get_by_platform_account_id k)
    pub devices_of_binding : (b : ℕ) → Keeps P (p.devices.list_by_binding_id b)
    pub devices_of_account : (k : String) → Keeps P (p.devices.list_by_platform_account_id k)
    pub profiles_of_binding : (b : ℕ) → Keeps P (p.profiles.list_by_binding_id b)
    pub profiles_of_account : (k : String) → Keeps P (p.profiles.list_by_platform_account_id k)

  -- All calls that the handlers make.
  pub record PortsKeep (artifacts : ArtifactRepository S) : Type 1 where
    pub reads : ReadsKeep
    pub save_credential : (c : Credential) → Keeps P (p.credentials.save c)
    pub delete_credential : (k : String) → Keeps P (p.credentials.delete_by_platform_account_id k)
    pub save_device : (d : Device) → Keeps P (p.devices.save d)
    pub delete_devices : (k : String) → Keeps P (p.devices.delete_by_platform_account_id k)
    pub save_profile : (q : Profile) → Keeps P (p.profiles.save q)
    pub set_default :
        (b : ℕ) (k player : String)
        → Keeps P (p.profiles.set_default_by_binding_and_player_id b k player)
    pub delete_missing :
        (b : ℕ) (kept : List ProfileIdentity)
        → Keeps P (p.profiles.delete_missing_by_binding_id b kept)
    pub delete_profiles : (k : String) → Keeps P (p.profiles.delete_by_platform_account_id k)
    pub delete_graph : (b : ℕ) → Keeps P (p.management.delete_credential_graph_by_binding_id b)
    pub delete_artifacts_of : (b : ℕ) → Keeps P (delete_artifacts p b)
    pub get_artifact : (b : ℕ) (t k : String) → Keeps P (artifacts.get_by_binding_id b t k)
    pub put_artifact : (a : Artifact) → Keeps P (artifacts.put a)
    pub transaction : {A : Type 0} (m : M S A) → Keeps P m → Keeps P (run_in_transaction p A m)
    pub discover :
        (cookie region : String) (s : S)
        → P s
        → P (p.client.validate_and_discover cookie region s).1
    pub issue :
        (cookie player : String) (s : S) → P s → P (p.client.issue_auth_key cookie player s).1
    pub encrypt : (t : String) → Keeps P (p.cipher.encrypt_string t)
    pub read_clock : (s : S) → P s → P (p.now s).1

pub Keeps-clock :
    {S : Type 0} {P : S → Type 0} (p : Ports S)
    → ((s : S) → P s → P (p.now s).1)
    → Keeps P (clock p)
Keeps-clock p k = record { at = k }

pub Keeps-ask :
    {S A : Type 0} {P : S → Type 0} (call : S → Reply A × S)
    → ((s : S) → P s → P (call s).1)
    → Keeps P (ask call)
Keeps-ask call k = record { at = k }

pub Keeps-probe :
    {S : Type 0} {P : S → Type 0} (p : Ports S) (c : Credential) (cookie : String)
    → ((s : S) → P s → P (p.client.validate_and_discover cookie c.region s).1)
    → Keeps P (probe p c cookie)
unfolding probe
Keeps-probe {S} {P} p c cookie k = record {
  at = λ s h. go (p.client.validate_and_discover cookie c.region s) (k s h);
}
  where
    go :
        (x : Reply (String × String × List DiscoveredProfile) × S)
        → P x.1
        → let y : Result (Option String) × S = elim x.0 [
          | answer _ ↦ (ok none, x.1)
          | failure message ↦ (ok (some message), x.1)
        ] in
          P y.1
    go (answer a, t) h = h
    go (failure m, t) h = h
