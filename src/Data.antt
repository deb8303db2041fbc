-- ===== src/Data.antt =====
-- internal/data: the repositories over the database and the cache, one module each.
mod Query
pub mod CredentialRepo
pub mod DeviceRepo
pub mod ProfileRepo
pub mod ArtifactCache
pub mod ArtifactRepo
pub mod Keeps
pub mod ManagementRepo
mod Tests
pub mod GrantInvalidationRepo
