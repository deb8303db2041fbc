-- ===== src/Service.antt =====
-- internal/service: the gRPC handlers over the use cases, and what they share: the state of a
-- server, the mapping of errors to statuses, and the mapping of results to messages
-- (internal/service/mihomo_account.go, internal/service/binding_mapper.go).
pub mod Mapper
pub mod SharedMessages
pub mod GenericMessages
pub mod GenericSummary
pub mod Permits
pub mod Keeps
pub mod Authorisation
pub mod AccountService
pub mod CredentialService
pub mod PlatformService
pub mod Requests
pub mod Description
pub mod Summaries
mod Tests
