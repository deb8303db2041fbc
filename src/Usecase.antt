-- ===== src/Usecase.antt =====
-- internal/usecase: what the service does, over the repository interfaces of internal/biz. One
-- module for each use case, and the calls that they share.
pub mod Keeps
pub mod Calls
pub mod ProfileUsecase
pub mod BindUsecase
pub mod StatusUsecase
pub mod AuthkeyUsecase
pub mod ManagementUsecase
mod Tests
