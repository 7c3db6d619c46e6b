-- ===== src/Core.antt =====
-- internal/core: users, the repository and service interfaces, the service, the in-memory
-- repository, the caching service.
pub mod User
pub mod Service
pub mod Memory
pub mod Cached
