-- ===== src/Middleware.antt =====
-- internal/middleware: one module for each file.
pub mod KeySet
pub mod ApiKey
pub mod Cors
pub mod Etag
pub mod Wrappers
