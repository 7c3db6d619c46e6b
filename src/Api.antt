-- ===== src/Api.antt =====
-- internal/errs, internal/http/render, internal/http/handlers.
pub mod Render
pub mod Users
