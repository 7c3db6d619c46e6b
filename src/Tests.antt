-- ===== src/Tests.antt =====
-- Concrete runs: the theorems at inputs that meet their conditions.
mod Codec
mod Cached
mod Config
mod Core
mod Http
mod Postgres
mod Graph
mod Router
mod Cmd
mod Api
mod Executor
mod Introspect
mod Lifecycle
