-- ===== src/Http.antt =====
-- internal/apierror and internal/http: the API server's responses and handlers.
pub mod ApiError
pub mod Queued
pub mod Validation
pub mod Provision
pub mod Deploy
pub mod Jobs
pub mod Proxy
pub mod Ready
