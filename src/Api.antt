-- ===== src/Api.antt =====
-- app/api: the bodies of requests and responses, and the routes.
pub mod Schemas
pub mod Accepted
pub mod Routes
