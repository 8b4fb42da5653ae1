-- ===== src/Web.antt =====
-- internal/web/handlers: what the handlers of the API do with a request.
pub mod Upload
pub mod Serve
pub mod Format
pub mod Listing
