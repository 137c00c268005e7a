-- ===== src/Http.antt =====
-- The HTTP transport of packages/js/client/src/http/transport.ts.
pub mod Transport
mod Tests
