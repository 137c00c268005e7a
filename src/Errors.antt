-- ===== src/Errors.antt =====
-- The errors of packages/js/sdk/src/errors and how packages/js/client/src/errors/error-mapper.ts makes
-- one of a response.
pub mod Types
pub mod Plain
pub mod Detailed
pub mod Coercions
pub mod Codes
pub mod Mapper
mod Tests
