-- ===== src/Graphql.antt =====
-- The GraphQL queries of the client.
pub mod Names
pub mod Values
pub mod Selection
pub mod Query
pub mod Responses
mod Tests
