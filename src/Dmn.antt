-- ===== src/Dmn.antt =====
-- The DMN parser.
pub mod Model
pub mod Texts
pub mod Scalars
pub mod Leaves
pub mod Tables
pub mod Expressions
pub mod Decisions
pub mod Document
mod Tests
