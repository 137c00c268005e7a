-- ===== src/Bpmn.antt =====
-- The BPMN parser.
pub mod Scalars
pub mod Model
pub mod Elements
pub mod Events
pub mod Leaves
pub mod Linking
pub mod Build
pub mod Collect
pub mod Formed
pub mod FlowNodes
pub mod Processes
pub mod Doctype
pub mod Document
mod Tests
