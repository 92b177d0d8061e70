-- ===== src/Graphs.antt =====
-- serdes-ai-graph: graphs of nodes that pass a state on, their validation and their runs.
pub mod Graph
pub mod Validate
pub mod Run
pub mod Simple
mod Examples
