-- ===== src/Agent.antt =====
-- serdes-ai-agent: the run of an agent.
pub mod Types
pub mod Limits
pub mod State
pub mod Tools
pub mod Response
pub mod Run
mod Examples
