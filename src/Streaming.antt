-- ===== src/Streaming.antt =====
-- serdes-ai-streaming: the parts manager, which turns the deltas of a provider into parts and events.
pub mod Text
pub mod Part
pub mod Manager
pub mod Handlers
pub mod Tags
pub mod View
pub mod Valid
pub mod Correct
pub mod Session
pub mod Args
mod Examples
