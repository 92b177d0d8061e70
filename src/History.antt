-- ===== src/History.antt =====
-- serdes-ai-agent: the processors that shorten a message history before a model is called.
pub mod Message
pub mod Pairs
pub mod Truncate
pub mod Filter
mod Examples
