-- ===== src/Tools.antt =====
-- serdes-ai-toolsets: collections of tools, and the ones that wrap and combine others.
pub mod Toolset
pub mod Prefixed
pub mod Combined
pub mod Guarded
mod Examples
