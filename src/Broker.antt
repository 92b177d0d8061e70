-- ===== src/Broker.antt =====
-- serdes-ai-a2a: tasks that wait for a worker, the states that a task passes through, the storage
-- that keeps them and the worker that runs them.
pub mod Task
pub mod Queue
pub mod Storage
pub mod Message
pub mod Worker
mod Examples
