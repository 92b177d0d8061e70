-- ===== src/Models.antt =====
-- serdes-ai-models/src: the errors of model calls, and the two models that wrap others, `FallbackModel`
-- and `RetryingModel`. The classification of failures is in serdes-ai-core/src/errors.rs.
pub mod Failure
pub mod Error
pub mod Fallback
pub mod Retrying
mod Examples
