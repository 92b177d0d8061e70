-- ===== src/Retries.antt =====
-- The crate serdes-ai-retries: errors, wait strategies and the retry loops. Times and durations are
-- natural numbers of one unit; `Duration` has no negative values, and its overflow (after some
-- 10 ^ 11 years) is not modelled. The transport module (an HTTP client) is left out.
pub mod Error
pub mod Floats
pub mod Wait
pub mod Backoff
pub mod Condition
pub mod Policy
pub mod Config
pub mod Examples
