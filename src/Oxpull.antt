-- ===== src/Oxpull.antt =====
-- src/oxpull: what the package adds to the worker and to the table. Gate is the bound that its rate
-- limits and its concurrency limits share.
pub mod Gate
pub mod RateLimits
pub mod Concurrency
pub mod Batches
pub mod Filter
pub mod Workflows
pub mod Unique
