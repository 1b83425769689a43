-- ===== src/NodeCache.antt =====
-- The node cache: images/controller/internal/nodecache.
pub mod Plan
pub mod Desired
pub mod Keep
mod Examples
