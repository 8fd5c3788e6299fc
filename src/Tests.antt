-- ===== src/Tests.antt =====
-- Runs of the definitions on inputs that can be followed in the source, and the theorems at concrete
-- inputs that meet their hypotheses.
mod Codec
mod Ids
mod Filters
mod Caches
pub mod Outboxes
pub mod Redirects
pub mod Writes
pub mod Creations
mod Reads
mod Limits
mod Rebuilds
mod Queues
mod Configs
mod Apis
mod Stores
mod Startups
pub mod Deliveries
pub mod Worlds
mod Systems
mod Drainings
