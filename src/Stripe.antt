-- ===== src/Stripe.antt =====
-- Stripes over nodes: crates/shardvault-core/src/stripe.rs.
pub mod Shard
pub mod Stripes
pub mod Files
pub mod Written
pub mod Places
pub mod Join
pub mod Cut
pub mod Damage
pub mod Losses
pub mod RoundTrip
mod Tests
