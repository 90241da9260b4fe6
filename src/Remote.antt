-- ===== src/Remote.antt =====
-- internal/remote: the network leg.
pub mod Resolve
pub mod Receiver
pub mod Keeps
pub mod Calls
pub mod Confined
pub mod Verified
pub mod Link
pub mod Connect
pub mod Sender
pub mod Baseline
pub mod Batch
pub mod Pass
pub mod Gated
pub mod Ordered
pub mod Whole
