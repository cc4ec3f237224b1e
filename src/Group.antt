-- ===== src/Group.antt =====
-- Persistent groups (group_dcom.go) and the batched operations on their items (batch.go, remove.go).
pub mod Batches
pub mod State
pub mod Add
pub mod Read
pub mod Write
pub mod Remove
mod Examples
