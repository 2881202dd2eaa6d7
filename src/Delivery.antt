-- ===== src/Delivery.antt =====
-- The delivery queue of linked instances: api/internal/delivery and the statements of
-- api/internal/db/queries.sql that it runs.
pub mod Target
pub mod Waiting
pub mod Table
pub mod Service
pub mod Collect
mod Examples
