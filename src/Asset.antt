-- ===== src/Asset.antt =====
-- The assets of api/internal/asset: what their owners and the administrators do to them.
pub mod Table
pub mod Lifecycle
pub mod Deliverable
mod Examples
