-- ===== src/Block.antt =====
-- The content model of an asset: api/internal/block. Elements carry semantic roles and content,
-- blocks only arrange them, and a catalog says which blocks each kind of asset has.
pub mod Vocab
pub mod Layout
pub mod Content
pub mod Catalog
pub mod Placement
pub mod Tray
pub mod Structure
pub mod Consistency
pub mod Builder
pub mod Floor
pub mod Facets
mod Examples
