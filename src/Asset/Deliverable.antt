-- ===== src/Asset/Deliverable.antt =====
-- api/internal/asset/deliverable.go: what the delivery queue is told of an asset, which is how the
-- asset package fills the interface `Catalog` of the delivery package. A JSON column that does not
-- decode is `none`; `media_url` is the signed address of an image.
pub mod Offers
pub mod Claims
mod Examples
use lumi_hub.Asset.Table.{AssetRow, lifecycle_published}
use lumi_hub.Base.{
  Bool, List, Option, Result, String, [], any_of, err, false, find_first, if◌then◌else◌, keep, ltb,
  map, nat_eq, none, not, ok, some, string_eq, ℕ, ◌&&◌, ◌==◌, ◌>>=◌, ◌||◌, ◌∷◌,
}
use lumi_hub.Block.Content.{Uuid, is_nil, is_none}
use lumi_hub.Delivery.Service.{Catalog, CatalogError, Deliverable, Picture, broken, not_deliverable}
use lumi_hub.Delivery.Target.{Target}
use lumi_hub.Protected.{Vault, app_targets, stored_apps}

-- The columns of a row of `assets` that the statement reads.
pub record Shelved : Type 0 where
  pub row : AssetRow
  pub current_revision_id : Option Uuid
  pub cover_media_id : Option Uuid

-- A row of `asset_projections`
pub record Projection : Type 0 where
  pub asset_id : Uuid
  pub export : Option (List Target)

-- A row of `asset_media`
pub record Media : Type 0 where
  pub id : Uuid
  pub asset_id : Uuid
  pub role : String
  pub is_current : Bool
  pub blob_id : Option Uuid
  pub created_at : ℕ

pub record Shelf : Type 0 where
  pub assets : List Shelved
  pub projections : List Projection
  pub media : List Media
  pub vault : Vault

-- `where id = $1 and deleted_at is null and withheld_at is null and lifecycle = 'published'`
unfoldable pub is_sendable : Uuid → Shelved → Bool
is_sendable asset_id s =
    s.row.id == asset_id
    && is_none s.row.deleted_at
    && is_none s.row.withheld_at
    && s.row.lifecycle == lifecycle_published

-- `deliveryTargets`
unfoldable pub delivery_targets : Uuid → List Projection → Result CatalogError (List Target)
delivery_targets asset_id projections =
    elim (find_first (λ (p : Projection). p.asset_id == asset_id) projections) [
      | none ↦ ok []
      | some p ↦ elim p.export [ none ↦ err broken | some offered ↦ ok offered ]
    ]

-- `targetAllowed`
unfoldable pub target_allowed : List String → String → String → Bool
target_allowed apps kind target =
    any_of (λ (app : String). any_of (λ accepted. target == accepted) (app_targets kind app)) apps

-- The filter of `DeliverableAsset`, of a protected asset
unfoldable pub allowed_targets : List String → String → List Target → List Target
allowed_targets apps kind offered = keep (λ (t : Target). target_allowed apps kind t.format) offered

-- `where asset_id = $1 and is_current and blob_id is not null`
unfoldable pub is_shown : Uuid → Media → Bool
is_shown asset_id m = m.asset_id == asset_id && m.is_current && not (is_none m.blob_id)

-- `order by created_at desc, id desc`
unfoldable pub is_newer : Media → Media → Bool
is_newer m n = ltb n.created_at m.created_at || (n.created_at == m.created_at && ltb n.id m.id)

unfoldable pub insert_media : Media → List Media → List Media
insert_media m [] = m ∷ []
insert_media m (n ∷ ns) =
    let rest = insert_media m ns in if is_newer n m then n ∷ rest else m ∷ n ∷ ns

unfoldable pub newest_first : List Media → List Media
newest_first [] = []
newest_first (m ∷ ms) = insert_media m (newest_first ms)

module _ (media_url : Uuid → String) where
  unfoldable pub picture_of : Option Uuid → Media → Picture
  picture_of cover m = record {
    media_id = m.id;
    role = m.role;
    is_cover = elim cover [ none ↦ false | some c ↦ c == m.id ];
    url = media_url m.id;
  }

  -- `deliveryPictures`
  unfoldable pub delivery_pictures : Uuid → Option Uuid → List Media → List Picture
  delivery_pictures asset_id cover media =
      map (picture_of cover) (newest_first (keep (is_shown asset_id) media))

  -- `DeliverableAsset`, of the row that its statement found
  unfoldable pub deliverable_of : Shelf → Uuid → Shelved → List Target → Deliverable
  deliverable_of shelf asset_id s offered =
      let apps = stored_apps asset_id shelf.vault in
      record {
        kind = s.row.kind;
        name = s.row.name;
        content_generation = s.row.content_generation;
        targets = if is_nil apps then offered else allowed_targets apps s.row.kind offered;
        has_original = is_nil apps && not (is_none s.current_revision_id);
        pictures = delivery_pictures asset_id s.cover_media_id shelf.media;
      }

  -- `DeliverableAsset`
  unfoldable pub deliverable_asset : Shelf → Uuid → Result CatalogError Deliverable
  deliverable_asset shelf asset_id = elim (find_first (is_sendable asset_id) shelf.assets) [
    | none ↦ err not_deliverable
    | some s ↦ delivery_targets asset_id shelf.projections >>= λ (offered : List Target).
        ok (deliverable_of shelf asset_id s offered)
  ]

  -- `Catalog`, as the asset package fills it
  unfoldable pub shelf_catalog : (Uuid → String) → Shelf → Catalog
  shelf_catalog export_url shelf = record {
    deliverable = deliverable_asset shelf;
    export_url = export_url;
  }
