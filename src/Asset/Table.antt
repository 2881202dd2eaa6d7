-- ===== src/Asset/Table.antt =====
-- The table `assets` as api/internal/asset reads and writes it: the statements of the package, and
-- those of api/internal/db/queries.sql.go that it calls. `now` is the clock that a statement is given.
use lumi_hub.Base.{
  Bool, List, Option, String, false, if◌then◌else◌, ltb, map, nat_eq, none, not, some, string_eq, ℕ,
  ◌&&◌, ◌+◌, ◌==◌,
}
use lumi_hub.Block.Content.{Block, Uuid, is_none}

-- The columns that decide what may be done to an asset.
pub record AssetRow : Type 0 where
  pub id : Uuid
  pub owner_id : Uuid
  pub kind : String
  pub name : String
  pub is_nsfw : Option Bool
  pub lifecycle : String
  pub discovery : String
  pub content_generation : ℕ
  pub withheld_at : Option ℕ
  pub withheld_by : Option Uuid
  pub withheld_reason : Option String
  pub deleted_at : Option ℕ
  pub recoverable_until : Option ℕ

abbrev pub lifecycle_draft : String
lifecycle_draft = "draft"

abbrev pub lifecycle_published : String
lifecycle_published = "published"

abbrev pub discovery_listed : String
discovery_listed = "listed"

abbrev pub discovery_unlisted : String
discovery_unlisted = "unlisted"

-- `where id = $1 and owner_id = $2`
unfoldable pub is_of : Uuid → Uuid → AssetRow → Bool
is_of owner id r = r.id == id && r.owner_id == owner

-- The rows that the package locks for a change: `... and deleted_at is null`.
unfoldable pub is_standing : Uuid → Uuid → AssetRow → Bool
unfolding is_of
is_standing owner id r = is_of owner id r && is_none r.deleted_at

-- The update of `Publish`
unfoldable pub publish_row : Uuid → AssetRow → AssetRow
publish_row id r = if r.id == id then record r { lifecycle = lifecycle_published } else r

-- The updates of `SetIdentity` and of `moveContentGeneration`
unfoldable pub identity_row : Uuid → String → Option Bool → ℕ → AssetRow → AssetRow
identity_row id name is_nsfw moved r =
    if r.id == id
    then record r {
      name = name;
      is_nsfw = is_nsfw;
      content_generation = r.content_generation + moved;
    }
    else r

-- The update of `moveContentGeneration` alone, where it is made
unfoldable pub moved_row : Uuid → Bool → AssetRow → AssetRow
moved_row id moved r =
    if r.id == id
    then record r { content_generation = r.content_generation + (if moved then 1 else 0) }
    else r

-- `SetAssetDiscovery`
unfoldable pub is_discoverable : Uuid → Uuid → AssetRow → Bool
unfolding is_of
is_discoverable owner id r =
    is_of owner id r
    && (r.lifecycle == lifecycle_published && (is_none r.withheld_at && is_none r.deleted_at))

unfoldable pub discovery_row : Uuid → Uuid → String → AssetRow → AssetRow
discovery_row owner id discovery r =
    if is_discoverable owner id r then record r { discovery = discovery } else r

-- `SoftDeleteAsset`
unfoldable pub is_deletable : Uuid → Uuid → AssetRow → Bool
unfolding is_of
is_deletable owner id r = is_of owner id r && (is_none r.withheld_at && is_none r.deleted_at)

unfoldable pub delete_row : Uuid → Uuid → ℕ → ℕ → AssetRow → AssetRow
delete_row owner id now until r =
    if is_deletable owner id r
    then record r { deleted_at = some now; recoverable_until = some until }
    else r

-- `RestoreAsset`
unfoldable pub is_restorable : Uuid → Uuid → ℕ → AssetRow → Bool
unfolding is_of
is_restorable owner id now r =
    is_of owner id r
    && (not (is_none r.deleted_at)
        && (elim r.recoverable_until [ none ↦ false | some until ↦ ltb now until ]))

unfoldable pub restore_row : Uuid → Uuid → ℕ → AssetRow → AssetRow
restore_row owner id now r =
    if is_restorable owner id now r
    then record r { deleted_at = none; recoverable_until = none }
    else r

-- `WithholdAsset`
unfoldable pub is_withholdable : Uuid → AssetRow → Bool
is_withholdable id r =
    r.id == id
    && (r.lifecycle == lifecycle_published && (is_none r.withheld_at && is_none r.deleted_at))

unfoldable pub withhold_row : Uuid → Uuid → String → ℕ → AssetRow → AssetRow
withhold_row id actor reason now r =
    if is_withholdable id r
    then record r {
      withheld_at = some now;
      withheld_by = some actor;
      withheld_reason = some reason;
    }
    else r

-- `ClearAssetWithhold`
unfoldable pub is_clearable : Uuid → AssetRow → Bool
is_clearable id r = r.id == id && (not (is_none r.withheld_at) && is_none r.deleted_at)

unfoldable pub clear_row : Uuid → AssetRow → AssetRow
clear_row id r =
    if is_clearable id r
    then record r { withheld_at = none; withheld_by = none; withheld_reason = none }
    else r

-- The package's tables: the assets, and the page of each.
pub record Library : Type 0 where
  pub assets : List AssetRow
  pub pages : Uuid → List Block

-- The update of every row, and of nothing else.
unfoldable pub change : (AssetRow → AssetRow) → Library → Library
change f s = record s { assets = map f s.assets }
