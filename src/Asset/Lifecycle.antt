-- ===== src/Asset/Lifecycle.antt =====
-- api/internal/asset: publish.go, identity.go, discovery.go, deletion.go and withholding.go. The
-- database answers every statement. Digests of contents are an argument.
pub mod Publish
pub mod Runs
pub mod Moves
pub mod Rows
pub mod Lawful
pub mod Frozen
use Prim.Native.Char.{code}
use Prim.Native.String.{◌++◌ as str_append}
use lumi_hub.Asset.Table.{
  AssetRow, Library, change, clear_row, delete_row, discovery_listed, discovery_row,
  discovery_unlisted, identity_row, is_clearable, is_deletable, is_discoverable, is_of,
  is_restorable, is_standing, is_withholdable, lifecycle_draft, publish_row, restore_row,
  withhold_row,
}
use lumi_hub.Base.{
  Bool, List, Option, Result, String, [], all_of, any_of, contains, err, find_first, if◌then◌else◌,
  leb, ltb, map, nat_eq, none, not, ok, some, string_eq, ℕ, ◌&&◌, ◌*◌, ◌+◌, ◌==◌, ◌||◌, ◌∷◌,
}
use lumi_hub.Block.Content.{Block, Uuid, is_none}
use lumi_hub.Block.Floor.{Check, content_floor}

-- `unicode.IsSpace`
unfoldable pub is_space : ℕ → Bool
is_space c =
    (leb 9 c && leb c 13)
    || (contains (0x20 ∷ 0x85 ∷ 0xa0 ∷ 0x1680 ∷ 0x2028 ∷ 0x2029 ∷ 0x202f ∷ 0x205f ∷ 0x3000 ∷ []) c
        || (leb 0x2000 c && leb c 0x200a))

unfoldable pub trim_left : String → String
trim_left String.[] = String.[]
trim_left (String.◌∷◌ c s) =
    let rest = trim_left s in if is_space (code c) then rest else String.◌∷◌ c s

unfoldable pub trim_right : String → String
trim_right String.[] = String.[]
trim_right (String.◌∷◌ c s) =
    let rest = trim_right s in
    if rest == "" && is_space (code c) then String.[] else String.◌∷◌ c rest

-- `strings.TrimSpace`
unfoldable pub trim_space : String → String
trim_space s = trim_right (trim_left s)

-- `utf8.RuneCountInString`
unfoldable pub rune_count : String → ℕ
rune_count String.[] = 0
rune_count (String.◌∷◌ c s) = rune_count s + 1

-- `MaxNameRunes` and `recoveryWindow`, in microseconds
abbrev pub max_name_runes : ℕ
max_name_runes = 200

abbrev pub recovery_window : ℕ
recovery_window = 30 * 24 * 3600 * 1000000

pub record ReadinessItem : Type 0 where
  pub id : String
  pub label : String
  pub detail : String
  pub met : Bool
  pub block_id : Option Uuid

pub data AssetError : Type 0 where
  not_found asset_frozen asset_is_draft already_published : AssetError
  publish_floor : List ReadinessItem → AssetError
  name_too_long : ℕ → AssetError
  rating_unanswerable invalid_discovery invalid_withhold_reason : AssetError
  media_not_found no_revision_target : AssetError

-- `Ready`
unfoldable pub ready : List ReadinessItem → Bool
ready items = all_of (λ (i : ReadinessItem). i.met) items

abbrev pub readiness_of : Check → ReadinessItem
readiness_of c = record {
  id = c.requirement.id;
  label = c.requirement.label;
  detail = c.requirement.detail;
  met = c.met;
  block_id = c.block_id;
}

-- `readiness`
unfoldable pub readiness : String → String → Option Bool → List Block → List ReadinessItem
readiness kind name is_nsfw blocks =
    record {
      id = "name";
      label = "Name";
      detail = str_append "Give this " (str_append kind " a name.");
      met = not (name == "");
      block_id = none;
    }
    ∷ record {
      id = "adult_content";
      label = "Adult content answer";
      detail = "Say whether this contains adult content.";
      met = not (is_none is_nsfw);
      block_id = none;
    }
    ∷ map readiness_of (content_floor kind blocks)

-- `Publish`
unfoldable pub publish : Uuid → Uuid → Library → Result AssetError (List ReadinessItem) × Library
publish owner id s = elim (find_first (is_standing owner id) s.assets) [
  | none ↦ (err not_found, s)
  | some r ↦
      if not (is_none r.withheld_at)
      then (err asset_frozen, s)
      else (if not (r.lifecycle == lifecycle_draft)
          then (err already_published, s)
          else (let items = readiness r.kind r.name r.is_nsfw (s.pages id) in
              if not (ready items)
              then (err (publish_floor items), s)
              else (ok items, change (publish_row id) s)))
]

-- `SetIdentity`, with `contentFingerprint` as an argument, which reads the header and the page
unfoldable pub set_identity :
    (AssetRow → List Block → ℕ)
    → Uuid
    → Uuid
    → String
    → Option Bool
    → Library
    → Result AssetError (Unit {0}) × Library
set_identity fingerprint owner id raw is_nsfw s =
    let name = trim_space raw in
    if ltb max_name_runes (rune_count name)
    then (err (name_too_long (rune_count name)), s)
    else (elim (find_first (is_standing owner id) s.assets) [
      | none ↦ (err not_found, s)
      | some r ↦
          if not (is_none r.withheld_at)
          then (err asset_frozen, s)
          else (if is_none is_nsfw && not (r.lifecycle == lifecycle_draft)
              then (err rating_unanswerable, s)
              else (let before = fingerprint r (s.pages id) in
                  let after =
                    fingerprint (record r { name = name; is_nsfw = is_nsfw }) (s.pages id) in
                  (
                    ok tt,
                    change (identity_row id name is_nsfw (if after == before then 0 else 1)) s,
                  )))
    ])

-- `Discovery.Valid`
unfoldable pub is_discovery : String → Bool
is_discovery d = d == discovery_listed || d == discovery_unlisted

-- `SetDiscovery`, with `AssetStateForOwner` where no row changes
unfoldable pub set_discovery :
    Uuid → Uuid → String → Library → Result AssetError (Unit {0}) × Library
set_discovery owner id discovery s =
    if not (is_discovery discovery)
    then (err invalid_discovery, s)
    else (if any_of (is_discoverable owner id) s.assets
        then (ok tt, change (discovery_row owner id discovery) s)
        else (elim (find_first (is_standing owner id) s.assets) [
          | none ↦ (err not_found, s)
          | some r ↦ (
            (if not (is_none r.withheld_at)
                then err asset_frozen
                else if r.lifecycle == lifecycle_draft
                then err asset_is_draft
                else err not_found),
            s,
          )
        ]))

-- `Delete`, with `AssetDeletionState`
unfoldable pub delete_asset : Uuid → Uuid → ℕ → Library → Result AssetError (Unit {0}) × Library
delete_asset owner id now s = elim (find_first (is_of owner id) s.assets) [
  | none ↦ (err not_found, s)
  | some r ↦
      if not (is_none r.deleted_at)
      then (err not_found, s)
      else (if not (is_none r.withheld_at)
          then (err asset_frozen, s)
          else (if any_of (is_deletable owner id) s.assets
              then (ok tt, change (delete_row owner id now (now + recovery_window)) s)
              else (err not_found, s)))
]

-- `Restore`
unfoldable pub restore : Uuid → Uuid → ℕ → Library → Result AssetError (Unit {0}) × Library
restore owner id now s =
    if any_of (is_restorable owner id now) s.assets
    then (ok tt, change (restore_row owner id now) s)
    else (err not_found, s)

-- `Withhold`
unfoldable pub withhold :
    Uuid → Uuid → String → ℕ → Library → Result AssetError (Unit {0}) × Library
withhold id actor raw now s =
    let reason = trim_space raw in
    if reason == ""
    then (err invalid_withhold_reason, s)
    else (if any_of (is_withholdable id) s.assets
        then (ok tt, change (withhold_row id actor reason now) s)
        else (err not_found, s))

-- `ClearWithhold`
unfoldable pub clear_withhold : Uuid → Library → Result AssetError (Unit {0}) × Library
clear_withhold id s =
    if any_of (is_clearable id) s.assets
    then (ok tt, change (clear_row id) s)
    else (err not_found, s)

-- `lockEditableAsset`, the guard of every edit of a page
unfoldable pub lock_editable_asset : Uuid → Uuid → Library → Result AssetError String
lock_editable_asset owner id s = elim (find_first (is_standing owner id) s.assets) [
  | none ↦ err not_found
  | some r ↦ if not (is_none r.withheld_at) then err asset_frozen else ok r.kind
]

-- The guard of `AddMedia`, of the row that it locks
unfoldable pub lock_media_owner : Uuid → Uuid → Library → Result AssetError (Unit {0})
lock_media_owner owner id s = elim (find_first (is_standing owner id) s.assets) [
  | none ↦ err media_not_found
  | some r ↦ if not (is_none r.withheld_at) then err asset_frozen else ok tt
]

-- `lockRevisionTarget`, the guard of the ingest of a revision
unfoldable pub lock_revision_target : Uuid → Uuid → Library → Result AssetError (Unit {0})
lock_revision_target id owner s = elim (find_first (is_standing owner id) s.assets) [
  | none ↦ err no_revision_target
  | some r ↦ if not (is_none r.withheld_at) then err asset_frozen else ok tt
]
