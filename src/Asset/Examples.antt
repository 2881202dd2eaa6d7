-- ===== src/Asset/Examples.antt =====
-- A character is published, withheld, and left alone by its owner.
use lumi_hub.Asset.Lifecycle.{
  ReadinessItem, already_published, clear_withhold, delete_asset, is_discovery, is_space, not_found,
  publish, readiness, ready, recovery_window, restore, rune_count, set_discovery, set_identity,
  trim_left, trim_right, trim_space, withhold,
}
use lumi_hub.Asset.Lifecycle.Frozen.{Runs-frozen, is_held}
use lumi_hub.Asset.Lifecycle.Lawful.{IsLawful, Runs-IsLawful}
use lumi_hub.Asset.Lifecycle.Publish.{IsPublishable, publish-IsPublishable}
use lumi_hub.Asset.Lifecycle.Rows.{is_sized}
use lumi_hub.Asset.Lifecycle.Runs.{
  at_rest, deleted, has_id, made_public, renamed, then_one, withheld,
}
use lumi_hub.Asset.Table.{
  AssetRow, Library, change, clear_row, delete_row, discovery_listed, discovery_row, is_clearable,
  is_deletable, is_discoverable, is_of, is_restorable, is_standing, is_withholdable,
  lifecycle_draft, lifecycle_published, publish_row, restore_row, withhold_row,
}
use lumi_hub.Base.{
  List, [], all_of, any_of, err, false, keep, none, ok, refl, some, true, ℕ, ◌+◌, ◌↔◌, ◌∷◌, ◌≡◌,
}
use lumi_hub.Block.Content.{Block, Element, Uuid, empty, empty_content, prose, written}
use lumi_hub.Block.Floor.{
  check_requirement, content_floor, measure, measure_blocks, measure_elements, requirements_of,
}
use lumi_hub.Block.Floor.Exact.{holds_written}
use lumi_hub.Block.Vocab.{Role, description, greetings, type_prose}

-- What the examples compute with.
all_code : Unit {0}
unfolding is_of is_standing publish_row is_discoverable discovery_row is_deletable delete_row
    is_restorable restore_row is_withholdable withhold_row is_clearable clear_row change is_space
    trim_left trim_right trim_space rune_count ready readiness publish set_identity is_discovery
    set_discovery delete_asset restore withhold clear_withhold requirements_of measure
    measure_elements measure_blocks check_requirement content_floor empty empty_content written
    holds_written
all_code = tt

abbrev said : Uuid → Role → Element
said id role = record {
  id = id;
  element_type = type_prose;
  role = role;
  slot = "";
  options = record { display = ""; item_size = "" };
  content = some (prose "Once");
}

abbrev face : Block
face = record {
  id = 20;
  definition = "description";
  title = none;
  position = 0;
  hidden = false;
  layout = "single";
  width = "full";
  elements = said 21 description ∷ said 22 greetings ∷ [];
}

abbrev hero : AssetRow
hero = record {
  id = 1;
  owner_id = 7;
  kind = "character";
  name = "Sea";
  is_nsfw = some false;
  lifecycle = lifecycle_draft;
  discovery = discovery_listed;
  content_generation = 1;
  withheld_at = none;
  withheld_by = none;
  withheld_reason = none;
  deleted_at = none;
  recoverable_until = none;
}

abbrev home : Library
home = record { assets = hero ∷ []; pages = λ id. face ∷ [] }

trimmed : trim_space "  a b \t" ≡ "a b"
unfolding all_code
trimmed = refl

hero_published : (publish 7 1 home).1.assets ≡ record hero { lifecycle = lifecycle_published } ∷ []
unfolding all_code
hero_published = refl

published_once : (publish 7 1 (publish 7 1 home).1).0 ≡ err already_published
unfolding all_code
published_once = refl

-- A deleted draft is back within thirty days, and not after.
back_in_time : (restore 7 1 (5 + recovery_window) (delete_asset 7 1 6 home).1).0 ≡ ok tt
unfolding all_code
back_in_time = refl

too_late : (restore 7 1 (6 + recovery_window) (delete_asset 7 1 6 home).1).0 ≡ err not_found
unfolding all_code
too_late = refl

publish-IsPublishable_example :
    ((items : List ReadinessItem) × ((publish 7 1 home).0 ≡ ok items)) ↔ IsPublishable 7 1 home
publish-IsPublishable_example = publish-IsPublishable 7 1 home

abbrev no_digest : AssetRow → List Block → ℕ
no_digest r page = 0

abbrev held_home : Library
held_home = (withhold 1 99 "copied" 50 (publish 7 1 home).1).1

home-IsLawful : IsLawful home
unfolding is_discovery is_sized
home-IsLawful = record { keyed = refl; lawful = refl }

Runs-IsLawful_example : IsLawful held_home
Runs-IsLawful_example =
    Runs-IsLawful {fingerprint = no_digest}
      (then_one (then_one at_rest (made_public 7 1)) (withheld 1 99 "copied" 50)) home-IsLawful

held_present : any_of (has_id 1) held_home.assets ≡ true
unfolding all_code
held_present = refl

held_all : all_of is_held (keep (has_id 1) held_home.assets) ≡ true
unfolding all_code
held_all = refl

abbrev pressed_home : Library
pressed_home = (delete_asset 7 1 60 (set_identity no_digest 7 1 "Other" none held_home).1).1

Runs-frozen_example :
    (keep (has_id 1) pressed_home.assets ≡ keep (has_id 1) held_home.assets)
    × (pressed_home.pages 1 ≡ held_home.pages 1)
Runs-frozen_example =
    Runs-frozen {fingerprint = no_digest} 1 held_present held_all
      (then_one (then_one at_rest (renamed 7 1 "Other" none)) (deleted 7 1 60))
