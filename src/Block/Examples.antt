-- ===== src/Block/Examples.antt =====
-- A lorebook page, run through the operations on blocks.
use lumi_hub.Base.{
  List, [], all_of, any_of, arith, err, false, lookup-all_of, map, nat_eq, none, not, ok, refl,
  some, string_eq, true, ℕ, ◌&&◌, ◌++◌, ◌+◌, ◌==◌, ◌↔◌, ◌∷◌, ◌≡◌,
}
use lumi_hub.Block.Builder.{validate_builder_constraints}
use lumi_hub.Block.Builder.Exact.{IsSavable, page_elements, validate_builder_constraints-IsSavable}
use lumi_hub.Block.Catalog.{
  catalog, character, definition_of, element_of, id_gallery, layout_for, shared, starts,
}
use lumi_hub.Block.Consistency.{catalog_consistent, is_consistent}
use lumi_hub.Block.Content.{
  Block, Content, Element, Uuid, empty, empty_content, empty_contents, entry_table, item_ids,
  known_type, prose, written,
}
use lumi_hub.Block.Floor.{Check, Requirement, content_floor, requirements_of}
use lumi_hub.Block.Floor.Exact.{content_floor_lem, expected_check}
use lumi_hub.Block.Floor.Placed.{content_floor-place}
use lumi_hub.Block.Layout.{slots}
use lumi_hub.Block.Placement.{
  assign_slots, fill, fill_found, fill_index, fill_missing, fill_one, is_pinned, is_skipped,
  nowhere, place, place_all, place_filled, take_from, take_match, unplaced,
}
use lumi_hub.Block.Placement.Conserve.{IsWritten, Trait, tally, tally-place}
use lumi_hub.Block.Placement.Refusals.{IsRefusal, place-IsRefusal}
use lumi_hub.Block.Structure.{
  Encoder, check_display, check_element, check_elements, check_ids, check_item_size, check_items,
  check_limits, check_payload, element_items, refuse_repeat, validate_content_limits,
  validate_item_ids, validate_structure,
}
use lumi_hub.Block.Structure.Exact.{IsReadable, validate_structure-IsReadable}
use lumi_hub.Block.Tray.{build_block, build_elements, new_block, new_block_of, on_page}
use lumi_hub.Block.Tray.Built.{IsMint, WritesEmpty}
use lumi_hub.Block.Tray.Total.{CanAdd, new_block-CanAdd}
use lumi_hub.Block.Tray.Valid.{new_block-validate_structure}
use lumi_hub.Block.Vocab.{
  ElementType, description, known_display, known_item_size, lorebook_entries, type_entry_table,
  type_image_set, type_prose,
}

-- What the examples compute with.
all_code : Unit {0}
unfolding place place_all place_filled unplaced fill fill_one fill_index fill_found fill_missing
    take_match take_from is_skipped assign_slots layout_for slots catalog empty empty_content
    known_type new_block new_block_of build_block build_elements on_page starts definition_of
    element_of is_pinned validate_structure check_elements check_element refuse_repeat
    check_item_size check_display validate_item_ids check_ids item_ids validate_content_limits
    check_limits check_payload check_items element_items known_display known_item_size
all_code = tt

catalog-character : catalog "character" ≡ some (character ++ shared)
unfolding all_code
catalog-character = refl

abbrev new_id : ℕ → Uuid
new_id n = n + 100

abbrev entries : Element
entries = record {
  id = 7;
  element_type = type_entry_table;
  role = lorebook_entries;
  slot = "";
  options = record { display = ""; item_size = "" };
  content = some (entry_table []);
}

abbrev story : Element
story = record {
  id = 8;
  element_type = type_prose;
  role = description;
  slot = "";
  options = record { display = ""; item_size = "" };
  content = some (prose "Once");
}

abbrev says_something : Trait
says_something t r none = false
says_something t r (some c) = not (empty c)

all_empty : all_of (λ (entry : ElementType × Content). empty entry.1) empty_contents ≡ true
unfolding all_code
all_empty = refl

says_something-IsWritten : IsWritten says_something
unfolding empty_content
says_something-IsWritten t r c found =
    let bare : empty c ≡ true =
      lookup-all_of ⦃e = string_eq⦄ empty t empty_contents all_empty found in
    ground (arith, bare)

-- The page of a character whose source has a description.
abbrev page : List Block
page = elim (place new_id "character" (story ∷ [])) [ ok bs ↦ bs | err e ↦ [] ]

placed_page : place new_id "character" (story ∷ []) ≡ ok page
unfolding all_code
placed_page = refl

written_once : tally says_something (page_elements page) ≡ 1
unfolding all_code page_elements
written_once = refl

tally-place_example : tally says_something (page_elements page) ≡ tally says_something (story ∷ [])
tally-place_example =
    tally-place new_id "character" (story ∷ []) says_something says_something-IsWritten placed_page

-- A lorebook has nowhere to put a description.
refused_page : place new_id "lorebook" (story ∷ []) ≡ err (nowhere "lorebook" description)
unfolding all_code
refused_page = refl

place-IsRefusal_example : IsRefusal "lorebook" (story ∷ []) (nowhere "lorebook" description)
place-IsRefusal_example = place-IsRefusal new_id "lorebook" (story ∷ []) refused_page

-- An encoder that writes two bytes for everything.
abbrev json : Encoder
json = record { item_bytes = λ x. some 2; content_bytes = λ c. some 2 }

abbrev gallery_block : Block
gallery_block = elim (new_block new_id "character" id_gallery type_image_set page) [
  | ok b ↦ b
  | err e ↦ record {
    id = 0;
    definition = "";
    title = none;
    position = 0;
    hidden = false;
    layout = "";
    width = "";
    elements = [];
  }
]

added_block : new_block new_id "character" id_gallery type_image_set page ≡ ok gallery_block
unfolding all_code
added_block = refl

new_id-IsMint : IsMint new_id
new_id-IsMint = record { never_nil = λ n. ground arith; never_again = λ m n h. omega (arith, h) }

json-WritesEmpty : WritesEmpty json
json-WritesEmpty t c found = (2, refl, ground arith)

new_block-validate_structure_example : validate_structure json gallery_block ≡ ok tt
new_block-validate_structure_example =
    new_block-validate_structure json "character" id_gallery type_image_set page new_id-IsMint
      json-WritesEmpty added_block

new_block-CanAdd_example :
    ((b : Block) × (new_block new_id "character" id_gallery type_image_set page ≡ ok b))
    ↔ CanAdd "character" id_gallery type_image_set page
new_block-CanAdd_example = new_block-CanAdd new_id "character" id_gallery type_image_set page

validate_structure-IsReadable_example :
    (validate_structure json gallery_block ≡ ok tt) ↔ IsReadable json gallery_block
validate_structure-IsReadable_example = validate_structure-IsReadable json gallery_block

validate_builder_constraints-IsSavable_example :
    (validate_builder_constraints "character" page page ≡ ok tt) ↔ IsSavable "character" page page
validate_builder_constraints-IsSavable_example =
    validate_builder_constraints-IsSavable "character" page page

catalog_consistent_example : all_of is_consistent (character ++ shared) ≡ true
catalog_consistent_example = catalog_consistent "character" catalog-character

content_floor_lem_example :
    content_floor "character" page ≡ map (expected_check page) (requirements_of "character")
content_floor_lem_example = content_floor_lem "character" page

content_floor-place_example :
    map (λ (c : Check). c.met) (content_floor "character" page)
    ≡ map
        (λ (r : Requirement). any_of (λ e. e.role == r.role && written e) (story ∷ []))
        (requirements_of "character")
content_floor-place_example = content_floor-place new_id "character" (story ∷ []) placed_page
