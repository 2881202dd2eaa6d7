-- ===== src/Block/Structure.antt =====
-- api/internal/block/validation.go: the limits on content, and `ValidateStructure`, which says
-- whether a block can be read. A refusal carries the indices of the elements and items that it
-- names; its wording is not modelled. The encoder of `encoding/json` is taken for its lengths only.
pub mod Loops
pub mod Rounds
pub mod Exact
use lumi_hub.Base.{
  Eq, List, Option, Result, String, [], contains, drop, err, if◌then◌else◌, length, lookup, ltb,
  map, nat_eq, none, not, ok, refuse_if, some, string_eq, ℕ, ◌*◌, ◌++◌, ◌+◌, ◌==◌, ◌>>◌, ◌^◌, ◌||◌,
  ◌∷◌,
}
use lumi_hub.Block.Content.{
  Block, Color, ColorMode, Content, DialogueTurn, Element, Entry, FieldItem, ImageItem, LinkItem,
  LumiaRecord, PromptFragment, PromptGroup, Script, Setting, Stylesheet, StylesheetAsset, TextItem,
  Uuid, Variable, color_set, dialogue_sample, entry_table, field_list, image_set, is_nil, item_ids,
  known_type, link_list, nil_id, prompt_list, prose, record_list, script_list, setting_group,
  stylesheet_set, text_set, variable_schema,
}
use lumi_hub.Block.Layout.{Layout, Slot, slots}
use lumi_hub.Block.Vocab.{
  Display, ElementType, ItemSize, Role, known_display, known_item_size, type_image_set, type_prose,
  type_text_set,
}

-- One item of an element's content.
pub data Item : Type 0 where
  text_item : TextItem → Item
  turn_item : DialogueTurn → Item
  image_item : ImageItem → Item
  field_item : FieldItem → Item
  link_item : LinkItem → Item
  entry_item : Entry → Item
  group_item : PromptGroup → Item
  fragment_item : PromptFragment → Item
  variable_item : Variable → Item
  setting_item : Setting → Item
  script_item : Script → Item
  color_item : Color → Item
  sheet_item : Stylesheet → Item
  asset_item : StylesheetAsset → Item
  record_item : LumiaRecord → Item

color_items : List ColorMode → List Item
color_items [] = []
color_items (mode ∷ modes) = map color_item mode.colors ++ color_items modes

-- `elementItems`
unfoldable pub element_items : Option Content → List Item
unfolding color_items
element_items none = []
element_items (some (prose text)) = []
element_items (some (text_set texts)) = map text_item texts
element_items (some (dialogue_sample turns)) = map turn_item turns
element_items (some (image_set images)) = map image_item images
element_items (some (field_list fields)) = map field_item fields
element_items (some (link_list links)) = map link_item links
element_items (some (entry_table entries)) = map entry_item entries
element_items (some (prompt_list groups fragments)) =
    map group_item groups ++ map fragment_item fragments
element_items (some (variable_schema variables)) = map variable_item variables
element_items (some (setting_group settings)) = map setting_item settings
element_items (some (script_list scripts)) = map script_item scripts
element_items (some (color_set modes)) = color_items modes
element_items (some (stylesheet_set global sheets assets)) =
    map sheet_item sheets ++ map asset_item assets
element_items (some (record_list schema records)) = map record_item records

abbrev pub max_payload_bytes : ℕ
max_payload_bytes = 8 * 2 ^ 20

abbrev pub max_collection_items : ℕ
max_collection_items = 5000

abbrev pub max_item_bytes : ℕ
max_item_bytes = 8 * 2 ^ 20

-- How many bytes `json.Marshal` writes; `none` is its error.
pub record Encoder : Type 0 where
  pub item_bytes : Item → Option ℕ
  pub content_bytes : Option Content → Option ℕ

pub data StructureError : Type 0 where
  too_many_items : Role → ℕ → StructureError
  unmeasured_item : Role → ℕ → StructureError
  item_too_large : Role → ℕ → ℕ → StructureError
  unmeasured_payload : Role → StructureError
  payload_too_large : Role → ℕ → StructureError
  unknown_layout : StructureError
  stranded : String → Layout → List Element → StructureError
  unknown_type : ℕ → ElementType → StructureError
  no_element_id : ℕ → StructureError
  shared_element_id : ℕ → ℕ → StructureError
  no_item_id : ℕ → ℕ → StructureError
  shared_item_id : ℕ → StructureError
  bad_display : ℕ → Display → StructureError
  display_unsupported : ℕ → StructureError
  bad_item_size : ℕ → ItemSize → StructureError
  item_size_unsupported : ℕ → StructureError
  wrong_slot : ℕ → Slot → Layout → StructureError
  shared_slot : ℕ → ℕ → Slot → StructureError

-- A Go function that returns only an error.
abbrev pub Checked : Type 0
Checked = Result StructureError (Unit {0})

module _ (json : Encoder) where
  -- The loop over the items of one element, from item `i` on.
  unfoldable pub check_items : Role → ℕ → List Item → Checked
  check_items r i [] = ok tt
  check_items r i (x ∷ xs) = elim (json.item_bytes x) [
    | none ↦ err (unmeasured_item r (i + 1))
    | some n ↦
        refuse_if (ltb max_item_bytes n) (item_too_large r (i + 1) n) >> check_items r (i + 1) xs
  ]

  unfoldable pub check_payload : Element → Checked
  check_payload e = elim (json.content_bytes e.content) [
    | none ↦ err (unmeasured_payload e.role)
    | some n ↦ refuse_if (ltb max_payload_bytes n) (payload_too_large e.role n)
  ]

  unfoldable pub check_limits : Element → Checked
  unfolding element_items check_items check_payload
  check_limits e =
      refuse_if (ltb max_collection_items (length (element_items e.content)))
        (too_many_items e.role (length (element_items e.content)))
      >> check_items e.role 0 (element_items e.content)
      >> check_payload e

  -- `ValidateContentLimits`
  unfoldable pub validate_content_limits : List Element → Checked
  unfolding check_limits
  validate_content_limits [] = ok tt
  validate_content_limits (e ∷ es) = check_limits e >> validate_content_limits es

-- The loop of `validateItemIDs` over element `at`, from item `i` on.
unfoldable pub check_ids : ℕ → ℕ → List Uuid → List Uuid → Checked
check_ids at i seen [] = ok tt
check_ids at i seen (id ∷ ids) =
    refuse_if (id == nil_id) (no_item_id at (i + 1))
    >> refuse_if (contains seen id) (shared_item_id at)
    >> check_ids at (i + 1) (id ∷ seen) ids

abbrev pub ids_of : Option Content → List Uuid
ids_of none = []
ids_of (some c) = item_ids c

-- `validateItemIDs`
unfoldable pub validate_item_ids : ℕ → Element → Checked
unfolding item_ids check_ids
validate_item_ids at e = check_ids at 0 [] (ids_of e.content)

-- The two tests on the presentation options.
unfoldable pub check_display : ℕ → Element → Checked
unfolding known_display
check_display at e =
    if e.element_type == type_prose || e.element_type == type_text_set
    then refuse_if (not (known_display e.options.display)) (bad_display at e.options.display)
    else refuse_if (not (e.options.display == "")) (display_unsupported at)

unfoldable pub check_item_size : ℕ → Element → Checked
unfolding known_item_size
check_item_size at e =
    if e.element_type == type_image_set
    then refuse_if (not (known_item_size e.options.item_size))
        (bad_item_size at e.options.item_size)
    else refuse_if (not (e.options.item_size == "")) (item_size_unsupported at)

-- The elements read so far: the maps `identities` and `occupied`, each key with the index of
-- the element that stands under it.
pub record Seen : Type 0 where
  pub identities : List (Uuid × ℕ)
  pub occupied : List (Slot × ℕ)

-- `if prior, exists := m[key]; exists { return … }`
unfoldable pub refuse_repeat {ℓ} :
    {K : Type ℓ} ⦃e : Eq K⦄ → K → List (K × ℕ) → (ℕ → StructureError) → Checked
refuse_repeat key m e = elim (lookup key m) [ none ↦ ok tt | some prior ↦ err (e prior) ]

-- One round of the loop of `ValidateStructure`, over the element at index `at`.
unfoldable pub check_element : Layout → ℕ → Seen → Element → Checked
check_element layout at seen e =
    refuse_if (not (known_type e.element_type)) (unknown_type at e.element_type)
    >> refuse_if (e.id == nil_id) (no_element_id at)
    >> refuse_repeat e.id seen.identities (λ prior. shared_element_id prior at)
    >> validate_item_ids at e
    >> check_display at e
    >> check_item_size at e
    >> refuse_if (not (contains (slots layout) e.slot)) (wrong_slot at e.slot layout)
    >> refuse_repeat e.slot seen.occupied (λ prior. shared_slot prior at e.slot)

abbrev pub see : Element → ℕ → Seen → Seen
see e at seen = record {
  identities = (e.id, at) ∷ seen.identities;
  occupied = (e.slot, at) ∷ seen.occupied;
}

unfoldable pub check_elements : Layout → ℕ → Seen → List Element → Checked
unfolding check_element
check_elements layout at seen [] = ok tt
check_elements layout at seen (e ∷ es) =
    check_element layout at seen e >> check_elements layout (at + 1) (see e at seen) es

-- `ValidateStructure`
unfoldable pub validate_structure : Encoder → Block → Checked
validate_structure json holder =
    let available = slots holder.layout in
    validate_content_limits json holder.elements
    >> refuse_if (is_nil available) unknown_layout
    >> refuse_if (ltb (length available) (length holder.elements))
        (stranded holder.definition holder.layout (drop (length available) holder.elements))
    >> check_elements holder.layout 0 (record { identities = []; occupied = [] }) holder.elements
