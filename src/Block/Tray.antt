-- ===== src/Block/Tray.antt =====
-- api/internal/block/tray.go: what the add tray offers, and the block that it builds.
-- `uuid.New` is the parameter `new_id`, as in Placement.
pub mod Built
pub mod Valid
pub mod Total
use mathlib.Core.Option
use lumi_hub.Base.{
  Bool, List, Option, Result, String, [], any_of, err, false, find_first, if◌then◌else◌, length,
  map, nat_eq, none, not, ok, some, string_eq, ℕ, ◌&&◌, ◌+◌, ◌==◌, ◌>>=◌, ◌∷◌,
}
use lumi_hub.Block.Catalog.{
  DefinedElement, Definition, DefinitionId, Group, Start, catalog, definition_of, layout_for,
  starts,
}
use lumi_hub.Block.Content.{Block, Element, Uuid, empty_content}
use lumi_hub.Block.Layout.{Slot, slots}
use lumi_hub.Block.Vocab.{ElementType}

pub record Choice : Type 0 where
  pub element_type : ElementType
  pub label : String

pub record Offer : Type 0 where
  pub definition : DefinitionId
  pub title : String
  pub summary : String
  pub group : Group
  pub repeatable : Bool
  pub choices : List Choice

unfoldable pub choice_of : Start → Choice
choice_of s = record { element_type = s.element_type; label = s.label }

unfoldable pub offer_of : Definition → Offer
offer_of d = record {
  definition = d.id;
  title = d.title;
  summary = d.summary;
  group = d.group;
  repeatable = d.repeatable;
  choices = map choice_of (starts d);
}

-- The loop of `Offers`: a required block is on the page already.
unfoldable pub offers_from : List Definition → List Offer
offers_from [] = []
offers_from (d ∷ ds) = let rest = offers_from ds in if d.required then rest else offer_of d ∷ rest

-- `Offers`
unfoldable pub offers : String → Option (List Offer)
offers kind = Option.map offers_from (catalog kind)

pub data TrayError : Type 0 where
  no_block : String → DefinitionId → TrayError
  always_there : String → String → TrayError
  already_there : String → TrayError
  does_not_hold : String → ElementType → TrayError
  no_layout : DefinitionId → ℕ → TrayError
  no_content : ElementType → TrayError
  no_slot : TrayError

-- Whether a block of the page has the definition.
unfoldable pub on_page : DefinitionId → List Block → Bool
on_page id page = any_of (λ holder. holder.definition == id) page

module _ (new_id : ℕ → Uuid) where
  -- The loop of `NewBlock` over the chosen elements, `minted` identifiers being drawn so far.
  unfoldable pub build_elements :
      List DefinedElement → List Slot → ℕ → Result TrayError (List Element)
  build_elements [] available minted = ok []
  build_elements (defined ∷ rest) available minted = elim (empty_content defined.element_type) [
    | none ↦ err (no_content defined.element_type)
    | some content ↦ elim available [
      | [] ↦ err no_slot
      | slot ∷ more ↦ build_elements rest more (minted + 1) >>= λ elements. ok (
          record {
            id = new_id minted;
            element_type = defined.element_type;
            role = defined.role;
            slot = slot;
            options = defined.options;
            content = some content;
          }
          ∷ elements)
    ]
  ]

  -- `NewBlock` from the start that was chosen on.
  unfoldable pub build_block : Definition → Start → List Block → Result TrayError Block
  build_block d chosen page = elim (layout_for d (length chosen.elements)) [
    | none ↦ err (no_layout d.id (length chosen.elements))
    | some layout ↦ build_elements chosen.elements (slots layout) 0 >>= λ elements. ok (record {
      id = new_id (length chosen.elements);
      definition = d.id;
      title = none;
      position = length page;
      hidden = false;
      layout = layout;
      width = d.width;
      elements = elements;
    })
  ]

  -- `NewBlock` once the definition is found.
  unfoldable pub new_block_of :
      String → Definition → ElementType → List Block → Result TrayError Block
  new_block_of kind d element_type page =
      if d.required
      then err (always_there d.title kind)
      else if not d.repeatable && on_page d.id page
      then err (already_there d.title)
      else elim (find_first (λ option. option.element_type == element_type) (starts d)) [
        | none ↦ err (does_not_hold d.title element_type)
        | some chosen ↦ build_block d chosen page
      ]

  -- `NewBlock`
  unfoldable pub new_block :
      String → DefinitionId → ElementType → List Block → Result TrayError Block
  new_block kind id element_type page = elim (definition_of id kind) [
    | none ↦ err (no_block kind id)
    | some d ↦ new_block_of kind d element_type page
  ]
