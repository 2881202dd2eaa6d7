-- ===== src/Block/Builder.antt =====
-- api/internal/block/validation.go: `ValidateBuilderConstraints`, the rules of a kind's catalog
-- over the page that is being saved. The maps of the function are lists of what was put in; a
-- refusal carries the indices and values that it names, and its wording is not modelled.
pub mod Rules
pub mod Members
pub mod Pins
pub mod Exact
use lumi_hub.Base.{
  Bool, List, Option, Result, String, [], any_of, contains, err, if◌then◌else◌, lookup, ltb, map,
  nat_eq, none, not, ok, refuse_if, some, string_eq, ℕ, ◌&&◌, ◌++◌, ◌+◌, ◌==◌, ◌>>◌, ◌∷◌,
}
use lumi_hub.Block.Catalog.{Definition, DefinitionId, definition_of}
use lumi_hub.Block.Content.{Block, Element, Uuid, is_nil}
use lumi_hub.Block.Layout.{Layout, Width, columns, minimum_width}
use lumi_hub.Block.Placement.{is_pinned}
use lumi_hub.Block.Vocab.{
  ElementType, Role, allowed_types, allows, cardinality, repeatable, singular,
}

pub data BuilderError : Type 0 where
  not_in_catalog : DefinitionId → String → BuilderError
  only_once : String → BuilderError
  layout_refused : String → Layout → BuilderError
  unknown_width : BuilderError
  widen_first : Layout → Width → BuilderError
  narrowed : Layout → Width → BuilderError
  too_narrow : Layout → Width → BuilderError
  shared_id : ℕ → ℕ → BuilderError
  new_element_id : ℕ → BuilderError
  repeated_role : Role → BuilderError
  unknown_role : ℕ → BuilderError
  wrong_content : ℕ → List ElementType → BuilderError
  unpinned : Role → String → BuilderError

-- A Go function that returns only an error.
abbrev pub Verdict : Type 0
Verdict = Result BuilderError (Unit {0})

-- `beforeByID[holder.ID]`: the last block of the id, or the zero block.
unfoldable pub original_of : Uuid → List Block → Option Block
original_of id [] = none
original_of id (b ∷ bs) = elim (original_of id bs) [
  | some later ↦ some later
  | none ↦ if b.id == id then some b else none
]

abbrev pub layout_of : Option Block → Layout
layout_of none = ""
layout_of (some b) = b.layout

abbrev pub width_of : Option Block → Width
width_of none = ""
width_of (some b) = b.width

-- Which of the three refusals a block gets that is narrower than its layout.
unfoldable pub width_error : List Block → Block → BuilderError
width_error before holder =
    let original = original_of holder.id before in
    if not (layout_of original == holder.layout) && width_of original == holder.width
    then widen_first holder.layout holder.width
    else if layout_of original == holder.layout && not (width_of original == holder.width)
    then narrowed holder.layout holder.width
    else too_narrow holder.layout holder.width

-- One round of the first loop, once the block's definition is found.
unfoldable pub check_holder : List Block → List DefinitionId → Block → Definition → Verdict
check_holder before seen holder d =
    refuse_if (contains seen holder.definition && not d.repeatable) (only_once d.title)
    >> refuse_if (not (contains d.layouts holder.layout)) (layout_refused d.title holder.layout)
    >> refuse_if (columns holder.width == 0) unknown_width
    >> refuse_if (ltb (columns holder.width) (columns (minimum_width holder.layout)))
        (width_error before holder)

unfoldable pub check_block : String → List Block → List DefinitionId → Block → Verdict
check_block kind before seen holder = elim (definition_of holder.definition kind) [
  | none ↦ err (not_in_catalog holder.definition kind)
  | some d ↦ check_holder before seen holder d
]

-- The loop over the blocks to be saved.
unfoldable pub check_blocks : String → List Block → List DefinitionId → List Block → Verdict
check_blocks kind before seen [] = ok tt
check_blocks kind before seen (b ∷ bs) =
    check_block kind before seen b >> check_blocks kind before (b.definition ∷ seen) bs

-- Every element with its index in its block, in the order of the two nested loops.
pub number_from : ℕ → List Element → List (ℕ × Element)
number_from i [] = []
number_from i (e ∷ es) = (i, e) ∷ number_from (i + 1) es

unfoldable pub numbered : List Block → List (ℕ × Element)
unfolding number_from
numbered [] = []
numbered (b ∷ bs) = number_from 0 b.elements ++ numbered bs

-- The keys of `existingIDs`.
unfoldable pub page_ids : List Block → List Uuid
page_ids [] = []
page_ids (b ∷ bs) = map (λ (e : Element). e.id) b.elements ++ page_ids bs

-- The tests on an element that has a role. `roles` holds each role once for each time that
-- `roleCount` counted it.
unfoldable pub check_role : ℕ → List Role → Element → Verdict
check_role at roles e =
    if allows e.role e.element_type
    then elim (cardinality e.role) [
      | repeatable ↦ ok tt
      | singular ↦ refuse_if (contains roles e.role) (repeated_role e.role)
    ]
    else if is_nil (allowed_types e.role)
    then err (unknown_role at)
    else err (wrong_content at (allowed_types e.role))

-- What the second loop carries: `elementIDs`, each id with its element's index, and `roleCount`.
pub record Counted : Type 0 where
  pub ids : List (Uuid × ℕ)
  pub roles : List Role

abbrev pub count_element : ℕ → Element → Counted → Counted
count_element at e seen = record {
  ids = (e.id, at) ∷ seen.ids;
  roles = if e.role == "" then seen.roles else e.role ∷ seen.roles;
}

unfoldable pub check_member : List Uuid → Counted → ℕ → Element → Verdict
check_member existing seen at e =
    elim (lookup e.id seen.ids) [ none ↦ ok tt | some prior ↦ err (shared_id prior at) ]
    >> refuse_if (not (contains existing e.id)) (new_element_id at)
    >> (if e.role == "" then ok tt else check_role at seen.roles e)

-- The loop over the elements to be saved.
unfoldable pub check_members : List Uuid → Counted → List (ℕ × Element) → Verdict
check_members existing seen [] = ok tt
check_members existing seen ((at, e) ∷ es) =
    check_member existing seen at e >> check_members existing (count_element at e seen) es

-- `pinnedElementPresent`
unfoldable pub is_present : List Block → Uuid → Element → Bool
is_present after id original =
    any_of
      (λ holder.
        holder.id == id
        && any_of
            (λ candidate.
              candidate.id == original.id
              && candidate.role == original.role
              && candidate.element_type == original.element_type)
            holder.elements)
      after

-- The third loop, over the elements of one block that was there before.
unfoldable pub check_pins_of : String → List Block → Block → String → List Element → Verdict
check_pins_of kind after holder title [] = ok tt
check_pins_of kind after holder title (e ∷ es) =
    refuse_if (is_pinned holder e.role kind && not (is_present after holder.id e))
      (unpinned e.role title)
    >> check_pins_of kind after holder title es

-- One round over the blocks that were there: a definition the kind lacks is passed over.
unfoldable pub check_pins_in : String → List Block → Block → Verdict
check_pins_in kind after holder = elim (definition_of holder.definition kind) [
  | none ↦ ok tt
  | some d ↦ check_pins_of kind after holder d.title holder.elements
]

unfoldable pub check_pins : String → List Block → List Block → Verdict
check_pins kind after [] = ok tt
check_pins kind after (b ∷ bs) = check_pins_in kind after b >> check_pins kind after bs

-- `ValidateBuilderConstraints`
unfoldable pub validate_builder_constraints : String → List Block → List Block → Verdict
validate_builder_constraints kind before after =
    check_blocks kind before [] after
    >> check_members (page_ids before) (record { ids = []; roles = [] }) (numbered after)
    >> check_pins kind after before
