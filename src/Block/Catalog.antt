-- ===== src/Block/Catalog.antt =====
-- api/internal/block/catalog.go: which blocks each kind of asset has, and how an entry is read.
mod Shape
mod Character
mod Kinds
mod Shared
unfoldable pub use Shape.*
unfoldable pub use Character.*
unfoldable pub use Kinds.*
unfoldable pub use Shared.*
use lumi_hub.Base.{
  List, Option, String, [], find_first, leb, length, lookup, map, nat_eq, none, some, string_eq, ℕ,
  ◌++◌, ◌==◌, ◌∷◌,
}
use lumi_hub.Block.Layout.{Layout, or_zero, slots}
use lumi_hub.Block.Vocab.{ElementType, Role, type_labels}

-- the map `catalogs`
abbrev pub catalogs : List (String × List Definition)
catalogs =
    ("character", character)
    ∷ ("lorebook", lorebook)
    ∷ ("preset", preset)
    ∷ ("theme", theme)
    ∷ ("pack", pack)
    ∷ []

-- `Catalog`: a kind's own definitions, then the shared ones
unfoldable pub catalog : String → Option (List Definition)
catalog kind = elim (lookup kind catalogs) [ none ↦ none | some own ↦ some (own ++ shared) ]

-- `DefinitionID.Definition`
unfoldable pub definition_of : DefinitionId → String → Option Definition
unfolding catalog
definition_of id kind = elim (catalog kind) [
  | none ↦ none
  | some definitions ↦ find_first (λ d. d.id == id) definitions
]

-- `Definition.element`
unfoldable pub element_of : Definition → Role → Option DefinedElement
element_of d r = find_first (λ e. e.role == r) d.elements

-- `Definition.layoutFor`
unfoldable pub layout_for : Definition → ℕ → Option Layout
unfolding slots
layout_for d count = find_first (λ l. leb count (length (slots l))) d.layouts

-- The type `start`: one way a block can start.
pub record Start : Type 0 where
  pub element_type : ElementType
  pub label : String
  pub elements : List DefinedElement

abbrev start_of_choice : DefinedElement → Start
start_of_choice c = record {
  element_type = c.element_type;
  label = or_zero "" (lookup c.element_type type_labels);
  elements = c ∷ [];
}

-- `Definition.starts` where no choices override the definition's elements
abbrev start_with : Definition → List DefinedElement → List Start
start_with d [] = []
start_with d (e ∷ es) =
    record { element_type = e.element_type; label = d.title; elements = e ∷ es } ∷ []

-- the two cases of `starts`, by the length of `Choices`
abbrev starts_from : Definition → List DefinedElement → List Start
starts_from d [] = start_with d d.elements
starts_from d (c ∷ cs) = map start_of_choice (c ∷ cs)

-- `Definition.starts`
unfoldable pub starts : Definition → List Start
starts d = starts_from d d.choices
