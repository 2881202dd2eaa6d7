-- ===== src/Block/Placement.antt =====
-- api/internal/block/placement.go: how elements of a source are arranged into a kind's blocks.
-- The flag `placed[i]` stands beside the element `tagged[i]`. `uuid.New` is the parameter
-- `new_id`: its n-th call returns `new_id n`, and the count of calls is threaded as state.
mod Take
mod Kept
mod Left
mod Homeless
pub mod Conserve
pub mod Refusals
use lumi_hub.Base.{
  Bool, List, Option, Result, String, [], err, false, get_elem?, if◌then◌else◌, length, map, nat_eq,
  none, not, ok, some, string_eq, suc, true, zero, ℕ, ◌&&◌, ◌++◌, ◌+◌, ◌==◌, ◌>>=◌, ◌>>◌, ◌||◌, ◌∷◌,
}
use lumi_hub.Block.Catalog.{
  DefinedElement, Definition, DefinitionId, catalog, definition_of, element_of, layout_for,
}
use lumi_hub.Block.Content.{Block, Element, Uuid, empty_content, is_nil, nil_id}
use lumi_hub.Block.Layout.{Slot, slots}
use lumi_hub.Block.Vocab.{ElementType, Role}

-- What `Place` and the add tray refuse. `out_of_range` is Go's panic on a slot that a layout lacks.
pub data PlaceError : Type 0 where
  no_catalog : String → PlaceError
  no_type : ElementType → PlaceError
  two_for_one : DefinitionId → ElementType → PlaceError
  wrong_type : Role → ElementType → DefinitionId → ElementType → PlaceError
  no_room : DefinitionId → ℕ → PlaceError
  nowhere : String → Role → PlaceError
  out_of_range : PlaceError

pub record Tagged : Type 0 where
  pub element : Element
  pub placed : Bool

-- `placed[i] || candidate.Role != defined.Role || candidate.Type != defined.Type`
unfoldable pub is_skipped : DefinedElement → Tagged → Bool
is_skipped defined t =
    t.placed
    || not (t.element.role == defined.role)
    || not (t.element.element_type == defined.element_type)

-- The loop of `take` from index `i` on, `found` being the match so far.
unfoldable pub take_from :
    Definition → DefinedElement → ℕ → Option ℕ → List Tagged → Result PlaceError (Option ℕ)
take_from d defined i found [] = ok found
take_from d defined i found (t ∷ ts) = elim (is_skipped defined t) [
  | true ↦ take_from d defined (i + 1) found ts
  | false ↦ elim found [
    | some j ↦ err (two_for_one d.id defined.element_type)
    | none ↦ take_from d defined (i + 1) (some i) ts
  ]
]

-- `Definition.take`
unfoldable pub take_match : Definition → DefinedElement → List Tagged → Result PlaceError (Option ℕ)
take_match d defined tagged = take_from d defined 0 none tagged

-- `placed[found] = true`
abbrev pub mark : List Tagged → ℕ → List Tagged
mark [] i = []
mark (t ∷ ts) zero = record t { placed = true } ∷ ts
mark (t ∷ ts) (suc i) = t ∷ mark ts i

-- What `Place` carries from one definition to the next: the tagged elements with their flags,
-- and how many identifiers were minted.
pub record Source : Type 0 where
  pub tagged : List Tagged
  pub minted : ℕ

module _ (new_id : ℕ → Uuid) where
  -- A pinned element that the source did not supply is created empty.
  unfoldable pub fill_missing : DefinedElement → Source → Result PlaceError (List Element × Source)
  fill_missing defined s =
      if defined.pinned
      then elim (empty_content defined.element_type) [
        | none ↦ err (no_type defined.element_type)
        | some content ↦ ok (
          record {
            id = new_id s.minted;
            element_type = defined.element_type;
            role = defined.role;
            slot = "";
            options = defined.options;
            content = some content;
          }
              ∷ [],
          record s { minted = s.minted + 1 },
        )
      ]
      else ok ([], s)

  -- The element found keeps its content, and gets an id if it has none.
  unfoldable pub fill_found :
      Definition → DefinedElement → Source → ℕ → Element → Result PlaceError (List Element × Source)
  fill_found d defined s i e =
      if not (e.element_type == defined.element_type)
      then err (wrong_type defined.role e.element_type d.id defined.element_type)
      else if e.id == nil_id
      then ok (
        record e { id = new_id s.minted; options = defined.options } ∷ [],
        record { tagged = mark s.tagged i; minted = s.minted + 1 },
      )
      else ok (record e { options = defined.options } ∷ [], record s { tagged = mark s.tagged i })

  unfoldable pub fill_index :
      Definition → DefinedElement → Source → Option ℕ → Result PlaceError (List Element × Source)
  fill_index d defined s none = fill_missing defined s
  fill_index d defined s (some i) = elim (get_elem? s.tagged i) [
    | none ↦ err out_of_range
    | some t ↦ fill_found d defined s i t.element
  ]

  -- One round of the loop of `fill`.
  unfoldable pub fill_one :
      Definition → DefinedElement → Source → Result PlaceError (List Element × Source)
  fill_one d defined s = do found ← take_match d defined s.tagged; fill_index d defined s found

  -- `Definition.fill`
  unfoldable pub fill :
      Definition → List DefinedElement → Source → Result PlaceError (List Element × Source)
  fill d [] s = ok ([], s)
  fill d (defined ∷ rest) s = fill_one d defined s >>= λ (one : List Element × Source).
      fill d rest one.1 >>= λ (more : List Element × Source). ok (one.0 ++ more.0, more.1)

-- `elements[i].Slot = layout.Slots()[i]`
unfoldable pub assign_slots : List Element → List Slot → Result PlaceError (List Element)
assign_slots [] available = ok []
assign_slots (e ∷ es) [] = err out_of_range
assign_slots (e ∷ es) (s ∷ available) =
    assign_slots es available >>= λ rest. ok (record e { slot = s } ∷ rest)

-- The first element that no block took.
unfoldable pub unplaced : List Tagged → Option Element
unplaced [] = none
unplaced (t ∷ ts) = if t.placed then unplaced ts else some t.element

module _ (new_id : ℕ → Uuid) where
  -- The block that one definition gives, if it gives one; `position` is the number before it.
  unfoldable pub place_filled :
      Definition → ℕ → List Element → Source → Result PlaceError (List Block × Source)
  place_filled d position elements s =
      if is_nil elements && not d.required
      then ok ([], s)
      else elim (layout_for d (length elements)) [
        | none ↦ err (no_room d.id (length elements))
        | some layout ↦ assign_slots elements (slots layout) >>= λ arranged. ok (
          record {
            id = new_id s.minted;
            definition = d.id;
            title = none;
            position = position;
            hidden = false;
            layout = layout;
            width = d.width;
            elements = arranged;
          }
              ∷ [],
          record s { minted = s.minted + 1 },
        )
      ]

  -- The loop of `Place` over the definitions.
  unfoldable pub place_all : List Definition → ℕ → Source → Result PlaceError (List Block × Source)
  place_all [] position s = ok ([], s)
  place_all (d ∷ ds) position s = fill new_id d d.elements s >>= λ (filled : List Element × Source).
      place_filled d position filled.0 filled.1 >>= λ (one : List Block × Source).
      place_all ds (position + length one.0) one.1 >>= λ (more : List Block × Source).
      ok (one.0 ++ more.0, more.1)

  -- `Place`
  unfoldable pub place : String → List Element → Result PlaceError (List Block)
  place kind tagged = elim (catalog kind) [
    | none ↦ err (no_catalog kind)
    | some definitions ↦
        place_all definitions 0 (record {
          tagged = map (λ (e : Element). record { element = e; placed = false }) tagged;
          minted = 0;
        })
        >>= λ (placed : List Block × Source). elim (unplaced placed.1.tagged) [
          | none ↦ ok placed.0
          | some e ↦ err (nowhere kind e.role)
        ]
  ]

-- `Block.Pinned`
unfoldable pub is_pinned : Block → Role → String → Bool
is_pinned b r kind = elim (definition_of b.definition kind) [
  | none ↦ false
  | some d ↦ elim (element_of d r) [ none ↦ false | some defined ↦ defined.pinned ]
]
