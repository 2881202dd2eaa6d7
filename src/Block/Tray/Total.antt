-- ===== src/Block/Tray/Total.antt =====
-- When `NewBlock` succeeds: the page and the catalog decide, and nothing fails later on.
use mathlib.Core.Bool.{false≢true}
use lumi_hub.Base.{
  List, Option-cases, String, [], all_of, and_true, arith, false, find_first, find_first-all_of,
  inl, inr, length, nat_eq, none, ok, refl, some, string_eq, true, ℕ, ◌+◌, ◌==◌, ◌↔◌, ◌∷◌, ◌≡◌, ◌≤◌,
  ◌⊎◌,
}
use lumi_hub.Block.Catalog.{DefinedElement, Definition, DefinitionId, Start, definition_of, starts}
use lumi_hub.Block.Consistency.{
  definition_consistent, element_fits, element_fits-parts, holds_count-layout, is_consistent-parts,
  start_fits, start_fits-parts,
}
use lumi_hub.Block.Content.{Block, Content, Element, Uuid, empty_content, known_type}
use lumi_hub.Block.Layout.{Slot, slots}
use lumi_hub.Block.Tray.{build_block, build_elements, new_block, new_block_of, on_page}
use lumi_hub.Block.Tray.Built.{built_element}
use lumi_hub.Block.Tray.Valid.{new_block-Origin}
use lumi_hub.Block.Vocab.{ElementType}

known_type-content : (t : String) → known_type t ≡ true → (c : Content) × (empty_content t ≡ some c)
unfolding known_type
known_type-content t known = elim (Option-cases (empty_content t)) [
  | inl missing ↦ absurd (false≢true (rw (missing, known_type) at known))
  | inr found ↦ found
]

-- With a slot and a known type for every element the loop of `NewBlock` runs through.
build_elements_total :
    (new_id : ℕ → Uuid) (ds : List DefinedElement) (available : List Slot) (m : ℕ)
    → all_of element_fits ds ≡ true
    → length ds ≤ length available
    → (es : List Element) × (build_elements new_id ds available m ≡ ok es)
unfolding build_elements
build_elements_total new_id [] available m fits room = ([], refl)
build_elements_total new_id (d ∷ ds) [] m fits room = absurd (omega arith)
build_elements_total new_id (d ∷ ds) (s ∷ available) m fits room =
    let (fit, fit_rest) = and_true (element_fits d) (all_of element_fits ds) fits in
    let (known, _, _) = element_fits-parts d fit in
    let (c, found) = known_type-content d.element_type known in
    let (es, built) = build_elements_total new_id ds available (m + 1) fit_rest (omega arith) in
    (built_element new_id d s m c ∷ es, rw (found, build_elements) (rw built))

-- What `NewBlock` asks of the page and of the catalog.
pub record CanAdd (kind : String) (id : DefinitionId) (t : ElementType) (page : List Block)
    : Type 0 where
  pub d : Definition
  pub chosen : Start
  pub found : definition_of id kind ≡ some d
  pub optional : d.required ≡ false
  pub free : (d.repeatable ≡ true) ⊎ (on_page d.id page ≡ false)
  pub offered : find_first (λ option. option.element_type == t) (starts d) ≡ some chosen

build_block_total :
    (new_id : ℕ → Uuid) (d : Definition) (chosen : Start) (page : List Block)
    → start_fits d chosen ≡ true
    → (b : Block) × (build_block new_id d chosen page ≡ ok b)
unfolding build_block
build_block_total new_id d chosen page fit =
    let (_, fits, holds) = start_fits-parts d chosen fit in
    let (l, arranged, room, _) = holds_count-layout d (length chosen.elements) holds in
    let (es, built) = build_elements_total new_id chosen.elements (slots l) 0 fits room in
    (
      record {
        id = new_id (length chosen.elements);
        definition = d.id;
        title = none;
        position = length page;
        hidden = false;
        layout = l;
        width = d.width;
        elements = es;
      },
      rw (arranged, build_block) (rw built),
    )

new_block_of_guards :
    (new_id : ℕ → Uuid) (kind : String) (t : ElementType) (page : List Block) (d : Definition)
    (chosen : Start) {b : Block}
    → d.required ≡ false
    → (d.repeatable ≡ true) ⊎ (on_page d.id page ≡ false)
    → find_first (λ option. option.element_type == t) (starts d) ≡ some chosen
    → build_block new_id d chosen page ≡ ok b
    → new_block_of new_id kind d t page ≡ ok b
unfolding new_block_of
new_block_of_guards new_id kind t page d chosen optional free offered built = ground arith

CanAdd-new_block :
    (new_id : ℕ → Uuid) (kind : String) (id : DefinitionId) (t : ElementType) (page : List Block)
    → CanAdd kind id t page
    → (b : Block) × (new_block new_id kind id t page ≡ ok b)
unfolding new_block
CanAdd-new_block new_id kind id t page can =
    let (_, starts_fit, _, _) =
      is_consistent-parts can.d (definition_consistent id kind can.found) in
    let fit =
      find_first-all_of (start_fits can.d) (λ option. option.element_type == t) (starts can.d)
        starts_fit can.offered in
    let (b, built) = build_block_total new_id can.d can.chosen page fit in
    (
      b,
      rw (can.found, new_block)
          (new_block_of_guards new_id kind t page can.d can.chosen can.optional can.free can.offered
            built),
    )

-- `NewBlock` builds a block exactly if the kind has the definition, which is optional, may stand
-- on the page once more, and has a way to start with the type. Room, content and slots never fail.
pub new_block-CanAdd :
    (new_id : ℕ → Uuid) (kind : String) (id : DefinitionId) (t : ElementType) (page : List Block)
    → ((b : Block) × (new_block new_id kind id t page ≡ ok b)) ↔ CanAdd kind id t page
new_block-CanAdd new_id kind id t page = (
  (λ (b, h).
      let o = new_block-Origin h in
      record {
        d = o.d;
        chosen = o.chosen;
        found = o.found;
        optional = o.optional;
        free = o.free;
        offered = o.offered;
      }),
  CanAdd-new_block new_id kind id t page,
)
