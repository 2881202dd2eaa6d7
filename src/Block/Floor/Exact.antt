-- ===== src/Block/Floor/Exact.antt =====
-- What a check of the content floor says of the page.
use lumi_hub.Base.{
  Bool, Bool-cases, List, Option, Option-cases, String, [], any_of, arith, false, find_first,
  if◌then◌else◌, inl, inr, map, nat_eq, none, refl, some, string_eq, true, ◌&&◌, ◌==◌, ◌∷◌, ◌≡◌,
}
use lumi_hub.Block.Content.{Block, Element, Uuid, written}
use lumi_hub.Block.Floor.{
  Check, Requirement, check_requirement, content_floor, measure, measure_blocks, measure_elements,
  requirements_of,
}
use lumi_hub.Block.Vocab.{Role}

-- Whether the block has a written element of the role, and whether it has one at all.
unfoldable pub holds_written : Role → Block → Bool
holds_written role b = any_of (λ e. e.role == role && written e) b.elements

unfoldable pub holds_role : Role → Block → Bool
holds_role role b = any_of (λ (e : Element). e.role == role) b.elements

abbrev id_of : Option Block → Option Uuid
id_of none = none
id_of (some b) = some b.id

abbrev or_else : Option Uuid → Option Uuid → Option Uuid
or_else (some x) o = some x
or_else none o = o

-- Where a creator is sent: to the first block with a written element of the role, else to the first
-- block with an element of the role.
abbrev pub best_block : Role → List Block → Option Uuid
best_block role bs =
    or_else (id_of (find_first (holds_written role) bs)) (id_of (find_first (holds_role role) bs))

-- Once met, the measure stays.
measure_elements-met :
    (role : Role) (holder at : Uuid) (es : List Element)
    → measure_elements role holder es (record { met = true; block_id = some at })
      ≡ record { met = true; block_id = some at }
unfolding measure_elements measure
measure_elements-met role holder at [] = refl
measure_elements-met role holder at (e ∷ es) =
    ground (arith, measure_elements-met role holder at es)

measure_blocks-met :
    (role : Role) (at : Uuid) (bs : List Block)
    → measure_blocks role bs (record { met = true; block_id = some at })
      ≡ record { met = true; block_id = some at }
unfolding measure_blocks
measure_blocks-met role at [] = refl
measure_blocks-met role at (b ∷ bs) =
    ground (arith, measure_elements-met role b.id at b.elements, measure_blocks-met role at bs)

-- One block, from a measure that is not met.
measure_elements-open :
    (role : Role) (holder : Uuid) (es : List Element) (i : Option Uuid)
    → measure_elements role holder es (record { met = false; block_id = i }) ≡ (
        if any_of (λ e. e.role == role && written e) es
        then record { met = true; block_id = some holder }
        else record {
          met = false;
          block_id =
              if any_of (λ (e : Element). e.role == role) es then or_else i (some holder) else i;
        })
unfolding measure_elements measure
measure_elements-open role holder [] i = refl
measure_elements-open role holder (e ∷ es) i = ground (
  arith,
  measure_elements-met role holder holder es,
  measure_elements-open role holder es i,
  measure_elements-open role holder es (some holder),
)

find_first-any_of-not :
    (p : Block → Bool) (bs : List Block) → any_of p bs ≡ false → find_first p bs ≡ none
find_first-any_of-not p [] h = refl
find_first-any_of-not p (b ∷ bs) h = ground (arith, h, find_first-any_of-not p bs)

any_of-find_first :
    (p : Block → Bool) (bs : List Block) → find_first p bs ≡ none → any_of p bs ≡ false
any_of-find_first p [] h = refl
any_of-find_first p (b ∷ bs) h = ground (arith, h, any_of-find_first p bs)

measure_blocks-open :
    (role : Role) (bs : List Block) (i : Option Uuid)
    → measure_blocks role bs (record { met = false; block_id = i }) ≡ record {
      met = any_of (holds_written role) bs;
      block_id =
          if any_of (holds_written role) bs
          then id_of (find_first (holds_written role) bs)
          else or_else i (id_of (find_first (holds_role role) bs));
    }
unfolding measure_blocks holds_written holds_role
measure_blocks-open role [] i = ground arith
measure_blocks-open role (b ∷ bs) i =
    elim (Bool-cases (any_of (λ e. e.role == role && written e) b.elements)) [
      | inl found ↦ ground (
        arith,
        found,
        measure_elements-open role b.id b.elements i,
        measure_blocks-met role b.id bs,
      )
      | inr open_still ↦ elim (Bool-cases (any_of (λ (e : Element). e.role == role) b.elements)) [
        | inl named ↦ ground (
          arith,
          open_still,
          named,
          measure_elements-open role b.id b.elements i,
          measure_blocks-open role bs (or_else i (some b.id)),
        )
        | inr unnamed ↦ ground (
          arith,
          open_still,
          unnamed,
          measure_elements-open role b.id b.elements i,
          measure_blocks-open role bs i,
        )
      ]
    ]

-- What a check should be: met where some block has a written element of the role.
abbrev pub expected_check : List Block → Requirement → Check
expected_check blocks r = record {
  requirement = r;
  met = any_of (holds_written r.role) blocks;
  block_id = best_block r.role blocks;
}

check_requirement_lem :
    (blocks : List Block) (r : Requirement) → check_requirement blocks r ≡ expected_check blocks r
unfolding check_requirement
check_requirement_lem blocks r = elim (Bool-cases (any_of (holds_written r.role) blocks)) [
  | inl found ↦ elim (Option-cases (find_first (holds_written r.role) blocks)) [
    | inl none_found ↦
        absurd (ground (arith, found, any_of-find_first (holds_written r.role) blocks none_found))
    | inr (b, first) ↦ ground (arith, found, first, measure_blocks-open r.role blocks none)
  ]
  | inr missing ↦ ground (
    arith,
    missing,
    measure_blocks-open r.role blocks none,
    find_first-any_of-not (holds_written r.role) blocks missing,
  )
]

map_checks :
    (blocks : List Block) (rs : List Requirement)
    → map (check_requirement blocks) rs ≡ map (expected_check blocks) rs
map_checks blocks [] = refl
map_checks blocks (r ∷ rs) = cc (check_requirement_lem blocks r, map_checks blocks rs)

-- `ContentFloor` reports each requirement of the kind as met exactly if some block has a written
-- element of its role, and points to the first such block, else to the first block with an element
-- of the role, else to none.
pub content_floor_lem :
    (kind : String) (blocks : List Block)
    → content_floor kind blocks ≡ map (expected_check blocks) (requirements_of kind)
unfolding content_floor
content_floor_lem kind blocks = map_checks blocks (requirements_of kind)
