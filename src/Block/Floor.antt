-- ===== src/Block/Floor.antt =====
-- api/internal/block/floor.go: what a kind asks for before an asset may be published.
pub mod Exact
pub mod Placed
use lumi_hub.Base.{
  Bool, List, Option, String, [], false, if◌then◌else◌, lookup, map, nat_eq, none, not, some,
  string_eq, ◌&&◌, ◌==◌, ◌||◌, ◌∷◌,
}
use lumi_hub.Block.Content.{Block, Element, Uuid, is_none, written}
use lumi_hub.Block.Vocab.{
  Role, description, greetings, lorebook_entries, pack_items, prompt_fragments, theme_tokens,
}

pub record Requirement : Type 0 where
  pub id : String
  pub label : String
  pub detail : String
  pub role : Role

pub record Check : Type 0 where
  pub requirement : Requirement
  pub met : Bool
  pub block_id : Option Uuid

-- the map `contentFloors`
abbrev pub content_floors : List (String × List Requirement)
content_floors =
    (
      "character",
      record {
        id = "description";
        label = "Description";
        detail = "Write the description this character is built on.";
        role = description;
      }
          ∷ record {
            id = "greetings";
            label = "Greeting";
            detail = "Write at least one opening message.";
            role = greetings;
          }
          ∷ [],
    )
    ∷ (
      "lorebook",
      record {
        id = "entries";
        label = "Entry";
        detail = "Write at least one entry.";
        role = lorebook_entries;
      }
          ∷ [],
    )
    ∷ (
      "preset",
      record {
        id = "prompt_fragments";
        label = "Prompt fragment";
        detail = "Write at least one prompt fragment.";
        role = prompt_fragments;
      }
          ∷ [],
    )
    ∷ (
      "theme",
      record {
        id = "palette";
        label = "Palette";
        detail = "Add at least one colour to the palette.";
        role = theme_tokens;
      }
          ∷ [],
    )
    ∷ (
      "pack",
      record {
        id = "items";
        label = "Item";
        detail = "Add at least one item to the pack.";
        role = pack_items;
      }
          ∷ [],
    )
    ∷ []

unfoldable pub requirements_of : String → List Requirement
requirements_of kind = elim (lookup kind content_floors) [ none ↦ [] | some rs ↦ rs ]

-- What the two inner loops of `ContentFloor` carry.
pub record Measured : Type 0 where
  pub met : Bool
  pub block_id : Option Uuid

-- One round, over an element of the block with the id.
unfoldable pub measure : Role → Uuid → Element → Measured → Measured
measure role holder e m =
    if e.role == role
    then record {
      met = m.met || written e;
      block_id = if is_none m.block_id || (written e && not m.met) then some holder else m.block_id;
    }
    else m

unfoldable pub measure_elements : Role → Uuid → List Element → Measured → Measured
measure_elements role holder [] m = m
measure_elements role holder (e ∷ es) m = measure_elements role holder es (measure role holder e m)

unfoldable pub measure_blocks : Role → List Block → Measured → Measured
measure_blocks role [] m = m
measure_blocks role (b ∷ bs) m = measure_blocks role bs (measure_elements role b.id b.elements m)

unfoldable pub check_requirement : List Block → Requirement → Check
check_requirement blocks r =
    let m = measure_blocks r.role blocks (record { met = false; block_id = none }) in
    record { requirement = r; met = m.met; block_id = m.block_id }

-- `ContentFloor`
unfoldable pub content_floor : String → List Block → List Check
content_floor kind blocks = map (check_requirement blocks) (requirements_of kind)

-- `RequiredRoles`
unfoldable pub required_roles : String → List Role
required_roles kind = map (λ (r : Requirement). r.role) (requirements_of kind)
