-- ===== src/Block/Structure/Exact.antt =====
-- `ValidateStructure` against a description of a readable block that has no loop in it.
use lumi_hub.Base.{
  All, IsFresh, IsFresh-IsInjective, IsInjective, IsInjective-IsFresh, List, [], arith, false,
  get_elem?, keys_of, length, map, nat_eq, ok, refl, some, string_eq, ℕ, ◌+◌, ◌↔◌, ◌∷◌, ◌≡◌, ◌≢◌,
  ◌≤◌,
}
use lumi_hub.Block.Content.{Block, Element, Uuid, is_nil}
use lumi_hub.Block.Layout.{Layout, Slot, slots}
use lumi_hub.Block.Structure.{Encoder, Seen, check_elements, see, validate_structure}
use lumi_hub.Block.Structure.Loops.{
  IsWithinLimits, validate_content_limits_complete, validate_content_limits_sound,
}
use lumi_hub.Block.Structure.Rounds.{IsSound, check_element_iff}

abbrev pub element_ids : List Element → List Uuid
element_ids = map (λ e. e.id)

abbrev pub element_slots : List Element → List Slot
element_slots = map (λ e. e.slot)

-- The loop accepts the elements that are sound, with new ids and new slots.
pub check_elements_iff :
    (layout : Layout) (at : ℕ) (seen : Seen) (es : List Element)
    → (check_elements layout at seen es ≡ ok tt) ↔ (
        All (IsSound layout) es
        × IsFresh (keys_of seen.identities) (element_ids es)
        × IsFresh (keys_of seen.occupied) (element_slots es))
unfolding check_elements
check_elements_iff layout at seen [] = ((λ h. (tt, tt, tt)), λ h. refl)
check_elements_iff layout at seen (e ∷ es) = ground (
  arith,
  check_element_iff layout at seen e,
  check_elements_iff layout (at + 1) (see e at seen) es,
)

-- A block that can be read: a known layout with a place for every element, every element sound
-- and within the limits, and no id and no slot used twice.
pub record IsReadable (json : Encoder) (b : Block) : Type 0 where
  pub within_limits : All (IsWithinLimits json) b.elements
  pub layout_known : slots b.layout ≢ []
  pub has_room : length b.elements ≤ length (slots b.layout)
  pub sound : All (IsSound b.layout) b.elements
  pub ids_differ : IsInjective (element_ids b.elements)
  pub slots_differ : IsInjective (element_slots b.elements)

is_nil_iff {ℓ} : {A : Type ℓ} (xs : List A) → (is_nil xs ≡ false) ↔ (xs ≢ [])
is_nil_iff [] = ground arith
is_nil_iff (x ∷ xs) = ground arith

-- `ValidateStructure` accepts a block exactly if it is readable.
pub validate_structure-IsReadable :
    (json : Encoder) (b : Block) → (validate_structure json b ≡ ok tt) ↔ IsReadable json b
unfolding validate_structure
validate_structure-IsReadable json b = ground (
  arith,
  validate_content_limits_sound json b.elements,
  validate_content_limits_complete json b.elements,
  is_nil_iff (slots b.layout),
  check_elements_iff b.layout 0 (record { identities = []; occupied = [] }) b.elements,
  IsFresh-IsInjective [] (element_ids b.elements),
  IsFresh-IsInjective [] (element_slots b.elements),
  IsInjective-IsFresh [] (element_ids b.elements)
      (λ (i : ℕ) (a : Uuid) (h : get_elem? (element_ids b.elements) i ≡ some a). refl),
  IsInjective-IsFresh [] (element_slots b.elements)
      (λ (i : ℕ) (a : Slot) (h : get_elem? (element_slots b.elements) i ≡ some a). refl),
)
