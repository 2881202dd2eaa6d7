-- ===== src/Block/Builder/Pins.antt =====
-- What the loop over the pinned elements accepts.
use mathlib.Core.Bool.{false≢true}
use lumi_hub.Base.{
  All, List, Option-cases, Somewhere, Somewhere-any_of, String, [], and_true, any_of-Somewhere,
  arith, inl, inr, nat_eq, none, ok, refl, string_eq, true, ◌&&◌, ◌==◌, ◌↔◌, ◌∷◌, ◌≡◌,
}
use lumi_hub.Block.Builder.{check_pins, check_pins_in, check_pins_of, is_present}
use lumi_hub.Block.Catalog.{definition_of}
use lumi_hub.Block.Content.{Block, Element, Uuid}
use lumi_hub.Block.Placement.{is_pinned}

-- The element stands, with its role and its type, in a block of that id.
abbrev pub IsPresent : List Block → Uuid → Element → Type 0
IsPresent after id e =
    Somewhere
      (λ (h : Block).
        (h.id ≡ id)
        × Somewhere
            (λ (c : Element). (c.id ≡ e.id) × (c.role ≡ e.role) × (c.element_type ≡ e.element_type))
            h.elements)
      after

same_element_iff :
    (e c : Element)
    → ((c.id == e.id && c.role == e.role && c.element_type == e.element_type) ≡ true)
      ↔ ((c.id ≡ e.id) × (c.role ≡ e.role) × (c.element_type ≡ e.element_type))
same_element_iff e c = ground (
  arith,
  nat_eq.equal_iff c.id e.id,
  string_eq.equal_iff c.role e.role,
  string_eq.equal_iff c.element_type e.element_type,
)

pub is_present_iff :
    (after : List Block) (id : Uuid) (e : Element)
    → (is_present after id e ≡ true) ↔ IsPresent after id e
unfolding is_present
is_present_iff after id e = (
  (λ h.
      let (i, holder, at, both) = any_of-Somewhere _ after h in
      let (same, inner) = and_true (holder.id == id) _ both in
      let (j, c, stands, holds) = any_of-Somewhere _ holder.elements inner in
      (
        i,
        holder,
        at,
        ((nat_eq.equal_iff holder.id id).0 same, (j, c, stands, (same_element_iff e c).0 holds)),
      )),
  λ (i, holder, at, (same, (j, c, stands, holds))). Somewhere-any_of _ after (
    i,
    holder,
    at,
    rw ((nat_eq.equal_iff holder.id id).1 same)
        (Somewhere-any_of _ holder.elements (j, c, stands, (same_element_iff e c).1 holds)),
  ),
)

-- Every element of the block that is pinned there is still there.
abbrev pub KeepsPins : String → List Block → Block → Type 0
KeepsPins kind after b =
    All (λ (e : Element). is_pinned b e.role kind ≡ true → IsPresent after b.id e) b.elements

module _ (kind : String) (after : List Block) where
  check_pins_of_iff :
      (b : Block) (title : String) (es : List Element)
      → (check_pins_of kind after b title es ≡ ok tt)
        ↔ All (λ (e : Element). is_pinned b e.role kind ≡ true → IsPresent after b.id e) es
  unfolding check_pins_of
  check_pins_of_iff b title [] = ((λ h. tt), λ h. refl)
  check_pins_of_iff b title (e ∷ es) =
      ground (arith, is_present_iff after b.id e, check_pins_of_iff b title es)

  -- Nothing is pinned in a block whose definition the kind lacks.
  no_pins :
      (b : Block) (es : List Element)
      → definition_of b.definition kind ≡ none
      → All (λ (e : Element). is_pinned b e.role kind ≡ true → IsPresent after b.id e) es
  unfolding is_pinned
  no_pins b [] missing = tt
  no_pins b (e ∷ es) missing =
      ((λ h. absurd (false≢true (rw (missing, is_pinned) at h))), no_pins b es missing)

  check_pins_in_iff : (b : Block) → (check_pins_in kind after b ≡ ok tt) ↔ KeepsPins kind after b
  unfolding check_pins_in
  check_pins_in_iff b = elim (Option-cases (definition_of b.definition kind)) [
    | inl missing ↦ ((λ h. no_pins b b.elements missing), λ h. rw (missing, check_pins_in))
    | inr (d, found) ↦ (
      (λ h. (check_pins_of_iff b d.title b.elements).0 (rw (found, check_pins_in) at h)),
      λ h. rw (found, check_pins_in) ((check_pins_of_iff b d.title b.elements).1 h),
    )
  ]

  pub check_pins_iff :
      (bs : List Block) → (check_pins kind after bs ≡ ok tt) ↔ All (KeepsPins kind after) bs
  unfolding check_pins
  check_pins_iff [] = ((λ h. tt), λ h. refl)
  check_pins_iff (b ∷ bs) = ground (arith, check_pins_in_iff b, check_pins_iff bs)
