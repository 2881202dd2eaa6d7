-- ===== src/Block/Structure/Rounds.antt =====
-- What one round of `ValidateStructure` accepts, and what its whole loop accepts.
use lumi_hub.Base.{
  All, Eq, IsFresh-IsInjective, IsInjective, IsInjective-IsFresh, List, [], arith, beq→neq,
  contains, contains-eq-false, false, keys_of, lookup-eq-none, nat_eq, neq→beq, ok, refl, string_eq,
  true, ℕ, ◌↔◌, ◌≡◌, ◌≢◌,
}
use lumi_hub.Block.Content.{Element, known_type, nil_id}
use lumi_hub.Block.Layout.{Layout, slots}
use lumi_hub.Block.Structure.{
  Seen, StructureError, check_display, check_element, check_item_size, ids_of, refuse_repeat,
  shared_element_id, shared_slot, validate_item_ids,
}
use lumi_hub.Block.Structure.Loops.{check_ids_complete, check_ids_sound}
use lumi_hub.Block.Vocab.{
  ElementType, Options, known_display, known_item_size, type_image_set, type_prose, type_text_set,
}

-- The presentation options fit the type of the element.
abbrev pub FitsOptions : ElementType → Options → Type 0
FitsOptions t o =
    (t ≡ type_prose → known_display o.display ≡ true)
    × (t ≡ type_text_set → known_display o.display ≡ true)
    × (t ≢ type_prose → t ≢ type_text_set → o.display ≡ "")
    × (t ≡ type_image_set → known_item_size o.item_size ≡ true)
    × (t ≢ type_image_set → o.item_size ≡ "")

-- What is asked of an element by itself, in a block of the layout.
pub record IsSound (layout : Layout) (e : Element) : Type 0 where
  pub type_known : known_type e.element_type ≡ true
  pub has_id : e.id ≢ nil_id
  pub items_set : All (λ id. id ≢ nil_id) (ids_of e.content)
  pub items_differ : IsInjective (ids_of e.content)
  pub options_fit : FitsOptions e.element_type e.options
  pub slot_known : contains (slots layout) e.slot ≡ true

check_display_iff :
    (at : ℕ) (e : Element)
    → (check_display at e ≡ ok tt) ↔ (
        (e.element_type ≡ type_prose → known_display e.options.display ≡ true)
        × (e.element_type ≡ type_text_set → known_display e.options.display ≡ true)
        × (e.element_type ≢ type_prose → e.element_type ≢ type_text_set → e.options.display ≡ ""))
unfolding check_display
check_display_iff at e = ground (
  arith,
  string_eq.equal_iff e.element_type type_prose,
  string_eq.equal_iff e.element_type type_text_set,
  string_eq.equal_iff e.options.display "",
)

check_item_size_iff :
    (at : ℕ) (e : Element)
    → (check_item_size at e ≡ ok tt) ↔ (
        (e.element_type ≡ type_image_set → known_item_size e.options.item_size ≡ true)
        × (e.element_type ≢ type_image_set → e.options.item_size ≡ ""))
unfolding check_item_size
check_item_size_iff at e = ground (
  arith,
  string_eq.equal_iff e.element_type type_image_set,
  string_eq.equal_iff e.options.item_size "",
)

validate_item_ids_iff :
    (at : ℕ) (e : Element)
    → (validate_item_ids at e ≡ ok tt)
      ↔ (All (λ id. id ≢ nil_id) (ids_of e.content) × IsInjective (ids_of e.content))
unfolding validate_item_ids
validate_item_ids_iff at e = (
  (λ h.
      let (given, new) = check_ids_sound at 0 [] (ids_of e.content) h in
      (given, IsFresh-IsInjective [] (ids_of e.content) new)),
  (λ (given, differ).
      check_ids_complete at 0 [] (ids_of e.content) given
        (IsInjective-IsFresh [] (ids_of e.content) (λ i a h. refl) differ)),
)

refuse_repeat_iff {ℓ} :
    {K : Type ℓ} ⦃eq : Eq K⦄ (key : K) (m : List (K × ℕ)) (e : ℕ → StructureError)
    → (refuse_repeat key m e ≡ ok tt) ↔ (contains (keys_of m) key ≡ false)
unfolding refuse_repeat
refuse_repeat_iff key m e = ground (arith, lookup-eq-none key m, contains-eq-false key m)

-- An element passes its round exactly if it is sound by itself, and neither its id nor its slot
-- was met before.
pub check_element_iff :
    (layout : Layout) (at : ℕ) (seen : Seen) (e : Element)
    → (check_element layout at seen e ≡ ok tt) ↔ (
        IsSound layout e
        × (contains (keys_of seen.identities) e.id ≡ false)
        × (contains (keys_of seen.occupied) e.slot ≡ false))
unfolding check_element
check_element_iff layout at seen e = ground (
  arith,
  beq→neq e.id nil_id,
  neq→beq e.id nil_id,
  validate_item_ids_iff at e,
  check_display_iff at e,
  check_item_size_iff at e,
  refuse_repeat_iff e.id seen.identities (λ prior. shared_element_id prior at),
  refuse_repeat_iff e.slot seen.occupied (λ prior. shared_slot prior at e.slot),
)
