-- ===== src/Block/Consistency.antt =====
-- What every entry of the catalogs satisfies, checked entry by entry: catalog.go against the
-- layouts of layout.go and the rules that validation.go puts on saved blocks.
use mathlib.Core.Path.{subst}
use lumi_hub.Base.{
  Bool, Bool-cases, IsInjective, List, Option-cases, String, all_of, all_of-append, and_true, arith,
  distinct, distinct-IsInjective, false, find_first-all_of, find_first_test, if◌then◌else◌, inl,
  inr, leb, leb→le, length, lookup, lookup-all_of, nat_beq, nat_beq_iff, nat_eq, none, not, refl,
  some, some_eq, string_eq, suc, true, zero, ℕ, ◌&&◌, ◌++◌, ◌<◌, ◌==◌, ◌||◌, ◌≡◌, ◌≤◌,
}
use lumi_hub.Block.Catalog.{
  DefinedElement, Definition, DefinitionId, Start, catalog, catalogs, definition_of, layout_for,
  shared, starts,
}
use lumi_hub.Block.Content.{empty_content, is_nil, known_type}
use lumi_hub.Block.Layout.{Layout, Slot, columns, minimum_width, slot_table, slots}
use lumi_hub.Block.Vocab.{
  ElementType, Options, allowed_types, allows, known_display, known_item_size, type_image_set,
  type_prose, type_text_set,
}

-- The options fit the type, as a test.
unfoldable pub options_fit : ElementType → Options → Bool
options_fit t o =
    (if t == type_prose || t == type_text_set then known_display o.display else o.display == "")
    && (if t == type_image_set then known_item_size o.item_size else o.item_size == "")

unfoldable pub element_fits : DefinedElement → Bool
element_fits e =
    known_type e.element_type
    && options_fit e.element_type e.options
    && (e.role == "" || allows e.role e.element_type)

-- The layout that the definition takes for so many elements is no wider than the definition.
unfoldable pub holds_count : Definition → ℕ → Bool
holds_count d n = elim (layout_for d n) [
  | none ↦ false
  | some l ↦ leb (columns (minimum_width l)) (columns d.width)
]

unfoldable pub holds_up_to : Definition → ℕ → Bool
holds_up_to d zero = holds_count d 0
holds_up_to d (suc n) = holds_count d (suc n) && holds_up_to d n

unfoldable pub start_fits : Definition → Start → Bool
start_fits d s =
    not (is_nil s.elements) && all_of element_fits s.elements && holds_count d (length s.elements)

unfoldable pub is_consistent : Definition → Bool
is_consistent d =
    all_of element_fits d.elements
    && all_of (start_fits d) (starts d)
    && holds_up_to d (length d.elements)
    && (d.required || all_of (λ e. not e.pinned) d.elements)

-- What the tests above compute with.
all_tests : Unit {0}
unfolding is_consistent start_fits holds_up_to holds_count element_fits options_fit known_display
    known_item_size known_type empty_content allowed_types allows starts layout_for slots
    minimum_width columns
all_tests = tt

shared_consistent : all_of is_consistent shared ≡ true
unfolding all_tests
shared_consistent = refl

own_consistent :
    all_of (λ (entry : String × List Definition). all_of is_consistent entry.1) catalogs ≡ true
unfolding all_tests
own_consistent = refl

-- Every entry of every kind's catalog is consistent.
pub catalog_consistent :
    (kind : String) {ds : List Definition} → catalog kind ≡ some ds → all_of is_consistent ds ≡ true
unfolding catalog
catalog_consistent kind {ds} h = elim (Option-cases (lookup kind catalogs)) [
  | inl missing ↦ cc (rw (missing, catalog) at h)
  | inr (own, found) ↦
      let same : some (own ++ shared) ≡ some ds = rw (found, catalog) at h in
      subst (λ l. all_of is_consistent l ≡ true) (some_eq same)
        (all_of-append is_consistent own shared
          (lookup-all_of (all_of is_consistent) kind catalogs own_consistent found)
          shared_consistent)
]

-- So is each definition that a kind finds.
pub definition_consistent :
    (id : DefinitionId) (kind : String) {d : Definition}
    → definition_of id kind ≡ some d
    → is_consistent d ≡ true
unfolding definition_of
definition_consistent id kind {d} h = elim (Option-cases (catalog kind)) [
  | inl missing ↦ cc (rw (missing, definition_of) at h)
  | inr (ds, found) ↦
      find_first-all_of is_consistent (λ (d : Definition). d.id == id) ds
        (catalog_consistent kind found) (rw (found, definition_of) at h)
]

-- No layout names a slot twice.
slot_tables_distinct : all_of (λ (entry : Layout × List Slot). distinct entry.1) slot_table ≡ true
slot_tables_distinct = refl

pub slots-IsInjective : (l : Layout) → IsInjective (slots l)
unfolding slots
slots-IsInjective l = elim (Option-cases (lookup l slot_table)) [
  | inl missing ↦ rw (missing, slots) (λ i j a h k. cc)
  | inr (names, found) ↦
      rw (found, slots)
        (distinct-IsInjective names
          (lookup-all_of distinct l slot_table slot_tables_distinct found))
]

pub element_fits-parts :
    (e : DefinedElement)
    → element_fits e ≡ true
    → (known_type e.element_type ≡ true)
      × (options_fit e.element_type e.options ≡ true)
      × ((e.role == "" || allows e.role e.element_type) ≡ true)
unfolding element_fits
element_fits-parts e h = ground arith

-- The room and the width that a consistent definition has for its own elements and its starts.
pub holds_count-layout :
    (d : Definition) (n : ℕ)
    → holds_count d n ≡ true
    → (l : Layout) × (layout_for d n ≡ some l)
      × (n ≤ length (slots l))
      × (columns (minimum_width l) ≤ columns d.width)
unfolding holds_count
holds_count-layout d n h = elim (Option-cases (layout_for d n)) [
  | inl missing ↦ cc (rw (missing, holds_count) at h)
  | inr (l, found) ↦ (
    l,
    found,
    leb→le _ _
        (unfold layout_for in find_first_test (λ l. leb n (length (slots l))) d.layouts found),
    leb→le _ _ (rw (found, holds_count) at h),
  )
]

pub is_consistent-parts :
    (d : Definition)
    → is_consistent d ≡ true
    → (all_of element_fits d.elements ≡ true)
      × (all_of (start_fits d) (starts d) ≡ true)
      × (holds_up_to d (length d.elements) ≡ true)
      × ((d.required || all_of (λ e. not e.pinned) d.elements) ≡ true)
unfolding is_consistent
is_consistent-parts d h = ground arith

pub start_fits-parts :
    (d : Definition) (s : Start)
    → start_fits d s ≡ true
    → (0 < length s.elements)
      × (all_of element_fits s.elements ≡ true)
      × (holds_count d (length s.elements) ≡ true)
unfolding start_fits
start_fits-parts d s h = ground arith

pub holds_up_to-le :
    (d : Definition) (m n : ℕ) → n ≤ m → holds_up_to d m ≡ true → holds_count d n ≡ true
unfolding holds_up_to
holds_up_to-le d zero n le h = let e : n ≡ 0 = omega arith in rw e h
holds_up_to-le d (suc m) n le h = elim (Bool-cases (nat_beq n (suc m))) [
  | inl same ↦
      rw ((nat_beq_iff _ _).0 same) (and_true (holds_count d (suc m)) (holds_up_to d m) h).0
  | inr differ ↦
      holds_up_to-le d m n (ground arith) (and_true (holds_count d (suc m)) (holds_up_to d m) h).1
]
