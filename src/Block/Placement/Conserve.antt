-- ===== src/Block/Placement/Conserve.antt =====
-- What the source wrote is on the page, as often as it was in the source: `Place` loses no written
-- element, repeats none and invents none.
use lumi_hub.Base.{
  >>=-eq-ok, Bool, Bool-cases, List, Option, Option-cases, String, [], append-nil, arith, false,
  get_elem?, if◌then◌else◌, inl, inr, length, map, none, not, ok, ok_eq, refl, some, some_eq, suc,
  zero, ℕ, ◌&&◌, ◌++◌, ◌+◌, ◌∷◌, ◌≡◌,
}
use lumi_hub.Block.Builder.Exact.{page_elements}
use lumi_hub.Block.Catalog.{DefinedElement, Definition, catalog, layout_for}
use lumi_hub.Block.Content.{Block, Content, Element, Uuid, empty_content, is_nil, is_nil-eq}
use lumi_hub.Block.Layout.{Slot, slots}
use lumi_hub.Block.Placement.{
  Source, Tagged, assign_slots, fill, fill_found, fill_index, fill_missing, fill_one, mark, place,
  place_all, place_filled, take_match, unplaced,
}
use lumi_hub.Block.Placement.Take.{is_skipped-parts, take_match-found}
use lumi_hub.Block.Vocab.{ElementType, Role}

-- A test on what an element means, which is what `Place` must not change: type, role and content.
abbrev pub Trait : Type 0
Trait = ElementType → Role → Option Content → Bool

abbrev pub has_trait : Trait → Element → ℕ
has_trait p e = if p e.element_type e.role e.content then 1 else 0

-- How many elements have the trait.
abbrev pub tally : Trait → List Element → ℕ
tally p [] = 0
tally p (e ∷ es) = has_trait p e + tally p es

-- How many of those that no block took have it.
abbrev pub pending : Trait → List Tagged → ℕ
pending p [] = 0
pending p (t ∷ ts) = (if t.placed then 0 else has_trait p t.element) + pending p ts

-- A trait of written elements: no empty content of a type has it.
abbrev pub IsWritten : Trait → Type 0
IsWritten p =
    (t : ElementType) (r : Role) (c : Content) → empty_content t ≡ some c → p t r (some c) ≡ false

tally-append : (p : Trait) (xs ys : List Element) → tally p (xs ++ ys) ≡ tally p xs + tally p ys
tally-append p [] ys = omega arith
tally-append p (x ∷ xs) ys = omega (arith, tally-append p xs ys)

pending-mark :
    (p : Trait) (ts : List Tagged) (i : ℕ) (t : Tagged)
    → get_elem? ts i ≡ some t
    → t.placed ≡ false
    → has_trait p t.element + pending p (mark ts i) ≡ pending p ts
pending-mark p [] i t at free = absurd (cc at)
pending-mark p (u ∷ ts) zero t at free =
    let same : u ≡ t = some_eq at in rw same (rw free (omega arith))
pending-mark p (u ∷ ts) (suc i) t at free = omega (arith, pending-mark p ts i t at free)

module _ (new_id : ℕ → Uuid) (p : Trait) (written_only : IsWritten p) where
  fill_found-tally :
      (d : Definition) (defined : DefinedElement) (s : Source) (i : ℕ) (t : Tagged)
      (es : List Element) (s' : Source)
      → get_elem? s.tagged i ≡ some t
      → t.placed ≡ false
      → fill_found new_id d defined s i t.element ≡ ok (es, s')
      → tally p es + pending p s'.tagged ≡ pending p s.tagged
  unfolding fill_found
  fill_found-tally d defined s i t es s' at free h =
      ground (arith, pending-mark p s.tagged i t at free)

  fill_missing-tally :
      (defined : DefinedElement) (s : Source) (es : List Element) (s' : Source)
      → fill_missing new_id defined s ≡ ok (es, s')
      → tally p es + pending p s'.tagged ≡ pending p s.tagged
  unfolding fill_missing
  fill_missing-tally defined s es s' h = elim (Option-cases (empty_content defined.element_type)) [
    | inl missing ↦ ground (arith, missing)
    | inr (c, found) ↦ ground (arith, found, written_only defined.element_type defined.role c found)
  ]

  fill_one-tally :
      (d : Definition) (defined : DefinedElement) (s : Source) (es : List Element) (s' : Source)
      → fill_one new_id d defined s ≡ ok (es, s')
      → tally p es + pending p s'.tagged ≡ pending p s.tagged
  unfolding fill_one fill_index
  fill_one-tally d defined s es s' h =
      let (found, taken, filled) =
        >>=-eq-ok (take_match d defined s.tagged) (λ found. fill_index new_id d defined s found)
          h in
      go found taken filled
    where
      go :
          (found : Option ℕ)
          → take_match d defined s.tagged ≡ ok found
          → fill_index new_id d defined s found ≡ ok (es, s')
          → tally p es + pending p s'.tagged ≡ pending p s.tagged
      go none taken filled = fill_missing-tally defined s es s' filled
      go (some i) taken filled =
          let (t, at, m) = take_match-found d defined s.tagged i taken in
          fill_found-tally d defined s i t es s' at (is_skipped-parts defined t m).0
            (rw (at, fill_index) at filled)

  fill-tally :
      (d : Definition) (ds : List DefinedElement) (s : Source) (es : List Element) (s' : Source)
      → fill new_id d ds s ≡ ok (es, s')
      → tally p es + pending p s'.tagged ≡ pending p s.tagged
  unfolding fill
  fill-tally d [] s es s' h = ground arith
  fill-tally d (defined ∷ ds) s es s' h =
      let ((one, mid), first, rest) = >>=-eq-ok (fill_one new_id d defined s) _ h in
      let ((more, last), second, same) = >>=-eq-ok (fill new_id d ds mid) _ rest in
      ground (
        arith,
        ok_eq same,
        tally-append p one more,
        fill_one-tally d defined s one mid first,
        fill-tally d ds mid more last second,
      )

assign_slots-tally :
    (p : Trait) (es : List Element) (available : List Slot) (arranged : List Element)
    → assign_slots es available ≡ ok arranged
    → tally p arranged ≡ tally p es
unfolding assign_slots
assign_slots-tally p [] available arranged h = ground arith
assign_slots-tally p (e ∷ es) [] arranged h = absurd (cc h)
assign_slots-tally p (e ∷ es) (s ∷ available) arranged h =
    let (rest, slotted, same) = >>=-eq-ok (assign_slots es available) _ h in
    ground (arith, ok_eq same, assign_slots-tally p es available rest slotted)

module _ (new_id : ℕ → Uuid) (p : Trait) (written_only : IsWritten p) where
  place_filled-tally :
      (d : Definition) (position : ℕ) (es : List Element) (s : Source) (bs : List Block)
      (s' : Source)
      → place_filled new_id d position es s ≡ ok (bs, s')
      → (tally p (page_elements bs) ≡ tally p es) × (s'.tagged ≡ s.tagged)
  unfolding place_filled page_elements
  place_filled-tally d position es s bs s' h = elim (Bool-cases (is_nil es && not d.required)) [
    | inl absent ↦ ground (arith, is_nil-eq es, absent)
    | inr present ↦ elim (Option-cases (layout_for d (length es))) [
      | inl missing ↦ absurd (ground (arith, present, missing))
      | inr (l, found) ↦
          let (arranged, slotted, same) =
            >>=-eq-ok (assign_slots es (slots l)) _
              (rw (found, place_filled) at (rw (present, place_filled) at h)) in
          ground (
            arith,
            ok_eq same,
            assign_slots-tally p es (slots l) arranged slotted,
            append-nil arranged,
          )
    ]
  ]

  page_elements-append :
      (front bs : List Block)
      → tally p (page_elements (front ++ bs))
        ≡ tally p (page_elements front) + tally p (page_elements bs)
  unfolding page_elements
  page_elements-append [] bs = omega arith
  page_elements-append (b ∷ front) bs = omega (
    arith,
    page_elements-append front bs,
    tally-append p b.elements (page_elements front),
    tally-append p b.elements (page_elements (front ++ bs)),
  )

  place_all-tally :
      (ds : List Definition) (position : ℕ) (s : Source) (bs : List Block) (s' : Source)
      → place_all new_id ds position s ≡ ok (bs, s')
      → tally p (page_elements bs) + pending p s'.tagged ≡ pending p s.tagged
  unfolding place_all
  place_all-tally [] position s bs s' h = unfold page_elements in ground arith
  place_all-tally (d ∷ ds) position s bs s' h =
      let ((es, mid), filled, rest) = >>=-eq-ok (fill new_id d d.elements s) _ h in
      let ((one, onward), placed, more) =
        >>=-eq-ok (place_filled new_id d position es mid) _ rest in
      let ((others, last), follow, same) =
        >>=-eq-ok (place_all new_id ds (position + length one) onward) _ more in
      ground (
        arith,
        ok_eq same,
        fill-tally new_id p written_only d d.elements s es mid filled,
        place_filled-tally d position es mid one onward placed,
        page_elements-append one others,
        place_all-tally ds (position + length one) onward others last follow,
      )

unplaced-pending : (p : Trait) (ts : List Tagged) → unplaced ts ≡ none → pending p ts ≡ 0
unfolding unplaced
unplaced-pending p [] h = refl
unplaced-pending p (t ∷ ts) h = ground (arith, unplaced-pending p ts)

pending-tally :
    (p : Trait) (es : List Element)
    → pending p (map (λ (e : Element). record { element = e; placed = false }) es) ≡ tally p es
pending-tally p [] = refl
pending-tally p (e ∷ es) = omega (arith, pending-tally p es)

-- When `Place` succeeds, every trait of written elements is on the page exactly as often as it is
-- in the source, whatever the kind and the new ids.
pub tally-place :
    (new_id : ℕ → Uuid) (kind : String) (tagged : List Element) (p : Trait) {bs : List Block}
    → IsWritten p
    → place new_id kind tagged ≡ ok bs
    → tally p (page_elements bs) ≡ tally p tagged
unfolding place
tally-place new_id kind tagged p {bs} written_only h = elim (Option-cases (catalog kind)) [
  | inl missing ↦ absurd (cc (rw (missing, place) at h))
  | inr (ds, found) ↦
      let start : Source = record {
        tagged = map (λ (e : Element). record { element = e; placed = false }) tagged;
        minted = 0;
      } in
      let ((blocks, last), all_placed, rest) =
        >>=-eq-ok (place_all new_id ds 0 start) _ (rw (found, place) at h) in
      ground (
        arith,
        rest,
        place_all-tally new_id p written_only ds 0 start blocks last all_placed,
        unplaced-pending p last.tagged,
        pending-tally p tagged,
      )
]
