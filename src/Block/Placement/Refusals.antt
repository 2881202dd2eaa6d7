-- ===== src/Block/Placement/Refusals.antt =====
-- Which errors `Place` returns: a consistent catalog leaves three of them.
use mathlib.Core.Path.{subst}
use lumi_hub.Base.{
  >>=-eq-err, >>=-eq-ok, Has, List, Option, Option-cases, Result, String, [], all_of, and_true,
  arith, err, inl, inr, keep, length, length-append, nat_eq, none, ok, ok_eq, refl, some, string_eq,
  true, ℕ, ◌+◌, ◌==◌, ◌∙◌, ◌∷◌, ◌≡◌, ◌≤◌,
}
use lumi_hub.Block.Catalog.{DefinedElement, Definition, catalog}
use lumi_hub.Block.Consistency.{
  catalog_consistent, element_fits, element_fits-parts, holds_count, holds_count-layout,
  holds_up_to-le, is_consistent, is_consistent-parts,
}
use lumi_hub.Block.Content.{Element, Uuid, empty_content, known_type}
use lumi_hub.Block.Layout.{Slot, slots}
use lumi_hub.Block.Placement.{
  PlaceError, Source, Tagged, assign_slots, fill, fill_found, fill_index, fill_missing, fill_one,
  no_catalog, nowhere, place, place_all, place_filled, take_match, two_for_one, unplaced,
}
use lumi_hub.Block.Placement.Homeless.{place_all-left, unplaced-open}
use lumi_hub.Block.Placement.Kept.{
  fill-sources, fill_one-sources, place_all-sources, place_filled-sources, sources, sources-start,
  start_source, unplaced-Has,
}
use lumi_hub.Block.Placement.Left.{asks, is_homeless, take_match-two}
use lumi_hub.Block.Placement.Take.{is_skipped-parts, take_match-err, take_match-found}
use lumi_hub.Block.Vocab.{ElementType}

-- A refusal of `Place` on this kind and source, with what justifies it.
pub data IsRefusal (kind : String) (tagged : List Element) : PlaceError → Type 0 where
  unknown_kind : catalog kind ≡ none → IsRefusal kind tagged (no_catalog kind)
  doubled :
      (ds : List Definition) (d : Definition) (defined : DefinedElement)
      → catalog kind ≡ some ds
      → Has d ds
      → Has defined d.elements
      → 2 ≤ length (keep (asks defined) tagged)
      → IsRefusal kind tagged (two_for_one d.id defined.element_type)
  homeless :
      (ds : List Definition) (e : Element)
      → catalog kind ≡ some ds
      → Has e tagged
      → is_homeless ds e ≡ true
      → IsRefusal kind tagged (nowhere kind e.role)

-- The error is of an element of these that the source has twice.
abbrev IsDoubled : Definition → List DefinedElement → List Element → PlaceError → Type 0
IsDoubled d defined_elements tagged x =
    (defined : DefinedElement) × Has defined defined_elements
    × (2 ≤ length (keep (asks defined) tagged))
    × (x ≡ two_for_one d.id defined.element_type)

empty_content-known : (t : ElementType) → known_type t ≡ true → empty_content t ≡ none → ⊥
unfolding known_type
empty_content-known t known missing = absurd (cc (rw (missing, known_type) at known))

module _ (new_id : ℕ → Uuid) (d : Definition) where
  fill_found-err :
      (defined : DefinedElement) (s : Source) (i : ℕ) (t : Tagged) (x : PlaceError)
      → (t.element.element_type == defined.element_type) ≡ true
      → fill_found new_id d defined s i t.element ≡ err x
      → ⊥
  unfolding fill_found
  fill_found-err defined s i t x same h = ground (arith, same)

  fill_missing-err :
      (defined : DefinedElement) (s : Source) (x : PlaceError)
      → known_type defined.element_type ≡ true
      → fill_missing new_id defined s ≡ err x
      → ⊥
  unfolding fill_missing
  fill_missing-err defined s x known h =
      ground (arith, empty_content-known defined.element_type known)

  fill_one-err :
      (defined : DefinedElement) (s : Source) (x : PlaceError)
      → known_type defined.element_type ≡ true
      → fill_one new_id d defined s ≡ err x
      → (2 ≤ length (keep (asks defined) (sources s.tagged)))
        × (x ≡ two_for_one d.id defined.element_type)
  unfolding fill_one fill_index
  fill_one-err defined s x known h = go (take_match d defined s.tagged) refl
    where
      go :
          (r : Result PlaceError (Option ℕ))
          → take_match d defined s.tagged ≡ r
          → (2 ≤ length (keep (asks defined) (sources s.tagged)))
            × (x ≡ two_for_one d.id defined.element_type)
      go (err e) taken = (
        take_match-two d defined s.tagged e taken,
        ground (arith, take_match-err d defined s.tagged e taken),
      )
      go (ok none) taken = absurd (fill_missing-err defined s x known (rw (taken, fill_one) at h))
      go (ok (some i)) taken =
          let (t, at, m) = take_match-found d defined s.tagged i taken in
          absurd (
            fill_found-err defined s i t x (is_skipped-parts defined t m).2
              (rw (at, fill_index) at (rw (taken, fill_one) at h)))

  fill-err :
      (ds : List DefinedElement) (s : Source) (x : PlaceError)
      → all_of element_fits ds ≡ true
      → fill new_id d ds s ≡ err x
      → IsDoubled d ds (sources s.tagged) x
  unfolding fill
  fill-err [] s x fits h = absurd (cc h)
  fill-err (defined ∷ ds) s x fits h =
      let (fit, fits') = and_true (element_fits defined) (all_of element_fits ds) fits in
      elim (>>=-eq-err (fill_one new_id d defined s) _ h) [
        | inl first ↦
            let (two, same) = fill_one-err defined s x (element_fits-parts defined fit).0 first in
            (defined, inl refl, two, same)
        | inr ((one, mid), first, rest) ↦ elim (>>=-eq-err (fill new_id d ds mid) _ rest) [
          | inl second ↦
              let (of, among, two, same) = fill-err ds mid x fits' second in
              (
                of,
                inr among,
                subst (λ es. 2 ≤ length (keep (asks of) es))
                    (fill_one-sources new_id d defined s one mid first) two,
                same,
              )
          | inr (more, second, last) ↦ absurd (cc last)
        ]
      ]

  fill_one-length :
      (defined : DefinedElement) (s : Source) (es : List Element) (s' : Source)
      → fill_one new_id d defined s ≡ ok (es, s')
      → length es ≤ 1
  unfolding fill_one fill_index fill_missing fill_found
  fill_one-length defined s es s' h = ground arith

  fill-length :
      (ds : List DefinedElement) (s : Source) (es : List Element) (s' : Source)
      → fill new_id d ds s ≡ ok (es, s')
      → length es ≤ length ds
  unfolding fill
  fill-length [] s es s' h = ground arith
  fill-length (defined ∷ ds) s es s' h =
      let ((one, mid), first, rest) = >>=-eq-ok (fill_one new_id d defined s) _ h in
      let ((more, last), second, same) = >>=-eq-ok (fill new_id d ds mid) _ rest in
      ground (
        arith,
        ok_eq same,
        length-append one more,
        fill_one-length defined s one mid first,
        fill-length ds mid more last second,
      )

assign_slots-err :
    (es : List Element) (available : List Slot) (x : PlaceError)
    → length es ≤ length available
    → assign_slots es available ≡ err x
    → ⊥
unfolding assign_slots
assign_slots-err [] available x room h = absurd (cc h)
assign_slots-err (e ∷ es) [] x room h = absurd (omega arith)
assign_slots-err (e ∷ es) (s ∷ available) x room h =
    elim (>>=-eq-err (assign_slots es available) _ h) [
      | inl earlier ↦ assign_slots-err es available x (omega arith) earlier
      | inr (rest, slotted, last) ↦ absurd (cc last)
    ]

module _ (new_id : ℕ → Uuid) where
  place_filled-err :
      (d : Definition) (position : ℕ) (es : List Element) (s : Source) (x : PlaceError)
      → holds_count d (length es) ≡ true
      → place_filled new_id d position es s ≡ err x
      → ⊥
  unfolding place_filled
  place_filled-err d position es s x counted h =
      let (l, found, room, wide) = holds_count-layout d (length es) counted in
      ground (arith, found, assign_slots-err es (slots l) x room)

  place_all-err :
      (ds : List Definition) (position : ℕ) (s : Source) (x : PlaceError)
      → all_of is_consistent ds ≡ true
      → place_all new_id ds position s ≡ err x
      → (d : Definition) × Has d ds × IsDoubled d d.elements (sources s.tagged) x
  unfolding place_all
  place_all-err [] position s x fits h = absurd (cc h)
  place_all-err (d ∷ ds) position s x fits h =
      let (fit, fits') = and_true (is_consistent d) (all_of is_consistent ds) fits in
      let (typed, starts_wide, counted, slots_fit) = is_consistent-parts d fit in
      elim (>>=-eq-err (fill new_id d d.elements s) _ h) [
        | inl first ↦ (d, inl refl, fill-err new_id d d.elements s x typed first)
        | inr ((es, mid), filled, rest) ↦
            elim (>>=-eq-err (place_filled new_id d position es mid) _ rest) [
              | inl second ↦ absurd (
                  place_filled-err d position es mid x
                    (holds_up_to-le d (length d.elements) (length es)
                      (fill-length new_id d d.elements s es mid filled) counted)
                    second)
              | inr ((one, onward), built, more) ↦
                  elim (>>=-eq-err (place_all new_id ds (position + length one) onward) _ more) [
                    | inl third ↦
                        let (of, among, doubling) =
                          place_all-err ds (position + length one) onward x fits' third in
                        (
                          of,
                          inr among,
                          subst (λ es. IsDoubled of of.elements es x)
                              (place_filled-sources new_id d position es mid one onward built
                                ∙ fill-sources new_id d d.elements s es mid filled)
                              doubling,
                        )
                    | inr (others, third, last) ↦ absurd (cc last)
                  ]
            ]
      ]

-- On any source, `Place` fails only for a kind without a catalog, for two or more elements of the one
-- role and type that an element of a definition of the kind asks for, or for an element of the source
-- whose role and type no definition of the kind asks for: no catalog entry lacks a layout, a slot or a
-- content for what it holds.
pub place-IsRefusal :
    (new_id : ℕ → Uuid) (kind : String) (tagged : List Element) {x : PlaceError}
    → place new_id kind tagged ≡ err x
    → IsRefusal kind tagged x
unfolding place
place-IsRefusal new_id kind tagged {x} h = elim (Option-cases (catalog kind)) [
  | inl missing ↦
      let e : x ≡ no_catalog kind = ground (arith, missing) in rw e (unknown_kind missing)
  | inr (ds, found) ↦
      elim (>>=-eq-err (place_all new_id ds 0 (start_source tagged)) _ (rw (found, place) at h)) [
        | inl first ↦
            let (d, among, (defined, of_it, two, e)) =
              place_all-err new_id ds 0 (start_source tagged) x (catalog_consistent kind found)
                first in
            rw e (
              doubled ds d defined found among of_it
                (subst (λ es. 2 ≤ length (keep (asks defined) es)) (sources-start tagged) two))
        | inr ((bs, last), placed, rest) ↦ elim (Option-cases (unplaced last.tagged)) [
          | inl none_left ↦ absurd (cc (rw (none_left, place) at rest))
          | inr (e, left) ↦
              let same : x ≡ nowhere kind e.role = ground (arith, left) in
              let (t, stands, free, its) = unplaced-open last.tagged left in
              rw same (
                homeless ds e found
                  (rw
                    (place_all-sources new_id ds 0 (start_source tagged) bs last placed
                      ∙ sources-start tagged)
                    at (unplaced-Has last.tagged left))
                  (subst (λ (o : Element). is_homeless ds o ≡ true) its
                    (place_all-left new_id ds 0 (start_source tagged) bs last t placed stands
                      free)))
        ]
      ]
]
