-- ===== src/Block/Placement/Left.antt =====
-- What the loops of `Place` leave: an element that stays unplaced was asked for by no definition, and
-- an element type that is refused twice is there twice.
use lumi_hub.Base.{
  Bool, Bool-cases, Has, List, Option, [], all_of, ap, arith, err, false, inl, inr, keep, length,
  nat_eq, none, not, ok, ok_eq, refl, some, some_eq, string_eq, suc, sym, true, zero, ℕ, ◌&&◌, ◌+◌,
  ◌==◌, ◌∷◌, ◌≡◌, ◌≤◌,
}
use lumi_hub.Block.Catalog.{DefinedElement, Definition}
use lumi_hub.Block.Content.{Element}
use lumi_hub.Block.Placement.{PlaceError, Tagged, is_skipped, mark, take_from, take_match}
use lumi_hub.Block.Placement.Kept.{sources}
use lumi_hub.Block.Placement.Take.{is_skipped-parts}

-- The definition takes elements of this role and type.
abbrev pub asks : DefinedElement → Element → Bool
asks defined e = e.role == defined.role && e.element_type == defined.element_type

-- No definition of these asks for the element.
abbrev pub is_unasked : List DefinedElement → Element → Bool
is_unasked defined e = all_of (λ (d : DefinedElement). not (asks d e)) defined

abbrev pub is_homeless : List Definition → Element → Bool
is_homeless ds e = all_of (λ (d : Definition). is_unasked d.elements e) ds

abbrev pub asked : DefinedElement → List Tagged → List Element
asked defined ts = keep (asks defined) (sources ts)

pub skipped_unasked :
    (defined : DefinedElement) (t : Tagged)
    → is_skipped defined t ≡ true
    → t.placed ≡ false
    → asks defined t.element ≡ false
unfolding is_skipped
skipped_unasked defined t skipped free = ground (arith, skipped, free)

module _ (d : Definition) (defined : DefinedElement) where
  -- A second match after a first is an error.
  one_asked :
      (i j : ℕ) (ts : List Tagged) (x : PlaceError)
      → take_from d defined i (some j) ts ≡ err x
      → 1 ≤ length (asked defined ts)
  unfolding take_from
  one_asked i j [] x h = absurd (cc h)
  one_asked i j (t ∷ ts) x h = elim (Bool-cases (is_skipped defined t)) [
    | inl skipped ↦
        let more = one_asked (i + 1) j ts x (rw (skipped, take_from) at h) in
        elim (Bool-cases (asks defined t.element)) [
          | inl wants ↦ rw wants (omega (arith, more))
          | inr declines ↦ rw declines more
        ]
    | inr matches ↦
        let (free, role, type) = is_skipped-parts defined t matches in
        rw role (rw type (omega arith))
  ]

  two_asked :
      (i : ℕ) (ts : List Tagged) (x : PlaceError)
      → take_from d defined i none ts ≡ err x
      → 2 ≤ length (asked defined ts)
  unfolding take_from
  two_asked i [] x h = absurd (cc h)
  two_asked i (t ∷ ts) x h = elim (Bool-cases (is_skipped defined t)) [
    | inl skipped ↦
        let more = two_asked (i + 1) ts x (rw (skipped, take_from) at h) in
        elim (Bool-cases (asks defined t.element)) [
          | inl wants ↦ rw wants (omega (arith, more))
          | inr declines ↦ rw declines more
        ]
    | inr matches ↦
        let (free, role, type) = is_skipped-parts defined t matches in
        let more = one_asked (i + 1) i ts x (rw (matches, take_from) at h) in
        rw role (rw type (omega (arith, more)))
  ]

  pub take_match-two :
      (ts : List Tagged) (x : PlaceError)
      → take_match d defined ts ≡ err x
      → 2 ≤ length (asked defined ts)
  unfolding take_match
  take_match-two ts x h = two_asked 0 ts x h

  -- After a match everything else is skipped.
  take_from-rest :
      (i j : ℕ) (ts : List Tagged) {r : Option ℕ}
      → take_from d defined i (some j) ts ≡ ok r
      → (r ≡ some j) × (all_of (is_skipped defined) ts ≡ true)
  unfolding take_from
  take_from-rest i j [] h = (sym (ok_eq {E = PlaceError} h), refl)
  take_from-rest i j (t ∷ ts) {r} h = elim (Bool-cases (is_skipped defined t)) [
    | inl skipped ↦
        let (same, rest) = take_from-rest (i + 1) j ts (rw (skipped, take_from) at h) in
        (same, rw skipped rest)
    | inr matches ↦ absurd (cc (rw (matches, take_from) at h))
  ]

  pub take_from-none :
      (i : ℕ) (ts : List Tagged)
      → take_from d defined i none ts ≡ ok none
      → all_of (is_skipped defined) ts ≡ true
  unfolding take_from
  take_from-none i [] h = refl
  take_from-none i (t ∷ ts) h = elim (Bool-cases (is_skipped defined t)) [
    | inl skipped ↦ rw skipped (take_from-none (i + 1) ts (rw (skipped, take_from) at h))
    | inr matches ↦ absurd (cc (take_from-rest (i + 1) i ts (rw (matches, take_from) at h)).0)
  ]

  -- Once the match is marked, everything is skipped.
  pub take_from-mark :
      (i j : ℕ) (ts : List Tagged)
      → take_from d defined i none ts ≡ ok (some j)
      → (k : ℕ) × (j ≡ i + k) × (all_of (is_skipped defined) (mark ts k) ≡ true)
  unfolding take_from is_skipped
  take_from-mark i j [] h = absurd (cc (ok_eq {E = PlaceError} h))
  take_from-mark i j (t ∷ ts) h = elim (Bool-cases (is_skipped defined t)) [
    | inl skipped ↦
        let (k, at, rest) = take_from-mark (i + 1) j ts (rw (skipped, take_from) at h) in
        (suc k, omega arith, rw skipped rest)
    | inr matches ↦
        let (same, rest) = take_from-rest (i + 1) i ts (rw (matches, take_from) at h) in
        (0, omega (arith, some_eq same), rest)
  ]

pub Has-mark :
    (t : Tagged) (ts : List Tagged) (k : ℕ) → Has t (mark ts k) → t.placed ≡ false → Has t ts
Has-mark t [] k there free = there
Has-mark t (q ∷ ts) zero (inl same) free = absurd (cc (ap (λ (x : Tagged). x.placed) same, free))
Has-mark t (q ∷ ts) zero (inr later) free = inr later
Has-mark t (q ∷ ts) (suc k) (inl same) free = inl same
Has-mark t (q ∷ ts) (suc k) (inr later) free = inr (Has-mark t ts k later free)
