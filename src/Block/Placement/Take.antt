-- ===== src/Block/Placement/Take.antt =====
-- What `take` finds: an element of the source that is not placed, with the role and type asked for.
use lumi_hub.Base.{
  Bool-cases, List, Option, Option-cases, [], arith, err, false, get_elem?, inl, inr, nat_eq, none,
  ok, ok_eq, refl, some, some_eq, string_eq, suc, true, ℕ, ◌+◌, ◌==◌, ◌∷◌, ◌≡◌, ◌⊎◌,
}
use lumi_hub.Block.Catalog.{DefinedElement, Definition}
use lumi_hub.Block.Placement.{PlaceError, Tagged, is_skipped, take_from, take_match, two_for_one}

-- The element at index `j` of the source, counted from `i`, matches.
abbrev pub IsMatch : DefinedElement → ℕ → List Tagged → ℕ → Type 0
IsMatch defined i ts j =
    (k : ℕ) × (t : Tagged) × (j ≡ i + k)
    × (get_elem? ts k ≡ some t)
    × (is_skipped defined t ≡ false)

take_from-IsMatch :
    (d : Definition) (defined : DefinedElement) (i : ℕ) (found : Option ℕ) (ts : List Tagged)
    (j : ℕ)
    → take_from d defined i found ts ≡ ok (some j)
    → (found ≡ some j) ⊎ IsMatch defined i ts j
unfolding take_from
take_from-IsMatch d defined i found [] j h = inl (ok_eq h)
take_from-IsMatch d defined i found (t ∷ ts) j h = elim (Bool-cases (is_skipped defined t)) [
  | inl skipped ↦
      step (take_from-IsMatch d defined (i + 1) found ts j (rw (skipped, take_from) at h))
  | inr matches ↦ elim (Option-cases found) [
    | inl none_yet ↦ first matches (
        take_from-IsMatch d defined (i + 1) (some i) ts j
          (rw (none_yet, take_from) at (rw (matches, take_from) at h)))
    | inr (k, earlier) ↦ absurd (cc (rw (earlier, take_from) at (rw (matches, take_from) at h)))
  ]
]
  where
    step :
        (found ≡ some j) ⊎ IsMatch defined (i + 1) ts j
        → (found ≡ some j) ⊎ IsMatch defined i (t ∷ ts) j
    step (inl e) = inl e
    step (inr (k, u, at, stands, m)) = inr (suc k, u, omega arith, stands, m)

    first :
        is_skipped defined t ≡ false
        → (some i ≡ some j) ⊎ IsMatch defined (i + 1) ts j
        → (found ≡ some j) ⊎ IsMatch defined i (t ∷ ts) j
    first m (inl e) = inr (0, t, omega (arith, some_eq e), refl, m)
    first m (inr (k, u, at, stands, n)) = inr (suc k, u, omega arith, stands, n)

-- The match that `take` returns.
pub take_match-found :
    (d : Definition) (defined : DefinedElement) (ts : List Tagged) (j : ℕ)
    → take_match d defined ts ≡ ok (some j)
    → (t : Tagged) × (get_elem? ts j ≡ some t) × (is_skipped defined t ≡ false)
unfolding take_match
take_match-found d defined ts j h = elim (take_from-IsMatch d defined 0 none ts j h) [
  | inl e ↦ absurd (cc e)
  | inr (k, t, at, stands, m) ↦ (t, (let e : j ≡ k = omega arith in rw e stands), m)
]

-- What does not pass the test is unplaced, and has the role and the type.
pub is_skipped-parts :
    (defined : DefinedElement) (t : Tagged)
    → is_skipped defined t ≡ false
    → (t.placed ≡ false)
      × (t.element.role == defined.role ≡ true)
      × (t.element.element_type == defined.element_type ≡ true)
unfolding is_skipped
is_skipped-parts defined t h = ground arith

take_from-err :
    (d : Definition) (defined : DefinedElement) (i : ℕ) (found : Option ℕ) (ts : List Tagged)
    (x : PlaceError)
    → take_from d defined i found ts ≡ err x
    → x ≡ two_for_one d.id defined.element_type
unfolding take_from
take_from-err d defined i found [] x h = absurd (cc h)
take_from-err d defined i found (t ∷ ts) x h = ground (
  arith,
  take_from-err d defined (i + 1) found ts x,
  take_from-err d defined (i + 1) (some i) ts x,
)

-- The one error of `take`: two matches.
pub take_match-err :
    (d : Definition) (defined : DefinedElement) (ts : List Tagged) (x : PlaceError)
    → take_match d defined ts ≡ err x
    → x ≡ two_for_one d.id defined.element_type
unfolding take_match
take_match-err d defined ts x h = take_from-err d defined 0 none ts x h
