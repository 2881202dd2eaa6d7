-- ===== src/Base/Members.antt =====
-- Which values stand in a list, by `Has`, after the operations on lists.
use Prim.Native.Nat.{ℕ, zero, suc}
use mathlib.Core.Path.{◌≡◌, refl, sym, ap, ◌∙◌}
use mathlib.Core.Bool.{Bool, true, false, not}
use mathlib.Core.Option.{none, some}
use mathlib.Core.List.{List, [], ◌∷◌, map}
use mathlib.Core.Logic.{inl, inr}
use native.Mathlib.Omega.{arith}
use lumi_hub.Base.Tests.{some_eq, Bool-cases, and_true}
use lumi_hub.Base.Lists.{Has, find_first, any_of, all_of, keep, take, contains}
use lumi_hub.Base.Equality.{Eq, ==-cases}

module _ {A : Type 0} where
  pub all_of-Has : (p : A → Bool) (xs : List A) {x : A} → all_of p xs ≡ true → Has x xs → p x ≡ true
  all_of-Has p [] h stands = absurd stands
  all_of-Has p (y ∷ xs) {x} h stands =
      let (first, more) = and_true (p y) (all_of p xs) h in
      elim stands [ inl same ↦ ap p (sym same) ∙ first | inr later ↦ all_of-Has p xs more later ]

  pub Has-all_of :
      (p : A → Bool) (xs : List A) → ((x : A) → Has x xs → p x ≡ true) → all_of p xs ≡ true
  Has-all_of p [] h = refl
  Has-all_of p (x ∷ xs) h =
      ground (arith, h x (inl refl), Has-all_of p xs (λ y stands. h y (inr stands)))

  pub any_of-Has :
      (p : A → Bool) (xs : List A) {x : A} → any_of p xs ≡ false → Has x xs → p x ≡ false
  any_of-Has p [] h stands = absurd stands
  any_of-Has p (y ∷ xs) {x} h stands = elim stands [
    | inl same ↦ let first : p y ≡ false = ground (arith, h) in ap p (sym same) ∙ first
    | inr later ↦ any_of-Has p xs (ground (arith, h)) later
  ]

  pub Has-any_of : (p : A → Bool) (xs : List A) {x : A} → Has x xs → p x ≡ true → any_of p xs ≡ true
  Has-any_of p xs {x} stands passes = elim (Bool-cases (any_of p xs)) [
    | inl found ↦ found
    | inr missing ↦ absurd (cc (passes, any_of-Has p xs missing stands))
  ]

  pub find_first-Has : (p : A → Bool) (xs : List A) {x : A} → find_first p xs ≡ some x → Has x xs
  find_first-Has p [] h = absurd (cc h)
  find_first-Has p (y ∷ xs) {x} h = elim (Bool-cases (p y)) [
    | inl here ↦ inl (some_eq (rw here at h))
    | inr later ↦ inr (find_first-Has p xs (rw later at h))
  ]

  pub find_first-eq-none :
      (p : A → Bool) (xs : List A) → all_of (λ x. not (p x)) xs ≡ true → find_first p xs ≡ none
  find_first-eq-none p [] h = refl
  find_first-eq-none p (x ∷ xs) h = ground (arith, h, find_first-eq-none p xs)

  pub Has-keep : (p : A → Bool) (xs : List A) {x : A} → Has x (keep p xs) → Has x xs × (p x ≡ true)
  Has-keep p [] stands = absurd stands
  Has-keep p (y ∷ xs) {x} stands = elim (Bool-cases (p y)) [
    | inl passes ↦ elim (rw passes at stands) [
      | inl same ↦ (inl same, ap p (sym same) ∙ passes)
      | inr later ↦ let (there, q) = Has-keep p xs later in (inr there, q)
    ]
    | inr fails ↦ let (there, q) = Has-keep p xs (rw fails at stands) in (inr there, q)
  ]

  pub Has-take : (n : ℕ) (xs : List A) (x : A) → Has x (take n xs) → Has x xs
  Has-take zero xs x stands = absurd stands
  Has-take (suc n) [] x stands = absurd stands
  Has-take (suc n) (y ∷ xs) x stands = elim stands [
    | inl same ↦ inl same
    | inr later ↦ inr (Has-take n xs x later)
  ]

  pub all_of-keep :
      (p q : A → Bool) (xs : List A) → all_of p xs ≡ true → all_of p (keep q xs) ≡ true
  all_of-keep p q xs h =
      Has-all_of p (keep q xs) (λ x stands. all_of-Has p xs h (Has-keep q xs stands).0)

module _ {A B : Type 0} where
  pub Has-map :
      (f : A → B) (xs : List A) {y : B} → Has y (map f xs) → (x : A) × Has x xs × (f x ≡ y)
  Has-map f [] stands = absurd stands
  Has-map f (x ∷ xs) stands = elim stands [
    | inl same ↦ (x, inl refl, same)
    | inr later ↦ let (z, there, e) = Has-map f xs later in (z, inr there, e)
  ]

module _ {A : Type 0} ⦃e : Eq A⦄ where
  pub contains-Has : (xs : List A) (a : A) → contains xs a ≡ true → Has a xs
  contains-Has [] a h = absurd (cc h)
  contains-Has (x ∷ xs) a h = elim (==-cases x a) [
    | inl same ↦ inl same
    | inr differ ↦ inr (contains-Has xs a (rw differ at h))
  ]
