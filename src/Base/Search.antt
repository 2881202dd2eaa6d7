-- ===== src/Base/Search.antt =====
-- What a search through a list says of what it finds.
use Prim.Native.Nat.{ℕ, zero, suc}
use mathlib.Core.Path.{◌≡◌, refl, ap}
use mathlib.Core.Bool.{Bool, true, false}
use mathlib.Core.List.{List, [], ◌∷◌, ◌++◌, map}
use mathlib.Core.Logic.{inl, inr}
use mathlib.Core.Option.{none, some}
use native.Mathlib.Omega.{arith}
use lumi_hub.Base.Tests.{Bool-cases, and_true}
use lumi_hub.Base.Lists.{any_of, all_of, find_first, lookup, contains, get_elem?, distinct}
use lumi_hub.Base.Equality.{Eq, ◌==◌, ==-cases, ==-refl, nat_eq, string_eq}

module _ {ℓ} {A : Type ℓ} where
  -- Two tests that all pass give a third.
  pub all_of-both :
      (p q r : A → Bool) (xs : List A)
      → ((x : A) → p x ≡ true → q x ≡ true → r x ≡ true)
      → all_of p xs ≡ true
      → all_of q xs ≡ true
      → all_of r xs ≡ true
  all_of-both p q r [] both h k = refl
  all_of-both p q r (x ∷ xs) both h k =
      let (hx, hxs) = and_true (p x) (all_of p xs) h in
      let (kx, kxs) = and_true (q x) (all_of q xs) k in
      ground (arith, both x hx kx, all_of-both p q r xs both hxs kxs)

  pub all_of-weaken :
      (p q : A → Bool) (xs : List A)
      → ((x : A) → p x ≡ true → q x ≡ true)
      → all_of p xs ≡ true
      → all_of q xs ≡ true
  all_of-weaken p q xs one h = all_of-both p p q xs (λ x a b. one x a) h h

  pub find_first-all_of :
      (p q : A → Bool) (xs : List A) {x : A}
      → all_of p xs ≡ true
      → find_first q xs ≡ some x
      → p x ≡ true
  find_first-all_of p q [] h e = cc
  find_first-all_of p q (y ∷ xs) {x} h e = elim (Bool-cases (q y)) [
    | inl s ↦ ground (arith, s, h, e)
    | inr s ↦ find_first-all_of p q xs (and_true (p y) (all_of p xs) h).1 (rw s at e)
  ]

  pub find_first_test : (q : A → Bool) (xs : List A) {x : A} → find_first q xs ≡ some x → q x ≡ true
  find_first_test q [] e = cc
  find_first_test q (y ∷ xs) {x} e = elim (Bool-cases (q y)) [
    | inl s ↦ ground (arith, s, e)
    | inr s ↦ find_first_test q xs (rw s at e)
  ]

  pub all_of-append :
      (p : A → Bool) (xs ys : List A)
      → all_of p xs ≡ true
      → all_of p ys ≡ true
      → all_of p (xs ++ ys) ≡ true
  all_of-append p [] ys h k = k
  all_of-append p (x ∷ xs) ys h k =
      rw ((and_true (p x) (all_of p xs) h).0)
        (all_of-append p xs ys (and_true (p x) (all_of p xs) h).1 k)

  pub all_of-map {κ} :
      {B : Type κ} (p : B → Bool) (f : A → B) (xs : List A)
      → all_of p (map f xs) ≡ all_of (λ x. p (f x)) xs
  all_of-map p f [] = refl
  all_of-map p f (x ∷ xs) = rw (all_of-map p f xs)

module _ {ℓ κ} {K : Type ℓ} {V : Type κ} ⦃e : Eq K⦄ where
  -- What holds of every value of a map holds of the value under a key.
  pub lookup-all_of :
      (p : V → Bool) (k : K) (m : List (K × V)) {v : V}
      → all_of (λ (entry : K × V). p entry.1) m ≡ true
      → lookup k m ≡ some v
      → p v ≡ true
  lookup-all_of p k [] h found = cc
  lookup-all_of p k ((j, w) ∷ m) {v} h found = elim (Bool-cases (j == k)) [
    | inl s ↦ ground (arith, s, h, found)
    | inr s ↦
        lookup-all_of p k m (and_true (p w) (all_of (λ (entry : K × V). p entry.1) m) h).1
          (rw s at found)
  ]

  abbrev pub keys_of : List (K × V) → List K
  keys_of [] = []
  keys_of ((j, w) ∷ m) = j ∷ keys_of m

  pub lookup-eq-none :
      (k : K) (m : List (K × V)) → contains (keys_of m) k ≡ false → lookup k m ≡ none
  lookup-eq-none k [] h = refl
  lookup-eq-none k ((j, w) ∷ m) h = elim (Bool-cases (j == k)) [
    | inl s ↦ ground (arith, s, h)
    | inr s ↦ rw s (lookup-eq-none k m (rw s at h))
  ]

  pub contains-eq-false :
      (k : K) (m : List (K × V)) → lookup k m ≡ none → contains (keys_of m) k ≡ false
  contains-eq-false k [] h = refl
  contains-eq-false k ((j, w) ∷ m) h = elim (Bool-cases (j == k)) [
    | inl s ↦ ground (arith, s, h)
    | inr s ↦ rw s (contains-eq-false k m (rw s at h))
  ]

module _ {ℓ} {A : Type ℓ} ⦃e : Eq A⦄ where
  pub contains-get_elem? :
      (xs : List A) (i : ℕ) (a : A) → get_elem? xs i ≡ some a → contains xs a ≡ true
  contains-get_elem? [] i a h = cc
  contains-get_elem? (x ∷ xs) zero a h = ground (arith, ==-refl a, h)
  contains-get_elem? (x ∷ xs) (suc i) a h = ground (arith, contains-get_elem? xs i a h)

  -- No two places of the list hold one value.
  abbrev pub IsInjective : List A → Type ℓ
  IsInjective xs = (i j : ℕ) (a : A) → get_elem? xs i ≡ some a → get_elem? xs j ≡ some a → i ≡ j

  -- Each value is new: it stands neither in `seen` nor before its place.
  abbrev pub IsFresh : List A → List A → Type 0
  IsFresh seen [] = Unit
  IsFresh seen (x ∷ xs) = (contains seen x ≡ false) × IsFresh (x ∷ seen) xs

  pub IsFresh-get_elem? :
      (seen xs : List A) (i : ℕ) (a : A)
      → IsFresh seen xs
      → get_elem? xs i ≡ some a
      → contains seen a ≡ false
  IsFresh-get_elem? seen [] i a f h = cc
  IsFresh-get_elem? seen (x ∷ xs) zero a f h = ground (arith, f.0, h)
  IsFresh-get_elem? seen (x ∷ xs) (suc i) a f h =
      ground (arith, IsFresh-get_elem? (x ∷ seen) xs i a f.1 h)

  pub IsFresh-IsInjective : (seen xs : List A) → IsFresh seen xs → IsInjective xs
  IsFresh-IsInjective seen [] f i j a h k = cc
  IsFresh-IsInjective seen (x ∷ xs) f zero zero a h k = refl
  IsFresh-IsInjective seen (x ∷ xs) f zero (suc j) a h k =
      ground (arith, IsFresh-get_elem? (x ∷ seen) xs j a f.1 k, ==-refl a, h)
  IsFresh-IsInjective seen (x ∷ xs) f (suc i) zero a h k =
      ground (arith, IsFresh-get_elem? (x ∷ seen) xs i a f.1 h, ==-refl a, k)
  IsFresh-IsInjective seen (x ∷ xs) f (suc i) (suc j) a h k =
      ap suc (IsFresh-IsInjective (x ∷ seen) xs f.1 i j a h k)

  pub IsInjective-IsFresh :
      (seen xs : List A)
      → ((i : ℕ) (a : A) → get_elem? xs i ≡ some a → contains seen a ≡ false)
      → IsInjective xs
      → IsFresh seen xs
  IsInjective-IsFresh seen [] out inj = tt
  IsInjective-IsFresh seen (x ∷ xs) out inj = (
    out 0 x refl,
    IsInjective-IsFresh (x ∷ seen) xs
        (λ i a h. elim (==-cases x a) [
          | inl same ↦ absurd (omega (arith, inj 0 (suc i) a (ap some same) h))
          | inr differ ↦ rw differ (out (suc i) a h)
        ])
        (λ i j a h k. omega (arith, inj (suc i) (suc j) a h k)),
  )

  pub distinct-IsInjective : (xs : List A) → distinct xs ≡ true → IsInjective xs
  distinct-IsInjective [] h i j a p q = cc
  distinct-IsInjective (x ∷ xs) h zero zero a p q = refl
  distinct-IsInjective (x ∷ xs) h zero (suc j) a p q =
      ground (arith, contains-get_elem? xs j a q, p, h)
  distinct-IsInjective (x ∷ xs) h (suc i) zero a p q =
      ground (arith, contains-get_elem? xs i a p, q, h)
  distinct-IsInjective (x ∷ xs) h (suc i) (suc j) a p q =
      ap suc (distinct-IsInjective xs (and_true _ (distinct xs) h).1 i j a p q)

module _ {ℓ} {A : Type ℓ} where
  -- Some place of the list holds a value with the property.
  abbrev pub Somewhere {κ} : (A → Type κ) → List A → Type (ℓ ⊔ κ)
  Somewhere P xs = (i : ℕ) × (a : A) × (get_elem? xs i ≡ some a) × P a

  pub any_of-Somewhere :
      (p : A → Bool) (xs : List A) → any_of p xs ≡ true → Somewhere (λ a. p a ≡ true) xs
  any_of-Somewhere p [] h = cc
  any_of-Somewhere p (x ∷ xs) h = elim (Bool-cases (p x)) [
    | inl here ↦ (0, x, refl, here)
    | inr there ↦
        let (i, a, at, holds) = any_of-Somewhere p xs (rw there at h) in (suc i, a, at, holds)
  ]

  pub Somewhere-any_of :
      (p : A → Bool) (xs : List A) → Somewhere (λ a. p a ≡ true) xs → any_of p xs ≡ true
  Somewhere-any_of p [] (i, a, at, holds) = cc
  Somewhere-any_of p (x ∷ xs) (zero, a, at, holds) = ground (arith, at, holds)
  Somewhere-any_of p (x ∷ xs) (suc i, a, at, holds) =
      ground (arith, Somewhere-any_of p xs (i, a, at, holds))
