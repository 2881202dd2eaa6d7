-- ===== src/Block/Builder/Rules.antt =====
-- The rules of the builder as statements about the page, with no loop in them.
use lumi_hub.Base.{
  ==-cases, ==-refl, Bool, Eq, List, [], ap, arith, contains, false, get_elem?, inl, inr, nat_eq,
  refl, some, string_eq, suc, zero, ℕ, ◌∷◌, ◌≡◌,
}

-- Each value that is not exempt is new: it stands neither in `seen` nor before its place.
abbrev pub IsFreshUnless : {A : Type 0} ⦃e : Eq A⦄ → (A → Bool) → List A → List A → Type 0
IsFreshUnless exempt seen [] = Unit
IsFreshUnless exempt seen (x ∷ xs) =
    (exempt x ≡ false → contains seen x ≡ false) × IsFreshUnless exempt (x ∷ seen) xs

-- No two places hold one value that is not exempt.
abbrev pub IsOnceUnless : {A : Type 0} ⦃e : Eq A⦄ → (A → Bool) → List A → Type 0
IsOnceUnless {A} exempt xs =
    (i j : ℕ) (a : A) → exempt a ≡ false → get_elem? xs i ≡ some a → get_elem? xs j ≡ some a → i ≡ j

module _ {A : Type 0} ⦃e : Eq A⦄ (exempt : A → Bool) where
  IsFreshUnless-get_elem? :
      (seen xs : List A) (i : ℕ) (a : A)
      → exempt a ≡ false
      → IsFreshUnless exempt seen xs
      → get_elem? xs i ≡ some a
      → contains seen a ≡ false
  IsFreshUnless-get_elem? seen [] i a x f h = cc
  IsFreshUnless-get_elem? seen (y ∷ xs) zero a x f h = ground (arith, f.0, h)
  IsFreshUnless-get_elem? seen (y ∷ xs) (suc i) a x f h =
      ground (arith, IsFreshUnless-get_elem? (y ∷ seen) xs i a x f.1 h)

  pub IsFreshUnless-IsOnceUnless :
      (seen xs : List A) → IsFreshUnless exempt seen xs → IsOnceUnless exempt xs
  IsFreshUnless-IsOnceUnless seen [] f i j a x h k = cc
  IsFreshUnless-IsOnceUnless seen (y ∷ xs) f zero zero a x h k = refl
  IsFreshUnless-IsOnceUnless seen (y ∷ xs) f zero (suc j) a x h k =
      ground (arith, IsFreshUnless-get_elem? (y ∷ seen) xs j a x f.1 k, ==-refl a, h)
  IsFreshUnless-IsOnceUnless seen (y ∷ xs) f (suc i) zero a x h k =
      ground (arith, IsFreshUnless-get_elem? (y ∷ seen) xs i a x f.1 h, ==-refl a, k)
  IsFreshUnless-IsOnceUnless seen (y ∷ xs) f (suc i) (suc j) a x h k =
      ap suc (IsFreshUnless-IsOnceUnless (y ∷ seen) xs f.1 i j a x h k)

  pub IsOnceUnless-IsFreshUnless :
      (seen xs : List A)
      → ((i : ℕ) (a : A) → exempt a ≡ false → get_elem? xs i ≡ some a → contains seen a ≡ false)
      → IsOnceUnless exempt xs
      → IsFreshUnless exempt seen xs
  IsOnceUnless-IsFreshUnless seen [] out once = tt
  IsOnceUnless-IsFreshUnless seen (y ∷ xs) out once = (
    (λ x. out 0 y x refl),
    IsOnceUnless-IsFreshUnless (y ∷ seen) xs
        (λ i a x h. elim (==-cases y a) [
          | inl same ↦ absurd (omega (arith, once 0 (suc i) a x (ap some same) h))
          | inr differ ↦ rw differ (out (suc i) a x h)
        ])
        (λ i j a x h k. omega (arith, once (suc i) (suc j) a x h k)),
  )
