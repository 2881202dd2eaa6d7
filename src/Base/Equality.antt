-- ===== src/Base/Equality.antt =====
-- Go's `==` on numbers, identifiers and strings, as one operator.
use Prim.Native.Nat.{ℕ}
use Prim.Native.String.{String}
use mathlib.Core.Path.{◌≡◌, ap, refl, sym, ◌∙◌}
use mathlib.Core.Logic.{◌↔◌, ◌⊎◌, inl, inr}
use mathlib.Core.Bool.{Bool, true, false, false≢true}
use text.Mathlib.Text.{◌==◌ as str_eq}
use text.Mathlib.TextEquality.{eq_iff}
use lumi_hub.Base.Tests.{nat_beq, nat_beq_iff, Bool-cases}

pub record Eq {ℓ} (A : Type ℓ) : Type ℓ where
  pub equal : A → A → Bool
  pub equal_iff : (a b : A) → (equal a b ≡ true) ↔ (a ≡ b)

instance abbrev pub string_eq : Eq String
string_eq = record { equal = str_eq; equal_iff = eq_iff }

instance abbrev pub nat_eq : Eq ℕ
nat_eq = record { equal = nat_beq; equal_iff = nat_beq_iff }

infix 50 ◌==◌
abbrev pub ◌==◌ {ℓ} : {K : Type ℓ} ⦃keys : Eq K⦄ → K → K → Bool
◌==◌ ⦃keys⦄ j k = keys.equal j k

module _ {ℓ} {A : Type ℓ} ⦃e : Eq A⦄ where
  pub ==-refl : (a : A) → a == a ≡ true
  ==-refl a = (e.equal_iff a a).1 refl

  pub ==→eq : (a b : A) → a == b ≡ true → a ≡ b
  ==→eq a b h = (e.equal_iff a b).0 h

  -- To split on an equality test and keep the equation.
  pub ==-cases : (a b : A) → (a ≡ b) ⊎ (a == b ≡ false)
  ==-cases a b = elim (Bool-cases (a == b)) [ inl h ↦ inl (==→eq a b h) | inr h ↦ inr h ]

  pub neq→beq : (a b : A) → (a ≡ b → ⊥) → a == b ≡ false
  neq→beq a b h = elim (==-cases a b) [ inl same ↦ absurd (h same) | inr differ ↦ differ ]

  pub beq→neq : (a b : A) → a == b ≡ false → a ≡ b → ⊥
  beq→neq a b h same = false≢true (sym h ∙ (e.equal_iff a b).1 same)

pub ==-sym {ℓ} : {K : Type ℓ} ⦃e : Eq K⦄ (a b : K) → (a == b) ≡ (b == a)
==-sym a b = elim (==-cases a b) [
  | inl same ↦ ap (λ x. x == b) same ∙ sym (ap (λ x. b == x) same)
  | inr differ ↦ differ ∙ sym (neq→beq b a (λ e. beq→neq a b differ (sym e)))
]
