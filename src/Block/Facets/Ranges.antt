-- ===== src/Block/Facets/Ranges.antt =====
-- What the buckets of the facets tell apart.
use mathlib.Core.Path.{subst}
use lumi_hub.Base.{
  Bool-cases, Has, List, String, [], arith, find_first-Has, inl, inr, keep, length, nat_eq, none,
  refl, some, string_eq, suc, true, zero, ℕ, ◌+◌, ◌==◌, ◌||◌, ◌∷◌, ◌≡◌, ◌≤◌,
}
use lumi_hub.Block.Content.{Element}
use lumi_hub.Block.Facets.{Bucket, Facet, facet_by_key, facets, holds, measure_facet, presence}

-- How many buckets of a list hold a count.
abbrev pub holding : List Bucket → ℕ → ℕ
holding buckets count = length (keep (λ (b : Bucket). holds b count) buckets)

-- No count falls into two of the buckets, and a count of one at least falls into one.
abbrev pub IsPartition : List Bucket → Type 0
IsPartition buckets =
    (n : ℕ) → (holding buckets n ≤ 1) × (((n == 0) || (holding buckets n == 1)) ≡ true)

presence-IsPartition : IsPartition presence
unfolding holds
presence-IsPartition zero = (ground arith, refl)
presence-IsPartition (suc n) = (ground arith, ground arith)

ranged_from :
    (first rest both : String) (l1 l2 l3 : String) (top : ℕ)
    → 2 ≤ top
    → IsPartition (
        record { value = first; label = l1; min = 1; max = some 1 }
        ∷ record { value = rest; label = l2; min = 2; max = some top }
        ∷ record { value = both; label = l3; min = top + 1; max = none }
        ∷ [])
unfolding holds
ranged_from first rest both l1 l2 l3 top wide n = (ground (arith, wide), ground (arith, wide))

IsPartitioned : List Facet → Type 0
IsPartitioned fs = (f : Facet) → Has f fs → IsPartition f.buckets

IsPartitioned-cons :
    (f : Facet) (fs : List Facet)
    → IsPartition f.buckets
    → IsPartitioned fs
    → IsPartitioned (f ∷ fs)
unfolding IsPartitioned
IsPartitioned-cons f fs first rest g stands = elim stands [
  | inl same ↦ subst (λ (x : Facet). IsPartition x.buckets) same first
  | inr later ↦ rest g later
]

IsPartitioned-nil : IsPartitioned []
unfolding IsPartitioned
IsPartitioned-nil f stands = absurd stands

facets-IsPartitioned : (kind : String) → IsPartitioned (facets kind)
unfolding facets
facets-IsPartitioned kind = elim (Bool-cases ("character" == kind)) [
  | inl for_character ↦
      rw (for_character, facets)
        (IsPartitioned-cons _ _ presence-IsPartition (
          IsPartitioned-cons _ _
            (ranged_from "1" "2-4" "5-up" "1" "2 to 4" "5 or more" 4 (ground arith))
            (IsPartitioned-cons _ _ presence-IsPartition
              (IsPartitioned-cons _ _ presence-IsPartition IsPartitioned-nil))))
  | inr other ↦ elim (Bool-cases ("preset" == kind)) [
    | inl for_preset ↦
        rw (other, for_preset, facets)
          (IsPartitioned-cons _ _ presence-IsPartition
            (IsPartitioned-cons _ _ presence-IsPartition IsPartitioned-nil))
    | inr no_preset ↦ elim (Bool-cases ("pack" == kind)) [
      | inl for_pack ↦
          rw (other, no_preset, for_pack, facets)
            (IsPartitioned-cons _ _
              (ranged_from "1" "2-9" "10-up" "1 item" "2 to 9" "10 or more" 9 (ground arith))
              IsPartitioned-nil)
      | inr elsewhere ↦ rw (other, no_preset, elsewhere, facets) IsPartitioned-nil
    ]
  ]
]

-- Of the buckets of a facet that `FacetByKey` finds, at most one holds the count that `MeasureFacets`
-- takes of a page, and one does where the count is not zero.
pub facet_by_key-holding :
    (kind key : String) (elements : List Element) {f : Facet}
    → facet_by_key kind key ≡ some f
    → (holding f.buckets (measure_facet f elements) ≤ 1)
      × (((measure_facet f elements == 0) || (holding f.buckets (measure_facet f elements) == 1))
          ≡ true)
unfolding facet_by_key IsPartitioned
facet_by_key-holding kind key elements {f} found =
    facets-IsPartitioned kind f (find_first-Has (λ (g : Facet). g.key == key) (facets kind) found)
      (measure_facet f elements)
