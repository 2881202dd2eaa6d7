-- ===== src/Block/Placement/Kept.antt =====
-- `Place` marks the elements of the source and never changes them.
use lumi_hub.Base.{
  >>=-eq-ok, Bool-cases, Has, List, Option, Option-cases, [], ap, arith, false, get_elem?, inl, inr,
  length, map, none, ok, ok_eq, refl, some, some_eq, suc, zero, ℕ, ◌+◌, ◌∷◌, ◌≡◌,
}
use lumi_hub.Block.Catalog.{DefinedElement, Definition}
use lumi_hub.Block.Content.{Block, Element, Uuid}
use lumi_hub.Block.Placement.{
  Source, Tagged, fill, fill_found, fill_index, fill_missing, fill_one, mark, place_all,
  place_filled, take_match, unplaced,
}

abbrev pub sources : List Tagged → List Element
sources ts = map (λ (t : Tagged). t.element) ts

-- The source that `Place` starts with.
abbrev pub start_source : List Element → Source
start_source tagged = record {
  tagged = map (λ (e : Element). record { element = e; placed = false }) tagged;
  minted = 0;
}

pub sources-start : (es : List Element) → sources (start_source es).tagged ≡ es
sources-start [] = refl
sources-start (e ∷ es) = ap (λ l. e ∷ l) (sources-start es)

pub unplaced-Has : (ts : List Tagged) {e : Element} → unplaced ts ≡ some e → Has e (sources ts)
unfolding unplaced
unplaced-Has [] h = absurd (cc h)
unplaced-Has (t ∷ ts) {e} h = elim (Bool-cases t.placed) [
  | inl taken ↦ inr (unplaced-Has ts (rw (taken, unplaced) at h))
  | inr free ↦ inl (some_eq (rw (free, unplaced) at h))
]

sources-mark : (ts : List Tagged) (i : ℕ) → sources (mark ts i) ≡ sources ts
sources-mark [] i = refl
sources-mark (t ∷ ts) zero = refl
sources-mark (t ∷ ts) (suc i) = ap (λ l. t.element ∷ l) (sources-mark ts i)

module _ (new_id : ℕ → Uuid) where
  fill_found-sources :
      (d : Definition) (defined : DefinedElement) (s : Source) (i : ℕ) (e : Element)
      (es : List Element) (s' : Source)
      → fill_found new_id d defined s i e ≡ ok (es, s')
      → sources s'.tagged ≡ sources s.tagged
  unfolding fill_found
  fill_found-sources d defined s i e es s' h = ground (arith, sources-mark s.tagged i)

  pub fill_one-sources :
      (d : Definition) (defined : DefinedElement) (s : Source) (es : List Element) (s' : Source)
      → fill_one new_id d defined s ≡ ok (es, s')
      → sources s'.tagged ≡ sources s.tagged
  unfolding fill_one fill_index fill_missing
  fill_one-sources d defined s es s' h =
      let (found, taken, filled) =
        >>=-eq-ok (take_match d defined s.tagged) (λ found. fill_index new_id d defined s found)
          h in
      go found filled
    where
      go :
          (found : Option ℕ)
          → fill_index new_id d defined s found ≡ ok (es, s')
          → sources s'.tagged ≡ sources s.tagged
      go none filled = ground arith
      go (some i) filled = elim (Option-cases (get_elem? s.tagged i)) [
        | inl missing ↦ absurd (cc (rw (missing, fill_index) at filled))
        | inr (t, at) ↦
            fill_found-sources d defined s i t.element es s' (rw (at, fill_index) at filled)
      ]

  pub fill-sources :
      (d : Definition) (ds : List DefinedElement) (s : Source) (es : List Element) (s' : Source)
      → fill new_id d ds s ≡ ok (es, s')
      → sources s'.tagged ≡ sources s.tagged
  unfolding fill
  fill-sources d [] s es s' h = ground arith
  fill-sources d (defined ∷ ds) s es s' h =
      let ((one, mid), first, rest) = >>=-eq-ok (fill_one new_id d defined s) _ h in
      let ((more, last), second, same) = >>=-eq-ok (fill new_id d ds mid) _ rest in
      ground (
        arith,
        ok_eq same,
        fill_one-sources d defined s one mid first,
        fill-sources d ds mid more last second,
      )

  pub place_filled-sources :
      (d : Definition) (position : ℕ) (es : List Element) (s : Source) (bs : List Block)
      (s' : Source)
      → place_filled new_id d position es s ≡ ok (bs, s')
      → sources s'.tagged ≡ sources s.tagged
  unfolding place_filled
  place_filled-sources d position es s bs s' h = ground arith

  pub place_all-sources :
      (ds : List Definition) (position : ℕ) (s : Source) (bs : List Block) (s' : Source)
      → place_all new_id ds position s ≡ ok (bs, s')
      → sources s'.tagged ≡ sources s.tagged
  unfolding place_all
  place_all-sources [] position s bs s' h = ground arith
  place_all-sources (d ∷ ds) position s bs s' h =
      let ((es, mid), filled, rest) = >>=-eq-ok (fill new_id d d.elements s) _ h in
      let ((one, onward), placed, more) =
        >>=-eq-ok (place_filled new_id d position es mid) _ rest in
      let ((others, last), follow, same) =
        >>=-eq-ok (place_all new_id ds (position + length one) onward) _ more in
      ground (
        arith,
        ok_eq same,
        fill-sources d d.elements s es mid filled,
        place_filled-sources d position es mid one onward placed,
        place_all-sources ds (position + length one) onward others last follow,
      )
