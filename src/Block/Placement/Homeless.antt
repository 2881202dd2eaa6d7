-- ===== src/Block/Placement/Homeless.antt =====
-- An element of the source that `Place` leaves unplaced was asked for by no definition of the kind.
use mathlib.Core.Path.{subst}
use lumi_hub.Base.{
  >>=-eq-ok, Bool-cases, Has, List, Option, Option-cases, Result, [], all_of-Has, ap, arith, err,
  false, get_elem?, inl, inr, length, none, ok, ok_eq, refl, some, some_eq, sym, true, ℕ, ◌+◌, ◌∙◌,
  ◌∷◌, ◌≡◌,
}
use lumi_hub.Block.Catalog.{DefinedElement, Definition}
use lumi_hub.Block.Content.{Block, Element, Uuid}
use lumi_hub.Block.Placement.{
  PlaceError, Source, Tagged, fill, fill_found, fill_index, fill_missing, fill_one, is_skipped,
  mark, place_all, place_filled, take_match, unplaced,
}
use lumi_hub.Block.Placement.Left.{
  Has-mark, asks, is_homeless, is_unasked, skipped_unasked, take_from-mark, take_from-none,
}

module _ (new_id : ℕ → Uuid) where
  fill_found-mark :
      (d : Definition) (defined : DefinedElement) (s : Source) (i : ℕ) (e : Element)
      (es : List Element) (s' : Source)
      → fill_found new_id d defined s i e ≡ ok (es, s')
      → s'.tagged ≡ mark s.tagged i
  unfolding fill_found
  fill_found-mark d defined s i e es s' filled = ground arith

  fill_missing-tagged :
      (defined : DefinedElement) (s : Source) (es : List Element) (s' : Source)
      → fill_missing new_id defined s ≡ ok (es, s')
      → s'.tagged ≡ s.tagged
  unfolding fill_missing
  fill_missing-tagged defined s es s' filled = ground arith

  -- What is unplaced after a definition was filled was unplaced before, and not asked for.
  fill_one-left :
      (d : Definition) (defined : DefinedElement) (s : Source) (es : List Element) (s' : Source)
      (t : Tagged)
      → fill_one new_id d defined s ≡ ok (es, s')
      → Has t s'.tagged
      → t.placed ≡ false
      → Has t s.tagged × (asks defined t.element ≡ false)
  unfolding fill_one fill_index take_match
  fill_one-left d defined s es s' t h there free = go (take_match d defined s.tagged) refl
    where
      go :
          (r : Result PlaceError (Option ℕ))
          → take_match d defined s.tagged ≡ r
          → Has t s.tagged × (asks defined t.element ≡ false)
      go (err e) taken = absurd (cc (rw (taken, fill_one) at h))
      go (ok none) taken =
          let stood : Has t s.tagged =
            subst (λ ts. Has t ts) (fill_missing-tagged defined s es s' (rw (taken, fill_one) at h))
              there in
          (
            stood,
            skipped_unasked defined t
                (all_of-Has (is_skipped defined) s.tagged
                  (take_from-none d defined 0 s.tagged taken) stood)
                free,
          )
      go (ok (some i)) taken = elim (Option-cases (get_elem? s.tagged i)) [
        | inl missing ↦ absurd (cc (rw (missing, fill_index) at (rw (taken, fill_one) at h)))
        | inr (q, at) ↦
            let (k, index, rest) = take_from-mark d defined 0 i s.tagged taken in
            let same : s'.tagged ≡ mark s.tagged k =
              fill_found-mark d defined s i q.element es s'
                (rw (at, fill_index) at (rw (taken, fill_one) at h))
              ∙ ap (mark s.tagged) (let e : i ≡ k = omega (arith, index) in e) in
            let stood : Has t (mark s.tagged k) = subst (λ ts. Has t ts) same there in
            (
              Has-mark t s.tagged k stood free,
              skipped_unasked defined t
                  (all_of-Has (is_skipped defined) (mark s.tagged k) rest stood) free,
            )
      ]

  fill-left :
      (d : Definition) (ds : List DefinedElement) (s : Source) (es : List Element) (s' : Source)
      (t : Tagged)
      → fill new_id d ds s ≡ ok (es, s')
      → Has t s'.tagged
      → t.placed ≡ false
      → Has t s.tagged × (is_unasked ds t.element ≡ true)
  unfolding fill
  fill-left d [] s es s' t h there free = (
    subst (λ (r : Source). Has t r.tagged) (sym (ap (λ r. r.1) (ok_eq {E = PlaceError} h))) there,
    refl,
  )
  fill-left d (defined ∷ ds) s es s' t h there free =
      let ((one, mid), first, rest) = >>=-eq-ok (fill_one new_id d defined s) _ h in
      let ((more, last), second, same) = >>=-eq-ok (fill new_id d ds mid) _ rest in
      let at_end : Has t last.tagged =
        subst (λ (r : Source). Has t r.tagged) (sym (ap (λ r. r.1) (ok_eq {E = PlaceError} same)))
          there in
      let (between, unasked) = fill-left d ds mid more last t second at_end free in
      let (before, not_asked) = fill_one-left d defined s one mid t first between free in
      (before, rw not_asked unasked)

  place_filled-tagged :
      (d : Definition) (position : ℕ) (es : List Element) (s : Source) (bs : List Block)
      (s' : Source)
      → place_filled new_id d position es s ≡ ok (bs, s')
      → s'.tagged ≡ s.tagged
  unfolding place_filled
  place_filled-tagged d position es s bs s' h = ground arith

  pub place_all-left :
      (ds : List Definition) (position : ℕ) (s : Source) (bs : List Block) (s' : Source)
      (t : Tagged)
      → place_all new_id ds position s ≡ ok (bs, s')
      → Has t s'.tagged
      → t.placed ≡ false
      → is_homeless ds t.element ≡ true
  unfolding place_all
  place_all-left ds position s bs s' t h there free = (go ds position s bs s' h there).1
    where
      go :
          (ds : List Definition) (position : ℕ) (s : Source) (bs : List Block) (s' : Source)
          → place_all new_id ds position s ≡ ok (bs, s')
          → Has t s'.tagged
          → Has t s.tagged × (is_homeless ds t.element ≡ true)
      go [] position s bs s' h there = (
        subst (λ (r : Source). Has t r.tagged) (sym (ap (λ r. r.1) (ok_eq {E = PlaceError} h)))
            there,
        refl,
      )
      go (d ∷ ds) position s bs s' h there =
          let ((es, mid), filled, rest) = >>=-eq-ok (fill new_id d d.elements s) _ h in
          let ((one, onward), built, more) =
            >>=-eq-ok (place_filled new_id d position es mid) _ rest in
          let ((others, last), follow, same) =
            >>=-eq-ok (place_all new_id ds (position + length one) onward) _ more in
          let at_end : Has t last.tagged =
            subst (λ (r : Source). Has t r.tagged)
              (sym (ap (λ r. r.1) (ok_eq {E = PlaceError} same))) there in
          let (stood, homeless_rest) =
            go ds (position + length one) onward others last follow at_end in
          let in_mid : Has t mid.tagged =
            subst (λ ts. Has t ts) (place_filled-tagged d position es mid one onward built) stood in
          let (before, unasked) = fill-left d d.elements s es mid t filled in_mid free in
          (before, rw unasked homeless_rest)

-- What `unplaced` returns.
pub unplaced-open :
    (ts : List Tagged) {e : Element}
    → unplaced ts ≡ some e
    → (t : Tagged) × Has t ts × (t.placed ≡ false) × (t.element ≡ e)
unfolding unplaced
unplaced-open [] h = absurd (cc h)
unplaced-open (t ∷ ts) {e} h = elim (Bool-cases t.placed) [
  | inl taken ↦
      let (q, stands, free, same) = unplaced-open ts (rw (taken, unplaced) at h) in
      (q, inr stands, free, same)
  | inr free ↦ (t, inl refl, free, some_eq (rw (free, unplaced) at h))
]
