-- ===== src/Block/Floor/Placed.antt =====
-- What an import puts on the page counts towards the content floor.
use lumi_hub.Base.{
  Bool, List, Option-cases, String, [], all_of, any_of, ap, arith, false, inl, inr, lookup-all_of,
  ltb, map, nat_eq, none, not, ok, refl, some, string_eq, sym, true, ℕ, ◌&&◌, ◌++◌, ◌==◌, ◌||◌, ◌∙◌,
  ◌∷◌, ◌≡◌,
}
use lumi_hub.Block.Builder.Exact.{page_elements}
use lumi_hub.Block.Content.{
  Block, Content, Element, Uuid, empty, empty_content, empty_contents, written,
}
use lumi_hub.Block.Floor.{Check, Requirement, content_floor, requirements_of}
use lumi_hub.Block.Floor.Exact.{content_floor_lem, expected_check, holds_written}
use lumi_hub.Block.Placement.{place}
use lumi_hub.Block.Placement.Conserve.{IsWritten, Trait, tally, tally-place}
use lumi_hub.Block.Vocab.{ElementType, Role}

-- The trait of a written element of the role.
abbrev pub says : Role → Trait
says role t r none = false
says role t r (some c) = r == role && not (empty c)

all_bare : all_of (λ (entry : ElementType × Content). empty entry.1) empty_contents ≡ true
unfolding empty
all_bare = refl

says-IsWritten : (role : Role) → IsWritten (says role)
unfolding empty_content
says-IsWritten role t r c found =
    let bare : empty c ≡ true =
      lookup-all_of ⦃e = string_eq⦄ empty t empty_contents all_bare found in
    ground (arith, bare)

-- A page or a source has the trait if one of its elements is written and of the role.
says-written :
    (role : Role) (e : Element)
    → says role e.element_type e.role e.content ≡ (e.role == role && written e)
unfolding written
says-written role e = elim (Option-cases e.content) [
  | inl missing ↦ ground (arith, missing)
  | inr (c, found) ↦ ground (arith, found)
]

any_of-tally :
    (role : Role) (es : List Element)
    → any_of (λ e. e.role == role && written e) es ≡ ltb 0 (tally (says role) es)
any_of-tally role [] = refl
any_of-tally role (e ∷ es) = ground (arith, says-written role e, any_of-tally role es)

any_of-append :
    (p : Element → Bool) (xs ys : List Element) → any_of p (xs ++ ys) ≡ (any_of p xs || any_of p ys)
any_of-append p [] ys = refl
any_of-append p (x ∷ xs) ys = ground (arith, any_of-append p xs ys)

any_of-page_elements :
    (role : Role) (bs : List Block)
    → any_of (holds_written role) bs ≡ any_of (λ e. e.role == role && written e) (page_elements bs)
unfolding holds_written page_elements
any_of-page_elements role [] = refl
any_of-page_elements role (b ∷ bs) = ground (
  arith,
  any_of-page_elements role bs,
  any_of-append (λ e. e.role == role && written e) b.elements (page_elements bs),
)

-- A page that `Place` made meets a requirement of the content floor exactly if its source has a
-- written element of the requirement's role.
pub content_floor-place :
    (new_id : ℕ → Uuid) (kind : String) (tagged : List Element) {page : List Block}
    → place new_id kind tagged ≡ ok page
    → map (λ (c : Check). c.met) (content_floor kind page)
      ≡ map
          (λ (r : Requirement). any_of (λ e. e.role == r.role && written e) tagged)
          (requirements_of kind)
content_floor-place new_id kind tagged {page} placed =
    ap (λ cs. map (λ (c : Check). c.met) cs) (content_floor_lem kind page)
    ∙ each (requirements_of kind)
  where
    one :
        (role : Role)
        → any_of (holds_written role) page ≡ any_of (λ e. e.role == role && written e) tagged
    one role =
        any_of-page_elements role page
        ∙ any_of-tally role (page_elements page)
        ∙ ap (λ n. ltb 0 n)
            (tally-place new_id kind tagged (says role) (says-IsWritten role) placed)
        ∙ sym (any_of-tally role tagged)

    each :
        (rs : List Requirement)
        → map (λ (c : Check). c.met) (map (expected_check page) rs)
          ≡ map (λ (r : Requirement). any_of (λ e. e.role == r.role && written e) tagged) rs
    each [] = refl
    each (r ∷ rs) = cc (one r.role, each rs)
