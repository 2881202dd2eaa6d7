-- ===== src/Block/Builder/Exact.antt =====
-- `ValidateBuilderConstraints` against a description of a page that may be saved.
use mathlib.Core.Path.{ap₂}
use lumi_hub.Base.{
  All, Bool, IsFresh, IsFresh-IsInjective, IsInjective, IsInjective-IsFresh, List, Option-cases,
  String, [], arith, contains, err, false, get_elem?, inl, inr, map, nat_eq, none, ok, refl, some,
  string_eq, true, ℕ, ◌++◌, ◌+◌, ◌>>◌, ◌↔◌, ◌∙◌, ◌∷◌, ◌≡◌, ◌≢◌, ◌≤◌,
}
use lumi_hub.Block.Builder.{
  Verdict, check_block, check_blocks, check_holder, check_members, number_from, numbered, page_ids,
  validate_builder_constraints,
}
use lumi_hub.Block.Builder.Members.{FitsRole, check_members_iff, may_repeat, members, named_roles}
use lumi_hub.Block.Builder.Pins.{KeepsPins, check_pins_iff}
use lumi_hub.Block.Builder.Rules.{
  IsFreshUnless, IsFreshUnless-IsOnceUnless, IsOnceUnless, IsOnceUnless-IsFreshUnless,
}
use lumi_hub.Block.Catalog.{Definition, DefinitionId, definition_of}
use lumi_hub.Block.Content.{Block, Element, Uuid}
use lumi_hub.Block.Layout.{columns, minimum_width}
use lumi_hub.Block.Structure.Exact.{element_ids}
use lumi_hub.Block.Vocab.{Role}

-- What is asked of a block by itself: its definition is in the kind's catalog, the definition has
-- its layout, and its width is known and holds the layout.
pub record FitsCatalog (kind : String) (b : Block) : Type 0 where
  pub d : Definition
  pub found : definition_of b.definition kind ≡ some d
  pub layout_listed : contains d.layouts b.layout ≡ true
  pub width_known : columns b.width ≢ 0
  pub wide_enough : columns (minimum_width b.layout) ≤ columns b.width

verdict->> : {k : Verdict} (m : Verdict) → (m >> k) ≡ ok tt → (m ≡ ok tt) × (k ≡ ok tt)
verdict->> (ok tt) h = (refl, h)
verdict->> (err e) h = cc

unfoldable pub is_repeatable : String → DefinitionId → Bool
is_repeatable kind id = elim (definition_of id kind) [ none ↦ false | some d ↦ d.repeatable ]

module _ (kind : String) (before : List Block) where
  check_holder_iff :
      (seen : List DefinitionId) (b : Block) (d : Definition)
      → (check_holder before seen b d ≡ ok tt) ↔ (
          (d.repeatable ≡ false → contains seen b.definition ≡ false)
          × (contains d.layouts b.layout ≡ true)
          × (columns b.width ≢ 0)
          × (columns (minimum_width b.layout) ≤ columns b.width))
  unfolding check_holder
  check_holder_iff seen b d = ground arith

  check_block_sound :
      (seen : List DefinitionId) (b : Block)
      → check_block kind before seen b ≡ ok tt
      → FitsCatalog kind b
        × (is_repeatable kind b.definition ≡ false → contains seen b.definition ≡ false)
  unfolding check_block is_repeatable
  check_block_sound seen b h = elim (Option-cases (definition_of b.definition kind)) [
    | inl missing ↦ absurd (cc (rw (missing, check_block) at h))
    | inr (d, found) ↦
        let (once, listed, known, wide) =
          (check_holder_iff seen b d).0 (rw (found, check_block) at h) in
        (
          record {
            d = d;
            found = found;
            layout_listed = listed;
            width_known = known;
            wide_enough = wide;
          },
          rw (found, is_repeatable) once,
        )
  ]

  check_block_complete :
      (seen : List DefinitionId) (b : Block)
      → FitsCatalog kind b
      → (is_repeatable kind b.definition ≡ false → contains seen b.definition ≡ false)
      → check_block kind before seen b ≡ ok tt
  unfolding check_block is_repeatable
  check_block_complete seen b fits once =
      rw (fits.found, check_block)
        ((check_holder_iff seen b fits.d).1 (
          rw (fits.found, is_repeatable) at once,
          fits.layout_listed,
          fits.width_known,
          fits.wide_enough,
        ))

  pub check_blocks_iff :
      (seen : List DefinitionId) (bs : List Block)
      → (check_blocks kind before seen bs ≡ ok tt) ↔ (
          All (FitsCatalog kind) bs
          × IsFreshUnless (is_repeatable kind) seen (map (λ (b : Block). b.definition) bs))
  unfolding check_blocks
  check_blocks_iff seen [] = ((λ h. (tt, tt)), λ h. refl)
  check_blocks_iff seen (b ∷ bs) = (
    (λ h.
        let (one, rest) = verdict->> (check_block kind before seen b) h in
        let (fits, once) = check_block_sound seen b one in
        let (all_fit, all_once) = (check_blocks_iff (b.definition ∷ seen) bs).0 rest in
        ((fits, all_fit), (once, all_once))),
    λ ((fits, all_fit), (once, all_once)).
        rw (check_block_complete seen b fits once)
          ((check_blocks_iff (b.definition ∷ seen) bs).1 (all_fit, all_once)),
  )

-- The elements of a page, block by block.
unfoldable pub page_elements : List Block → List Element
page_elements [] = []
page_elements (b ∷ bs) = b.elements ++ page_elements bs

members-append : (xs ys : List (ℕ × Element)) → members (xs ++ ys) ≡ members xs ++ members ys
members-append [] ys = refl
members-append ((at, e) ∷ xs) ys = rw (members-append xs ys)

members-number_from : (i : ℕ) (es : List Element) → members (number_from i es) ≡ es
unfolding number_from
members-number_from i [] = refl
members-number_from i (e ∷ es) = rw (members-number_from (i + 1) es)

members-numbered : (bs : List Block) → members (numbered bs) ≡ page_elements bs
unfolding numbered page_elements
members-numbered [] = refl
members-numbered (b ∷ bs) =
    members-append (number_from 0 b.elements) (numbered bs)
    ∙ ap₂ ◌++◌ (members-number_from 0 b.elements) (members-numbered bs)

-- A page that may replace the page `before`.
pub record IsSavable (kind : String) (before after : List Block) : Type 0 where
  pub blocks_fit : All (FitsCatalog kind) after
  pub definitions_once : IsOnceUnless (is_repeatable kind) (map (λ (b : Block). b.definition) after)
  pub elements_fit : All (FitsRole (page_ids before)) (page_elements after)
  pub ids_differ : IsInjective (element_ids (page_elements after))
  pub roles_once : IsOnceUnless may_repeat (named_roles (page_elements after))
  pub pins_kept : All (KeepsPins kind after) before

-- `ValidateBuilderConstraints` accepts a page exactly if it may replace the one before it.
pub validate_builder_constraints-IsSavable :
    (kind : String) (before after : List Block)
    → (validate_builder_constraints kind before after ≡ ok tt) ↔ IsSavable kind before after
unfolding validate_builder_constraints
validate_builder_constraints-IsSavable kind before after =
    let es = page_elements after in
    let loop : (check_members (page_ids before) (record { ids = []; roles = [] }) (numbered after)
          ≡ ok tt)
        ↔ (All (FitsRole (page_ids before)) es
            × IsFresh [] (element_ids es)
            × IsFreshUnless may_repeat [] (named_roles es)) =
      rw (← members-numbered after)
        (check_members_iff (page_ids before) (record { ids = []; roles = [] }) (numbered after)) in
    ground (
      arith,
      check_blocks_iff kind before [] after,
      loop,
      check_pins_iff kind after before,
      IsFreshUnless-IsOnceUnless (is_repeatable kind) [] (map (λ (b : Block). b.definition) after),
      IsOnceUnless-IsFreshUnless (is_repeatable kind) [] (map (λ (b : Block). b.definition) after)
          (λ (i : ℕ) (a : DefinitionId) (x : is_repeatable kind a ≡ false)
              (h : get_elem? (map (λ (b : Block). b.definition) after) i ≡ some a).
            refl),
      IsFresh-IsInjective [] (element_ids es),
      IsInjective-IsFresh [] (element_ids es)
          (λ (i : ℕ) (a : Uuid) (h : get_elem? (element_ids es) i ≡ some a). refl),
      IsFreshUnless-IsOnceUnless may_repeat [] (named_roles es),
      IsOnceUnless-IsFreshUnless may_repeat [] (named_roles es)
          (λ (i : ℕ) (a : Role) (x : may_repeat a ≡ false)
              (h : get_elem? (named_roles es) i ≡ some a).
            refl),
    )
