-- ===== src/Block/Tray/Valid.antt =====
-- The block that `NewBlock` builds can be read, and keeps the rules that are put on saved pages.
use lumi_hub.Base.{
  >>=-eq-ok, List, Option-cases, String, ap, arith, contains-get_elem?, false, find_first,
  find_first-all_of, inl, inr, length, nat_eq, none, ok, ok_eq, some, some_eq, string_eq, sym, true,
  ℕ, ◌==◌, ◌∙◌, ◌≡◌, ◌⊎◌,
}
use lumi_hub.Block.Catalog.{Definition, DefinitionId, Start, definition_of, layout_for, starts}
use lumi_hub.Block.Consistency.{
  definition_consistent, holds_count-layout, is_consistent-parts, slots-IsInjective, start_fits,
  start_fits-parts,
}
use lumi_hub.Block.Content.{Block, Element, Uuid}
use lumi_hub.Block.Layout.{Layout, slots}
use lumi_hub.Block.Structure.{Encoder, validate_structure}
use lumi_hub.Block.Structure.Exact.{validate_structure-IsReadable}
use lumi_hub.Block.Tray.{build_block, build_elements, new_block, new_block_of, on_page}
use lumi_hub.Block.Tray.Built.{
  Built-IsSound, Built-ids, Built-length, Built-limits, Built-slots, IsMint, WritesEmpty,
  build_elements-Built,
}
use lumi_hub.Block.Vocab.{ElementType}

-- How a block was built: the definition and the start that were chosen, and the guards passed.
pub record Origin (new_id : ℕ → Uuid) (kind : String) (id : DefinitionId) (t : ElementType)
    (page : List Block) (b : Block) : Type 0 where
  pub d : Definition
  pub chosen : Start
  pub layout : Layout
  pub elements : List Element
  pub found : definition_of id kind ≡ some d
  pub optional : d.required ≡ false
  pub free : (d.repeatable ≡ true) ⊎ (on_page d.id page ≡ false)
  pub offered : find_first (λ option. option.element_type == t) (starts d) ≡ some chosen
  pub arranged : layout_for d (length chosen.elements) ≡ some layout
  pub built : build_elements new_id chosen.elements (slots layout) 0 ≡ ok elements
  pub same : b ≡ record {
    id = new_id (length chosen.elements);
    definition = d.id;
    title = none;
    position = length page;
    hidden = false;
    layout = layout;
    width = d.width;
    elements = elements;
  }

module _ {new_id : ℕ → Uuid} {kind : String} {id : DefinitionId} {t : ElementType}
    {page : List Block} {b : Block} where
  build_block-Origin :
      (d : Definition) (chosen : Start)
      → definition_of id kind ≡ some d
      → d.required ≡ false
      → (d.repeatable ≡ true) ⊎ (on_page d.id page ≡ false)
      → find_first (λ option. option.element_type == t) (starts d) ≡ some chosen
      → build_block new_id d chosen page ≡ ok b
      → Origin new_id kind id t page b
  unfolding build_block
  build_block-Origin d chosen found optional free offered h =
      elim (Option-cases (layout_for d (length chosen.elements))) [
        | inl missing ↦ absurd (cc (rw (missing, build_block) at h))
        | inr (l, arranged) ↦
            let (es, built, same) =
              >>=-eq-ok (build_elements new_id chosen.elements (slots l) 0) _
                (rw (arranged, build_block) at h) in
            record {
              d = d;
              chosen = chosen;
              layout = l;
              elements = es;
              found = found;
              optional = optional;
              free = free;
              offered = offered;
              arranged = arranged;
              built = built;
              same = sym (ok_eq same);
            }
      ]

  new_block_of-Origin :
      (d : Definition)
      → definition_of id kind ≡ some d
      → new_block_of new_id kind d t page ≡ ok b
      → Origin new_id kind id t page b
  unfolding new_block_of
  new_block_of-Origin d found h =
      elim (Option-cases (find_first (λ option. option.element_type == t) (starts d))) [
        | inl missing ↦ absurd (ground (arith, missing, h))
        | inr (chosen, offered) ↦
            let guards : (d.required ≡ false)
                × ((d.repeatable ≡ true) ⊎ (on_page d.id page ≡ false))
                × (build_block new_id d chosen page ≡ ok b) =
              ground (arith, offered, h) in
            build_block-Origin d chosen found guards.0 guards.1 offered guards.2
      ]

  pub new_block-Origin : new_block new_id kind id t page ≡ ok b → Origin new_id kind id t page b
  unfolding new_block
  new_block-Origin h = elim (Option-cases (definition_of id kind)) [
    | inl missing ↦ absurd (cc (rw (missing, new_block) at h))
    | inr (d, found) ↦ new_block_of-Origin d found (rw (found, new_block) at h)
  ]

-- With new ids, the block that `NewBlock` builds can be read: `ValidateStructure` accepts it.
pub new_block-validate_structure :
    {new_id : ℕ → Uuid} (json : Encoder) (kind : String) (id : DefinitionId) (t : ElementType)
    (page : List Block) {b : Block}
    → IsMint new_id
    → WritesEmpty json
    → new_block new_id kind id t page ≡ ok b
    → validate_structure json b ≡ ok tt
new_block-validate_structure {new_id} json kind id t page {b} mint writes h =
    let o = new_block-Origin h in
    let (_, starts_fit, _, _) = is_consistent-parts o.d (definition_consistent id kind o.found) in
    let (some_given, fits, holds) =
      start_fits-parts o.d o.chosen
        (find_first-all_of (start_fits o.d) _ (starts o.d) starts_fit o.offered) in
    let (l, chosen_layout, room, _) = holds_count-layout o.d _ holds in
    let built = build_elements-Built new_id o.chosen.elements (slots o.layout) 0 o.built in
    let slotted = slots-IsInjective o.layout in
    (validate_structure-IsReadable json b).1 (
      rw o.same (record {
        within_limits = Built-limits json writes built;
        layout_known = λ bare. absurd (
            omega (
              arith,
              some_given,
              room,
              ap length bare,
              ap (λ l. length (slots l)) (some_eq (sym chosen_layout ∙ o.arranged)),
            ));
        has_room = (Built-length built).1;
        sound = Built-IsSound mint o.layout built fits (contains-get_elem? (slots o.layout));
        ids_differ = λ i j a p q. mint.never_again i j (
            ap new_id (omega arith)
            ∙ sym (Built-ids built i a p)
            ∙ Built-ids built j a q
            ∙ ap new_id (omega arith));
        slots_differ =
            λ i j a p q. slotted i j a (Built-slots built i a p) (Built-slots built j a q);
      }))
