-- ===== src/Block/Tray/Built.antt =====
-- The elements that `NewBlock` builds, one for each element of the start that was chosen.
use mathlib.Core.Path.{subst}
use lumi_hub.Base.{
  >>=-eq-ok, All, Bool, List, Option-cases, [], all_of, and_true, ap, arith, contains, get_elem?,
  inl, inr, length, lookup-all_of, nat_eq, ok, ok_eq, refl, some, some_eq, string_eq, suc, sym,
  true, zero, ℕ, ◌&&◌, ◌+◌, ◌∙◌, ◌∷◌, ◌≡◌, ◌≢◌, ◌≤◌,
}
use lumi_hub.Block.Catalog.{DefinedElement}
use lumi_hub.Block.Consistency.{element_fits, element_fits-parts, options_fit}
use lumi_hub.Block.Content.{
  Content, Element, Uuid, empty_content, empty_contents, is_nil, is_nil-eq, item_ids, nil_id,
}
use lumi_hub.Block.Layout.{Layout, Slot, slots}
use lumi_hub.Block.Structure.{Encoder, element_items, max_payload_bytes}
use lumi_hub.Block.Structure.Exact.{element_ids, element_slots}
use lumi_hub.Block.Structure.Loops.{IsWithin, IsWithinLimits}
use lumi_hub.Block.Structure.Rounds.{FitsOptions, IsSound}
use lumi_hub.Block.Tray.{build_elements}
use lumi_hub.Block.Vocab.{ElementType, Options, type_image_set, type_prose, type_text_set}

-- A uuid is new at every call, and never the nil one.
pub record IsMint (new_id : ℕ → Uuid) : Type 0 where
  pub never_nil : (n : ℕ) → new_id n ≢ nil_id
  pub never_again : (m n : ℕ) → new_id m ≡ new_id n → m ≡ n

-- The encoder writes the empty content of every type within the limit.
abbrev pub WritesEmpty : Encoder → Type 0
WritesEmpty json =
    (t : ElementType) (c : Content)
    → empty_content t ≡ some c
    → IsWithin max_payload_bytes (json.content_bytes (some c))

options_fit-FitsOptions : (t : ElementType) (o : Options) → options_fit t o ≡ true → FitsOptions t o
unfolding options_fit
options_fit-FitsOptions t o h = ground (
  arith,
  string_eq.equal_iff t type_prose,
  string_eq.equal_iff t type_text_set,
  string_eq.equal_iff t type_image_set,
  string_eq.equal_iff o.display "",
  string_eq.equal_iff o.item_size "",
)

-- The empty content of a type has no items.
has_no_items : Content → Bool
unfolding item_ids element_items
has_no_items c = is_nil (item_ids c) && is_nil (element_items (some c))

empty_contents_bare :
    all_of (λ (entry : ElementType × Content). has_no_items entry.1) empty_contents ≡ true
unfolding has_no_items
empty_contents_bare = refl

empty_content_bare :
    (t : ElementType) (c : Content)
    → empty_content t ≡ some c
    → (item_ids c ≡ []) × (element_items (some c) ≡ [])
unfolding empty_content has_no_items
empty_content_bare t c h =
    let bare = lookup-all_of has_no_items t empty_contents empty_contents_bare h in
    let (no_ids, no_items) =
      and_true (is_nil (item_ids c)) (is_nil (element_items (some c))) bare in
    (is_nil-eq _ no_ids, is_nil-eq _ no_items)

-- What `build_elements` gives: one element for each that is defined, in the next slot, with the
-- next id and with its type's empty content.
abbrev pub built_element : (ℕ → Uuid) → DefinedElement → Slot → ℕ → Content → Element
built_element new_id d s m c = record {
  id = new_id m;
  element_type = d.element_type;
  role = d.role;
  slot = s;
  options = d.options;
  content = some c;
}

pub data Built (new_id : ℕ → Uuid)
    : List DefinedElement → List Slot → ℕ → List Element → Type 0 where
  done : {available : List Slot} {m : ℕ} → Built new_id [] available m []
  next :
      {ds : List DefinedElement} {available : List Slot} {m : ℕ} {es : List Element}
      (d : DefinedElement) (s : Slot) (c : Content)
      → empty_content d.element_type ≡ some c
      → Built new_id ds available (m + 1) es
      → Built new_id (d ∷ ds) (s ∷ available) m (built_element new_id d s m c ∷ es)

pub build_elements-Built :
    (new_id : ℕ → Uuid) (ds : List DefinedElement) (available : List Slot) (m : ℕ)
    {es : List Element}
    → build_elements new_id ds available m ≡ ok es
    → Built new_id ds available m es
unfolding build_elements
build_elements-Built new_id [] available m {es} h =
    let none_built : [] ≡ es = cc in subst (Built new_id [] available m) none_built done
build_elements-Built new_id (d ∷ ds) [] m h = absurd (ground arith)
build_elements-Built new_id (d ∷ ds) (s ∷ available) m {es} h =
    elim (Option-cases (empty_content d.element_type)) [
      | inl missing ↦ absurd (cc (rw (missing, build_elements) at h))
      | inr (c, found) ↦
          let (rest, built, same) =
            >>=-eq-ok (build_elements new_id ds available (m + 1)) _
              (rw (found, build_elements) at h) in
          let whole : _ ∷ rest ≡ es = ok_eq same in
          subst (Built new_id (d ∷ ds) (s ∷ available) m) whole
            (next d s c found (build_elements-Built new_id ds available (m + 1) built))
    ]

module _ {new_id : ℕ → Uuid} where
  -- Each element built is sound in a layout that has its slot.
  pub Built-IsSound :
      IsMint new_id
      → (layout : Layout)
      → {ds : List DefinedElement} {available : List Slot} {m : ℕ} {es : List Element}
      → Built new_id ds available m es
      → all_of element_fits ds ≡ true
      → ((i : ℕ) (s : Slot) → get_elem? available i ≡ some s → contains (slots layout) s ≡ true)
      → All (IsSound layout) es
  Built-IsSound mint layout done fits known = tt
  Built-IsSound mint layout (next {ds} {available} {m} d s c found b) fits known =
      let (no_ids, no_items) = empty_content_bare d.element_type c found in
      let (fit, fit_rest) = and_true (element_fits d) (all_of element_fits ds) fits in
      let (type_fits, options, _) = element_fits-parts d fit in
      (
        record {
          type_known = type_fits;
          has_id = mint.never_nil m;
          items_set = rw no_ids tt;
          items_differ = rw no_ids (λ i j a h k. cc);
          options_fit = options_fit-FitsOptions d.element_type d.options options;
          slot_known = known 0 s refl;
        },
        Built-IsSound mint layout b fit_rest (λ i. known (suc i)),
      )

  pub Built-limits :
      (json : Encoder)
      → WritesEmpty json
      → {ds : List DefinedElement} {available : List Slot} {m : ℕ} {es : List Element}
      → Built new_id ds available m es
      → All (IsWithinLimits json) es
  Built-limits json writes done = tt
  Built-limits json writes (next d s c found b) =
      let (no_ids, no_items) = empty_content_bare d.element_type c found in
      (rw no_items (omega arith, tt, writes d.element_type c found), Built-limits json writes b)

  pub Built-ids :
      {ds : List DefinedElement} {available : List Slot} {m : ℕ} {es : List Element}
      → Built new_id ds available m es
      → (i : ℕ) (a : Uuid) → get_elem? (element_ids es) i ≡ some a
      → a ≡ new_id (m + i)
  Built-ids done i a h = cc
  Built-ids (next {m = m} d s c found b) zero a h =
      sym (some_eq {a = new_id m} {b = a} h) ∙ ap new_id (omega arith)
  Built-ids (next d s c found b) (suc i) a h = Built-ids b i a h ∙ ap new_id (omega arith)

  pub Built-slots :
      {ds : List DefinedElement} {available : List Slot} {m : ℕ} {es : List Element}
      → Built new_id ds available m es
      → (i : ℕ) (a : Slot) → get_elem? (element_slots es) i ≡ some a
      → get_elem? available i ≡ some a
  Built-slots done i a h = cc
  Built-slots (next d s c found b) zero a h = h
  Built-slots (next d s c found b) (suc i) a h = Built-slots b i a h

  pub Built-length :
      {ds : List DefinedElement} {available : List Slot} {m : ℕ} {es : List Element}
      → Built new_id ds available m es
      → (length es ≡ length ds) × (length es ≤ length available)
  Built-length done = (refl, omega arith)
  Built-length (next d s c found b) = omega (arith, Built-length b)
