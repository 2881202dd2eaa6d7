-- ===== src/Protected/Sealing.antt =====
-- What sealing takes out of the blocks, and that restoring puts it back.
use lumi_hub.Base.{
  All, Bool, Bool-cases, List, Option, Option-cases, String, [], all_of, any_of, ap, arith, err,
  false, if◌then◌else◌, inl, inr, keep, lookup, map, nat_eq, none, not, ok, refl, some, string_eq,
  sym, true, ◌&&◌, ◌++◌, ◌==◌, ◌||◌, ◌∙◌, ◌∷◌, ◌≡◌,
}
use lumi_hub.Block.Content.{Block, Content, Element, PromptFragment, Uuid, prompt_list}
use lumi_hub.Protected.{
  PromptValue, Prompts, as_prompt_list, marker_sealed, put, seal, seal_blocks, seal_element,
  seal_elements, seal_fragments,
}
use lumi_hub.Protected.Tables.{restore_blocks, restore_element, restore_elements, restore_fragments}

abbrev pub value_of : PromptFragment → PromptValue
value_of f = record { text = f.text; source_key = ""; replace_source_key = false }

-- The sealed fragments of a page, in its order.
abbrev pub protected_in : List PromptFragment → List PromptFragment
protected_in fs = keep (λ (f : PromptFragment). f.protected) fs

unfoldable pub protected_in_element : Element → List PromptFragment
protected_in_element e = elim (as_prompt_list e.content) [
  | none ↦ []
  | some p ↦ protected_in p.fragments
]

unfoldable pub protected_in_elements : List Element → List PromptFragment
protected_in_elements [] = []
protected_in_elements (e ∷ es) = protected_in_element e ++ protected_in_elements es

unfoldable pub protected_in_blocks : List Block → List PromptFragment
protected_in_blocks [] = []
protected_in_blocks (b ∷ bs) = protected_in_elements b.elements ++ protected_in_blocks bs

unfoldable pub put_all : List PromptFragment → List (Uuid × PromptValue) → List (Uuid × PromptValue)
put_all [] m = m
put_all (f ∷ fs) m = put_all fs (put f.id (value_of f) m)

put_all-append :
    (xs ys : List PromptFragment) (m : List (Uuid × PromptValue))
    → put_all (xs ++ ys) m ≡ put_all ys (put_all xs m)
unfolding put_all
put_all-append [] ys m = refl
put_all-append (x ∷ xs) ys m = put_all-append xs ys (put x.id (value_of x) m)

-- The texts that restoring needs.
abbrev pub Knows : List (Uuid × String) → List PromptFragment → Type 0
Knows texts fs = All (λ (f : PromptFragment). lookup f.id texts ≡ some f.text) fs

abbrev pub is_redacted : PromptFragment → Bool
is_redacted f = not f.protected || f.text == ""

unfoldable pub is_redacted_element : Element → Bool
is_redacted_element e = elim (as_prompt_list e.content) [
  | none ↦ true
  | some p ↦ all_of is_redacted p.fragments
]

unfoldable pub is_redacted_page : List Block → Bool
is_redacted_page blocks = all_of (λ (b : Block). all_of is_redacted_element b.elements) blocks

-- The public view of a fragment, an element and a block.
abbrev pub redact : PromptFragment → PromptFragment
redact f = if f.protected then record f { text = "" } else f

unfoldable pub redact_element : Element → Element
redact_element e = elim (as_prompt_list e.content) [
  | none ↦ e
  | some p ↦ record e { content = some (prompt_list p.groups (map redact p.fragments)) }
]

unfoldable pub redact_block : Block → Block
redact_block b = record b { elements = map redact_element b.elements }

-- A sealed fragment with a marker, which is refused.
abbrev pub is_marked : PromptFragment → Bool
is_marked f = f.protected && not (f.marker == "")

unfoldable pub is_marked_element : Element → Bool
is_marked_element e = elim (as_prompt_list e.content) [
  | none ↦ false
  | some p ↦ any_of is_marked p.fragments
]

unfoldable pub is_marked_page : List Block → Bool
is_marked_page blocks = any_of (λ (b : Block). any_of is_marked_element b.elements) blocks

seal_fragments_lem :
    (fs : List PromptFragment) (m : List (Uuid × PromptValue))
    → seal_fragments fs m ≡ (
        if any_of is_marked fs
        then err marker_sealed
        else ok (map redact fs, put_all (protected_in fs) m))
unfolding seal_fragments seal put_all
seal_fragments_lem [] m = refl
seal_fragments_lem (f ∷ fs) m = elim (Bool-cases f.protected) [
  | inr public ↦ rw (public, seal_fragments_lem fs m) (ground arith)
  | inl protected ↦ elim (Bool-cases (f.marker == "")) [
    | inr marked ↦ rw (protected, marked) refl
    | inl bare ↦
        rw (protected, bare, seal_fragments_lem fs (put f.id (value_of f) m)) (ground arith)
  ]
]

seal_element_lem :
    (e : Element) (m : List (Uuid × PromptValue))
    → seal_element e m ≡ (
        if is_marked_element e
        then err marker_sealed
        else ok (redact_element e, put_all (protected_in_element e) m))
unfolding seal_element is_marked_element redact_element protected_in_element put_all
seal_element_lem e m = elim (Option-cases (as_prompt_list e.content)) [
  | inl none_there ↦
      rw (none_there, seal_element, is_marked_element, redact_element, protected_in_element) refl
  | inr (p, found) ↦
      rw
        (
          found,
          seal_element,
          is_marked_element,
          redact_element,
          protected_in_element,
          seal_fragments_lem p.fragments m,
        )
        (ground arith)
]

seal_elements_lem :
    (es : List Element) (m : List (Uuid × PromptValue))
    → seal_elements es m ≡ (
        if any_of is_marked_element es
        then err marker_sealed
        else ok (map redact_element es, put_all (protected_in_elements es) m))
unfolding seal_elements protected_in_elements put_all
seal_elements_lem [] m = refl
seal_elements_lem (e ∷ es) m = elim (Bool-cases (is_marked_element e)) [
  | inl marked ↦ rw (seal_element_lem e m, marked) refl
  | inr bare ↦
      rw
        (
          seal_element_lem e m,
          bare,
          seal_elements_lem es (put_all (protected_in_element e) m),
          put_all-append (protected_in_element e) (protected_in_elements es) m,
        )
        (ground arith)
]

pub seal_blocks_lem :
    (bs : List Block) (m : List (Uuid × PromptValue))
    → seal_blocks bs m ≡ (
        if is_marked_page bs
        then err marker_sealed
        else ok (map redact_block bs, put_all (protected_in_blocks bs) m))
unfolding seal_blocks protected_in_blocks put_all is_marked_page redact_block
seal_blocks_lem [] m = refl
seal_blocks_lem (b ∷ bs) m = elim (Bool-cases (any_of is_marked_element b.elements)) [
  | inl marked ↦ rw (seal_elements_lem b.elements m, marked) refl
  | inr bare ↦
      rw
        (
          seal_elements_lem b.elements m,
          bare,
          seal_blocks_lem bs (put_all (protected_in_elements b.elements) m),
          put_all-append (protected_in_elements b.elements) (protected_in_blocks bs) m,
        )
        (ground arith)
]

All-append_inv {ℓ κ} :
    {A : Type ℓ} (P : A → Type κ) (xs ys : List A) → All P (xs ++ ys) → All P xs × All P ys
All-append_inv P [] ys h = (tt, h)
All-append_inv P (x ∷ xs) ys h =
    let (front, back) = All-append_inv P xs ys h.1 in ((h.0, front), back)

-- A content that is a prompt list is built from what the assertion gives.
as_prompt_list_lem :
    (c : Option Content) {p : Prompts}
    → as_prompt_list c ≡ some p
    → c ≡ some (prompt_list p.groups p.fragments)
unfolding as_prompt_list
as_prompt_list_lem none h = absurd (cc h)
as_prompt_list_lem (some (prompt_list groups fragments)) h = ground (arith, h)
as_prompt_list_lem (some other) h = absurd (cc h)

restore_fragments_lem :
    (texts : List (Uuid × String)) (fs : List PromptFragment)
    → Knows texts (protected_in fs)
    → restore_fragments texts (map redact fs) ≡ ok fs
unfolding restore_fragments
restore_fragments_lem texts [] known = refl
restore_fragments_lem texts (f ∷ fs) known = elim (Bool-cases f.protected) [
  | inr public ↦ ground (arith, public, restore_fragments_lem texts fs (rw public at known))
  | inl protected ↦
      let (here, rest) = (rw protected at known) in
      ground (arith, protected, here, restore_fragments_lem texts fs rest)
]

restore_element_lem :
    (texts : List (Uuid × String)) (e : Element)
    → Knows texts (protected_in_element e)
    → restore_element texts (redact_element e) ≡ ok e
unfolding restore_element protected_in_element redact_element as_prompt_list
restore_element_lem texts e known = elim (Option-cases (as_prompt_list e.content)) [
  | inl none_there ↦ rw (none_there, redact_element) (rw (none_there, restore_element) refl)
  | inr (p, found) ↦
      rw
        (
          found,
          redact_element,
          restore_fragments_lem texts p.fragments (rw (found, protected_in_element) at known),
        )
        (ap (λ c. ok (record e { content = c })) (sym (as_prompt_list_lem e.content found)))
]

restore_elements_lem :
    (texts : List (Uuid × String)) (es : List Element)
    → Knows texts (protected_in_elements es)
    → restore_elements texts (map redact_element es) ≡ ok es
unfolding restore_elements protected_in_elements
restore_elements_lem texts [] known = refl
restore_elements_lem texts (e ∷ es) known =
    let (here, rest) =
      All-append_inv (λ (f : PromptFragment). lookup f.id texts ≡ some f.text)
        (protected_in_element e) (protected_in_elements es) known in
    rw (restore_element_lem texts e here, restore_elements_lem texts es rest) refl

pub restore_blocks_lem :
    (texts : List (Uuid × String)) (bs : List Block)
    → Knows texts (protected_in_blocks bs)
    → restore_blocks texts (map redact_block bs) ≡ ok bs
unfolding restore_blocks protected_in_blocks redact_block
restore_blocks_lem texts [] known = refl
restore_blocks_lem texts (b ∷ bs) known =
    let (here, rest) =
      All-append_inv (λ (f : PromptFragment). lookup f.id texts ≡ some f.text)
        (protected_in_elements b.elements) (protected_in_blocks bs) known in
    rw (restore_elements_lem texts b.elements here, restore_blocks_lem texts bs rest) refl

blank_text : (b : Bool) (t : String) → (not b || (if b then "" else t) == "") ≡ true
blank_text true t = refl
blank_text false t = refl

redact-protected : (f : PromptFragment) → (redact f).protected ≡ f.protected
redact-protected f = ground arith

redact-text : (f : PromptFragment) → (redact f).text ≡ (if f.protected then "" else f.text)
redact-text f = ground arith

is_redacted-redact : (f : PromptFragment) → is_redacted (redact f) ≡ true
is_redacted-redact f =
    ap (λ b. not b || (redact f).text == "") (redact-protected f)
    ∙ ap (λ t. not f.protected || t == "") (redact-text f)
    ∙ blank_text f.protected f.text

redact-is_redacted : (fs : List PromptFragment) → all_of is_redacted (map redact fs) ≡ true
redact-is_redacted [] = refl
redact-is_redacted (f ∷ fs) = rw (is_redacted-redact f) (redact-is_redacted fs)

redact_element-is_redacted : (e : Element) → is_redacted_element (redact_element e) ≡ true
unfolding is_redacted_element redact_element as_prompt_list
redact_element-is_redacted e = elim (Option-cases (as_prompt_list e.content)) [
  | inl none_there ↦ rw (none_there, redact_element) (rw (none_there, is_redacted_element) refl)
  | inr (p, found) ↦ rw (found, redact_element) (redact-is_redacted p.fragments)
]

redact_elements-is_redacted :
    (es : List Element) → all_of is_redacted_element (map redact_element es) ≡ true
redact_elements-is_redacted [] = refl
redact_elements-is_redacted (e ∷ es) =
    rw (redact_element-is_redacted e) (redact_elements-is_redacted es)

pub redact_block-is_redacted : (bs : List Block) → is_redacted_page (map redact_block bs) ≡ true
unfolding is_redacted_page redact_block
redact_block-is_redacted [] = refl
redact_block-is_redacted (b ∷ bs) =
    rw (redact_elements-is_redacted b.elements) (redact_block-is_redacted bs)
