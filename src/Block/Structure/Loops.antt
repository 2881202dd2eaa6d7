-- ===== src/Block/Structure/Loops.antt =====
-- What the loops of `ValidateContentLimits`, `validateItemIDs` and `ValidateStructure` accept,
-- each as a statement that does not mention the loop.
use lumi_hub.Base.{
  All, Bool, IsFresh, List, Option, Option-cases, [], arith, beq→neq, err, false, inl, inr, length,
  le→ltb, ltb, ltb→ge, nat_eq, neq→beq, ok, refl, refuse_if, some, string_eq, true, ℕ, ◌+◌, ◌>>◌,
  ◌∷◌, ◌≡◌, ◌≢◌, ◌≤◌,
}
use lumi_hub.Block.Content.{Element, Uuid, nil_id}
use lumi_hub.Block.Structure.{
  Checked, Encoder, Item, StructureError, check_ids, check_items, check_limits, check_payload,
  element_items, max_collection_items, max_item_bytes, max_payload_bytes, too_many_items,
  validate_content_limits,
}
use lumi_hub.Block.Vocab.{Role}

-- A call that only checks accepts, or it refuses.
pub >>-eq-ok : {k : Checked} (m : Checked) → (m >> k) ≡ ok tt → (m ≡ ok tt) × (k ≡ ok tt)
>>-eq-ok (ok tt) h = (refl, h)
>>-eq-ok (err e) h = cc

pub refuse_if-eq-ok : (b : Bool) (e : StructureError) → refuse_if b e ≡ ok tt → b ≡ false
refuse_if-eq-ok true e h = cc
refuse_if-eq-ok false e h = refl

pub refuse_if->> :
    (b : Bool) (e : StructureError) {k : Checked}
    → (refuse_if b e >> k) ≡ ok tt
    → (b ≡ false) × (k ≡ ok tt)
refuse_if->> true e h = cc
refuse_if->> false e h = (refl, h)

-- The encoder measures the value, within the limit.
abbrev pub IsWithin : ℕ → Option ℕ → Type 0
IsWithin limit o = (n : ℕ) × (o ≡ some n) × (n ≤ limit)

module _ (json : Encoder) where
  abbrev pub IsWithinLimits : Element → Type 0
  IsWithinLimits e =
      (length (element_items e.content) ≤ max_collection_items)
      × All (λ x. IsWithin max_item_bytes (json.item_bytes x)) (element_items e.content)
      × IsWithin max_payload_bytes (json.content_bytes e.content)

  pub check_items_sound :
      (r : Role) (i : ℕ) (xs : List Item)
      → check_items json r i xs ≡ ok tt
      → All (λ x. IsWithin max_item_bytes (json.item_bytes x)) xs
  unfolding check_items
  check_items_sound r i [] h = tt
  check_items_sound r i (x ∷ xs) h = elim (Option-cases (json.item_bytes x)) [
    | inl e ↦ cc (rw (e, check_items) at h)
    | inr (n, e) ↦
        let (fits, more) = refuse_if->> (ltb max_item_bytes n) _ (rw (e, check_items) at h) in
        ((n, e, ltb→ge max_item_bytes n fits), check_items_sound r (i + 1) xs more)
  ]

  pub check_items_complete :
      (r : Role) (i : ℕ) (xs : List Item)
      → All (λ x. IsWithin max_item_bytes (json.item_bytes x)) xs
      → check_items json r i xs ≡ ok tt
  unfolding check_items
  check_items_complete r i [] h = refl
  check_items_complete r i (x ∷ xs) ((n, e, fits), more) =
      rw (e, check_items) (rw (le→ltb _ _ fits) (check_items_complete r (i + 1) xs more))

  check_payload_sound :
      (e : Element)
      → check_payload json e ≡ ok tt
      → IsWithin max_payload_bytes (json.content_bytes e.content)
  unfolding check_payload
  check_payload_sound e h = elim (Option-cases (json.content_bytes e.content)) [
    | inl unmeasured ↦ cc (rw (unmeasured, check_payload) at h)
    | inr (n, size) ↦ (n, size, ground (arith, rw (size, check_payload) at h))
  ]

  pub check_limits_sound : (e : Element) → check_limits json e ≡ ok tt → IsWithinLimits e
  unfolding check_limits
  check_limits_sound e h =
      let rest = check_items json e.role 0 (element_items e.content) >> check_payload json e in
      let (few, more) =
        refuse_if->> (ltb max_collection_items (length (element_items e.content)))
          (too_many_items e.role (length (element_items e.content))) {k = rest} h in
      let (items, payload) =
        >>-eq-ok {k = check_payload json e} (check_items json e.role 0 (element_items e.content))
          more in
      (
        ltb→ge _ _ few,
        check_items_sound e.role 0 (element_items e.content) items,
        check_payload_sound e payload,
      )

  pub check_limits_complete : (e : Element) → IsWithinLimits e → check_limits json e ≡ ok tt
  unfolding check_limits
  check_limits_complete e (few, items, (n, size, fits)) = rw (le→ltb _ _ few) (
      rw (check_items_complete e.role 0 (element_items e.content) items)
        (rw (size, check_payload) (rw (le→ltb _ _ fits))))

  pub validate_content_limits_sound :
      (es : List Element) → validate_content_limits json es ≡ ok tt → All IsWithinLimits es
  unfolding validate_content_limits
  validate_content_limits_sound [] h = tt
  validate_content_limits_sound (e ∷ es) h =
      let (one, rest) = >>-eq-ok _ h in
      (check_limits_sound e one, validate_content_limits_sound es rest)

  pub validate_content_limits_complete :
      (es : List Element) → All IsWithinLimits es → validate_content_limits json es ≡ ok tt
  unfolding validate_content_limits
  validate_content_limits_complete [] h = refl
  validate_content_limits_complete (e ∷ es) (one, rest) =
      rw (check_limits_complete e one) (validate_content_limits_complete es rest)

-- The loop over the items' ids accepts ids that are set, and new to `seen` and to one another.
pub check_ids_sound :
    (at i : ℕ) (seen ids : List Uuid)
    → check_ids at i seen ids ≡ ok tt
    → All (λ id. id ≢ nil_id) ids × IsFresh seen ids
unfolding check_ids
check_ids_sound at i seen [] h = (tt, tt)
check_ids_sound at i seen (id ∷ ids) h =
    ground (arith, check_ids_sound at (i + 1) (id ∷ seen) ids, beq→neq id nil_id)

pub check_ids_complete :
    (at i : ℕ) (seen ids : List Uuid)
    → All (λ id. id ≢ nil_id) ids
    → IsFresh seen ids
    → check_ids at i seen ids ≡ ok tt
unfolding check_ids
check_ids_complete at i seen [] given new = refl
check_ids_complete at i seen (id ∷ ids) given new =
    rw (neq→beq id nil_id given.0)
      (rw new.0 (check_ids_complete at (i + 1) (id ∷ seen) ids given.1 new.1))
