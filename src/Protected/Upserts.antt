-- ===== src/Protected/Upserts.antt =====
-- What the upserts of a save leave in `protected_content`, and the maps that it collects.
use lumi_hub.Base.{
  ==-refl, All, Bool, Bool-cases, List, String, [], all_of, and_true, any_of, arith, contains,
  distinct, false, if◌then◌else◌, inl, inr, lookup, map, nat_eq, not, refl, some, string_eq, true,
  ◌&&◌, ◌==◌, ◌||◌, ◌∙◌, ◌∷◌, ◌≡◌,
}
use lumi_hub.Block.Content.{PromptFragment, Uuid}
use lumi_hub.Protected.{PromptValue, Sealed, prompt_payload, put}
use lumi_hub.Protected.Sealing.{put_all, value_of}
use lumi_hub.Protected.Tables.{is_payload_of, overwrite, prompt_ids, upsert}

module _ {V : Type 0} where
  pub lookup-put :
      (k j : Uuid) (v : V) (m : List (Uuid × V))
      → lookup j (put k v m) ≡ (if k == j then some v else lookup j m)
  unfolding put
  lookup-put k j v [] = refl
  lookup-put k j v ((i, w) ∷ m) = ground (arith, lookup-put k j v m)

  keys-put :
      (k j : Uuid) (v : V) (m : List (Uuid × V))
      → contains (map (λ (entry : Uuid × V). entry.0) (put k v m)) j
        ≡ (k == j || contains (map (λ (entry : Uuid × V). entry.0) m) j)
  unfolding put
  keys-put k j v [] = refl
  keys-put k j v ((i, w) ∷ m) = ground (arith, keys-put k j v m)

-- One entry a key.
abbrev pub is_map : List (Uuid × PromptValue) → Bool
is_map values = distinct (prompt_ids values)

pub is_map-put :
    (k : Uuid) (v : PromptValue) (m : List (Uuid × PromptValue))
    → is_map m ≡ true
    → is_map (put k v m) ≡ true
unfolding put
is_map-put k v [] h = refl
is_map-put k v ((i, w) ∷ m) h = ground (arith, h, is_map-put k v m, keys-put k i v m)

pub is_map-put_all :
    (fs : List PromptFragment) (m : List (Uuid × PromptValue))
    → is_map m ≡ true
    → is_map (put_all fs m) ≡ true
unfolding put_all
is_map-put_all [] m h = h
is_map-put_all (f ∷ fs) m h =
    is_map-put_all fs (put f.id (value_of f) m) (is_map-put f.id (value_of f) m h)

abbrev pub ids_of : List PromptFragment → List Uuid
ids_of fs = map (λ (f : PromptFragment). f.id) fs

lookup-put_all :
    (fs : List PromptFragment) (m : List (Uuid × PromptValue)) (j : Uuid)
    → contains (ids_of fs) j ≡ false
    → lookup j (put_all fs m) ≡ lookup j m
unfolding put_all
lookup-put_all [] m j h = refl
lookup-put_all (f ∷ fs) m j h =
    lookup-put_all fs (put f.id (value_of f) m) j (ground (arith, h))
    ∙ ground (arith, h, lookup-put f.id j (value_of f) m)

pub lookup-put_all_self :
    (fs : List PromptFragment) (m : List (Uuid × PromptValue))
    → distinct (ids_of fs) ≡ true
    → All (λ (f : PromptFragment). lookup f.id (put_all fs m) ≡ some (value_of f)) fs
unfolding put_all
lookup-put_all_self [] m h = tt
lookup-put_all_self (f ∷ fs) m h = (
  lookup-put_all fs (put f.id (value_of f) m) f.id (ground (arith, h))
      ∙ ground (arith, ==-refl ⦃e = nat_eq⦄ f.id, lookup-put f.id f.id (value_of f) m),
  lookup-put_all_self fs (put f.id (value_of f) m) (ground (arith, h)),
)

-- The rows agree that the text of the fragment is this, and there is one.
abbrev pub has_text : String → Sealed → Bool
has_text text r = r.text == text && r.payload_type == prompt_payload

pub record Agrees (asset id : Uuid) (text : String) (rows : List Sealed) : Type 0 where
  pub there : any_of (is_payload_of asset id) rows ≡ true
  pub all_say : all_of (λ r. not (is_payload_of asset id r) || has_text text r) rows ≡ true

overwrite-key :
    (asset id other : Uuid) (v : PromptValue) (r : Sealed)
    → is_payload_of asset other (overwrite asset id v r) ≡ is_payload_of asset other r
unfolding overwrite is_payload_of
overwrite-key asset id other v r = ground arith

overwrite_self :
    (asset id : Uuid) (v : PromptValue) (r : Sealed)
    → (not (is_payload_of asset id r) || has_text v.text (overwrite asset id v r)) ≡ true
unfolding overwrite
overwrite_self asset id v r = elim (Bool-cases (is_payload_of asset id r)) [
  | inr other ↦ rw other refl
  | inl here ↦ rw (here, overwrite) (rw (==-refl ⦃e = string_eq⦄ v.text) refl)
]

overwrite-other :
    (asset id other : Uuid) (v : PromptValue) (r : Sealed)
    → id == other ≡ false
    → is_payload_of asset other r ≡ true
    → overwrite asset id v r ≡ r
unfolding overwrite is_payload_of
overwrite-other asset id other v r apart here = ground (arith, apart, here)

any_of-overwrite :
    (asset id other : Uuid) (v : PromptValue) (rows : List Sealed)
    → any_of (is_payload_of asset other) (map (overwrite asset id v) rows)
      ≡ any_of (is_payload_of asset other) rows
any_of-overwrite asset id other v [] = refl
any_of-overwrite asset id other v (r ∷ rows) =
    cc (overwrite-key asset id other v r, any_of-overwrite asset id other v rows)

abbrev pub only_says : Uuid → Uuid → String → List Sealed → Bool
only_says asset id text rows = all_of (λ r. not (is_payload_of asset id r) || has_text text r) rows

only_says-overwrite :
    (asset id : Uuid) (v : PromptValue) (rows : List Sealed)
    → only_says asset id v.text (map (overwrite asset id v) rows) ≡ true
only_says-overwrite asset id v [] = refl
only_says-overwrite asset id v (r ∷ rows) =
    rw (overwrite-key asset id id v r, overwrite_self asset id v r)
      (only_says-overwrite asset id v rows)

only_says-absent :
    (asset id : Uuid) (text : String) (rows : List Sealed)
    → any_of (is_payload_of asset id) rows ≡ false
    → only_says asset id text rows ≡ true
only_says-absent asset id text [] h = refl
only_says-absent asset id text (r ∷ rows) h = ground (arith, h, only_says-absent asset id text rows)

only_says-overwrite_other :
    (asset id other : Uuid) (text : String) (v : PromptValue) (rows : List Sealed)
    → id == other ≡ false
    → only_says asset other text rows ≡ true
    → only_says asset other text (map (overwrite asset id v) rows) ≡ true
only_says-overwrite_other asset id other text v [] apart h = refl
only_says-overwrite_other asset id other text v (r ∷ rows) apart h =
    let (first, rest) =
      and_true (not (is_payload_of asset other r) || has_text text r)
        (only_says asset other text rows) h in
    elim (Bool-cases (is_payload_of asset other r)) [
      | inl here ↦
          rw (overwrite-other asset id other v r apart here, first)
            (only_says-overwrite_other asset id other text v rows apart rest)
      | inr out ↦
          rw (overwrite-key asset id other v r, out)
            (only_says-overwrite_other asset id other text v rows apart rest)
    ]

pub upsert-Agrees :
    (asset id : Uuid) (v : PromptValue) (rows : List Sealed)
    → Agrees asset id v.text (upsert asset id v rows)
unfolding upsert
upsert-Agrees asset id v rows = elim (Bool-cases (any_of (is_payload_of asset id) rows)) [
  | inl some_one ↦
      rw (some_one, upsert)
        (record {
          there = any_of-overwrite asset id id v rows ∙ some_one;
          all_say = only_says-overwrite asset id v rows;
        })
  | inr no_one ↦
      rw (no_one, upsert)
        (record {
          there =
              unfold is_payload_of in rw (==-refl ⦃e = nat_eq⦄ asset, ==-refl ⦃e = nat_eq⦄ id) refl;
          all_say =
              unfold is_payload_of in
              rw
                (
                  ==-refl ⦃e = nat_eq⦄ asset,
                  ==-refl ⦃e = nat_eq⦄ id,
                  ==-refl ⦃e = string_eq⦄ v.text,
                )
                (only_says-absent asset id v.text rows no_one);
        })
]

pub upsert-Agrees_other :
    (asset id other : Uuid) (text : String) (v : PromptValue) (rows : List Sealed)
    → id == other ≡ false
    → Agrees asset other text rows
    → Agrees asset other text (upsert asset id v rows)
unfolding upsert
upsert-Agrees_other asset id other text v rows apart a =
    elim (Bool-cases (any_of (is_payload_of asset id) rows)) [
      | inl some_one ↦
          rw (some_one, upsert)
            (record {
              there = any_of-overwrite asset id other v rows ∙ a.there;
              all_say = only_says-overwrite_other asset id other text v rows apart a.all_say;
            })
      | inr no_one ↦
          rw (no_one, upsert)
            (record {
              there = unfold is_payload_of in ground (arith, a.there);
              all_say = unfold is_payload_of in ground (arith, apart, a.all_say);
            })
    ]
