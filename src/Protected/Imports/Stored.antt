-- ===== src/Protected/Imports/Stored.antt =====
-- What an import stores.
use mathlib.Core.Path.{subst}
use lumi_hub.Base.{
  ==-refl, >>=-eq-ok, Bool, Bool-cases, Has, List, String, [], ap, arith, contains, distinct, false,
  inl, inr, keep, length, lookup, map, nat_eq, none, ok, ok_eq, refl, refuse_if, some, string_eq,
  sym, true, ◌&&◌, ◌==◌, ◌>>◌, ◌∙◌, ◌∷◌, ◌≡◌,
}
use lumi_hub.Block.Content.{Block, Uuid, is_nil, is_none}
use lumi_hub.Protected.{
  PromptValue, ProtectedError, Sealed, Vault, policy, policy_required, put, stored_apps,
}
use lumi_hub.Protected.Imports.{
  ProtectedPrompt, import_policy, import_prompt_fragments, imported_text, imported_values,
  is_keyed_prompt, own_blocks, prompt_text_by_source_key,
}
use lumi_hub.Protected.Restored.{replace-read}
use lumi_hub.Protected.Tables.{add_apps, is_prompt_of, read_texts, replace_prompt_payloads}
use lumi_hub.Protected.Upserts.{is_map, is_map-put, lookup-put}

abbrev pub imported_ids : List ProtectedPrompt → List Uuid
imported_ids imports = map (λ (i : ProtectedPrompt). i.fragment_id) imports

-- A stored prompt of the asset under the key.
abbrev pub is_under : Uuid → String → Sealed → Bool
is_under asset key r =
    (r.asset_id == asset
      && (r.owner_kind == "prompt_fragment" && r.payload_type == "prompt_fragment_text"))
    && elim r.source_key [ none ↦ false | some k ↦ k == key ]

-- The text that an import stores: its own, or that of the one stored prompt that it takes over.
pub data IsText (asset : Uuid) (i : ProtectedPrompt) (sealed : List Sealed) (text : String)
    : Type 0 where
  its_own : i.reuse_existing ≡ false → text ≡ i.text → IsText asset i sealed text
  taken_over :
      (r : Sealed)
      → i.reuse_existing ≡ true
      → i.source_key == "" ≡ false
      → keep (is_under asset i.source_key) sealed ≡ r ∷ []
      → text ≡ r.text
      → IsText asset i sealed text

-- What `RestorePromptFragments` reads for the fragment of an import: its text.
pub record IsStored (asset : Uuid) (i : ProtectedPrompt) (before after : Vault) : Type 0 where
  pub text : String
  pub chosen : IsText asset i before.sealed text
  pub read :
      lookup i.fragment_id (read_texts (keep (is_prompt_of asset) after.sealed) []) ≡ some text

-- The policy stage leaves the payloads alone, and the asset with an app.
add_apps-stored_apps :
    (asset : Uuid) (apps : List String) (v : Vault)
    → is_nil apps ≡ false
    → is_nil (stored_apps asset (add_apps asset apps v)) ≡ false
unfolding add_apps stored_apps
add_apps-stored_apps asset [] v some_app = absurd (cc some_app)
add_apps-stored_apps asset (app ∷ apps) v some_app = rw (==-refl ⦃e = nat_eq⦄ asset) refl

record HasPolicy (asset : Uuid) (before after : Vault) : Type 0 where
  sealed_kept : after.sealed ≡ before.sealed
  allows : is_nil (stored_apps asset after) ≡ false

import_policy-HasPolicy :
    (asset : Uuid) (initial_apps : List String) (v : Vault) {w : Vault}
    → import_policy asset initial_apps v ≡ ok w
    → HasPolicy asset v w
unfolding import_policy
import_policy-HasPolicy asset initial_apps v {w} finished =
    elim (Bool-cases (is_nil (stored_apps asset v))) [
      | inr allowed_already ↦
          let same : v ≡ w =
            ok_eq {E = ProtectedError} (rw (allowed_already, import_policy) at finished) in
          subst (HasPolicy asset v) same (record { sealed_kept = refl; allows = allowed_already })
      | inl bare ↦
          let (apps, checked, rest) =
            >>=-eq-ok (policy asset (some initial_apps) v)
              (λ (apps : List String).
                refuse_if (is_nil apps) policy_required >> ok (add_apps asset apps v))
              (rw (bare, import_policy) at finished) in
          elim (Bool-cases (is_nil apps)) [
            | inl no_app ↦ absurd (cc (rw (no_app) at rest))
            | inr some_app ↦
                let same : add_apps asset apps v ≡ w =
                  ok_eq {E = ProtectedError} (rw (some_app) at rest) in
                subst (HasPolicy asset v) same (record {
                  sealed_kept = unfold add_apps in refl;
                  allows = add_apps-stored_apps asset apps v some_app;
                })
          ]
    ]

keep-is_keyed_prompt :
    (asset : Uuid) (key : String) (rs : List Sealed)
    → keep (is_keyed_prompt asset key) rs ≡ keep (is_under asset key) rs
unfolding is_keyed_prompt is_prompt_of
keep-is_keyed_prompt asset key [] = refl
keep-is_keyed_prompt asset key (r ∷ rs) = ground (arith, keep-is_keyed_prompt asset key rs)

prompt_text_by_source_key-one :
    (asset : Uuid) (key : String) (v : Vault) {text : String}
    → prompt_text_by_source_key asset key v ≡ ok text
    → (r : Sealed) × (keep (is_under asset key) v.sealed ≡ r ∷ []) × (text ≡ r.text)
unfolding prompt_text_by_source_key
prompt_text_by_source_key-one asset key v {text} read =
    go (keep (is_keyed_prompt asset key) v.sealed) refl
  where
    go :
        (rs : List Sealed)
        → keep (is_keyed_prompt asset key) v.sealed ≡ rs
        → (r : Sealed) × (keep (is_under asset key) v.sealed ≡ r ∷ []) × (text ≡ r.text)
    go [] kept = absurd (ground (arith, kept, read))
    go (r ∷ []) kept = (
      r,
      sym (keep-is_keyed_prompt asset key v.sealed) ∙ kept,
      sym (ok_eq {E = ProtectedError} (rw (kept, prompt_text_by_source_key) at read)),
    )
    go (r ∷ q ∷ rs) kept = absurd (ground (arith, kept, read))

imported_text-IsText :
    (asset : Uuid) (i : ProtectedPrompt) (v : Vault) {text : String}
    → imported_text asset i v ≡ ok text
    → IsText asset i v.sealed text
unfolding imported_text
imported_text-IsText asset i v {text} chosen = elim (Bool-cases i.reuse_existing) [
  | inr own ↦ its_own own (ground (arith, own, chosen))
  | inl reused ↦ elim (Bool-cases (i.source_key == "")) [
    | inl unnamed ↦ absurd (ground (arith, reused, unnamed, chosen))
    | inr named ↦
        let (r, alone, same) =
          prompt_text_by_source_key-one asset i.source_key v
            (rw (named, imported_text) at (rw (reused, imported_text) at chosen)) in
        taken_over r reused named alone same
  ]
]

imported_text-sealed :
    (asset : Uuid) (i : ProtectedPrompt) (v w : Vault)
    → w.sealed ≡ v.sealed
    → imported_text asset i w ≡ imported_text asset i v
unfolding imported_text prompt_text_by_source_key
imported_text-sealed asset i v w same = rw (same) refl

abbrev value_with : ProtectedPrompt → String → PromptValue
value_with i text = record { text = text; source_key = i.source_key; replace_source_key = true }

-- One round of the loop.
imported_values-first :
    (asset : Uuid) (owners : List (Uuid × Bool)) (i : ProtectedPrompt)
    (imports : List ProtectedPrompt) (values : List (Uuid × PromptValue)) (v : Vault)
    {all_values : List (Uuid × PromptValue)}
    → imported_values asset owners (i ∷ imports) values v ≡ ok all_values
    → (text : String) × (imported_text asset i v ≡ ok text)
      × (imported_values asset owners imports
            (put i.fragment_id
              (record { text = text; source_key = i.source_key; replace_source_key = true })
              values)
            v
          ≡ ok all_values)
unfolding imported_values
imported_values-first asset owners i imports values v finished =
    elim (Bool-cases (is_none (lookup i.fragment_id owners))) [
      | inl stray ↦ absurd (cc (rw (stray, imported_values) at finished))
      | inr owned ↦ >>=-eq-ok (imported_text asset i v) _ (rw (owned, imported_values) at finished)
    ]

imported_values-is_map :
    (asset : Uuid) (owners : List (Uuid × Bool)) (imports : List ProtectedPrompt)
    (values : List (Uuid × PromptValue)) (v : Vault) {all_values : List (Uuid × PromptValue)}
    → is_map values ≡ true
    → imported_values asset owners imports values v ≡ ok all_values
    → is_map all_values ≡ true
unfolding imported_values
imported_values-is_map asset owners [] values v {all_values} keyed finished =
    subst (λ (m : List (Uuid × PromptValue)). is_map m ≡ true) (ok_eq {E = ProtectedError} finished)
      keyed
imported_values-is_map asset owners (i ∷ imports) values v keyed finished =
    let (text, chosen, rest) = imported_values-first asset owners i imports values v finished in
    imported_values-is_map asset owners imports _ v (is_map-put i.fragment_id _ values keyed) rest

-- A value that no later import overwrites stays.
imported_values-other :
    (asset : Uuid) (owners : List (Uuid × Bool)) (imports : List ProtectedPrompt)
    (values : List (Uuid × PromptValue)) (v : Vault) (id : Uuid)
    {all_values : List (Uuid × PromptValue)}
    → contains (imported_ids imports) id ≡ false
    → imported_values asset owners imports values v ≡ ok all_values
    → lookup id all_values ≡ lookup id values
unfolding imported_values
imported_values-other asset owners [] values v id {all_values} other finished =
    ap (λ (m : List (Uuid × PromptValue)). lookup id m) (sym (ok_eq {E = ProtectedError} finished))
imported_values-other asset owners (i ∷ imports) values v id other finished =
    let (text, chosen, rest) = imported_values-first asset owners i imports values v finished in
    let apart : (i.fragment_id == id) ≡ false = ground (arith, other) in
    imported_values-other asset owners imports _ v id (ground (arith, other)) rest
    ∙ lookup-put i.fragment_id id _ values
    ∙ rw (apart) refl

imported_values-Has :
    (asset : Uuid) (owners : List (Uuid × Bool)) (imports : List ProtectedPrompt)
    (values : List (Uuid × PromptValue)) (v : Vault) (i : ProtectedPrompt)
    {all_values : List (Uuid × PromptValue)}
    → distinct (imported_ids imports) ≡ true
    → Has i imports
    → imported_values asset owners imports values v ≡ ok all_values
    → (value : PromptValue) × (imported_text asset i v ≡ ok value.text)
      × (lookup i.fragment_id all_values ≡ some value)
imported_values-Has asset owners [] values v i apart stands finished = absurd stands
imported_values-Has asset owners (j ∷ imports) values v i {all_values} apart stands finished =
    let (text, chosen, rest) = imported_values-first asset owners j imports values v finished in
    elim stands [
      | inl same ↦
          let kept =
            imported_values-other asset owners imports _ v j.fragment_id (ground (arith, apart))
              rest in
          let put_in : lookup j.fragment_id (put j.fragment_id (value_with j text) values)
              ≡ some (value_with j text) =
            lookup-put j.fragment_id j.fragment_id _ values
            ∙ rw (==-refl ⦃e = nat_eq⦄ j.fragment_id) refl in
          subst
            (λ (k : ProtectedPrompt).
              (value : PromptValue) × (imported_text asset k v ≡ ok value.text)
              × (lookup k.fragment_id all_values ≡ some value))
            same (value_with j text, chosen, kept ∙ put_in)
      | inr later ↦
          imported_values-Has asset owners imports _ v i (ground (arith, apart)) later rest
    ]

-- After an import in which no two prompts name the same fragment, the asset has an app that it may be
-- delivered to, and what `RestorePromptFragments` reads for the fragment of each imported prompt is
-- the text of the prompt, or, where it takes over a stored one, the one text that was stored under its
-- key before the import.
pub import_prompt_fragments-IsStored :
    (asset : Uuid) (blocks : List Block) (imports : List ProtectedPrompt)
    (initial_apps : List String) (v : Vault) (i : ProtectedPrompt) {after : Vault}
    → distinct (imported_ids imports) ≡ true
    → Has i imports
    → import_prompt_fragments asset blocks imports initial_apps v ≡ ok after
    → (is_nil (stored_apps asset after) ≡ false) × IsStored asset i v after
unfolding import_prompt_fragments
import_prompt_fragments-IsStored asset blocks imports initial_apps v i {after} apart stands
      finished =
    elim (Bool-cases (length (own_blocks blocks []) == length imports)) [
      | inr unmatched ↦ absurd (cc (rw (unmatched, import_prompt_fragments) at finished))
      | inl matched ↦
          let (w, allowed, rest) =
            >>=-eq-ok (import_policy asset initial_apps v) _
              (rw (matched, import_prompt_fragments) at finished) in
          let (values, gathered, last) =
            >>=-eq-ok (imported_values asset (own_blocks blocks []) imports [] w) _ rest in
          let policy_stage = import_policy-HasPolicy asset initial_apps v allowed in
          let (value, chosen, found) =
            imported_values-Has asset (own_blocks blocks []) imports [] w i apart stands gathered in
          let keyed =
            imported_values-is_map asset (own_blocks blocks []) imports [] w refl gathered in
          subst (λ (x : Vault). (is_nil (stored_apps asset x) ≡ false) × IsStored asset i v x)
            (ok_eq {E = ProtectedError} last)
            (
              unfold replace_prompt_payloads stored_apps in policy_stage.allows,
              record {
                text = value.text;
                chosen =
                    imported_text-IsText asset i v
                      (sym (imported_text-sealed asset i v w policy_stage.sealed_kept) ∙ chosen);
                read = replace-read asset i.fragment_id values w keyed found;
              },
            )
    ]
