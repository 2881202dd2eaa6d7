-- ===== src/Protected/Imports.antt =====
-- api/internal/protected/prompt.go: `ImportPromptFragments`, which stores the sealed prompts that a
-- format module took out of a file. A prompt without text may take over the one that is stored under
-- its key.
pub mod Stored
use lumi_hub.Base.{
  Bool, List, Result, String, [], err, false, if◌then◌else◌, keep, length, lookup, nat_eq, none,
  not, ok, refuse_if, some, string_eq, true, ◌&&◌, ◌==◌, ◌>>=◌, ◌>>◌, ◌∷◌,
}
use lumi_hub.Block.Content.{Block, Element, PromptFragment, Uuid, is_nil, is_none}
use lumi_hub.Protected.{
  PromptValue, ProtectedError, Sealed, Vault, as_prompt_list, malformed_input, policy,
  policy_required, put, stored_apps,
}
use lumi_hub.Protected.Tables.{add_apps, is_prompt_of, replace_prompt_payloads}

-- `format.ProtectedPrompt`
pub record ProtectedPrompt : Type 0 where
  pub fragment_id : Uuid
  pub source_key : String
  pub text : String
  pub reuse_existing : Bool

-- The map `owners`: the sealed fragments of the page that have no text.
unfoldable pub own_fragments : List PromptFragment → List (Uuid × Bool) → List (Uuid × Bool)
own_fragments [] owners = owners
own_fragments (f ∷ fs) owners =
    own_fragments fs (if f.protected && f.text == "" then put f.id true owners else owners)

unfoldable pub own_elements : List Element → List (Uuid × Bool) → List (Uuid × Bool)
own_elements [] owners = owners
own_elements (e ∷ es) owners =
    own_elements es (elim (as_prompt_list e.content) [
      | none ↦ owners
      | some p ↦ own_fragments p.fragments owners
    ])

unfoldable pub own_blocks : List Block → List (Uuid × Bool) → List (Uuid × Bool)
own_blocks [] owners = owners
own_blocks (b ∷ bs) owners = own_blocks bs (own_elements b.elements owners)

unfoldable pub is_keyed_prompt : Uuid → String → Sealed → Bool
is_keyed_prompt asset key r =
    is_prompt_of asset r && elim r.source_key [ none ↦ false | some k ↦ k == key ]

-- `promptTextBySourceKey`
unfoldable pub prompt_text_by_source_key : Uuid → String → Vault → Result ProtectedError String
prompt_text_by_source_key asset key v = elim (keep (is_keyed_prompt asset key) v.sealed) [
  | [] ↦ err malformed_input
  | r ∷ [] ↦ ok r.text
  | r ∷ s ∷ rows ↦ err malformed_input
]

unfoldable pub imported_text : Uuid → ProtectedPrompt → Vault → Result ProtectedError String
imported_text asset i v =
    if i.reuse_existing
    then (if i.source_key == ""
        then err malformed_input
        else prompt_text_by_source_key asset i.source_key v)
    else ok i.text

-- The loop over the imports
unfoldable pub imported_values :
    Uuid
    → List (Uuid × Bool)
    → List ProtectedPrompt
    → List (Uuid × PromptValue)
    → Vault
    → Result ProtectedError (List (Uuid × PromptValue))
imported_values asset owners [] values v = ok values
imported_values asset owners (i ∷ imports) values v =
    refuse_if (is_none (lookup i.fragment_id owners)) malformed_input
    >> (imported_text asset i v >>= λ (text : String).
        imported_values asset owners imports
          (put i.fragment_id
            (record { text = text; source_key = i.source_key; replace_source_key = true }) values)
          v)

-- The policy of the asset, or the first one
unfoldable pub import_policy : Uuid → List String → Vault → Result ProtectedError Vault
import_policy asset initial_apps v =
    if is_nil (stored_apps asset v)
    then (policy asset (some initial_apps) v >>= λ (apps : List String).
        refuse_if (is_nil apps) policy_required >> ok (add_apps asset apps v))
    else ok v

-- `ImportPromptFragments`
unfoldable pub import_prompt_fragments :
    Uuid → List Block → List ProtectedPrompt → List String → Vault → Result ProtectedError Vault
import_prompt_fragments asset blocks imports initial_apps v =
    let owners = own_blocks blocks [] in
    refuse_if (not (length owners == length imports)) malformed_input
    >> (import_policy asset initial_apps v >>= λ (w : Vault).
        imported_values asset owners imports [] w >>= λ (values : List (Uuid × PromptValue)).
        ok (replace_prompt_payloads asset values w))
