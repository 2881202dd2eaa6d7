-- ===== src/Protected.antt =====
-- api/internal/protected/prompt.go: the prompt text that leaves the server only through an explicit
-- view. The database answers every statement, and a transaction that fails leaves the tables as they
-- were. The JSON of a payload is its text, and its digest, which nothing reads, is left out. A Go map
-- is an association list with one entry a key; the code walks it in an order that changes nothing.
pub mod Tables
pub mod Sealing
pub mod Upserts
pub mod Restored
pub mod Imports
mod Examples
use lumi_hub.Base.{
  Bool, List, Option, Result, String, [], any_of, contains, err, false, if◌then◌else◌, keep, map,
  nat_eq, none, not, ok, refuse_if, some, string_eq, ◌&&◌, ◌==◌, ◌>>=◌, ◌>>◌, ◌||◌, ◌∷◌,
}
use lumi_hub.Block.Content.{
  Block, Content, Element, PromptFragment, PromptGroup, Uuid, is_nil, prompt_list,
}

-- A row of `protected_content`.
pub record Sealed : Type 0 where
  pub asset_id : Uuid
  pub owner_kind : String
  pub owner_id : Uuid
  pub payload_type : String
  pub text : String
  pub source_key : Option String

-- A row of `protected_delivery_apps`.
pub record Allowed : Type 0 where
  pub asset_id : Uuid
  pub app : String

pub record Vault : Type 0 where
  pub sealed : List Sealed
  pub allowed : List Allowed

pub data ProtectedError : Type 0 where
  policy_required marker_sealed : ProtectedError
  not_allowed : String → ProtectedError
  no_payload : Uuid → ProtectedError
  malformed_input : ProtectedError

abbrev pub prompt_owner_kind : String
prompt_owner_kind = "prompt_fragment"

abbrev pub prompt_payload : String
prompt_payload = "prompt_fragment_text"

abbrev pub app_lumiverse : String
app_lumiverse = "lumiverse"

-- An assignment to a Go map.
module _ {V : Type 0} where
  unfoldable pub put : Uuid → V → List (Uuid × V) → List (Uuid × V)
  put k v [] = (k, v) ∷ []
  put k v ((j, w) ∷ m) = if j == k then (k, v) ∷ m else (j, w) ∷ put k v m

pub record PromptValue : Type 0 where
  pub text : String
  pub source_key : String
  pub replace_source_key : Bool

-- `AppTargets`
unfoldable pub app_targets : String → String → List String
app_targets kind app =
    if kind == "preset" && app == app_lumiverse then "preset_lumiverse" ∷ [] else []

-- `EligibleApps`
unfoldable pub eligible_apps : String → List String → List String
eligible_apps kind offered =
    keep (λ app. any_of (λ target. contains offered target) (app_targets kind app))
      (app_lumiverse ∷ [])

pub record Prompts : Type 0 where
  pub groups : List PromptGroup
  pub fragments : List PromptFragment

-- `element.Content.(block.PromptList)`, which fails on no content
unfoldable pub as_prompt_list : Option Content → Option Prompts
as_prompt_list (some (prompt_list groups fragments)) =
    some (record { groups = groups; fragments = fragments })
as_prompt_list c = none

-- `HasPromptFragments`
unfoldable pub protects : Element → Bool
protects e = elim (as_prompt_list e.content) [
  | none ↦ false
  | some p ↦ any_of (λ (f : PromptFragment). f.protected) p.fragments
]

unfoldable pub has_prompt_fragments : List Block → Bool
has_prompt_fragments blocks = any_of (λ (b : Block). any_of protects b.elements) blocks

-- `policy` of the apps that the caller supplies
unfoldable pub check_apps : List String → List String → Result ProtectedError (List String)
check_apps [] seen = ok []
check_apps (app ∷ apps) seen =
    refuse_if (is_nil (app_targets "preset" app) || contains seen app) (not_allowed app)
    >> (check_apps apps (app ∷ seen) >>= λ rest. ok (app ∷ rest))

-- `select app from protected_delivery_apps where asset_id = $1`, whose order nothing depends on
unfoldable pub stored_apps : Uuid → Vault → List String
stored_apps asset v =
    map (λ (a : Allowed). a.app) (keep (λ (a : Allowed). a.asset_id == asset) v.allowed)

unfoldable pub policy : Uuid → Option (List String) → Vault → Result ProtectedError (List String)
policy asset none v = ok (stored_apps asset v)
policy asset (some supplied) v = check_apps supplied []

-- One round of the inner loop of `SyncPromptFragments`: the text moves to the map.
unfoldable pub seal :
    PromptFragment
    → List (Uuid × PromptValue)
    → Result ProtectedError (PromptFragment × List (Uuid × PromptValue))
seal f m =
    if not f.protected
    then ok (f, m)
    else (if not (f.marker == "")
        then err marker_sealed
        else ok (
          record f { text = "" },
          put f.id (record { text = f.text; source_key = ""; replace_source_key = false }) m,
        ))

unfoldable pub seal_fragments :
    List PromptFragment
    → List (Uuid × PromptValue)
    → Result ProtectedError (List PromptFragment × List (Uuid × PromptValue))
seal_fragments [] m = ok ([], m)
seal_fragments (f ∷ fs) m = seal f m >>= λ (one : PromptFragment × List (Uuid × PromptValue)).
    seal_fragments fs one.1 >>= λ (rest : List PromptFragment × List (Uuid × PromptValue)).
    ok (one.0 ∷ rest.0, rest.1)

unfoldable pub seal_element :
    Element
    → List (Uuid × PromptValue)
    → Result ProtectedError (Element × List (Uuid × PromptValue))
seal_element e m = elim (as_prompt_list e.content) [
  | none ↦ ok (e, m)
  | some p ↦
      seal_fragments p.fragments m >>= λ (s : List PromptFragment × List (Uuid × PromptValue)).
      ok (record e { content = some (prompt_list p.groups s.0) }, s.1)
]

unfoldable pub seal_elements :
    List Element
    → List (Uuid × PromptValue)
    → Result ProtectedError (List Element × List (Uuid × PromptValue))
seal_elements [] m = ok ([], m)
seal_elements (e ∷ es) m = seal_element e m >>= λ (one : Element × List (Uuid × PromptValue)).
    seal_elements es one.1 >>= λ (rest : List Element × List (Uuid × PromptValue)).
    ok (one.0 ∷ rest.0, rest.1)

unfoldable pub seal_blocks :
    List Block
    → List (Uuid × PromptValue)
    → Result ProtectedError (List Block × List (Uuid × PromptValue))
seal_blocks [] m = ok ([], m)
seal_blocks (b ∷ bs) m =
    seal_elements b.elements m >>= λ (one : List Element × List (Uuid × PromptValue)).
    seal_blocks bs one.1 >>= λ (rest : List Block × List (Uuid × PromptValue)).
    ok (record b { elements = one.0 } ∷ rest.0, rest.1)
