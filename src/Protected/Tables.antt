-- ===== src/Protected/Tables.antt =====
-- api/internal/protected/prompt.go: `SyncPromptFragments` and `RestorePromptFragments`, with their
-- statements on `protected_content` and `protected_delivery_apps`.
use lumi_hub.Base.{
  Bool, List, Option, Result, String, [], any_of, contains, err, if◌then◌else◌, keep, lookup, map,
  nat_eq, none, not, ok, refuse_if, some, string_eq, ◌&&◌, ◌++◌, ◌==◌, ◌>>=◌, ◌>>◌, ◌∷◌,
}
use lumi_hub.Block.Content.{Block, Element, PromptFragment, Uuid, is_nil, prompt_list}
use lumi_hub.Protected.{
  Allowed, PromptValue, ProtectedError, Sealed, Vault, as_prompt_list, no_payload, policy,
  policy_required, prompt_owner_kind, prompt_payload, put, seal_blocks,
}

-- The conflict key of the insert into `protected_content`.
unfoldable pub is_payload_of : Uuid → Uuid → Sealed → Bool
is_payload_of asset id r =
    r.asset_id == asset && (r.owner_kind == prompt_owner_kind && r.owner_id == id)

abbrev source_key_of : String → Option String
source_key_of key = if key == "" then none else some key

unfoldable pub overwrite : Uuid → Uuid → PromptValue → Sealed → Sealed
overwrite asset id v r =
    if is_payload_of asset id r
    then record r {
      payload_type = prompt_payload;
      text = v.text;
      source_key = if v.replace_source_key then source_key_of v.source_key else r.source_key;
    }
    else r

-- `insert ... on conflict (asset_id, owner_kind, owner_id) do update`
unfoldable pub upsert : Uuid → Uuid → PromptValue → List Sealed → List Sealed
upsert asset id v rows =
    if any_of (is_payload_of asset id) rows
    then map (overwrite asset id v) rows
    else record {
      asset_id = asset;
      owner_kind = prompt_owner_kind;
      owner_id = id;
      payload_type = prompt_payload;
      text = v.text;
      source_key = source_key_of v.source_key;
    }
      ∷ rows

unfoldable pub upsert_all : Uuid → List (Uuid × PromptValue) → List Sealed → List Sealed
upsert_all asset [] rows = rows
upsert_all asset ((id, v) ∷ values) rows = upsert_all asset values (upsert asset id v rows)

-- `promptIDs`
abbrev pub prompt_ids : List (Uuid × PromptValue) → List Uuid
prompt_ids values = map (λ (entry : Uuid × PromptValue). entry.0) values

-- The delete of `replacePromptPayloads`
unfoldable pub is_unsealed : Uuid → List Uuid → Sealed → Bool
is_unsealed asset ids r =
    r.asset_id == asset && (r.owner_kind == prompt_owner_kind && not (contains ids r.owner_id))

-- `replacePromptPayloads`
unfoldable pub replace_prompt_payloads : Uuid → List (Uuid × PromptValue) → Vault → Vault
replace_prompt_payloads asset values v = record v {
  sealed =
      keep (λ r. not (is_unsealed asset (prompt_ids values) r)) (upsert_all asset values v.sealed);
}

-- `delete from protected_delivery_apps where asset_id = $1`
unfoldable pub drop_apps : Uuid → Vault → Vault
drop_apps asset v = record v {
  allowed = keep (λ (a : Allowed). not (a.asset_id == asset)) v.allowed;
}

unfoldable pub add_apps : Uuid → List String → Vault → Vault
add_apps asset apps v = record v {
  allowed = map (λ app. record { asset_id = asset; app = app }) apps ++ v.allowed;
}

-- `SyncPromptFragments` once the prompts are sealed
unfoldable pub store_sealed :
    Uuid → Option (List String) → List (Uuid × PromptValue) → Vault → Result ProtectedError Vault
store_sealed asset allowed_apps sealed v =
    if is_nil sealed
    then ok (
        drop_apps asset
          (record v { sealed = keep (λ (r : Sealed). not (r.asset_id == asset)) v.sealed }))
    else policy asset allowed_apps v >>= λ (apps : List String).
        refuse_if (is_nil apps) policy_required
        >> ok (
            replace_prompt_payloads asset sealed (elim allowed_apps [
              | none ↦ v
              | some supplied ↦ add_apps asset apps (drop_apps asset v)
            ]))

-- `SyncPromptFragments`: the public blocks, and the tables
unfoldable pub sync_prompt_fragments :
    Uuid → List Block → Option (List String) → Vault → Result ProtectedError (List Block × Vault)
sync_prompt_fragments asset blocks allowed_apps v =
    seal_blocks blocks [] >>= λ (split : List Block × List (Uuid × PromptValue)).
    store_sealed asset allowed_apps split.1 v >>= λ (kept : Vault). ok (split.0, kept)

-- The texts that `RestorePromptFragments` reads.
unfoldable pub is_prompt_of : Uuid → Sealed → Bool
is_prompt_of asset r =
    r.asset_id == asset && (r.owner_kind == prompt_owner_kind && r.payload_type == prompt_payload)

unfoldable pub read_texts : List Sealed → List (Uuid × String) → List (Uuid × String)
read_texts [] texts = texts
read_texts (r ∷ rows) texts = read_texts rows (put r.owner_id r.text texts)

unfoldable pub restore_fragments :
    List (Uuid × String) → List PromptFragment → Result ProtectedError (List PromptFragment)
restore_fragments texts [] = ok []
restore_fragments texts (f ∷ fs) =
    (if not f.protected then ok f else (elim (lookup f.id texts) [
      | none ↦ err (no_payload f.id)
      | some text ↦ ok (record f { text = text })
    ]))
    >>= λ (one : PromptFragment).
        restore_fragments texts fs >>= λ (rest : List PromptFragment). ok (one ∷ rest)

unfoldable pub restore_element : List (Uuid × String) → Element → Result ProtectedError Element
restore_element texts e = elim (as_prompt_list e.content) [
  | none ↦ ok e
  | some p ↦ restore_fragments texts p.fragments >>= λ (fs : List PromptFragment).
      ok (record e { content = some (prompt_list p.groups fs) })
]

unfoldable pub restore_elements :
    List (Uuid × String) → List Element → Result ProtectedError (List Element)
restore_elements texts [] = ok []
restore_elements texts (e ∷ es) = restore_element texts e >>= λ (one : Element).
    restore_elements texts es >>= λ (rest : List Element). ok (one ∷ rest)

unfoldable pub restore_blocks :
    List (Uuid × String) → List Block → Result ProtectedError (List Block)
restore_blocks texts [] = ok []
restore_blocks texts (b ∷ bs) = restore_elements texts b.elements >>= λ (es : List Element).
    restore_blocks texts bs >>= λ (rest : List Block). ok (record b { elements = es } ∷ rest)

-- `RestorePromptFragments`
unfoldable pub restore_prompt_fragments :
    Uuid → Vault → List Block → Result ProtectedError (List Block)
restore_prompt_fragments asset v blocks =
    restore_blocks (read_texts (keep (is_prompt_of asset) v.sealed) []) blocks
