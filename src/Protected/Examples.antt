-- ===== src/Protected/Examples.antt =====
-- A preset with one sealed prompt is saved, read, and restored.
use lumi_hub.Base.{
  Bool, List, String, [], distinct, err, false, inl, nat_eq, none, ok, refl, some, string_eq, true,
  ◌∷◌, ◌≡◌,
}
use lumi_hub.Block.Content.{Block, PromptFragment, Uuid, is_nil, prompt_list}
use lumi_hub.Block.Vocab.{prompt_fragments, type_prompt_list}
use lumi_hub.Protected.{
  Vault, app_lumiverse, app_targets, as_prompt_list, check_apps, eligible_apps, policy,
  policy_required, prompt_owner_kind, prompt_payload, put, seal, seal_blocks, seal_element,
  seal_elements, seal_fragments, stored_apps,
}
use lumi_hub.Protected.Imports.{
  ProtectedPrompt, import_policy, import_prompt_fragments, imported_text, imported_values,
  is_keyed_prompt, own_blocks, own_elements, own_fragments, prompt_text_by_source_key,
}
use lumi_hub.Protected.Imports.Stored.{IsStored, import_prompt_fragments-IsStored}
use lumi_hub.Protected.Restored.{restore_prompt_fragments-sync_prompt_fragments}
use lumi_hub.Protected.Sealing.{
  is_redacted_page, protected_in_blocks, protected_in_element, protected_in_elements,
}
use lumi_hub.Protected.Tables.{
  add_apps, drop_apps, is_payload_of, is_prompt_of, is_unsealed, overwrite, read_texts,
  replace_prompt_payloads, restore_blocks, restore_element, restore_elements, restore_fragments,
  restore_prompt_fragments, store_sealed, sync_prompt_fragments, upsert, upsert_all,
}
use lumi_hub.Protected.Upserts.{ids_of}

-- What the examples compute with.
all_code : Unit {0}
unfolding put app_targets eligible_apps as_prompt_list check_apps stored_apps policy seal
    seal_fragments seal_element seal_elements seal_blocks is_payload_of overwrite upsert upsert_all
    is_unsealed replace_prompt_payloads drop_apps add_apps store_sealed sync_prompt_fragments
    is_prompt_of read_texts restore_fragments restore_element restore_elements restore_blocks
    restore_prompt_fragments own_fragments own_elements own_blocks is_keyed_prompt
    prompt_text_by_source_key imported_text imported_values import_policy import_prompt_fragments
    protected_in_element protected_in_elements protected_in_blocks
all_code = tt

abbrev fragment : Uuid → Bool → String → PromptFragment
fragment id protected text = record {
  id = id;
  name = "";
  group_id = none;
  role = "system";
  text = text;
  protected = protected;
  marker = "";
  enabled = true;
  placement = "";
  depth = none;
}

abbrev page_of : PromptFragment → List Block
page_of sealed_one =
    record {
      id = 1;
      definition = "prompts";
      title = none;
      position = 0;
      hidden = false;
      layout = "single";
      width = "full";
      elements =
          record {
            id = 2;
            element_type = type_prompt_list;
            role = prompt_fragments;
            slot = "";
            options = record { display = ""; item_size = "" };
            content = some (prompt_list [] (fragment 3 false "Hello" ∷ sealed_one ∷ []));
          }
          ∷ [];
    }
    ∷ []

abbrev vault : Vault
vault = record { sealed = []; allowed = [] }

abbrev kept_vault : Vault
kept_vault = record {
  sealed =
      record {
        asset_id = 9;
        owner_kind = prompt_owner_kind;
        owner_id = 4;
        payload_type = prompt_payload;
        text = "Secret";
        source_key = none;
      }
      ∷ [];
  allowed = record { asset_id = 9; app = app_lumiverse } ∷ [];
}

saved :
    sync_prompt_fragments 9 (page_of (fragment 4 true "Secret")) (some (app_lumiverse ∷ [])) vault
    ≡ ok (page_of (fragment 4 true ""), kept_vault)
unfolding all_code
saved = refl

no_policy :
    sync_prompt_fragments 9 (page_of (fragment 4 true "Secret")) none vault ≡ err policy_required
unfolding all_code
no_policy = refl

one_secret : distinct (ids_of (protected_in_blocks (page_of (fragment 4 true "Secret")))) ≡ true
unfolding all_code
one_secret = refl

restore_prompt_fragments-sync_prompt_fragments_example :
    (is_redacted_page (page_of (fragment 4 true "")) ≡ true)
    × (restore_prompt_fragments 9 kept_vault (page_of (fragment 4 true ""))
        ≡ ok (page_of (fragment 4 true "Secret")))
restore_prompt_fragments-sync_prompt_fragments_example =
    restore_prompt_fragments-sync_prompt_fragments 9 (page_of (fragment 4 true "Secret"))
      (some (app_lumiverse ∷ [])) vault one_secret saved

abbrev brought : ProtectedPrompt
brought = record { fragment_id = 4; source_key = "k"; text = "Secret"; reuse_existing = false }

abbrev imported_vault : Vault
imported_vault = record {
  sealed =
      record {
        asset_id = 9;
        owner_kind = prompt_owner_kind;
        owner_id = 4;
        payload_type = prompt_payload;
        text = "Secret";
        source_key = some "k";
      }
      ∷ [];
  allowed = record { asset_id = 9; app = app_lumiverse } ∷ [];
}

brought_in :
    import_prompt_fragments 9
      (page_of (fragment 4 true ""))
      (brought ∷ [])
      (app_lumiverse ∷ [])
      vault
    ≡ ok imported_vault
unfolding all_code
brought_in = refl

-- The file comes again under another id: the text is taken over.
abbrev again : ProtectedPrompt
again = record { fragment_id = 5; source_key = "k"; text = ""; reuse_existing = true }

abbrev retaken_vault : Vault
retaken_vault = record imported_vault {
  sealed =
      record {
        asset_id = 9;
        owner_kind = prompt_owner_kind;
        owner_id = 5;
        payload_type = prompt_payload;
        text = "Secret";
        source_key = some "k";
      }
      ∷ [];
}

retaken :
    import_prompt_fragments 9 (page_of (fragment 5 true "")) (again ∷ []) [] imported_vault
    ≡ ok retaken_vault
unfolding all_code
retaken = refl

import_prompt_fragments-IsStored_example :
    (is_nil (stored_apps 9 retaken_vault) ≡ false) × IsStored 9 again imported_vault retaken_vault
import_prompt_fragments-IsStored_example =
    import_prompt_fragments-IsStored 9 (page_of (fragment 5 true "")) (again ∷ []) [] imported_vault
      again refl (inl refl) retaken
