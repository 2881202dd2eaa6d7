-- ===== src/Block/Vocab.antt =====
-- api/internal/block/element.go: the element types, the roles and the presentation options. Each
-- is a Go string type, so it is a string here; the empty role is the element without one.
mod Names
unfoldable pub use Names.*
use lumi_hub.Base.{
  Bool, List, String, [], contains, if◌then◌else◌, lookup, nat_eq, string_eq, ◌==◌, ◌||◌, ◌∷◌,
}
use lumi_hub.Block.Layout.{or_zero}

-- `Roles`: the semantic vocabulary in the order of its declaration
abbrev pub roles : List Role
roles =
    description ∷ personality ∷ scenario ∷ greetings ∷ group_greetings ∷ example_dialogue
    ∷ system_prompt ∷ post_history_instructions ∷ creator_notes ∷ gallery ∷ expressions
    ∷ lorebook_entries ∷ prompt_fragments ∷ prompt_variables ∷ sampler_settings
    ∷ completion_settings ∷ advanced_settings ∷ prompt_nudges ∷ regex_scripts ∷ theme_tokens
    ∷ theme_controls ∷ stylesheets ∷ pack_items ∷ []

-- `Role.Known`
unfoldable pub known_role : Role → Bool
known_role r = contains roles r

pub data Cardinality : Type 0 where
  singular repeatable : Cardinality

-- `Role.Cardinality`
unfoldable pub cardinality : Role → Cardinality
cardinality r = if r == gallery then repeatable else singular

abbrev pub Display : Type 0
Display = String

abbrev pub display_rich : Display
display_rich = "rich"

abbrev pub display_verbatim : Display
display_verbatim = "verbatim"

-- `Display.Known`
unfoldable pub known_display : Display → Bool
known_display d = d == display_rich || d == display_verbatim

abbrev pub ItemSize : Type 0
ItemSize = String

abbrev pub item_small : ItemSize
item_small = "small"

abbrev pub item_medium : ItemSize
item_medium = "medium"

abbrev pub item_large : ItemSize
item_large = "large"

-- `ItemSize.Known`
unfoldable pub known_item_size : ItemSize → Bool
known_item_size s = s == item_small || s == item_medium || s == item_large

pub record Options : Type 0 where
  pub display : Display
  pub item_size : ItemSize

-- the map `labels`
abbrev pub role_labels : List (Role × String)
role_labels =
    (description, "Description")
    ∷ (personality, "Personality")
    ∷ (scenario, "Scenario")
    ∷ (greetings, "Greetings")
    ∷ (group_greetings, "Group-only greetings")
    ∷ (example_dialogue, "Example dialogue")
    ∷ (gallery, "Images")
    ∷ (system_prompt, "System prompt")
    ∷ (post_history_instructions, "Post-history instructions")
    ∷ (creator_notes, "Author’s notes")
    ∷ (expressions, "Expressions")
    ∷ (lorebook_entries, "Entries")
    ∷ (prompt_fragments, "Prompt fragments")
    ∷ (prompt_variables, "Variables")
    ∷ (sampler_settings, "Samplers")
    ∷ (completion_settings, "Completion")
    ∷ (advanced_settings, "Advanced")
    ∷ (prompt_nudges, "Nudges")
    ∷ (regex_scripts, "Regex scripts")
    ∷ (theme_tokens, "Palette")
    ∷ (theme_controls, "Theme controls")
    ∷ (stylesheets, "Stylesheets")
    ∷ (pack_items, "Items")
    ∷ []

abbrev pub type_labels : List (ElementType × String)
type_labels =
    (type_prose, "Text")
    ∷ (type_text_set, "List")
    ∷ (type_field_list, "Details")
    ∷ (type_dialogue_sample, "Dialogue")
    ∷ (type_image_set, "Images")
    ∷ (type_link_list, "Links")
    ∷ (type_entry_table, "Entries")
    ∷ (type_prompt_list, "Prompt fragments")
    ∷ (type_variable_schema, "Variables")
    ∷ (type_setting_group, "Settings")
    ∷ (type_script_list, "Regex scripts")
    ∷ (type_color_set, "Palette")
    ∷ (type_stylesheet_set, "Stylesheets")
    ∷ (type_record_list, "Records")
    ∷ []

abbrev pub role_types : List (Role × List ElementType)
role_types =
    (description, type_prose ∷ [])
    ∷ (personality, type_prose ∷ [])
    ∷ (scenario, type_prose ∷ [])
    ∷ (greetings, type_text_set ∷ [])
    ∷ (group_greetings, type_text_set ∷ [])
    ∷ (example_dialogue, type_dialogue_sample ∷ [])
    ∷ (gallery, type_image_set ∷ [])
    ∷ (system_prompt, type_prose ∷ [])
    ∷ (post_history_instructions, type_prose ∷ [])
    ∷ (creator_notes, type_prose ∷ [])
    ∷ (expressions, type_image_set ∷ [])
    ∷ (lorebook_entries, type_entry_table ∷ [])
    ∷ (prompt_fragments, type_prompt_list ∷ [])
    ∷ (prompt_variables, type_variable_schema ∷ [])
    ∷ (sampler_settings, type_setting_group ∷ [])
    ∷ (completion_settings, type_setting_group ∷ [])
    ∷ (advanced_settings, type_setting_group ∷ [])
    ∷ (prompt_nudges, type_text_set ∷ [])
    ∷ (regex_scripts, type_script_list ∷ [])
    ∷ (theme_tokens, type_color_set ∷ [])
    ∷ (theme_controls, type_setting_group ∷ [])
    ∷ (stylesheets, type_stylesheet_set ∷ [])
    ∷ (pack_items, type_record_list ∷ [])
    ∷ []

-- `Role.Label`
unfoldable pub role_label : Role → String
role_label r = or_zero "" (lookup r role_labels)

-- `Role.AllowedTypes`
unfoldable pub allowed_types : Role → List ElementType
allowed_types r = or_zero [] (lookup r role_types)

-- `Role.Allows`
unfoldable pub allows : Role → ElementType → Bool
unfolding allowed_types
allows r t = contains (allowed_types r) t
