-- ===== src/Block/Vocab/Names.antt =====
-- The element types and the roles that element.go of api/internal/block declares.
use lumi_hub.Base.{String}

abbrev pub ElementType : Type 0
ElementType = String

abbrev pub Role : Type 0
Role = String

abbrev pub type_prose : ElementType
type_prose = "prose"

abbrev pub type_text_set : ElementType
type_text_set = "text_set"

abbrev pub type_field_list : ElementType
type_field_list = "field_list"

abbrev pub type_dialogue_sample : ElementType
type_dialogue_sample = "dialogue_sample"

abbrev pub type_image_set : ElementType
type_image_set = "image_set"

abbrev pub type_link_list : ElementType
type_link_list = "link_list"

abbrev pub type_entry_table : ElementType
type_entry_table = "entry_table"

abbrev pub type_prompt_list : ElementType
type_prompt_list = "prompt_list"

abbrev pub type_variable_schema : ElementType
type_variable_schema = "variable_schema"

abbrev pub type_setting_group : ElementType
type_setting_group = "setting_group"

abbrev pub type_script_list : ElementType
type_script_list = "script_list"

abbrev pub type_color_set : ElementType
type_color_set = "color_set"

abbrev pub type_stylesheet_set : ElementType
type_stylesheet_set = "stylesheet_set"

abbrev pub type_record_list : ElementType
type_record_list = "record_list"

abbrev pub description : Role
description = "description"

abbrev pub personality : Role
personality = "personality"

abbrev pub scenario : Role
scenario = "scenario"

abbrev pub greetings : Role
greetings = "greetings"

abbrev pub group_greetings : Role
group_greetings = "group_greetings"

abbrev pub example_dialogue : Role
example_dialogue = "example_dialogue"

abbrev pub system_prompt : Role
system_prompt = "system_prompt"

abbrev pub post_history_instructions : Role
post_history_instructions = "post_history_instructions"

abbrev pub creator_notes : Role
creator_notes = "creator_notes"

abbrev pub gallery : Role
gallery = "gallery"

abbrev pub expressions : Role
expressions = "expressions"

abbrev pub lorebook_entries : Role
lorebook_entries = "lorebook_entries"

abbrev pub prompt_fragments : Role
prompt_fragments = "prompt_fragments"

abbrev pub prompt_variables : Role
prompt_variables = "prompt_variables"

abbrev pub sampler_settings : Role
sampler_settings = "sampler_settings"

abbrev pub completion_settings : Role
completion_settings = "completion_settings"

abbrev pub advanced_settings : Role
advanced_settings = "advanced_settings"

abbrev pub prompt_nudges : Role
prompt_nudges = "prompt_nudges"

abbrev pub regex_scripts : Role
regex_scripts = "regex_scripts"

abbrev pub theme_tokens : Role
theme_tokens = "theme_tokens"

abbrev pub theme_controls : Role
theme_controls = "theme_controls"

abbrev pub stylesheets : Role
stylesheets = "stylesheets"

abbrev pub pack_items : Role
pack_items = "pack_items"
