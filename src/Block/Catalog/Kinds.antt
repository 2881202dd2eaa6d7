-- ===== src/Block/Catalog/Kinds.antt =====
-- The blocks of a lorebook, a preset, a theme and a pack.
use lumi_hub.Base.{List, [], false, true, ◌∷◌}
use lumi_hub.Block.Catalog.Shape.{
  Definition, group_file, id_lorebook_core, id_pack_core, id_preset_core, id_preset_nudges,
  id_preset_scripts, id_preset_settings, id_preset_variables, id_theme_core, id_theme_stylesheet,
  loose, pinned, placed, plain, verbatim,
}
use lumi_hub.Block.Layout.{duo, full, single, stack_2, stack_3, third, trio, two_thirds}
use lumi_hub.Block.Vocab.{
  advanced_settings, completion_settings, lorebook_entries, pack_items, prompt_fragments,
  prompt_nudges, prompt_variables, regex_scripts, sampler_settings, stylesheets, theme_controls,
  theme_tokens, type_color_set, type_entry_table, type_prompt_list, type_record_list,
  type_script_list, type_setting_group, type_stylesheet_set, type_text_set, type_variable_schema,
}

abbrev pub def_lorebook_core : Definition
def_lorebook_core = record {
  id = id_lorebook_core;
  title = "Entries";
  required = true;
  hideable = false;
  elements = placed pinned lorebook_entries type_entry_table plain ∷ [];
  layouts = single ∷ [];
  width = full;
  summary = "";
  group = "";
  repeatable = false;
  choices = [];
}

abbrev pub def_preset_core : Definition
def_preset_core = record {
  id = id_preset_core;
  title = "Prompt fragments";
  required = true;
  hideable = false;
  elements = placed pinned prompt_fragments type_prompt_list plain ∷ [];
  layouts = single ∷ [];
  width = full;
  summary = "";
  group = "";
  repeatable = false;
  choices = [];
}

abbrev pub def_preset_settings : Definition
def_preset_settings = record {
  id = id_preset_settings;
  title = "Settings";
  required = false;
  hideable = false;
  elements =
      placed loose sampler_settings type_setting_group plain
      ∷ placed loose completion_settings type_setting_group plain
      ∷ placed loose advanced_settings type_setting_group plain
      ∷ [];
  layouts = trio ∷ stack_3 ∷ [];
  width = full;
  summary = "Samplers, completion behaviour, and the advanced settings.";
  group = group_file;
  repeatable = false;
  choices = [];
}

abbrev pub def_preset_variables : Definition
def_preset_variables = record {
  id = id_preset_variables;
  title = "Variables";
  required = false;
  hideable = false;
  elements = placed loose prompt_variables type_variable_schema plain ∷ [];
  layouts = single ∷ [];
  width = two_thirds;
  summary = "The form a reader fills in before they use the preset.";
  group = group_file;
  repeatable = false;
  choices = [];
}

abbrev pub def_preset_scripts : Definition
def_preset_scripts = record {
  id = id_preset_scripts;
  title = "Regex scripts";
  required = false;
  hideable = false;
  elements = placed loose regex_scripts type_script_list plain ∷ [];
  layouts = single ∷ [];
  width = two_thirds;
  summary = "Find and replace over what is written and what comes back.";
  group = group_file;
  repeatable = false;
  choices = [];
}

abbrev pub def_preset_nudges : Definition
def_preset_nudges = record {
  id = id_preset_nudges;
  title = "Nudges";
  required = false;
  hideable = false;
  elements = placed loose prompt_nudges type_text_set verbatim ∷ [];
  layouts = single ∷ [];
  width = third;
  summary = "The short prompts an app sends on its own, and the formats it wraps.";
  group = group_file;
  repeatable = false;
  choices = [];
}

abbrev pub def_theme_core : Definition
def_theme_core = record {
  id = id_theme_core;
  title = "Palette";
  required = true;
  hideable = false;
  elements =
      placed pinned theme_tokens type_color_set plain
      ∷ placed pinned theme_controls type_setting_group plain
      ∷ [];
  layouts = duo ∷ stack_2 ∷ [];
  width = full;
  summary = "";
  group = "";
  repeatable = false;
  choices = [];
}

abbrev pub def_theme_stylesheet : Definition
def_theme_stylesheet = record {
  id = id_theme_stylesheet;
  title = "Stylesheets";
  required = true;
  hideable = true;
  elements = placed pinned stylesheets type_stylesheet_set plain ∷ [];
  layouts = single ∷ [];
  width = full;
  summary = "";
  group = "";
  repeatable = false;
  choices = [];
}

abbrev pub def_pack_core : Definition
def_pack_core = record {
  id = id_pack_core;
  title = "Pack items";
  required = true;
  hideable = false;
  elements = placed pinned pack_items type_record_list plain ∷ [];
  layouts = single ∷ [];
  width = full;
  summary = "";
  group = "";
  repeatable = false;
  choices = [];
}

-- the variable `lorebook`
abbrev pub lorebook : List Definition
lorebook = def_lorebook_core ∷ []

-- the variable `preset`
abbrev pub preset : List Definition
preset =
    def_preset_core ∷ def_preset_settings ∷ def_preset_variables ∷ def_preset_scripts
    ∷ def_preset_nudges ∷ []

-- the variable `theme`
abbrev pub theme : List Definition
theme = def_theme_core ∷ def_theme_stylesheet ∷ []

-- the variable `pack`
abbrev pub pack : List Definition
pack = def_pack_core ∷ []
