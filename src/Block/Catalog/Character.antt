-- ===== src/Block/Catalog/Character.antt =====
-- The blocks of a character.
use lumi_hub.Base.{List, [], false, true, ◌∷◌}
use lumi_hub.Block.Catalog.Shape.{
  Definition, group_file, group_reader, group_work, id_character_core, id_expressions,
  id_image_prompts, id_lorebook, id_messages, id_model_instructions, id_relationships, loose,
  no_role, pinned, placed, plain, rich, sized_small, verbatim,
}
use lumi_hub.Block.Layout.{duo, full, half, single, stack_2, stack_3, third, trio, two_thirds}
use lumi_hub.Block.Vocab.{
  description, example_dialogue, expressions, greetings, group_greetings, lorebook_entries,
  personality, post_history_instructions, scenario, system_prompt, type_dialogue_sample,
  type_entry_table, type_field_list, type_image_set, type_link_list, type_prose, type_text_set,
}

abbrev pub def_character_core : Definition
def_character_core = record {
  id = id_character_core;
  title = "The character";
  required = true;
  hideable = true;
  elements =
      placed pinned description type_prose rich
      ∷ placed pinned personality type_prose rich
      ∷ placed pinned scenario type_prose rich
      ∷ [];
  layouts = stack_3 ∷ trio ∷ [];
  width = two_thirds;
  summary = "";
  group = "";
  repeatable = false;
  choices = [];
}

abbrev pub def_messages : Definition
def_messages = record {
  id = id_messages;
  title = "Messages";
  required = true;
  hideable = false;
  elements =
      placed pinned greetings type_text_set rich
      ∷ placed pinned example_dialogue type_dialogue_sample plain
      ∷ placed loose group_greetings type_text_set rich
      ∷ [];
  layouts = stack_2 ∷ stack_3 ∷ [];
  width = full;
  summary = "";
  group = "";
  repeatable = false;
  choices = [];
}

abbrev pub def_expressions : Definition
def_expressions = record {
  id = id_expressions;
  title = "Expressions";
  required = false;
  hideable = false;
  elements = placed loose expressions type_image_set sized_small ∷ [];
  layouts = single ∷ [];
  width = full;
  summary = "A picture per expression, each named as the source named it.";
  group = group_file;
  repeatable = false;
  choices = [];
}

abbrev pub def_lorebook : Definition
def_lorebook = record {
  id = id_lorebook;
  title = "Lorebook";
  required = false;
  hideable = false;
  elements = placed loose lorebook_entries type_entry_table plain ∷ [];
  layouts = single ∷ [];
  width = two_thirds;
  summary = "Entries a model reads once one of their key words turns up.";
  group = group_file;
  repeatable = false;
  choices = [];
}

abbrev pub def_image_prompts : Definition
def_image_prompts = record {
  id = id_image_prompts;
  title = "Image prompts";
  required = false;
  hideable = false;
  elements =
      placed loose no_role type_field_list plain
      ∷ placed loose no_role type_prose verbatim
      ∷ placed loose no_role type_prose verbatim
      ∷ [];
  layouts = stack_3 ∷ [];
  width = two_thirds;
  summary = "The settings and the prompt text the artwork came from.";
  group = group_work;
  repeatable = false;
  choices = [];
}

abbrev pub def_model_instructions : Definition
def_model_instructions = record {
  id = id_model_instructions;
  title = "Model instructions";
  required = false;
  hideable = false;
  elements =
      placed loose system_prompt type_prose verbatim
      ∷ placed loose post_history_instructions type_prose verbatim
      ∷ [];
  layouts = stack_2 ∷ duo ∷ [];
  width = half;
  summary = "The system prompt, and the note that goes after the history.";
  group = group_file;
  repeatable = false;
  choices = [];
}

abbrev pub def_relationships : Definition
def_relationships = record {
  id = id_relationships;
  title = "Relationships";
  required = false;
  hideable = false;
  elements = placed loose no_role type_link_list plain ∷ [];
  layouts = single ∷ [];
  width = third;
  summary = "Links to the work this character belongs beside.";
  group = group_reader;
  repeatable = false;
  choices = [];
}

-- the variable `character`
abbrev pub character : List Definition
character =
    def_character_core ∷ def_messages ∷ def_expressions ∷ def_lorebook ∷ def_image_prompts
    ∷ def_model_instructions ∷ def_relationships ∷ []
