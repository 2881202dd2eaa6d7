-- ===== src/Block/Catalog/Shape.antt =====
-- The shape of a catalog entry, and its vocabulary of ids and groups.
use lumi_hub.Base.{Bool, List, String, false, true}
use lumi_hub.Block.Layout.{Layout, Width}
use lumi_hub.Block.Vocab.{
  ElementType, Options, Role, display_rich, display_verbatim, item_medium, item_small,
}

abbrev pub DefinitionId : Type 0
DefinitionId = String

abbrev pub Group : Type 0
Group = String

abbrev pub id_character_core : DefinitionId
id_character_core = "character_core"

abbrev pub id_lorebook_core : DefinitionId
id_lorebook_core = "lorebook_core"

abbrev pub id_preset_core : DefinitionId
id_preset_core = "preset_core"

abbrev pub id_preset_settings : DefinitionId
id_preset_settings = "settings"

abbrev pub id_preset_variables : DefinitionId
id_preset_variables = "variables"

abbrev pub id_preset_scripts : DefinitionId
id_preset_scripts = "scripts"

abbrev pub id_preset_nudges : DefinitionId
id_preset_nudges = "nudges"

abbrev pub id_theme_core : DefinitionId
id_theme_core = "theme_core"

abbrev pub id_theme_stylesheet : DefinitionId
id_theme_stylesheet = "stylesheet"

abbrev pub id_pack_core : DefinitionId
id_pack_core = "pack_core"

abbrev pub id_messages : DefinitionId
id_messages = "messages"

abbrev pub id_expressions : DefinitionId
id_expressions = "expressions"

abbrev pub id_lorebook : DefinitionId
id_lorebook = "lorebook"

abbrev pub id_image_prompts : DefinitionId
id_image_prompts = "image_prompts"

abbrev pub id_model_instructions : DefinitionId
id_model_instructions = "model_instructions"

abbrev pub id_relationships : DefinitionId
id_relationships = "relationships"

abbrev pub id_gallery : DefinitionId
id_gallery = "gallery"

abbrev pub id_usage : DefinitionId
id_usage = "usage"

abbrev pub id_changelog : DefinitionId
id_changelog = "changelog"

abbrev pub id_attributes : DefinitionId
id_attributes = "attributes"

abbrev pub id_author_notes : DefinitionId
id_author_notes = "author_notes"

abbrev pub id_runs_best_with : DefinitionId
id_runs_best_with = "runs_best_with"

abbrev pub id_custom_block : DefinitionId
id_custom_block = "custom_block"

abbrev pub group_file : Group
group_file = "file"

abbrev pub group_reader : Group
group_reader = "reader"

abbrev pub group_work : Group
group_work = "work"

abbrev pub group_other : Group
group_other = "other"

-- One element that a definition places.
pub record DefinedElement : Type 0 where
  pub role : Role
  pub element_type : ElementType
  pub options : Options
  pub pinned : Bool

pub record Definition : Type 0 where
  pub id : DefinitionId
  pub title : String
  pub required : Bool
  pub hideable : Bool
  pub elements : List DefinedElement
  pub layouts : List Layout
  pub width : Width
  pub summary : String
  pub group : Group
  pub repeatable : Bool
  pub choices : List DefinedElement

-- The literals of the catalog: options, pinning, and an element without a role.
abbrev pub plain : Options
plain = record { display = ""; item_size = "" }

abbrev pub rich : Options
rich = record { display = display_rich; item_size = "" }

abbrev pub verbatim : Options
verbatim = record { display = display_verbatim; item_size = "" }

abbrev pub sized_small : Options
sized_small = record { display = ""; item_size = item_small }

abbrev pub sized_medium : Options
sized_medium = record { display = ""; item_size = item_medium }

abbrev pub no_role : Role
no_role = ""

abbrev pub pinned : Bool
pinned = true

abbrev pub loose : Bool
loose = false

abbrev pub placed : Bool → Role → ElementType → Options → DefinedElement
placed p r t o = record { role = r; element_type = t; options = o; pinned = p }
