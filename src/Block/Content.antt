-- ===== src/Block/Content.antt =====
-- The bodies of the element types and the elements and blocks that hold them: element.go,
-- entry_table.go, preset.go, theme.go, pack.go, item.go, block.go of api/internal/block.
-- An identifier is its 128-bit value as a number, and `uuid.Nil` is 0. A nil pointer is `none`.
-- A `float64` is only carried, so it is its 64-bit pattern; a signed `int` that is only carried
-- is its 64-bit pattern too. A `[]byte` is its list of bytes.
mod Items
unfoldable pub use Items.*
use lumi_hub.Base.{
  Bool, List, Option, String, [], all_of, false, if◌then◌else◌, lookup, map, nat_eq, none, refl,
  some, string_eq, true, ℕ, ◌&&◌, ◌++◌, ◌==◌, ◌∷◌, ◌≡◌,
}
use lumi_hub.Block.Layout.{Layout, Slot, Width}
use lumi_hub.Block.Vocab.{
  ElementType, Options, Role, type_color_set, type_dialogue_sample, type_entry_table,
  type_field_list, type_image_set, type_link_list, type_prompt_list, type_prose, type_record_list,
  type_script_list, type_setting_group, type_stylesheet_set, type_text_set, type_variable_schema,
}

-- The interface `Content`, one constructor for each implementation.
pub data Content : Type 0 where
  prose : String → Content
  text_set : List TextItem → Content
  dialogue_sample : List DialogueTurn → Content
  image_set : List ImageItem → Content
  field_list : List FieldItem → Content
  link_list : List LinkItem → Content
  entry_table : List Entry → Content
  prompt_list : List PromptGroup → List PromptFragment → Content
  variable_schema : List Variable → Content
  setting_group : List Setting → Content
  script_list : List Script → Content
  color_set : List ColorMode → Content
  stylesheet_set : String → List Stylesheet → List StylesheetAsset → Content
  record_list : String → List LumiaRecord → Content

abbrev pub is_blank : String → Bool
is_blank s = s == ""

abbrev pub is_nil {ℓ} : {A : Type ℓ} → List A → Bool
is_nil [] = true
is_nil (x ∷ xs) = false

pub is_nil-eq {ℓ} : {A : Type ℓ} (xs : List A) → is_nil xs ≡ true → xs ≡ []
is_nil-eq [] h = refl
is_nil-eq (x ∷ xs) h = cc

abbrev pub is_none {ℓ} : {A : Type ℓ} → Option A → Bool
is_none none = true
is_none (some a) = false

-- The methods `Empty`.
unfoldable pub empty : Content → Bool
empty (prose text) = is_blank text
empty (text_set texts) = all_of (λ item. is_blank item.text) texts
empty (dialogue_sample turns) = is_nil turns
empty (image_set images) = is_nil images
empty (field_list fields) = all_of (λ field. is_blank field.value) fields
empty (link_list links) = all_of (λ link. is_blank link.url) links
empty (entry_table entries) = all_of (λ entry. is_blank entry.text) entries
empty (prompt_list groups fragments) = is_nil fragments
empty (variable_schema variables) = is_nil variables
empty (setting_group settings) = all_of (λ setting. is_none setting.value) settings
empty (script_list scripts) = is_nil scripts
empty (color_set modes) = all_of (λ mode. all_of (λ color. is_blank color.value) mode.colors) modes
empty (stylesheet_set global sheets assets) =
    is_blank global && is_nil assets && all_of (λ sheet. is_blank sheet.css) sheets
empty (record_list schema records) = is_nil records

pub record Element : Type 0 where
  pub id : Uuid
  pub element_type : ElementType
  pub role : Role
  pub slot : Slot
  pub options : Options
  pub content : Option Content

pub record Block : Type 0 where
  pub id : Uuid
  pub definition : String
  pub title : Option String
  pub position : ℕ
  pub hidden : Bool
  pub layout : Layout
  pub width : Width
  pub elements : List Element

-- `element.Content != nil && !element.Content.Empty()`
unfoldable pub written : Element → Bool
unfolding empty
written e = elim e.content [ none ↦ false | some c ↦ if empty c then false else true ]

-- `Block.Empty`
unfoldable pub empty_block : Block → Bool
unfolding written
empty_block b = all_of (λ e. if written e then false else true) b.elements

color_ids : List ColorMode → List Uuid
color_ids [] = []
color_ids (mode ∷ modes) = map (λ (color : Color). color.id) mode.colors ++ color_ids modes

-- `ItemIDs`
unfoldable pub item_ids : Content → List Uuid
unfolding color_ids
item_ids (prose text) = []
item_ids (text_set texts) = map (λ (item : TextItem). item.id) texts
item_ids (dialogue_sample turns) = map (λ (item : DialogueTurn). item.id) turns
item_ids (image_set images) = map (λ (item : ImageItem). item.id) images
item_ids (field_list fields) = map (λ (item : FieldItem). item.id) fields
item_ids (link_list links) = map (λ (item : LinkItem). item.id) links
item_ids (entry_table entries) = map (λ (item : Entry). item.id) entries
item_ids (prompt_list groups fragments) =
    map (λ (item : PromptGroup). item.id) groups
    ++ map (λ (item : PromptFragment). item.id) fragments
item_ids (variable_schema variables) = map (λ (item : Variable). item.id) variables
item_ids (setting_group settings) = map (λ (item : Setting). item.id) settings
item_ids (script_list scripts) = map (λ (item : Script). item.id) scripts
item_ids (color_set modes) = color_ids modes
item_ids (stylesheet_set global sheets assets) =
    map (λ (item : Stylesheet). item.id) sheets ++ map (λ (item : StylesheetAsset). item.id) assets
item_ids (record_list schema records) = map (λ (item : LumiaRecord). item.id) records

-- The map `schemas`, read for what an element of each type starts with.
abbrev pub empty_contents : List (ElementType × Content)
empty_contents =
    (type_prose, prose "")
    ∷ (type_text_set, text_set [])
    ∷ (type_dialogue_sample, dialogue_sample [])
    ∷ (type_image_set, image_set [])
    ∷ (type_field_list, field_list [])
    ∷ (type_link_list, link_list [])
    ∷ (type_entry_table, entry_table [])
    ∷ (type_prompt_list, prompt_list [] [])
    ∷ (type_variable_schema, variable_schema [])
    ∷ (type_setting_group, setting_group [])
    ∷ (type_script_list, script_list [])
    ∷ (type_color_set, color_set [])
    ∷ (type_stylesheet_set, stylesheet_set "" [] [])
    ∷ (type_record_list, record_list "lumia" [])
    ∷ []

-- `Type.Empty`; `none` is its error
unfoldable pub empty_content : ElementType → Option Content
empty_content t = lookup t empty_contents

-- `Type.Known`
unfoldable pub known_type : ElementType → Bool
known_type t = elim (empty_content t) [ none ↦ false | some c ↦ true ]
