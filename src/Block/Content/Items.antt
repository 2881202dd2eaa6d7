-- ===== src/Block/Content/Items.antt =====
-- The items that element contents list: the structs of element.go, entry_table.go, preset.go,
-- theme.go and pack.go of api/internal/block.
use lumi_hub.Base.{Bool, List, Option, String, ℕ}

abbrev pub Uuid : Type 0
Uuid = ℕ

abbrev pub nil_id : Uuid
nil_id = 0

abbrev pub Float64 : Type 0
Float64 = ℕ

abbrev pub Int64 : Type 0
Int64 = ℕ

pub record TextItem : Type 0 where
  pub id : Uuid
  pub name : String
  pub text : String

pub record DialogueTurn : Type 0 where
  pub id : Uuid
  pub speaker : String
  pub text : String

pub record ImageItem : Type 0 where
  pub id : Uuid
  pub media_id : Uuid
  pub name : String

pub record FieldItem : Type 0 where
  pub id : Uuid
  pub name : String
  pub value : String

pub record LinkItem : Type 0 where
  pub id : Uuid
  pub label : String
  pub url : String
  pub note : String

pub record EntryRecursion : Type 0 where
  pub exclude : Bool
  pub prevent : Bool
  pub delay_until : Bool

pub record Entry : Type 0 where
  pub id : Uuid
  pub name : String
  pub keys : List String
  pub secondary_keys : List String
  pub selective : Bool
  pub case_sensitive : Bool
  pub constant : Bool
  pub enabled : Bool
  pub order : Int64
  pub position : String
  pub recursion : EntryRecursion
  pub text : String

pub record PromptGroup : Type 0 where
  pub id : Uuid
  pub name : String

pub record PromptFragment : Type 0 where
  pub id : Uuid
  pub name : String
  pub group_id : Option Uuid
  pub role : String
  pub text : String
  pub protected : Bool
  pub marker : String
  pub enabled : Bool
  pub placement : String
  pub depth : Option Int64

pub record Value : Type 0 where
  pub number : Option Float64
  pub boolean : Option Bool
  pub text : Option String
  pub strings : List String

pub record Setting : Type 0 where
  pub id : Uuid
  pub name : String
  pub label : String
  pub setting_type : String
  pub choices : List String
  pub value : Option Value

pub record VariableOption : Type 0 where
  pub key : String
  pub label : String
  pub value : String

pub record VariableRange : Type 0 where
  pub min : Option Float64
  pub max : Option Float64
  pub step : Option Float64

pub record Variable : Type 0 where
  pub id : Uuid
  pub name : String
  pub widget : String
  pub label : String
  pub description : String
  pub fragment_id : Option Uuid
  pub default : Option Value
  pub value : Option Value
  pub options : List VariableOption
  pub range : Option VariableRange
  pub separator : String
  pub rows : Int64

pub record Script : Type 0 where
  pub id : Uuid
  pub name : String
  pub description : String
  pub find : String
  pub flags : String
  pub replace : String
  pub trim : List String
  pub targets : List String
  pub affects : List String
  pub enabled : Bool
  pub min_depth : Option Int64
  pub max_depth : Option Int64
  pub run_on_edit : Bool

pub record Color : Type 0 where
  pub id : Uuid
  pub name : String
  pub value : String

pub record ColorMode : Type 0 where
  pub name : String
  pub colors : List Color

pub record Stylesheet : Type 0 where
  pub id : Uuid
  pub name : String
  pub css : String
  pub enabled : Bool

pub record StylesheetAsset : Type 0 where
  pub id : Uuid
  pub path : String
  pub media_type : String
  pub bytes : List ℕ

pub record LumiaRecord : Type 0 where
  pub id : Uuid
  pub lumia_name : String
  pub lumia_definition : String
  pub lumia_personality : String
  pub lumia_behavior : String
  pub avatar_url : Option Uuid
  pub gender_identity : Int64
  pub author_name : String
  pub version : Int64
