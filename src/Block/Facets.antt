-- ===== src/Block/Facets.antt =====
-- api/internal/block/facet.go: the counts that readers filter assets by, and the ranges that a filter
-- offers. `FacetStamp`, a digest of the tables, is left out.
pub mod Ranges
mod Examples
use lumi_hub.Base.{
  Bool, List, Option, String, [], find_first, if◌then◌else◌, keep, leb, length, lookup, ltb, map,
  nat_eq, none, not, some, string_eq, true, ℕ, ◌&&◌, ◌+◌, ◌-◌, ◌==◌, ◌∷◌,
}
use lumi_hub.Block.Content.{
  Content, Element, TextItem, entry_table, image_set, record_list, script_list, text_set,
  variable_schema,
}
use lumi_hub.Block.Vocab.{
  Role, expressions, gallery, greetings, lorebook_entries, pack_items, prompt_variables,
  regex_scripts,
}

-- A bucket without a ceiling has `NoCeiling` for its `Max`, which is `none` here.
pub record Bucket : Type 0 where
  pub value : String
  pub label : String
  pub min : ℕ
  pub max : Option ℕ

-- `Bucket.Holds`
unfoldable pub holds : Bucket → ℕ → Bool
holds b count = not (ltb count b.min) && elim b.max [ none ↦ true | some top ↦ leb count top ]

pub record Facet : Type 0 where
  pub key : String
  pub label : String
  pub role : Role
  pub measure_of : Content → ℕ
  pub buckets : List Bucket

-- `Facet.Bucket`
unfoldable pub bucket : Facet → String → Option Bucket
bucket f value = find_first (λ (b : Bucket). b.value == value) f.buckets

-- `presence`
abbrev pub presence : List Bucket
presence =
    record { value = "true"; label = "Included"; min = 1; max = none }
    ∷ record { value = "false"; label = "None"; min = 0; max = some 0 }
    ∷ []

unfoldable pub count_entries : Content → ℕ
count_entries (entry_table entries) = length entries
count_entries c = 0

unfoldable pub count_alternate_greetings : Content → ℕ
count_alternate_greetings (text_set texts) =
    length (keep (λ (item : TextItem). not (item.text == "")) texts) - 1
count_alternate_greetings c = 0

unfoldable pub count_images : Content → ℕ
count_images (image_set images) = length images
count_images c = 0

unfoldable pub count_variables : Content → ℕ
count_variables (variable_schema variables) = length variables
count_variables c = 0

unfoldable pub count_scripts : Content → ℕ
count_scripts (script_list scripts) = length scripts
count_scripts c = 0

unfoldable pub count_records : Content → ℕ
count_records (record_list schema records) = length records
count_records c = 0

abbrev pub character_facets : List Facet
character_facets =
    record {
      key = "lorebook";
      label = "Lorebook";
      role = lorebook_entries;
      measure_of = count_entries;
      buckets = presence;
    }
    ∷ record {
      key = "alternate_greetings";
      label = "Alternate greetings";
      role = greetings;
      measure_of = count_alternate_greetings;
      buckets =
          record { value = "1"; label = "1"; min = 1; max = some 1 }
          ∷ record { value = "2-4"; label = "2 to 4"; min = 2; max = some 4 }
          ∷ record { value = "5-up"; label = "5 or more"; min = 5; max = none }
          ∷ [];
    }
    ∷ record {
      key = "expressions";
      label = "Expressions";
      role = expressions;
      measure_of = count_images;
      buckets = presence;
    }
    ∷ record {
      key = "gallery";
      label = "Gallery";
      role = gallery;
      measure_of = count_images;
      buckets = presence;
    }
    ∷ []

abbrev pub preset_facets : List Facet
preset_facets =
    record {
      key = "variables";
      label = "Variables";
      role = prompt_variables;
      measure_of = count_variables;
      buckets = presence;
    }
    ∷ record {
      key = "regex_scripts";
      label = "Regex scripts";
      role = regex_scripts;
      measure_of = count_scripts;
      buckets = presence;
    }
    ∷ []

abbrev pub pack_facets : List Facet
pack_facets =
    record {
      key = "items";
      label = "Items";
      role = pack_items;
      measure_of = count_records;
      buckets =
          record { value = "1"; label = "1 item"; min = 1; max = some 1 }
          ∷ record { value = "2-9"; label = "2 to 9"; min = 2; max = some 9 }
          ∷ record { value = "10-up"; label = "10 or more"; min = 10; max = none }
          ∷ [];
    }
    ∷ []

abbrev pub facet_catalogs : List (String × List Facet)
facet_catalogs =
    ("character", character_facets) ∷ ("preset", preset_facets) ∷ ("pack", pack_facets) ∷ []

-- `Facets`
unfoldable pub facets : String → List Facet
facets kind = elim (lookup kind facet_catalogs) [ none ↦ [] | some fs ↦ fs ]

-- `FacetByKey`
unfoldable pub facet_by_key : String → String → Option Facet
facet_by_key kind key = find_first (λ (f : Facet). f.key == key) (facets kind)

-- The inner loop of `MeasureFacets`
unfoldable pub measure_facet : Facet → List Element → ℕ
measure_facet f [] = 0
measure_facet f (e ∷ es) =
    let rest = measure_facet f es in
    if e.role == f.role
    then elim e.content [ none ↦ rest | some c ↦ f.measure_of c + rest ]
    else rest

-- `MeasureFacets`
unfoldable pub measure_facets : String → List Element → List (String × ℕ)
measure_facets kind elements = map (λ (f : Facet). (f.key, measure_facet f elements)) (facets kind)
