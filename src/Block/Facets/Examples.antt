-- ===== src/Block/Facets/Examples.antt =====
-- A character with four greetings, one of them blank.
use lumi_hub.Base.{[], nat_eq, none, refl, some, string_eq, true, ◌==◌, ◌||◌, ◌∷◌, ◌≡◌, ◌≤◌}
use lumi_hub.Block.Content.{Element, text_set}
use lumi_hub.Block.Facets.{
  Facet, bucket, count_alternate_greetings, count_entries, count_images, facet_by_key, facets,
  holds, measure_facet, measure_facets,
}
use lumi_hub.Block.Facets.Ranges.{facet_by_key-holding, holding}
use lumi_hub.Block.Vocab.{greetings, type_text_set}

-- What the examples compute with.
all_code : Unit {0}
unfolding holds bucket count_entries count_alternate_greetings count_images facets facet_by_key
    measure_facet measure_facets
all_code = tt

abbrev openings : Element
openings = record {
  id = 1;
  element_type = type_text_set;
  role = greetings;
  slot = "";
  options = record { display = ""; item_size = "" };
  content = some (
      text_set (
        record { id = 2; name = ""; text = "Hello" }
        ∷ record { id = 3; name = ""; text = "" }
        ∷ record { id = 4; name = ""; text = "Hi" }
        ∷ record { id = 5; name = ""; text = "Hey" }
        ∷ []));
}

counted :
    measure_facets "character" (openings ∷ [])
    ≡ ("lorebook", 0) ∷ ("alternate_greetings", 2) ∷ ("expressions", 0) ∷ ("gallery", 0) ∷ []
unfolding all_code
counted = refl

abbrev alternate : Facet
alternate = record {
  key = "alternate_greetings";
  label = "Alternate greetings";
  role = greetings;
  measure_of = count_alternate_greetings;
  buckets =
      record { value = "1"; label = "1"; min = 1; max = some 1 }
      ∷ record { value = "2-4"; label = "2 to 4"; min = 2; max = some 4 }
      ∷ record { value = "5-up"; label = "5 or more"; min = 5; max = none }
      ∷ [];
}

alternate_found : facet_by_key "character" "alternate_greetings" ≡ some alternate
unfolding all_code
alternate_found = refl

facet_by_key-holding_example :
    (holding alternate.buckets (measure_facet alternate (openings ∷ [])) ≤ 1)
    × (((measure_facet alternate (openings ∷ []) == 0)
          || (holding alternate.buckets (measure_facet alternate (openings ∷ [])) == 1))
        ≡ true)
facet_by_key-holding_example =
    facet_by_key-holding "character" "alternate_greetings" (openings ∷ []) alternate_found
