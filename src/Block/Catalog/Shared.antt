-- ===== src/Block/Catalog/Shared.antt =====
-- The blocks that every kind offers.
use lumi_hub.Base.{List, [], false, true, ◌∷◌}
use lumi_hub.Block.Catalog.Shape.{
  Definition, group_file, group_other, group_reader, group_work, id_attributes, id_author_notes,
  id_changelog, id_custom_block, id_gallery, id_runs_best_with, id_usage, loose, no_role, placed,
  plain, rich, sized_medium,
}
use lumi_hub.Block.Layout.{duo, full, half, main_aside, single, stack_2, stack_3, third, trio}
use lumi_hub.Block.Vocab.{
  creator_notes, gallery, type_field_list, type_image_set, type_link_list, type_prose,
  type_text_set,
}

abbrev pub def_gallery : Definition
def_gallery = record {
  id = id_gallery;
  title = "Gallery";
  required = false;
  hideable = false;
  elements = placed loose gallery type_image_set sized_medium ∷ [];
  layouts = single ∷ [];
  width = half;
  summary = "Images of the work, kept together and carried in a download.";
  group = group_file;
  repeatable = false;
  choices = [];
}

abbrev pub def_usage : Definition
def_usage = record {
  id = id_usage;
  title = "How to use this";
  required = false;
  hideable = false;
  elements = placed loose no_role type_prose rich ∷ [];
  layouts = single ∷ [];
  width = half;
  summary = "A note on how to run it and what it expects.";
  group = group_reader;
  repeatable = false;
  choices = [];
}

abbrev pub def_changelog : Definition
def_changelog = record {
  id = id_changelog;
  title = "Changelog";
  required = false;
  hideable = false;
  elements = placed loose no_role type_text_set rich ∷ [];
  layouts = single ∷ [];
  width = half;
  summary = "What changed, one entry at a time.";
  group = group_work;
  repeatable = false;
  choices = [];
}

abbrev pub def_attributes : Definition
def_attributes = record {
  id = id_attributes;
  title = "Attributes";
  required = false;
  hideable = false;
  elements = placed loose no_role type_field_list plain ∷ [];
  layouts = single ∷ [];
  width = third;
  summary = "Short facts as a grid, each one a name and a value.";
  group = group_reader;
  repeatable = false;
  choices = [];
}

abbrev pub def_author_notes : Definition
def_author_notes = record {
  id = id_author_notes;
  title = "Author’s notes";
  required = false;
  hideable = false;
  elements = placed loose creator_notes type_prose rich ∷ [];
  layouts = single ∷ [];
  width = third;
  summary = "What you want to say about making it.";
  group = group_work;
  repeatable = false;
  choices = [];
}

abbrev pub def_runs_best_with : Definition
def_runs_best_with = record {
  id = id_runs_best_with;
  title = "Runs best with";
  required = false;
  hideable = false;
  elements = placed loose no_role type_link_list plain ∷ [];
  layouts = single ∷ [];
  width = third;
  summary = "Links to the work a reader should pair this with.";
  group = group_reader;
  repeatable = false;
  choices = [];
}

abbrev pub def_custom_block : Definition
def_custom_block = record {
  id = id_custom_block;
  title = "New block";
  required = false;
  hideable = false;
  elements = [];
  layouts = single ∷ duo ∷ main_aside ∷ trio ∷ stack_2 ∷ stack_3 ∷ [];
  width = full;
  summary = "A heading you write, with text, images, links or a list under it.";
  group = group_other;
  repeatable = true;
  choices =
      placed loose no_role type_prose rich
      ∷ placed loose no_role type_image_set sized_medium
      ∷ placed loose no_role type_link_list plain
      ∷ placed loose no_role type_text_set rich
      ∷ [];
}

-- the variable `shared`
abbrev pub shared : List Definition
shared =
    def_gallery ∷ def_usage ∷ def_changelog ∷ def_attributes ∷ def_author_notes ∷ def_runs_best_with
    ∷ def_custom_block ∷ []
