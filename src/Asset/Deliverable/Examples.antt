-- ===== src/Asset/Deliverable/Examples.antt =====
-- A preset with a sealed prompt, sent to an application that its creator allows.
use lumi_hub.Asset.Deliverable.{
  Media, Shelf, Shelved, allowed_targets, deliverable_asset, deliverable_of, delivery_pictures,
  delivery_targets, insert_media, is_newer, is_sendable, is_shown, newest_first, picture_of,
  shelf_catalog, target_allowed,
}
use lumi_hub.Asset.Deliverable.Claims.{claim-is_entitled}
use lumi_hub.Asset.Deliverable.Offers.{is_entitled}
use lumi_hub.Asset.Table.{discovery_listed, lifecycle_published}
use lumi_hub.Base.{
  Bool, List, Result, String, [], all_of, false, none, ok, refl, some, true, ℕ, ◌+◌, ◌∷◌, ◌≡◌,
}
use lumi_hub.Block.Content.{Uuid}
use lumi_hub.Delivery.Collect.{
  artifacts, claim, release_all, release_as, release_one, taken, work_of,
}
use lumi_hub.Delivery.Service.{
  DeliveryError, Instance, Work, artifact_export, artifact_picture, default_settings,
}
use lumi_hub.Delivery.Table.{
  Row, abandon_exhausted, abandon_row, candidates, char_length, claim_deliveries, claim_row,
  ends_bare, fail_delivery, fail_if, insert_row, is_before, is_claimable, is_exhausted, is_live,
  is_queued, is_released, lease_passed, queued, release_row, released, set_target, sort_rows,
  starts_bare, target_fits, target_row,
}
use lumi_hub.Delivery.Target.{choose_target, offered_as, raw_target}
use lumi_hub.Linking.Scopes.{scope_receive_assets}
use lumi_hub.Protected.{app_lumiverse, app_targets, stored_apps}

-- What the examples compute with.
all_code : Unit {0}
unfolding choose_target offered_as is_live is_queued is_released lease_passed is_exhausted
    abandon_row abandon_exhausted is_claimable is_before insert_row sort_rows candidates release_row
    claim_row claim_deliveries target_row char_length starts_bare ends_bare target_fits set_target
    fail_if fail_delivery artifacts work_of release_as release_one release_all taken claim
    is_sendable delivery_targets target_allowed allowed_targets is_shown is_newer insert_media
    newest_first picture_of delivery_pictures deliverable_of deliverable_asset shelf_catalog
    stored_apps app_targets
all_code = tt

abbrev voice : Shelved
voice = record {
  row = record {
    id = 3;
    owner_id = 1;
    kind = "preset";
    name = "Voice";
    is_nsfw = some false;
    lifecycle = lifecycle_published;
    discovery = discovery_listed;
    content_generation = 4;
    withheld_at = none;
    withheld_by = none;
    withheld_reason = none;
    deleted_at = none;
    recoverable_until = none;
  };
  current_revision_id = some 50;
  cover_media_id = some 61;
}

abbrev image : Uuid → ℕ → Bool → Media
image id created_at is_current = record {
  id = id;
  asset_id = 3;
  role = "gallery";
  is_current = is_current;
  blob_id = some id;
  created_at = created_at;
}

abbrev shelf : Shelf
shelf = record {
  assets = voice ∷ [];
  projections =
      record {
        asset_id = 3;
        export = some (
            record { format = "preset_sillytavern"; label = "SillyTavern" }
            ∷ record { format = "preset_lumiverse"; label = "Lumiverse" }
            ∷ []);
      }
      ∷ [];
  media = image 60 1 true ∷ image 61 2 true ∷ image 62 3 false ∷ [];
  vault = record { sealed = []; allowed = record { asset_id = 3; app = app_lumiverse } ∷ [] };
}

abbrev signed : Uuid → String
signed id = "signed"

abbrev desk : Instance
desk = record {
  id = 7;
  user_id = 1;
  scopes = scope_receive_assets ∷ [];
  accepted_targets = "preset_sillytavern" ∷ raw_target ∷ "preset_lumiverse" ∷ [];
}

abbrev waiting : Row
waiting = record {
  id = 100;
  instance_id = 7;
  asset_id = 3;
  state = queued;
  attempts = 0;
  queued_at = 5;
  lease_expires_at = none;
  chosen_target = none;
  settled_at = none;
  settled_reason = none;
  expires_at = 900000000000000;
}

abbrev won : Result DeliveryError (List Work) × List Row
won = claim (shelf_catalog signed signed shelf) desk default_settings 10 10 true (waiting ∷ [])

-- The format that the instance likes best, and the file, are not for it.
abbrev voice_work : Work
voice_work = record {
  id = 100;
  asset_id = 3;
  content_generation = 4;
  kind = "preset";
  name = "Voice";
  format = "preset_lumiverse";
  label = "Lumiverse";
  queued_at = 5;
  lease_expires_at = some (10 + default_settings.lease);
  artifacts =
      record {
        kind = artifact_export;
        url = "signed";
        media_id = none;
        role = "";
        is_cover = false;
      }
      ∷ record {
        kind = artifact_picture;
        url = "signed";
        media_id = some 61;
        role = "gallery";
        is_cover = true;
      }
      ∷ record {
        kind = artifact_picture;
        url = "signed";
        media_id = some 60;
        role = "gallery";
        is_cover = false;
      }
      ∷ [];
}

abbrev after : List Row
after =
    record waiting {
      state = released;
      attempts = 1;
      lease_expires_at = some (10 + default_settings.lease);
      chosen_target = some "preset_lumiverse";
    }
    ∷ []

handed_out : won ≡ (ok (voice_work ∷ []), after)
unfolding all_code
handed_out = refl

claim-is_entitled_example : all_of (is_entitled shelf) (voice_work ∷ []) ≡ true
claim-is_entitled_example =
    claim-is_entitled signed signed shelf desk default_settings 10 10 true (waiting ∷ [])
      (voice_work ∷ []) after handed_out
