-- ===== src/Delivery/Examples.antt =====
-- One instance, one asset: a delivery is sent, collected, left, and collected again.
use lumi_hub.Base.{
  Bool, Has, List, Option, Result, [], arith, contains, err, false, if◌then◌else◌, inl, length,
  lookup, map, nat_eq, none, ok, refl, some, string_eq, true, ℕ, ◌+◌, ◌==◌, ◌∷◌, ◌≡◌, ◌≢◌, ◌≤◌,
}
use lumi_hub.Block.Content.{Uuid}
use lumi_hub.Delivery.Collect.{
  Turn, answer, artifacts, await, claim, rechecked, release_all, release_as, release_one, taken,
  waited_out, work_of,
}
use lumi_hub.Delivery.Collect.Claim.{claim-IsDue, claim_exclusive}
use lumi_hub.Delivery.Collect.Due.{IsDue}
use lumi_hub.Delivery.Collect.Runs.{
  IsAnswered, IsReached, IsReached-IsLawful, await_answers, nothing_queued, pressed,
}
use lumi_hub.Delivery.Service.{
  Catalog, Deliverable, DeliveryError, Instance, Instances, Server, Settings, Work, admit,
  artifact_export, default_settings, enqueue, grants, link_error, live_delivery, queue, throttled,
}
use lumi_hub.Delivery.Table.{
  Row, abandon_exhausted, abandon_row, candidates, char_length, claim_deliveries, claim_row,
  count_live, ends_bare, fail_delivery, fail_if, fail_row, insert_row, is_before, is_claimable,
  is_exhausted, is_live, is_live_for, is_queued, is_released, lease_passed, live_delivery_for_asset,
  new_row, queue_delivery, release_row, set_target, sort_rows, starts_bare, target_fits, target_row,
}
use lumi_hub.Delivery.Table.Rows.{clashes, is_failed, is_unclashed, meets_checks}
use lumi_hub.Delivery.Table.Statements.{IsLawful}
use lumi_hub.Delivery.Target.{IsFair, choose_target, choose_target-IsFair, offered_as}
use lumi_hub.Delivery.Waiting.{Hub, delete_key, hold, new_hub, release, signal}
use lumi_hub.Delivery.Waiting.Runs.{IsReachable-safe, held, hold_superseding, started}
use lumi_hub.Delivery.Waiting.Sound.{IsSound, is_apart}
use lumi_hub.Linking.Scopes.{scope_receive_assets}

-- What the examples compute with.
all_code : Unit {0}
unfolding choose_target offered_as hold release signal delete_key new_hub is_live is_queued
    is_released lease_passed is_live_for queue_delivery live_delivery_for_asset count_live fail_row
    is_exhausted abandon_row abandon_exhausted is_claimable is_before insert_row sort_rows
    candidates release_row claim_row claim_deliveries target_row char_length starts_bare ends_bare
    target_fits set_target fail_if fail_delivery grants throttled link_error admit live_delivery
    enqueue queue artifacts work_of release_as release_one release_all taken claim answer await
    is_apart meets_checks is_failed clashes is_unclashed
all_code = tt

abbrev laptop : Instance
laptop = record {
  id = 7;
  user_id = 1;
  scopes = scope_receive_assets ∷ [];
  accepted_targets = "card_v3" ∷ "card_v2" ∷ [];
}

abbrev links : Instances
links = record { throttle = λ action source limit. ok tt; live_by_id = λ user id. ok laptop }

abbrev card : Deliverable
card = record {
  kind = "character";
  name = "Ada";
  content_generation = 1;
  targets = record { format = "card_v2"; label = "Card" } ∷ [];
  has_original = false;
  pictures = [];
}

abbrev shelf : Catalog
shelf = record { deliverable = λ asset. ok card; export_url = λ id. "signed" }

abbrev settings : Settings
settings = default_settings

abbrev idle : Server
idle = record { table = []; hub = new_hub 512 }

abbrev sent : Result DeliveryError Row × Server
sent = enqueue links shelf settings 100 5 5 7 9 idle

abbrev first_claim : Result DeliveryError (List Work) × List Row
first_claim = claim shelf laptop settings 10 10 true sent.1.table

abbrev later : ℕ
later = 10 + settings.lease + 1

abbrev second_claim : Result DeliveryError (List Work) × List Row
second_claim = claim shelf laptop settings 20 20 true first_claim.1

works_of : Result DeliveryError (List Work) → List Uuid
works_of (ok ws) = map (λ (w : Work). w.id) ws
works_of (err e) = []

-- The delivery is handed out, not while it is leased, and again after the lease.
handed_out : works_of first_claim.0 ≡ 100 ∷ []
unfolding all_code works_of
handed_out = refl

leased : works_of second_claim.0 ≡ []
unfolding all_code works_of
leased = refl

handed_out_again :
    works_of (claim shelf laptop settings later later true first_claim.1).0 ≡ 100 ∷ []
unfolding all_code works_of
handed_out_again = refl

choose_target-IsFair_example :
    IsFair card.targets false laptop.accepted_targets
      (choose_target laptop.accepted_targets card.targets false)
choose_target-IsFair_example = choose_target-IsFair laptop.accepted_targets card.targets false

abbrev waiting_hub : Hub
waiting_hub = record { waiting = (7, 0) ∷ []; limit = 512; made = 1; superseded = []; work = [] }

held_once : hold 7 (new_hub 512) ≡ ok (some 0, waiting_hub)
unfolding all_code
held_once = refl

IsReachable-safe_example :
    (length waiting_hub.waiting ≤ 512)
    × (is_apart waiting_hub.waiting ≡ true)
    × ((id : Uuid) → (r : Option ℕ × Hub) × (hold id waiting_hub ≡ ok r))
IsReachable-safe_example = IsReachable-safe 512 (held 7 (some 0) started held_once)

waiting_hub-IsSound : IsSound waiting_hub
unfolding all_code
waiting_hub-IsSound = record {
  few = ground arith;
  apart = refl;
  all_open = refl;
  superseded_made = refl;
}

found_waiting : lookup 7 waiting_hub.waiting ≡ some 0
found_waiting = refl

hold_superseding_example :
    (w : ℕ) × (h' : Hub) × (hold 7 waiting_hub ≡ ok (some w, h'))
    × (lookup 7 h'.waiting ≡ some w)
    × (contains h'.superseded 0 ≡ true)
    × (release 7 0 h' ≡ h')
hold_superseding_example = hold_superseding 7 waiting_hub 0 waiting_hub-IsSound found_waiting

sent-IsReached : IsReached settings sent.1.table
unfolding all_code
sent-IsReached = pressed links shelf 100 5 5 1 7 9 idle nothing_queued

IsReached-IsLawful_example : IsLawful settings.max_attempts sent.1.table
IsReached-IsLawful_example = IsReached-IsLawful settings sent-IsReached

-- Two deliveries, collected one at a time.
abbrev single_file : Settings
single_file = record settings { batch = 1 }

abbrev pair : List Row
pair = new_row 5 100 7 9 999999999999 ∷ new_row 6 101 7 8 999999999999 ∷ []

pair-IsLawful : IsLawful single_file.max_attempts pair
unfolding all_code
pair-IsLawful = record { checks = refl; unclashed = refl; bounded = refl }

abbrev leased_at : ℕ → Work
leased_at id = record {
  id = id;
  asset_id = if id == 100 then 9 else 8;
  content_generation = 1;
  kind = "character";
  name = "Ada";
  format = "card_v2";
  label = "Card";
  queued_at = if id == 100 then 5 else 6;
  lease_expires_at = some (10 + settings.lease);
  artifacts =
      record {
        kind = artifact_export;
        url = "signed";
        media_id = none;
        role = "";
        is_cover = false;
      }
      ∷ [];
}

abbrev after_one : List Row
after_one = (claim shelf laptop single_file 10 10 true pair).1

one_claimed : claim shelf laptop single_file 10 10 true pair ≡ (ok (leased_at 100 ∷ []), after_one)
unfolding all_code
one_claimed = refl

abbrev after_two : List Row
after_two = (claim shelf laptop single_file 20 10 true after_one).1

two_claimed :
    claim shelf laptop single_file 20 10 true after_one ≡ (ok (leased_at 101 ∷ []), after_two)
unfolding all_code
two_claimed = refl

claim_exclusive_example : (leased_at 101).id ≢ (leased_at 100).id
claim_exclusive_example =
    claim_exclusive shelf shelf laptop laptop single_file 10 10 20 10 true true pair (leased_at 100)
      (leased_at 101) pair-IsLawful one_claimed (ground arith) two_claimed (inl refl) (inl refl)

claim-IsDue_example :
    (◌≡◌ {A = Bool} true true)
    × ((r : Row) × Has r pair × IsDue 10 7 single_file.max_attempts (leased_at 100) r)
claim-IsDue_example =
    claim-IsDue shelf laptop single_file 10 10 true pair (leased_at 100) pair-IsLawful one_claimed
      (inl refl)

abbrev quiet : List Turn
quiet =
    record { others = λ s. s; now = 10; clock = 10; may_receive = true; wake = rechecked }
    ∷ record { others = λ s. s; now = 20; clock = 20; may_receive = true; wake = waited_out }
    ∷ []

await_answers_example :
    (a : Result DeliveryError (List Work)) × ((await shelf laptop settings quiet idle).0 ≡ some a)
    × IsAnswered shelf laptop settings quiet idle a
await_answers_example = await_answers shelf laptop settings quiet idle refl
