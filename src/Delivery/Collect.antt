-- ===== src/Delivery/Collect.antt =====
-- api/internal/delivery/collect.go: how an instance collects its work. The wait is a list of turns,
-- each with what other requests do to the server before it, the clocks of its claim, and what then
-- ends the wait of the turn.
pub mod Lease
mod Released
pub mod Due
pub mod Claim
pub mod Runs
use lumi_hub.Base.{
  Bool, List, Option, Result, String, [], err, false, if◌then◌else◌, length, ltb, map, none, ok,
  some, ℕ, ◌+◌, ◌>>=◌, ◌∷◌,
}
use lumi_hub.Block.Content.{Uuid}
use lumi_hub.Delivery.Service.{
  Artifact, Catalog, Deliverable, DeliveryError, Instance, Instances, Picture, Server, Settings,
  Work, acknowledgement, artifact_export, artifact_picture, broken, fault, no_rows, not_deliverable,
  text_value, throttled, too_many_collectors,
}
use lumi_hub.Delivery.Table.{
  Row, abandon_exhausted, acknowledge, claim_deliveries, fail_delivery, set_target, unsupported,
  withdrawn,
}
use lumi_hub.Delivery.Target.{choose_target}
use lumi_hub.Delivery.Waiting.{HubPanic, hold, release}

abbrev pub picture_artifact : Picture → Artifact
picture_artifact p = record {
  kind = artifact_picture;
  url = p.url;
  media_id = some p.media_id;
  role = p.role;
  is_cover = p.is_cover;
}

-- `artifacts`: the export, then every picture.
unfoldable pub artifacts : Catalog → Uuid → Deliverable → List Artifact
artifacts catalog id d =
    record {
      kind = artifact_export;
      url = catalog.export_url id;
      media_id = none;
      role = "";
      is_cover = false;
    }
    ∷ map picture_artifact d.pictures

unfoldable pub work_of : Catalog → Row → Deliverable → String × String → Work
work_of catalog r d chosen = record {
  id = r.id;
  asset_id = r.asset_id;
  content_generation = d.content_generation;
  kind = d.kind;
  name = d.name;
  format = chosen.0;
  label = chosen.1;
  queued_at = r.queued_at;
  lease_expires_at = r.lease_expires_at;
  artifacts = artifacts catalog r.id d;
}

module _ (catalog : Catalog) (instance_of : Instance) where
  -- `release` once the asset is read
  unfoldable pub release_as :
      ℕ → Row → Deliverable → List Row → Result DeliveryError (Option Work × List Row)
  release_as now r d t =
      elim (choose_target instance_of.accepted_targets d.targets d.has_original) [
        | none ↦ ok (none, fail_delivery now r.id unsupported t)
        | some chosen ↦ elim (set_target r.id (text_value chosen.0) t) [
          | err e ↦ err fault
          | ok kept ↦ ok (some (work_of catalog r d chosen), kept)
        ]
      ]

  -- `release`: the work, or `none` for a delivery that it stopped
  unfoldable pub release_one : ℕ → Row → List Row → Result DeliveryError (Option Work × List Row)
  release_one now r t = elim (catalog.deliverable r.asset_id) [
    | ok d ↦ release_as now r d t
    | err e ↦ elim e [
      | not_deliverable ↦ ok (none, fail_delivery now r.id withdrawn t)
      | no_rows ↦ ok (none, fail_delivery now r.id withdrawn t)
      | broken ↦ err fault
    ]
  ]

  abbrev pub add_work : Option Work → List Work → List Work
  add_work none ws = ws
  add_work (some w) ws = w ∷ ws

  -- The loop of `claim` over the rows that the statement returned.
  unfoldable pub release_all : ℕ → List Row → List Row → Result DeliveryError (List Work × List Row)
  release_all now [] t = ok ([], t)
  release_all now (r ∷ rows) t = release_one now r t >>= λ (one : Option Work × List Row).
      release_all now rows one.1 >>= λ (more : List Work × List Row).
      ok (add_work one.0 more.0, more.1)

  module _ (settings : Settings) where
    -- What the statements of `claim` leave: the rows to release, and the table.
    unfoldable pub taken : ℕ → ℕ → Bool → List Row → List Row × List Row
    taken now clock may_receive t =
        claim_deliveries (clock + settings.lease) now may_receive instance_of.id
          settings.max_attempts settings.batch
          (abandon_exhausted now instance_of.id settings.max_attempts t)

    -- `claim`: one transaction
    unfoldable pub claim : ℕ → ℕ → Bool → List Row → Result DeliveryError (List Work) × List Row
    claim now clock may_receive t =
        let rows = taken now clock may_receive t in
        elim (release_all now rows.0 rows.1) [ err e ↦ (err e, t) | ok won ↦ (ok won.0, won.1) ]

-- What ends the wait of one turn: the signal, the ticker, the request that supersedes this one, the
-- timer, or the end of the request.
pub data Wake : Type 0 where
  work_signalled rechecked superseded_by_another waited_out cancelled : Wake

pub record Turn : Type 0 where
  pub others : Server → Server
  pub now : ℕ
  pub clock : ℕ
  pub may_receive : Bool
  pub wake : Wake

-- What an ended turn answers, if it ends the wait.
unfoldable pub answer : Wake → Option (Result DeliveryError (List Work))
answer work_signalled = none
answer rechecked = none
answer superseded_by_another = some (ok [])
answer waited_out = some (ok [])
answer cancelled = some (err fault)

module _ (catalog : Catalog) (instance_of : Instance) (settings : Settings) where
  -- The loop of `Collect`; `none` where the turns run out and the request still waits.
  unfoldable pub await : List Turn → Server → Option (Result DeliveryError (List Work)) × Server
  await [] s = (none, s)
  await (turn ∷ turns) s =
      let before = turn.others s in
      let tried =
        claim catalog instance_of settings turn.now turn.clock turn.may_receive before.table in
      let after : Server = record before { table = tried.1 } in
      elim tried.0 [
        | err e ↦ (some (err e), after)
        | ok (w ∷ works) ↦ (some (ok (w ∷ works)), after)
        | ok [] ↦ elim (answer turn.wake) [ some a ↦ (some a, after) | none ↦ await turns after ]
      ]

  -- `Collect`
  unfoldable pub collect :
      Instances
      → List Uuid
      → List Turn
      → Server
      → Result HubPanic (Option (Result DeliveryError (List Work)) × Server)
  collect instances acked turns s =
      if ltb settings.max_acknowledged (length acked)
      then ok (some (err acknowledgement), s)
      else elim (throttled (instances.throttle "delivery-collect" instance_of.id 400)) [
        | err e ↦ ok (some (err e), s)
        | ok admitted ↦
            let table = acknowledge instance_of.id acked s.table in
            elim (hold instance_of.id s.hub) [
              | err p ↦ err p
              | ok (none, hub) ↦
                  ok (some (err too_many_collectors), record { table = table; hub = hub })
              | ok (some waiter, hub) ↦
                  let (outcome, end) = await turns (record { table = table; hub = hub }) in
                  ok (outcome, record end { hub = release instance_of.id waiter end.hub })
            ]
      ]
