-- ===== src/Delivery/Service.antt =====
-- api/internal/delivery/service.go, collect.go and sweep.go: the operations of the queue. What the
-- package asks of the linking layer and of the asset catalog are its Go interfaces, here records.
-- The database answers every statement; a transaction that fails leaves the table as it was.
-- `now` is the database's clock and `clock` the process's; they need not agree.
pub mod Queue
use lumi_hub.Base.{
  Bool, List, Option, Result, String, any_of, err, if◌then◌else◌, leb, nat_eq, none, not, ok,
  refuse_if, some, string_eq, ℕ, ◌*◌, ◌+◌, ◌==◌, ◌>>◌,
}
use lumi_hub.Block.Content.{Uuid, is_none}
use lumi_hub.Delivery.Table.{
  Row, count_live, delete_expired, discard_delivery, live_delivery_for_asset, queue_delivery,
}
use lumi_hub.Delivery.Target.{Target, choose_target}
use lumi_hub.Delivery.Waiting.{Hub, signal}
use lumi_hub.Linking.Scopes.{scope_receive_assets}

pub record Instance : Type 0 where
  pub id : Uuid
  pub user_id : Uuid
  pub scopes : List String
  pub accepted_targets : List String

-- `Instance.Grants`
unfoldable pub grants : Instance → String → Bool
grants i scope = any_of (λ granted. granted == scope) i.scopes

pub data DeliveryError : Type 0 where
  instance_not_found missing_scope asset_not_sendable no_target queue_full : DeliveryError
  delivery_not_found too_many_requests too_many_collectors acknowledgement : DeliveryError
  fault : DeliveryError

-- The errors of the interfaces that the code tells apart.
pub data CatalogError : Type 0 where
  not_deliverable no_rows broken : CatalogError

pub data ThrottleError : Type 0 where
  rate_limited unthrottled : ThrottleError

pub data LinkError : Type 0 where
  unlinked unreadable : LinkError

pub record Picture : Type 0 where
  pub media_id : Uuid
  pub role : String
  pub is_cover : Bool
  pub url : String

pub record Deliverable : Type 0 where
  pub kind : String
  pub name : String
  pub content_generation : ℕ
  pub targets : List Target
  pub has_original : Bool
  pub pictures : List Picture

-- `Catalog`; `export_url` signs the address of a delivery's export.
pub record Catalog : Type 0 where
  pub deliverable : Uuid → Result CatalogError Deliverable
  pub export_url : Uuid → String

-- `Instances`
pub record Instances : Type 0 where
  pub throttle : String → Uuid → ℕ → Result ThrottleError (Unit {0})
  pub live_by_id : Uuid → Uuid → Result LinkError Instance

pub record Settings : Type 0 where
  pub lease : ℕ
  pub retention : ℕ
  pub batch : ℕ
  pub max_attempts : ℕ
  pub pending_per_instance : ℕ
  pub concurrent_holds : ℕ
  pub max_acknowledged : ℕ

abbrev second : ℕ
second = 1000000

-- `DefaultSettings`
abbrev pub default_settings : Settings
default_settings = record {
  lease = 15 * 60 * second;
  retention = 7 * 24 * 3600 * second;
  batch = 10;
  max_attempts = 5;
  pending_per_instance = 100;
  concurrent_holds = 512;
  max_acknowledged = 32;
}

-- The state that the package keeps: its table and its hub.
pub record Server : Type 0 where
  pub table : List Row
  pub hub : Hub

-- `throttled`
unfoldable pub throttled : Result ThrottleError (Unit {0}) → Result DeliveryError (Unit {0})
throttled (ok x) = ok tt
throttled (err rate_limited) = err too_many_requests
throttled (err unthrottled) = err fault

unfoldable pub link_error : LinkError → DeliveryError
link_error unlinked = instance_not_found
link_error unreadable = fault

pub data ArtifactKind : Type 0 where
  artifact_export artifact_picture : ArtifactKind

pub record Artifact : Type 0 where
  pub kind : ArtifactKind
  pub url : String
  pub media_id : Option Uuid
  pub role : String
  pub is_cover : Bool

pub record Work : Type 0 where
  pub id : Uuid
  pub asset_id : Uuid
  pub content_generation : ℕ
  pub kind : String
  pub name : String
  pub format : String
  pub label : String
  pub queued_at : ℕ
  pub lease_expires_at : Option ℕ
  pub artifacts : List Artifact

-- `textValue`
abbrev pub text_value : String → Option String
text_value s = if s == "" then none else some s

module _ (instances : Instances) (catalog : Catalog) (settings : Settings) where
  -- The checks of `Queue` before it reads the queue.
  unfoldable pub admit : Uuid → Uuid → Uuid → Result DeliveryError (Unit {0})
  admit user_id instance_id asset_id =
      throttled (instances.throttle "delivery-queue" user_id 120)
      >> elim (instances.live_by_id user_id instance_id) [
        | err e ↦ err (link_error e)
        | ok i ↦
            refuse_if (not (grants i scope_receive_assets)) missing_scope
            >> elim (catalog.deliverable asset_id) [
              | err e ↦ elim e [
                | not_deliverable ↦ err asset_not_sendable
                | no_rows ↦ err fault
                | broken ↦ err fault
              ]
              | ok d ↦
                  refuse_if (is_none (choose_target i.accepted_targets d.targets d.has_original))
                    no_target
            ]
      ]

  -- `liveDelivery`
  unfoldable pub live_delivery : Uuid → Uuid → List Row → Result DeliveryError Row
  live_delivery instance_id asset_id t = elim (live_delivery_for_asset instance_id asset_id t) [
    | none ↦ err delivery_not_found
    | some r ↦ ok r
  ]

  -- The rest of `Queue`, on the table; `id` is the new uuid.
  unfoldable pub enqueue : Uuid → ℕ → ℕ → Uuid → Uuid → Server → Result DeliveryError Row × Server
  enqueue id now clock instance_id asset_id s =
      if leb settings.pending_per_instance (count_live instance_id s.table)
      then (err queue_full, s)
      else elim (queue_delivery now id instance_id asset_id (clock + settings.retention) s.table) [
        | err e ↦ (err fault, s)
        | ok (none, t) ↦ (live_delivery instance_id asset_id s.table, s)
        | ok (some row, t) ↦ (ok row, record { table = t; hub = signal instance_id s.hub })
      ]

  -- `Queue`: what it returns is the row of the delivery
  unfoldable pub queue :
      Uuid → ℕ → ℕ → Uuid → Uuid → Uuid → Server → Result DeliveryError Row × Server
  queue id now clock user_id instance_id asset_id s = elim (admit user_id instance_id asset_id) [
    | err e ↦ (err e, s)
    | ok admitted ↦ enqueue id now clock instance_id asset_id s
  ]

-- `Discard`
unfoldable pub discard :
    (Uuid → Option Uuid) → Uuid → Uuid → Server → Result DeliveryError (Unit {0}) × Server
discard owner user_id id s =
    let (n, t) = discard_delivery owner user_id id s.table in
    (if n == 0 then err delivery_not_found else ok tt, record s { table = t })

-- `Sweep`
unfoldable pub sweep : ℕ → Server → Server
sweep now s = record s { table = delete_expired now 200 s.table }
