-- ===== src/Delivery/Table.antt =====
-- The table `instance_deliveries` and the statements of api/internal/db/queries.sql on it. A table
-- is its list of rows, each statement a function of it; `now` is the database's clock at the start
-- of the transaction. `may_receive` says whether the instance's row in `linked_instances` is not
-- revoked and holds the scope `asset:receive`. Times are numbers of microseconds.
pub mod Rows
pub mod Statements
use Prim.Native.Char.{code}
use lumi_hub.Base.{
  Bool, List, Option, Result, String, [], any_of, contains, err, false, find_first, if◌then◌else◌,
  keep, leb, length, ltb, map, nat_eq, none, not, ok, some, string_eq, take, true, ℕ, ◌&&◌, ◌+◌,
  ◌==◌, ◌||◌, ◌∷◌,
}
use lumi_hub.Block.Content.{Uuid, is_none}

pub data State : Type 0 where
  queued released failed : State

pub data Reason : Type 0 where
  withdrawn unsupported abandoned : Reason

pub record Row : Type 0 where
  pub id : Uuid
  pub instance_id : Uuid
  pub asset_id : Uuid
  pub state : State
  pub attempts : ℕ
  pub queued_at : ℕ
  pub lease_expires_at : Option ℕ
  pub chosen_target : Option String
  pub settled_at : Option ℕ
  pub settled_reason : Option Reason
  pub expires_at : ℕ

-- What makes an insert fail.
pub data DbError : Type 0 where
  duplicate_key check_violation : DbError

-- `state in ('queued', 'released')`
unfoldable pub is_live : Row → Bool
is_live r = elim r.state [ queued ↦ true | released ↦ true | failed ↦ false ]

unfoldable pub is_queued : Row → Bool
is_queued r = elim r.state [ queued ↦ true | released ↦ false | failed ↦ false ]

unfoldable pub is_released : Row → Bool
is_released r = elim r.state [ queued ↦ false | released ↦ true | failed ↦ false ]

-- `lease_expires_at <= now()`
unfoldable pub lease_passed : ℕ → Row → Bool
lease_passed now r = elim r.lease_expires_at [ none ↦ false | some l ↦ leb l now ]

-- The live delivery of one asset for one instance.
unfoldable pub is_live_for : Uuid → Uuid → Row → Bool
is_live_for instance_id asset_id r =
    r.instance_id == instance_id && r.asset_id == asset_id && is_live r

-- The values of the insert, and the defaults of the other columns.
abbrev pub new_row : ℕ → Uuid → Uuid → Uuid → ℕ → Row
new_row now id instance_id asset_id expires_at = record {
  id = id;
  instance_id = instance_id;
  asset_id = asset_id;
  state = queued;
  attempts = 0;
  queued_at = now;
  lease_expires_at = none;
  chosen_target = none;
  settled_at = none;
  settled_reason = none;
  expires_at = expires_at;
}

-- `QueueDelivery`: the row that was inserted, or `none` on a conflict with a live delivery
unfoldable pub queue_delivery :
    ℕ → Uuid → Uuid → Uuid → ℕ → List Row → Result DbError (Option Row × List Row)
queue_delivery now id instance_id asset_id expires_at t =
    if any_of (is_live_for instance_id asset_id) t
    then ok (none, t)
    else if any_of (λ r. r.id == id) t
    then err duplicate_key
    else if leb expires_at now
    then err check_violation
    else ok (
      some (new_row now id instance_id asset_id expires_at),
      new_row now id instance_id asset_id expires_at ∷ t,
    )

-- `LiveDeliveryForAsset`
unfoldable pub live_delivery_for_asset : Uuid → Uuid → List Row → Option Row
live_delivery_for_asset instance_id asset_id t = find_first (is_live_for instance_id asset_id) t

-- `CountLiveDeliveries`
unfoldable pub count_live : Uuid → List Row → ℕ
count_live instance_id [] = 0
count_live instance_id (r ∷ t) =
    (if r.instance_id == instance_id && is_live r then 1 else 0) + count_live instance_id t

unfoldable pub fail_row : ℕ → Reason → Row → Row
fail_row now reason r = record r {
  state = failed;
  settled_at = some now;
  settled_reason = some reason;
  lease_expires_at = none;
}

unfoldable pub is_exhausted : ℕ → Uuid → ℕ → Row → Bool
is_exhausted now instance_id max r =
    r.instance_id == instance_id && is_released r && lease_passed now r && leb max r.attempts

unfoldable pub abandon_row : ℕ → Uuid → ℕ → Row → Row
abandon_row now instance_id max r =
    if is_exhausted now instance_id max r then fail_row now abandoned r else r

-- `AbandonExhaustedDeliveries`
unfoldable pub abandon_exhausted : ℕ → Uuid → ℕ → List Row → List Row
abandon_exhausted now instance_id max t = map (abandon_row now instance_id max) t

-- The `where` of the candidates of `ClaimDeliveries`.
unfoldable pub is_claimable : ℕ → Bool → Uuid → ℕ → Row → Bool
is_claimable now may_receive instance_id max r =
    may_receive
    && r.instance_id == instance_id
    && ltb now r.expires_at
    && ltb r.attempts max
    && (is_queued r || (is_released r && lease_passed now r))

-- `order by waiting.queued_at, waiting.id`
unfoldable pub is_before : Row → Row → Bool
is_before r s = ltb r.queued_at s.queued_at || (r.queued_at == s.queued_at && leb r.id s.id)

-- `order by`, by what stands before what.
unfoldable pub insert_row : (Row → Row → Bool) → Row → List Row → List Row
insert_row before r [] = r ∷ []
insert_row before r (s ∷ t) =
    let rest = insert_row before r t in if before r s then r ∷ s ∷ t else s ∷ rest

unfoldable pub sort_rows : (Row → Row → Bool) → List Row → List Row
sort_rows before [] = []
sort_rows before (r ∷ t) = insert_row before r (sort_rows before t)

-- The ids of the first `batch` candidates.
unfoldable pub candidates : ℕ → Bool → Uuid → ℕ → ℕ → List Row → List Uuid
candidates now may_receive instance_id max batch t =
    map (λ (r : Row). r.id)
      (take batch (sort_rows is_before (keep (is_claimable now may_receive instance_id max) t)))

unfoldable pub release_row : ℕ → Row → Row
release_row lease r = record r {
  state = released;
  attempts = r.attempts + 1;
  lease_expires_at = some lease;
}

unfoldable pub claim_row : ℕ → List Uuid → Row → Row
claim_row lease ids r = if contains ids r.id then release_row lease r else r

-- `ClaimDeliveries`: the rows that it returns, and the table after it
unfoldable pub claim_deliveries : ℕ → ℕ → Bool → Uuid → ℕ → ℕ → List Row → List Row × List Row
claim_deliveries lease now may_receive instance_id max batch t =
    let ids = candidates now may_receive instance_id max batch t in
    let after = map (claim_row lease ids) t in (keep (λ (r : Row). contains ids r.id) after, after)

unfoldable pub target_row : Uuid → Option String → Row → Row
target_row id target r = if r.id == id then record r { chosen_target = target } else r

-- `char_length`, and whether `btrim`, which takes spaces away, leaves a text as it is.
unfoldable pub char_length : String → ℕ
char_length String.[] = 0
char_length (String.◌∷◌ c s) = char_length s + 1

unfoldable pub starts_bare : String → Bool
starts_bare String.[] = true
starts_bare (String.◌∷◌ c s) = not (code c == 32)

unfoldable pub ends_bare : String → Bool
ends_bare String.[] = true
ends_bare (String.◌∷◌ c s) = let rest = ends_bare s in if s == "" then not (code c == 32) else rest

-- `instance_deliveries_target_check`
unfoldable pub target_fits : Option String → Bool
target_fits none = true
target_fits (some t) =
    (starts_bare t && ends_bare t) && (leb 1 (char_length t) && leb (char_length t) 64)

-- `SetDeliveryTarget`
unfoldable pub set_target : Uuid → Option String → List Row → Result DbError (List Row)
set_target id target t =
    if any_of (λ (r : Row). r.id == id) t && not (target_fits target)
    then err check_violation
    else ok (map (target_row id target) t)

unfoldable pub fail_if : ℕ → Uuid → Reason → Row → Row
fail_if now id reason r = if r.id == id then fail_row now reason r else r

-- `FailDelivery`
unfoldable pub fail_delivery : ℕ → Uuid → Reason → List Row → List Row
fail_delivery now id reason t = map (fail_if now id reason) t

-- `AcknowledgeDeliveries`
unfoldable pub is_acknowledged : Uuid → List Uuid → Row → Bool
is_acknowledged instance_id ids r =
    r.instance_id == instance_id && contains ids r.id && is_released r

unfoldable pub acknowledge : Uuid → List Uuid → List Row → List Row
acknowledge instance_id ids t = keep (λ r. not (is_acknowledged instance_id ids r)) t

-- `DiscardDelivery`; `owner` is the user of an instance. The number of rows is what it returns.
unfoldable pub is_discarded : (Uuid → Option Uuid) → Uuid → Uuid → Row → Bool
is_discarded owner user_id id r =
    r.id == id && elim (owner r.instance_id) [ none ↦ false | some u ↦ u == user_id ]

unfoldable pub discard_delivery : (Uuid → Option Uuid) → Uuid → Uuid → List Row → ℕ × List Row
discard_delivery owner user_id id t = (
  length (keep (is_discarded owner user_id id) t),
  keep (λ r. not (is_discarded owner user_id id r)) t,
)

-- `DeliveryForArtifact`
unfoldable pub is_fetchable : ℕ → (Uuid → Bool) → Uuid → Row → Bool
is_fetchable now may_receive id r =
    r.id == id
    && is_released r
    && not (lease_passed now r)
    && ltb now r.expires_at
    && not (is_none r.chosen_target)
    && may_receive r.instance_id

unfoldable pub delivery_for_artifact : ℕ → (Uuid → Bool) → Uuid → List Row → Option Row
delivery_for_artifact now may_receive id t = find_first (is_fetchable now may_receive id) t

-- The ids of the first `batch` expired rows, by `order by expires_at`.
unfoldable pub expired_ids : ℕ → ℕ → List Row → List Uuid
expired_ids now batch t =
    map (λ (r : Row). r.id)
      (take batch
        (sort_rows (λ r s. leb r.expires_at s.expires_at) (keep (λ r. leb r.expires_at now) t)))

-- `DeleteExpiredDeliveries`
unfoldable pub delete_expired : ℕ → ℕ → List Row → List Row
delete_expired now batch t =
    let ids = expired_ids now batch t in keep (λ (r : Row). not (contains ids r.id)) t
