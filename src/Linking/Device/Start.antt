-- ===== src/Linking/Device/Start.antt =====
-- api/internal/linking/service.go: `Start`, which opens the link of a device, after its input is
-- checked and the rate limit passed. The codes that its attempts draw are an argument.
use lumi_hub.Base.{
  Bool, List, Option, String, [], any_of, if◌then◌else◌, keep, leb, ltb, none, not, some, suc, take,
  zero, ℕ, ◌*◌, ◌++◌, ◌+◌, ◌||◌, ◌∷◌,
}
use lumi_hub.Linking.Codes.{Bytes, draw, same_bytes}
use lumi_hub.Linking.Device.{LinkRequest, Links, has_device}

-- `requestLifetime` in microseconds, and `cleanupBatch`
abbrev pub request_lifetime : ℕ
request_lifetime = 10 * 60 * 1000000

abbrev pub cleanup_batch : ℕ
cleanup_batch = 100

unfoldable pub insert_by_expiry : LinkRequest → List LinkRequest → List LinkRequest
insert_by_expiry r [] = r ∷ []
insert_by_expiry r (q ∷ qs) =
    let rest = insert_by_expiry r qs in
    if ltb q.expires_at r.expires_at then q ∷ rest else r ∷ q ∷ qs

unfoldable pub sort_by_expiry : List LinkRequest → List LinkRequest
sort_by_expiry [] = []
sort_by_expiry (r ∷ rs) = insert_by_expiry r (sort_by_expiry rs)

-- `DeleteExpiredDeviceLinkRequests`
unfoldable pub delete_expired_requests : ℕ → ℕ → List LinkRequest → List LinkRequest
delete_expired_requests now batch rs =
    let expired =
      take batch (sort_by_expiry (keep (λ (r : LinkRequest). leb r.expires_at now) rs)) in
    keep (λ (r : LinkRequest). not (any_of (has_device r.device_code_hash) expired)) rs

unfoldable pub has_user_code : Bytes → LinkRequest → Bool
has_user_code u r = same_bytes r.user_code_hash u

-- The hashes of the device code and of the user code that an attempt draws.
pub record Drawn : Type 0 where
  pub device_code_hash : Bytes
  pub user_code_hash : Bytes

unfoldable pub new_request : Drawn → List String → ℕ → LinkRequest
new_request d scopes expires_at = record {
  device_code_hash = d.device_code_hash;
  user_code_hash = d.user_code_hash;
  scopes = scopes;
  review_token_hash = none;
  reviewed_by = none;
  approved_by = none;
  approved_at = none;
  denied_by = none;
  denied_at = none;
  redeemed_at = none;
  last_polled_at = none;
  expires_at = expires_at;
  poll_interval_seconds = 5;
}

-- `InsertDeviceLinkRequest`; `none` where one of the codes is taken
unfoldable pub insert_request :
    Drawn → List String → ℕ → List LinkRequest → Option (List LinkRequest)
insert_request d scopes expires_at rs =
    if any_of (has_device d.device_code_hash) rs || any_of (has_user_code d.user_code_hash) rs
    then none
    else some (rs ++ (new_request d scopes expires_at ∷ []))

-- The attempts that are left
unfoldable pub attempts :
    ℕ → (ℕ → Drawn) → List String → ℕ → List LinkRequest → Option (Drawn × List LinkRequest)
attempts zero draw scopes expires_at rs = none
attempts (suc left) draw scopes expires_at rs =
    elim (insert_request (draw left) scopes expires_at rs) [
      | none ↦ attempts left draw scopes expires_at rs
      | some inserted ↦ some (draw left, inserted)
    ]

-- `Start`
unfoldable pub start : ℕ → ℕ → (ℕ → Drawn) → List String → Links → Option Drawn × Links
start now clock draw scopes s =
    let cleared = delete_expired_requests now cleanup_batch s.requests in
    elim (attempts 8 draw scopes (clock + request_lifetime) cleared) [
      | none ↦ (none, record s { requests = cleared })
      | some (d, opened) ↦ (some d, record s { requests = opened })
    ]
