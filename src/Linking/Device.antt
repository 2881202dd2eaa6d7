-- ===== src/Linking/Device.antt =====
-- api/internal/linking/service.go: the manual link of a device, `Approve`, `Deny` and `Poll`, with
-- their statements on `link_requests`, and `issueGrant` of credentials.go. What an instance says of
-- itself, the rate limit and the clean-up of expired tokens are left out. Times are in microseconds.
pub mod Moves
pub mod Lawful
pub mod Once
pub mod Start
pub mod Opened
pub mod Flow
mod Examples
pub mod Redeemed
use lumi_hub.Base.{
  Bool, List, Option, Result, String, any_of, err, false, find_first, if◌then◌else◌, keep, length,
  ltb, map, nat_eq, none, not, ok, some, string_eq, true, ℕ, ◌&&◌, ◌*◌, ◌+◌, ◌==◌, ◌∷◌,
}
use lumi_hub.Block.Content.{is_none}
use lumi_hub.Linking.Codes.{Bytes, same_bytes}
use lumi_hub.Linking.Credentials.{Minted, Store, access_token_lifetime, insert_access}

-- The columns of `link_requests` that decide a request.
pub record LinkRequest : Type 0 where
  pub device_code_hash : Bytes
  pub user_code_hash : Bytes
  pub scopes : List String
  pub review_token_hash : Option Bytes
  pub reviewed_by : Option ℕ
  pub approved_by : Option ℕ
  pub approved_at : Option ℕ
  pub denied_by : Option ℕ
  pub denied_at : Option ℕ
  pub redeemed_at : Option ℕ
  pub last_polled_at : Option ℕ
  pub expires_at : ℕ
  pub poll_interval_seconds : ℕ

pub record Links : Type 0 where
  pub requests : List LinkRequest
  pub store : Store

pub data RequestError : Type 0 where
  link_request_not_found link_expired access_denied : RequestError
  poll_too_soon : ℕ → RequestError
  no_row : RequestError

-- What the tests on a pending request of `ApproveDeviceLinkRequest` and `DenyDeviceLinkRequest` share.
unfoldable pub is_reviewable : ℕ → ℕ → Bytes → LinkRequest → Bool
is_reviewable now user code r =
    same_bytes r.user_code_hash code
    && ((elim r.reviewed_by [ none ↦ true | some by ↦ by == user ])
        && (ltb now r.expires_at
            && (is_none r.approved_at && (is_none r.denied_at && is_none r.redeemed_at))))

-- `ApproveDeviceLinkRequest`
unfoldable pub approve_row : ℕ → ℕ → Bytes → Bytes → LinkRequest → LinkRequest
approve_row now user token code r =
    if is_reviewable now user code r
    then record r {
      review_token_hash = some token;
      reviewed_by = some user;
      approved_by = some user;
      approved_at = some now;
    }
    else r

-- `DenyDeviceLinkRequest`
unfoldable pub deny_row : ℕ → ℕ → Bytes → Bytes → LinkRequest → LinkRequest
deny_row now user token code r =
    if is_reviewable now user code r
    then record r {
      review_token_hash = some token;
      reviewed_by = some user;
      denied_by = some user;
      denied_at = some now;
    }
    else r

-- `Approve`: the hash of the user code and the hash of the proof that the page sent back, each
-- missing where the text is not one. The scopes that the page shows stand for its answer.
unfoldable pub approve :
    ℕ → ℕ → Option Bytes → Option Bytes → Links → Result RequestError (List String) × Links
approve now user code token s = elim code [
  | none ↦ (err link_request_not_found, s)
  | some c ↦ elim token [
    | none ↦ (err link_request_not_found, s)
    | some t ↦ elim (find_first (is_reviewable now user c) s.requests) [
      | none ↦ (err link_request_not_found, s)
      | some r ↦ (ok r.scopes, record s { requests = map (approve_row now user t c) s.requests })
    ]
  ]
]

-- `Deny`
unfoldable pub deny :
    ℕ → ℕ → Option Bytes → Option Bytes → Links → Result RequestError (Unit {0}) × Links
deny now user code token s = elim code [
  | none ↦ (err link_request_not_found, s)
  | some c ↦ elim token [
    | none ↦ (err link_request_not_found, s)
    | some t ↦
        if any_of (is_reviewable now user c) s.requests
        then (ok tt, record s { requests = map (deny_row now user t c) s.requests })
        else (err link_request_not_found, s)
  ]
]

-- `LockDeviceLinkRequest`
unfoldable pub has_device : Bytes → LinkRequest → Bool
has_device h r = same_bytes r.device_code_hash h

unfoldable pub is_pollable : ℕ → Bytes → LinkRequest → Bool
is_pollable now h r = has_device h r && (ltb now r.expires_at && is_none r.redeemed_at)

unfoldable pub slowed : Bool → ℕ → ℕ
slowed slow_down interval =
    if slow_down then (if ltb 60 (interval + 5) then 60 else interval + 5) else interval

-- `RecordDeviceLinkPoll` on one row
unfoldable pub poll_row : ℕ → Bool → Bytes → LinkRequest → LinkRequest
poll_row now slow_down h r =
    if is_pollable now h r
    then record r {
      last_polled_at = some now;
      poll_interval_seconds = slowed slow_down r.poll_interval_seconds;
    }
    else r

-- `RedeemDeviceLinkRequest`
unfoldable pub is_redeemable : ℕ → Bytes → LinkRequest → Bool
is_redeemable now h r =
    has_device h r
    && (ltb now r.expires_at
        && (not (is_none r.approved_at) && (is_none r.denied_at && is_none r.redeemed_at)))

unfoldable pub redeem_row : ℕ → Bytes → LinkRequest → LinkRequest
redeem_row now h r = if is_redeemable now h r then record r { redeemed_at = some now } else r

-- `InsertLinkedInstance`
unfoldable pub insert_instance : ℕ → ℕ → ℕ → Bytes → List String → Store → Store
insert_instance now id user h scopes s = record s {
  instances =
      record {
        id = id;
        user_id = user;
        refresh_token_hash = some h;
        scopes = scopes;
        linked_at = now;
        last_seen_at = none;
        revoked_at = none;
      }
      ∷ s.instances;
}

-- The answer of a grant, without its tokens.
pub record Grant : Type 0 where
  pub instance_id : ℕ
  pub user_id : ℕ
  pub scopes : List String

-- `issueGrant`, with the id and the hashes of the tokens that it draws
unfoldable pub issue_grant : ℕ → ℕ → ℕ → Minted → ℕ → List String → Store → Option (Grant × Store)
issue_grant now clock id m user scopes s =
    elim (insert_access id m.access_hash (clock + access_token_lifetime)
      (insert_instance now id user m.refresh_hash scopes s)) [
        | none ↦ none
        | some granted ↦
            some (record { instance_id = id; user_id = user; scopes = scopes }, granted)
      ]

-- `Poll` of an approved request, once the poll is recorded
unfoldable pub redeem :
    ℕ
    → ℕ
    → ℕ
    → Minted
    → Bytes
    → ℕ
    → LinkRequest
    → Links
    → Links
    → Result RequestError (Option Grant) × Links
redeem now clock id m h user r before s = elim (issue_grant now clock id m user r.scopes s.store) [
  | none ↦ (err no_row, before)
  | some (grant, granted) ↦
      if length (keep (is_redeemable now h) s.requests) == 1
      then (
        ok (some grant),
        record { requests = map (redeem_row now h) s.requests; store = granted },
      )
      else (err link_request_not_found, before)
]

unfoldable pub is_too_soon : ℕ → LinkRequest → Bool
is_too_soon clock r = elim r.last_polled_at [
  | none ↦ false
  | some last ↦ ltb clock (last + r.poll_interval_seconds * 1000000)
]

-- `Poll` once the request is read and open
unfoldable pub answer_poll :
    ℕ → ℕ → ℕ → Minted → Bytes → LinkRequest → Links → Result RequestError (Option Grant) × Links
answer_poll now clock id m h r s =
    if not (any_of (is_pollable now h) s.requests)
    then (err no_row, s)
    else let slow_down = is_too_soon clock r in
      let recorded : Links = record s { requests = map (poll_row now slow_down h) s.requests } in
      if slow_down
      then (err (poll_too_soon (slowed slow_down r.poll_interval_seconds)), recorded)
      else elim r.approved_by [
        | none ↦ (ok none, recorded)
        | some user ↦ redeem now clock id m h user r s recorded
      ]

-- `Poll`, after the rate limit; the hash is missing where the text is not a device code
unfoldable pub poll :
    ℕ → ℕ → ℕ → Minted → Option Bytes → Links → Result RequestError (Option Grant) × Links
poll now clock id m device_code s = elim device_code [
  | none ↦ (err link_request_not_found, s)
  | some h ↦ elim (find_first (has_device h) s.requests) [
    | none ↦ (err link_request_not_found, s)
    | some r ↦
        if not (is_none r.redeemed_at)
        then (err link_request_not_found, s)
        else (if ltb r.expires_at clock
            then (err link_expired, s)
            else (if not (is_none r.denied_at)
                then (err access_denied, s)
                else answer_poll now clock id m h r s))
  ]
]
