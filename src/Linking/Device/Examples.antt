-- ===== src/Linking/Device/Examples.antt =====
-- A device is approved, collects its tokens, and asks once more.
use lumi_hub.Base.{[], all_of, err, none, ok, refl, some, true, ℕ, ◌∷◌, ◌≡◌}
use lumi_hub.Linking.Codes.{Bytes, same_bytes}
use lumi_hub.Linking.Credentials.{Minted, insert_access, is_revoked}
use lumi_hub.Linking.Device.{
  Grant, Links, answer_poll, approve, approve_row, deny, deny_row, has_device, insert_instance,
  is_pollable, is_redeemable, is_reviewable, is_too_soon, issue_grant, link_request_not_found, poll,
  poll_row, poll_too_soon, redeem, redeem_row, slowed,
}
use lumi_hub.Linking.Device.Flow.{poll-approve-start}
use lumi_hub.Linking.Device.Lawful.{IsAfter-lawful, is_lawful}
use lumi_hub.Linking.Device.Once.{approved, poll_once, rejected, unchanged}
use lumi_hub.Linking.Device.Redeemed.{is_keyed}
use lumi_hub.Linking.Device.Start.{
  Drawn, attempts, delete_expired_requests, has_user_code, insert_by_expiry, insert_request,
  new_request, sort_by_expiry, start,
}

-- What the examples compute with.
all_code : Unit {0}
unfolding insert_by_expiry sort_by_expiry delete_expired_requests has_user_code new_request
    insert_request attempts start is_reviewable approve_row deny_row approve deny has_device
    is_pollable slowed poll_row is_redeemable redeem_row insert_instance issue_grant redeem
    is_too_soon answer_poll poll same_bytes insert_access is_revoked
all_code = tt

abbrev device_hash : Bytes
device_hash = b'D' ∷ b'1' ∷ []

abbrev user_hash : Bytes
user_hash = b'U' ∷ b'1' ∷ []

abbrev tokens : Minted
tokens = record { refresh_hash = b'R' ∷ []; access_hash = b'A' ∷ [] }

abbrev started : Links
started = record {
  requests =
      record {
        device_code_hash = device_hash;
        user_code_hash = user_hash;
        scopes = "library:sync" ∷ [];
        review_token_hash = none;
        reviewed_by = none;
        approved_by = none;
        approved_at = none;
        denied_by = none;
        denied_at = none;
        redeemed_at = none;
        last_polled_at = none;
        expires_at = 600000000;
        poll_interval_seconds = 5;
      }
      ∷ [];
  store = record { instances = []; history = []; access = [] };
}

-- The first poll finds the request undecided.
waiting : (poll 1000000 1000000 3 tokens (some device_hash) started).0 ≡ ok none
unfolding all_code
waiting = refl

-- The second comes four seconds later, and the next has to wait for ten.
hasty :
    (poll 5000000 5000000 3 tokens
      (some device_hash)
      (poll 1000000 1000000 3 tokens (some device_hash) started).1).0
    ≡ err (poll_too_soon 10)
unfolding all_code
hasty = refl

abbrev agreed : Links
agreed = (approve 2000000 7 (some user_hash) (some (b'T' ∷ [])) started).1

abbrev grant : Grant
grant = record { instance_id = 3; user_id = 7; scopes = "library:sync" ∷ [] }

granted_first : (poll 9000000 9000000 3 tokens (some device_hash) agreed).0 ≡ ok (some grant)
unfolding all_code
granted_first = refl

one_request : is_keyed agreed.requests ≡ true
unfolding all_code
one_request = refl

abbrev linked : Links
linked = (poll 9000000 9000000 3 tokens (some device_hash) agreed).1

abbrev denied_late : Links
denied_late = (deny 10000000 7 (some user_hash) (some (b'T' ∷ [])) linked).1

poll_once_example :
    (poll 20000000 20000000 4 tokens (some device_hash) denied_late).0 ≡ err link_request_not_found
poll_once_example =
    poll_once 9000000 9000000 3 tokens device_hash agreed one_request granted_first
      (rejected 10000000 7 (some user_hash) (some (b'T' ∷ [])) linked unchanged) 20000000 20000000 4
      tokens

started_lawful : all_of is_lawful started.requests ≡ true
started_lawful = refl

IsAfter-lawful_example : all_of is_lawful agreed.requests ≡ true
IsAfter-lawful_example =
    IsAfter-lawful (approved 2000000 7 (some user_hash) (some (b'T' ∷ [])) started unchanged)
      started_lawful

abbrev codes_drawn : ℕ → Drawn
codes_drawn n = record { device_code_hash = device_hash; user_code_hash = user_hash }

-- The codes of the request that is there are taken.
all_taken : (start 0 0 codes_drawn ("library:sync" ∷ []) linked).0 ≡ none
unfolding all_code
all_taken = refl

abbrev nothing_linked : Links
nothing_linked = record { requests = []; store = started.store }

start_works : (start 0 0 codes_drawn ("library:sync" ∷ []) nothing_linked).0 ≡ some (codes_drawn 7)
unfolding all_code
start_works = refl

poll-approve-start_example :
    ((approve 2000000 7
        (some user_hash)
        (some (b'T' ∷ []))
        (start 0 0 codes_drawn ("library:sync" ∷ []) nothing_linked).1).0
      ≡ ok ("library:sync" ∷ []))
    × ((poll 9000000 9000000 3 tokens
          (some device_hash)
          (approve 2000000 7
            (some user_hash)
            (some (b'T' ∷ []))
            (start 0 0 codes_drawn ("library:sync" ∷ []) nothing_linked).1).1).0
        ≡ ok (some grant))
poll-approve-start_example =
    poll-approve-start 0 0 codes_drawn ("library:sync" ∷ []) nothing_linked start_works 2000000 7
      (b'T' ∷ []) refl 9000000 9000000 3 tokens refl refl
