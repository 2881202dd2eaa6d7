-- ===== src/Linking/Browser/Examples.antt =====
-- An application is linked in the browser, and its code is used once more.
use lumi_hub.Base.{
  Option, Result, String, [], err, false, if◌then◌else◌, keep, length, nat_eq, none, ok, refl, some,
  string_eq, ℕ, ◌==◌, ◌∷◌, ◌≡◌,
}
use lumi_hub.Linking.Browser.{
  Address, Browser, BrowserError, OpaqueCode, Redirect, all_pkce, approve_authorization,
  approve_link_row, byte_length, challenge_matches, deny_authorization, deny_link_row, exchange,
  exchange_for, has_code, invalid_pkce, is_exchangeable, is_pkce_char, is_pkce_text, is_proved,
  is_undecided, redeem_link_row, redirect_with, valid_loopback_redirect,
}
use lumi_hub.Linking.Browser.Exchanged.{IsExchanged, exchange-IsExchanged}
use lumi_hub.Linking.Browser.Once.{begun, exchange_once, untouched}
use lumi_hub.Linking.Browser.Start.{
  AuthorizationInput, delete_expired_authorizations, has_request, insert_attempts, insert_expired,
  new_authorization, sort_expired, start_authorization, valid_challenge, validate_authorization,
}
use lumi_hub.Linking.Codes.{same_bytes}
use lumi_hub.Linking.Credentials.{Minted, insert_access, is_revoked}
use lumi_hub.Linking.Device.{Grant, insert_instance, issue_grant}
use lumi_hub.Linking.Scopes.{
  canonical_scopes, count_scope, grant_known, scope_receive_assets, scope_sync_library,
}

-- What the examples compute with.
all_code : Unit {0}
unfolding byte_length is_pkce_char all_pkce is_pkce_text is_undecided has_code approve_link_row
    deny_link_row is_exchangeable redeem_link_row valid_loopback_redirect redirect_with
    approve_authorization deny_authorization challenge_matches is_proved exchange_for exchange
    insert_expired sort_expired has_request delete_expired_authorizations new_authorization
    insert_attempts valid_challenge validate_authorization start_authorization canonical_scopes
    count_scope grant_known issue_grant insert_instance insert_access same_bytes is_revoked
all_code = tt

abbrev home : String
home = "http://127.0.0.1:8123/linked"

abbrev parse : String → Option Address
parse raw =
    if raw == home
    then some (record {
      scheme = "http";
      opaque = "";
      has_user = false;
      raw_query = "";
      fragment = "";
      path = "/linked";
      hostname = "127.0.0.1";
      port = some 8123;
    })
    else none

abbrev verifier : String
verifier = "abcdefghijklmnopqrstuvwxyz-0123456789._~ABCDEF"

abbrev challenge : String
challenge = "ABCDEFGHIJKLMNOPQRSTUVWXYZabcdefghijklmnopq"

abbrev challenge_of : String → String
challenge_of v = if v == verifier then challenge else ""

abbrev decoded : String → Option ℕ
decoded text = some 32

abbrev input : AuthorizationInput
input = record {
  scopes = scope_sync_library ∷ scope_receive_assets ∷ [];
  redirect_uri = home;
  state = "0123456789abcdef0123456789abcdef";
  code_challenge = challenge;
  code_challenge_method = "S256";
}

abbrev tokens : Minted
tokens = record { refresh_hash = b'R' ∷ []; access_hash = b'A' ∷ [] }

abbrev request_code : ℕ → OpaqueCode
request_code left = record { text = "request"; hash = 1 ∷ left ∷ [] }

abbrev drawn : OpaqueCode
drawn = record { text = "code"; hash = 2 ∷ [] }

abbrev closed : Browser
closed = record {
  authorizations = [];
  store = record { instances = []; history = []; access = [] };
}

abbrev started : Result BrowserError OpaqueCode × Browser
started = start_authorization parse decoded 10 10 request_code input closed

opened : started.0 ≡ ok (request_code 7)
unfolding all_code
opened = refl

abbrev approved : Result BrowserError Redirect × Browser
approved = approve_authorization parse 20 5 drawn (some (request_code 7).hash) started.1

sent_back :
    approved.0
    ≡ ok (record { redirect_uri = home; key = "code"; value = "code"; state = input.state })
unfolding all_code
sent_back = refl

abbrev linked : Result BrowserError Grant × Browser
linked = exchange parse challenge_of 30 30 9 tokens (some drawn.hash) verifier home approved.1

abbrev grant : Grant
grant = record {
  instance_id = 9;
  user_id = 5;
  scopes = scope_receive_assets ∷ scope_sync_library ∷ [];
}

granted : linked.0 ≡ ok grant
unfolding all_code
granted = refl

-- Another verifier, or another address, buys nothing.
other_verifier :
    (exchange parse challenge_of 30 30 9 tokens (some drawn.hash) challenge home approved.1).0
    ≡ err invalid_pkce
unfolding all_code
other_verifier = refl

single : length (keep (has_code drawn.hash) approved.1.authorizations) ≡ 1
unfolding all_code
single = refl

exchange-IsExchanged_example :
    IsExchanged challenge_of 30 30 drawn.hash verifier home grant approved.1 linked.1
exchange-IsExchanged_example =
    exchange-IsExchanged parse challenge_of 30 30 9 tokens drawn.hash verifier home approved.1
      granted

abbrev started_again : Browser
started_again = (start_authorization parse decoded 40 40 request_code input linked.1).1

exchange_once_example :
    (exchange parse challenge_of 50 50 10 tokens (some drawn.hash) verifier home started_again).0
    ≡ err invalid_pkce
exchange_once_example =
    exchange_once parse challenge_of decoded 30 30 9 tokens drawn.hash verifier home approved.1
      single granted (begun 40 40 request_code input linked.1 untouched) 50 50 10 tokens verifier
      home
