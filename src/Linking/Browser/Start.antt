-- ===== src/Linking/Browser/Start.antt =====
-- api/internal/linking/service.go: `StartAuthorization`, which opens the link of an application in the
-- same browser, with the checks of linking.go on its input, after the rate limit. The number of bytes
-- that a base64 text stands for (`decoded`) is an argument, as are the codes that the attempts draw.
use lumi_hub.Base.{
  Bool, List, Option, Result, String, [], any_of, err, false, if◌then◌else◌, keep, leb, ltb, nat_eq,
  none, not, ok, refuse_if, some, string_eq, suc, take, zero, ℕ, ◌&&◌, ◌*◌, ◌+◌, ◌==◌, ◌>>◌, ◌||◌,
  ◌∷◌,
}
use lumi_hub.Linking.Browser.{
  Address, Browser, BrowserError, LinkAuthorization, OpaqueCode, byte_length, invalid_pkce,
  invalid_redirect, invalid_request, is_pkce_text, not_stored, valid_loopback_redirect,
}
use lumi_hub.Linking.Codes.{Bytes, draw, same_bytes}
use lumi_hub.Linking.Device.Start.{cleanup_batch}
use lumi_hub.Linking.Scopes.{canonical_scopes}

-- `authorizationLifetime` in microseconds
abbrev pub authorization_lifetime : ℕ
authorization_lifetime = 5 * 60 * 1000000

-- `AuthorizationInput`, without what the application says of itself
pub record AuthorizationInput : Type 0 where
  pub scopes : List String
  pub redirect_uri : String
  pub state : String
  pub code_challenge : String
  pub code_challenge_method : String

-- `DeleteExpiredLinkAuthorizations`
unfoldable pub insert_expired : LinkAuthorization → List LinkAuthorization → List LinkAuthorization
insert_expired r [] = r ∷ []
insert_expired r (q ∷ qs) =
    let rest = insert_expired r qs in if ltb q.expires_at r.expires_at then q ∷ rest else r ∷ q ∷ qs

unfoldable pub sort_expired : List LinkAuthorization → List LinkAuthorization
sort_expired [] = []
sort_expired (r ∷ rs) = insert_expired r (sort_expired rs)

unfoldable pub has_request : Bytes → LinkAuthorization → Bool
has_request h r = same_bytes r.request_hash h

unfoldable pub delete_expired_authorizations :
    ℕ → ℕ → List LinkAuthorization → List LinkAuthorization
delete_expired_authorizations now batch rs =
    let expired =
      take batch (sort_expired (keep (λ (r : LinkAuthorization). leb r.expires_at now) rs)) in
    keep (λ (r : LinkAuthorization). not (any_of (has_request r.request_hash) expired)) rs

unfoldable pub new_authorization : Bytes → AuthorizationInput → ℕ → LinkAuthorization
new_authorization h i expires_at = record {
  request_hash = h;
  authorization_code_hash = none;
  redirect_uri = i.redirect_uri;
  state = i.state;
  code_challenge = i.code_challenge;
  scopes = i.scopes;
  reviewed_by = none;
  approved_by = none;
  approved_at = none;
  denied_by = none;
  denied_at = none;
  redeemed_at = none;
  expires_at = expires_at;
}

-- The attempts that are left: `InsertLinkAuthorization`, whose key may be taken
unfoldable pub insert_attempts :
    ℕ
    → (ℕ → OpaqueCode)
    → AuthorizationInput
    → ℕ
    → List LinkAuthorization
    → Option (OpaqueCode × List LinkAuthorization)
insert_attempts zero draw i expires_at rs = none
insert_attempts (suc left) draw i expires_at rs =
    let rest = insert_attempts left draw i expires_at rs in
    if any_of (has_request (draw left).hash) rs
    then rest
    else some (draw left, new_authorization (draw left).hash i expires_at ∷ rs)

module _ (parse : String → Option Address) (decoded : String → Option ℕ) where
  -- `validChallenge`
  unfoldable pub valid_challenge : String → Bool
  valid_challenge value =
      byte_length value == 43
      && (is_pkce_text value && elim (decoded value) [ none ↦ false | some n ↦ n == 32 ])

  -- `validateAuthorization`
  unfoldable pub validate_authorization :
      AuthorizationInput → Result BrowserError AuthorizationInput
  validate_authorization i = elim (canonical_scopes i.scopes) [
    | err e ↦ err invalid_request
    | ok scopes ↦
        refuse_if (not (valid_loopback_redirect parse i.redirect_uri)) invalid_redirect
        >> (refuse_if
              (ltb (byte_length i.state) 32
                || (ltb 128 (byte_length i.state) || not (is_pkce_text i.state)))
              invalid_pkce
            >> (refuse_if
                  (not (i.code_challenge_method == "S256" && valid_challenge i.code_challenge))
                  invalid_pkce
                >> ok (record i { scopes = scopes })))
  ]

  -- `StartAuthorization`
  unfoldable pub start_authorization :
      ℕ
      → ℕ
      → (ℕ → OpaqueCode)
      → AuthorizationInput
      → Browser
      → Result BrowserError OpaqueCode × Browser
  start_authorization now clock draw i s = elim (validate_authorization i) [
    | err e ↦ (err e, s)
    | ok valid ↦
        let remaining = delete_expired_authorizations now cleanup_batch s.authorizations in
        elim (insert_attempts 8 draw valid (clock + authorization_lifetime) remaining) [
          | none ↦ (err not_stored, record s { authorizations = remaining })
          | some (drawn, opened) ↦ (ok drawn, record s { authorizations = opened })
        ]
  ]
