-- ===== src/Linking/Browser.antt =====
-- api/internal/linking/service.go: the link of an application in the same browser,
-- `ApproveAuthorization`, `DenyAuthorization` and `Exchange`, with their statements on
-- `link_authorizations`. Splitting an address (`parse`) and the base64 text of a SHA-256 digest
-- (`challenge_of`) are arguments, as are the codes that a call draws. What an application says of itself
-- and the rate limit are left out. Times are in microseconds.
pub mod Start
pub mod Exchanged
pub mod Used
pub mod Once
mod Examples
use Prim.Native.Char.{code}
use lumi_hub.Base.{
  Bool, List, Option, Result, String, any_of, err, false, find_first, if◌then◌else◌, keep, leb,
  length, ltb, map, nat_eq, none, not, ok, some, string_eq, true, ℕ, ◌&&◌, ◌+◌, ◌==◌, ◌||◌,
}
use lumi_hub.Block.Content.{is_none}
use lumi_hub.Linking.Codes.{Bytes, same_bytes}
use lumi_hub.Linking.Credentials.{Minted, Store}
use lumi_hub.Linking.Device.{Grant, issue_grant}

-- The columns of `link_authorizations` that decide an authorization.
pub record LinkAuthorization : Type 0 where
  pub request_hash : Bytes
  pub authorization_code_hash : Option Bytes
  pub redirect_uri : String
  pub state : String
  pub code_challenge : String
  pub scopes : List String
  pub reviewed_by : Option ℕ
  pub approved_by : Option ℕ
  pub approved_at : Option ℕ
  pub denied_by : Option ℕ
  pub denied_at : Option ℕ
  pub redeemed_at : Option ℕ
  pub expires_at : ℕ

pub record Browser : Type 0 where
  pub authorizations : List LinkAuthorization
  pub store : Store

pub data BrowserError : Type 0 where
  authorization_not_found invalid_redirect invalid_pkce invalid_request : BrowserError
  not_stored : BrowserError

-- What the code reads of an address that `url.ParseRequestURI` takes apart, where it can.
pub record Address : Type 0 where
  pub scheme : String
  pub opaque : String
  pub has_user : Bool
  pub raw_query : String
  pub fragment : String
  pub path : String
  pub hostname : String
  pub port : Option ℕ

-- Where a decision sends the browser: the address, and what its query is given.
pub record Redirect : Type 0 where
  pub redirect_uri : String
  pub key : String
  pub value : String
  pub state : String

-- A code that a call draws, and its hash
pub record OpaqueCode : Type 0 where
  pub text : String
  pub hash : Bytes

-- `len` of a string, in bytes of UTF-8
unfoldable pub byte_length : String → ℕ
byte_length String.[] = 0
byte_length (String.◌∷◌ c s) =
    byte_length s
    + (if ltb (code c) 0x80
        then 1
        else (if ltb (code c) 0x800 then 2 else (if ltb (code c) 0x10000 then 3 else 4)))

abbrev is_between : ℕ → ℕ → ℕ → Bool
is_between low high c = leb low c && leb c high

-- `[A-Za-z0-9._~-]`
unfoldable pub is_pkce_char : ℕ → Bool
is_pkce_char c =
    is_between 65 90 c
    || (is_between 97 122 c
        || (is_between 48 57 c || (c == 46 || (c == 95 || (c == 126 || c == 45)))))

unfoldable pub all_pkce : String → Bool
all_pkce String.[] = true
all_pkce (String.◌∷◌ c s) = is_pkce_char (code c) && all_pkce s

-- `pkcePattern.MatchString`
unfoldable pub is_pkce_text : String → Bool
is_pkce_text s = not (s == "") && all_pkce s

-- The tests on an open authorization that the three statements share.
unfoldable pub is_undecided : ℕ → ℕ → Bytes → LinkAuthorization → Bool
is_undecided now user h r =
    same_bytes r.request_hash h
    && ((elim r.reviewed_by [ none ↦ true | some by ↦ by == user ])
        && (ltb now r.expires_at
            && (is_none r.approved_at && (is_none r.denied_at && is_none r.redeemed_at))))

-- `where authorization_code_hash = $1`
unfoldable pub has_code : Bytes → LinkAuthorization → Bool
has_code h r = elim r.authorization_code_hash [ none ↦ false | some c ↦ same_bytes c h ]

-- `ApproveLinkAuthorization`
unfoldable pub approve_link_row : ℕ → ℕ → Bytes → Bytes → LinkAuthorization → LinkAuthorization
approve_link_row now user code_hash h r =
    if is_undecided now user h r
    then record r {
      reviewed_by = some user;
      authorization_code_hash = some code_hash;
      approved_by = some user;
      approved_at = some now;
    }
    else r

-- `DenyLinkAuthorization`
unfoldable pub deny_link_row : ℕ → ℕ → Bytes → LinkAuthorization → LinkAuthorization
deny_link_row now user h r =
    if is_undecided now user h r
    then record r { reviewed_by = some user; denied_by = some user; denied_at = some now }
    else r

-- `RedeemLinkAuthorization`
unfoldable pub is_exchangeable : ℕ → Bytes → LinkAuthorization → Bool
is_exchangeable now h r =
    has_code h r
    && (ltb now r.expires_at
        && (not (is_none r.approved_at) && (is_none r.denied_at && is_none r.redeemed_at)))

unfoldable pub redeem_link_row : ℕ → Bytes → LinkAuthorization → LinkAuthorization
redeem_link_row now h r = if is_exchangeable now h r then record r { redeemed_at = some now } else r

module _ (challenge_of : String → String) where
  -- `challengeMatches`
  unfoldable pub challenge_matches : String → String → Bool
  challenge_matches verifier challenge =
      leb 43 (byte_length verifier)
      && (leb (byte_length verifier) 128
          && (is_pkce_text verifier && challenge_of verifier == challenge))

  -- The guard of `Exchange` on the authorization of the code
  unfoldable pub is_proved : ℕ → String → String → LinkAuthorization → Bool
  is_proved clock verifier redirect_uri r =
      is_none r.redeemed_at
      && (is_none r.denied_at
          && (not (is_none r.approved_by)
              && (not (ltb r.expires_at clock)
                  && (r.redirect_uri == redirect_uri
                      && challenge_matches verifier r.code_challenge))))

  -- `Exchange` once the authorization is read and proved
  unfoldable pub exchange_for :
      ℕ → ℕ → ℕ → Minted → Bytes → LinkAuthorization → Browser → Result BrowserError Grant × Browser
  exchange_for now clock id m h r s = elim r.approved_by [
    | none ↦ (err invalid_pkce, s)
    | some user ↦ elim (issue_grant now clock id m user r.scopes s.store) [
      | none ↦ (err not_stored, s)
      | some (grant, granted) ↦
          if length (keep (is_exchangeable now h) s.authorizations) == 1
          then (
            ok grant,
            record {
              authorizations = map (redeem_link_row now h) s.authorizations;
              store = granted;
            },
          )
          else (err invalid_pkce, s)
    ]
  ]

module _ (parse : String → Option Address) where
  -- `validLoopbackRedirect`
  unfoldable pub valid_loopback_redirect : String → Bool
  valid_loopback_redirect raw = leb (byte_length raw) 512 && elim (parse raw) [
    | none ↦ false
    | some a ↦
        a.scheme == "http"
        && (a.opaque == ""
            && (not a.has_user
                && (a.raw_query == ""
                    && (a.fragment == ""
                        && (not (a.path == "")
                            && ((a.hostname == "127.0.0.1" || a.hostname == "::1") && elim a.port [
                              | none ↦ false
                              | some p ↦ ltb 0 p && leb p 65535
                            ]))))))
  ]

  -- `redirectWith`
  unfoldable pub redirect_with : String → String → String → String → Result BrowserError Redirect
  redirect_with raw key value state =
      if valid_loopback_redirect raw
      then ok (record { redirect_uri = raw; key = key; value = value; state = state })
      else err invalid_redirect

  -- `ApproveAuthorization`: the hash of the request code is missing where the text is not one. The
  -- statement fails where the drawn code has been given before.
  unfoldable pub approve_authorization :
      ℕ → ℕ → OpaqueCode → Option Bytes → Browser → Result BrowserError Redirect × Browser
  approve_authorization now user drawn request s = elim request [
    | none ↦ (err authorization_not_found, s)
    | some h ↦ elim (find_first (is_undecided now user h) s.authorizations) [
      | none ↦ (err authorization_not_found, s)
      | some r ↦ if any_of (has_code drawn.hash) s.authorizations then (err not_stored, s) else (
        redirect_with r.redirect_uri "code" drawn.text r.state,
        record s { authorizations = map (approve_link_row now user drawn.hash h) s.authorizations },
      )
    ]
  ]

  -- `DenyAuthorization`
  unfoldable pub deny_authorization :
      ℕ → ℕ → Option Bytes → Browser → Result BrowserError Redirect × Browser
  deny_authorization now user request s = elim request [
    | none ↦ (err authorization_not_found, s)
    | some h ↦ elim (find_first (is_undecided now user h) s.authorizations) [
      | none ↦ (err authorization_not_found, s)
      | some r ↦ (
        redirect_with r.redirect_uri "error" "access_denied" r.state,
        record s { authorizations = map (deny_link_row now user h) s.authorizations },
      )
    ]
  ]

  module _ (challenge_of : String → String) where
    -- `Exchange`, after the rate limit; the hash is missing where the text is not a code
    unfoldable pub exchange :
        ℕ
        → ℕ
        → ℕ
        → Minted
        → Option Bytes
        → String
        → String
        → Browser
        → Result BrowserError Grant × Browser
    exchange now clock id m code verifier redirect_uri s = elim code [
      | none ↦ (err invalid_pkce, s)
      | some h ↦
          if not (valid_loopback_redirect redirect_uri)
          then (err invalid_pkce, s)
          else elim (find_first (has_code h) s.authorizations) [
            | none ↦ (err invalid_pkce, s)
            | some r ↦
                if is_proved challenge_of clock verifier redirect_uri r
                then exchange_for challenge_of now clock id m h r s
                else (err invalid_pkce, s)
          ]
    ]
