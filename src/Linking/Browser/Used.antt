-- ===== src/Linking/Browser/Used.antt =====
-- Authorizations whose code buys nothing, and that they stay so.
use mathlib.Core.Path.{subst}
use lumi_hub.Base.{
  Bool, Bool-cases, List, Option, Option-cases, Result-cases, String, [], all_of, all_of-keep,
  all_of-map, all_of-weaken, any_of, ap, arith, false, find_first, inl, inr, keep, length, map,
  nat_eq, none, not, refl, some, some_eq, string_eq, suc, true, zero, ℕ, ◌+◌, ◌==◌, ◌||◌, ◌∙◌, ◌∷◌,
  ◌≡◌, ◌≤◌, ◌⊎◌,
}
use lumi_hub.Block.Content.{is_none}
use lumi_hub.Linking.Browser.{
  Address, Browser, LinkAuthorization, OpaqueCode, approve_authorization, approve_link_row,
  deny_authorization, deny_link_row, exchange, exchange_for, has_code, is_exchangeable, is_proved,
  is_undecided, redeem_link_row, valid_loopback_redirect,
}
use lumi_hub.Linking.Browser.Start.{
  AuthorizationInput, authorization_lifetime, delete_expired_authorizations, has_request,
  insert_attempts, new_authorization, start_authorization, validate_authorization,
}
use lumi_hub.Linking.Codes.{Bytes, same_bytes}
use lumi_hub.Linking.Credentials.{Minted}
use lumi_hub.Linking.Device.{issue_grant}
use lumi_hub.Linking.Device.Start.{cleanup_batch}

-- The code buys nothing of this authorization: it is another's, or it is redeemed.
abbrev pub is_used : Bytes → LinkAuthorization → Bool
is_used h r = not (has_code h r) || not (is_none r.redeemed_at)

-- The four statements, on one authorization.
approve_link_row-is_used :
    (now user : ℕ) (code_hash request h : Bytes) (r : LinkAuthorization)
    → same_bytes code_hash h ≡ false
    → is_used h r ≡ true
    → is_used h (approve_link_row now user code_hash request r) ≡ true
unfolding approve_link_row has_code
approve_link_row-is_used now user code_hash request h r other used = ground (arith, other, used)

deny_link_row-is_used :
    (now user : ℕ) (request h : Bytes) (r : LinkAuthorization)
    → is_used h r ≡ true
    → is_used h (deny_link_row now user request r) ≡ true
unfolding deny_link_row has_code
deny_link_row-is_used now user request h r used = ground (arith, used)

redeem_link_row-is_used :
    (now : ℕ) (other h : Bytes) (r : LinkAuthorization)
    → is_used h r ≡ true
    → is_used h (redeem_link_row now other r) ≡ true
unfolding redeem_link_row has_code
redeem_link_row-is_used now other h r used = ground (arith, used)

map-is_used :
    (f : LinkAuthorization → LinkAuthorization) (h : Bytes) (rs : List LinkAuthorization)
    → ((r : LinkAuthorization) → is_used h r ≡ true → is_used h (f r) ≡ true)
    → all_of (is_used h) rs ≡ true
    → all_of (is_used h) (map f rs) ≡ true
map-is_used f h rs kept used =
    all_of-map (is_used h) f rs ∙ all_of-weaken (is_used h) (λ r. is_used h (f r)) rs kept used

insert_attempts-is_used :
    (left : ℕ) (codes : ℕ → OpaqueCode) (i : AuthorizationInput) (expires_at : ℕ) (h : Bytes)
    (rs : List LinkAuthorization) {d : OpaqueCode} {stored : List LinkAuthorization}
    → all_of (is_used h) rs ≡ true
    → insert_attempts left codes i expires_at rs ≡ some (d, stored)
    → all_of (is_used h) stored ≡ true
unfolding insert_attempts new_authorization has_code
insert_attempts-is_used zero codes i expires_at h rs used inserted = absurd (cc inserted)
insert_attempts-is_used (suc left) codes i expires_at h rs {d} {stored} used inserted =
    elim (Bool-cases (any_of (has_request (codes left).hash) rs)) [
      | inl clash ↦
          insert_attempts-is_used left codes i expires_at h rs used (rw (clash) at inserted)
      | inr free ↦
          subst (λ (l : List LinkAuthorization). all_of (is_used h) l ≡ true)
            (ap (λ (x : OpaqueCode × List LinkAuthorization). x.1)
              (some_eq (rw (free) at inserted)))
            used
    ]

pub unproved_when :
    (challenge_of : String → String) (clock : ℕ) (verifier redirect_uri : String)
    (r : LinkAuthorization)
    → is_none r.redeemed_at ≡ false
    → is_proved challenge_of clock verifier redirect_uri r ≡ false
unfolding is_proved
unproved_when challenge_of clock verifier redirect_uri r gone = ground (arith, gone)

exchange_for-is_used :
    (challenge_of : String → String) (h : Bytes) (now clock id : ℕ) (m : Minted) (c : Bytes)
    (r : LinkAuthorization) (t : Browser)
    → all_of (is_used h) t.authorizations ≡ true
    → all_of (is_used h) (exchange_for challenge_of now clock id m c r t).1.authorizations ≡ true
unfolding exchange_for
exchange_for-is_used challenge_of h now clock id m c r t used = elim (Option-cases r.approved_by) [
  | inl undecided ↦ rw (undecided, exchange_for) used
  | inr (user, by) ↦ elim (Option-cases (issue_grant now clock id m user r.scopes t.store)) [
    | inl gone ↦ rw (by, gone, exchange_for) used
    | inr ((grant, store), issued) ↦
        elim (Bool-cases (length (keep (is_exchangeable now c) t.authorizations) == 1)) [
          | inr other ↦ rw (by, issued, other, exchange_for) used
          | inl one ↦
              rw (by, issued, one, exchange_for)
                (map-is_used (redeem_link_row now c) h t.authorizations
                  (λ r. redeem_link_row-is_used now c h r) used)
        ]
  ]
]

module _ (parse : String → Option Address) (challenge_of : String → String)
    (decoded : String → Option ℕ) (h : Bytes) where
  pub start_authorization-is_used :
      (now clock : ℕ) (codes : ℕ → OpaqueCode) (i : AuthorizationInput) (t : Browser)
      → all_of (is_used h) t.authorizations ≡ true
      → all_of (is_used h) (start_authorization parse decoded now clock codes i t).1.authorizations
        ≡ true
  unfolding start_authorization delete_expired_authorizations
  start_authorization-is_used now clock codes i t used =
      let remaining = delete_expired_authorizations now cleanup_batch t.authorizations in
      let kept : all_of (is_used h) remaining ≡ true =
        all_of-keep (is_used h) _ t.authorizations used in
      elim (Result-cases (validate_authorization parse decoded i)) [
        | inl (e, refusing) ↦ rw (refusing, start_authorization) used
        | inr (valid, accepted) ↦
            elim (Option-cases
              (insert_attempts 8 codes valid (clock + authorization_lifetime) remaining)) [
                | inl none_left ↦ rw (accepted, none_left, start_authorization) kept
                | inr ((d, stored), inserted) ↦
                    rw (accepted, inserted, start_authorization)
                      (insert_attempts-is_used 8 codes valid (clock + authorization_lifetime) h
                        remaining kept inserted)
              ]
      ]

  pub approve_authorization-is_used :
      (now user : ℕ) (drawn : OpaqueCode) (request : Option Bytes) (t : Browser)
      → same_bytes drawn.hash h ≡ false
      → all_of (is_used h) t.authorizations ≡ true
      → all_of (is_used h) (approve_authorization parse now user drawn request t).1.authorizations
        ≡ true
  unfolding approve_authorization
  approve_authorization-is_used now user drawn none t other used = used
  approve_authorization-is_used now user drawn (some q) t other used =
      let moved =
        map-is_used (approve_link_row now user drawn.hash q) h t.authorizations
          (λ r. approve_link_row-is_used now user drawn.hash q h r other) used in
      elim (Option-cases (find_first (is_undecided now user q) t.authorizations)) [
        | inl missing ↦ rw (missing, approve_authorization) used
        | inr (r, found) ↦ elim (Bool-cases (any_of (has_code drawn.hash) t.authorizations)) [
          | inl taken_before ↦ rw (found, taken_before, approve_authorization) used
          | inr free ↦ rw (found, free, approve_authorization) moved
        ]
      ]

  pub deny_authorization-is_used :
      (now user : ℕ) (request : Option Bytes) (t : Browser)
      → all_of (is_used h) t.authorizations ≡ true
      → all_of (is_used h) (deny_authorization parse now user request t).1.authorizations ≡ true
  unfolding deny_authorization
  deny_authorization-is_used now user none t used = used
  deny_authorization-is_used now user (some q) t used =
      elim (Option-cases (find_first (is_undecided now user q) t.authorizations)) [
        | inl missing ↦ rw (missing, deny_authorization) used
        | inr (r, found) ↦
            rw (found, deny_authorization)
              (map-is_used (deny_link_row now user q) h t.authorizations
                (λ r. deny_link_row-is_used now user q h r) used)
      ]

  pub exchange-is_used :
      (now clock id : ℕ) (m : Minted) (other : Option Bytes) (verifier redirect_uri : String)
      (t : Browser)
      → all_of (is_used h) t.authorizations ≡ true
      → all_of
          (is_used h)
          (exchange parse challenge_of now clock id m other verifier redirect_uri
            t).1.authorizations
        ≡ true
  unfolding exchange
  exchange-is_used now clock id m none verifier redirect_uri t used = used
  exchange-is_used now clock id m (some c) verifier redirect_uri t used =
      elim (Bool-cases (valid_loopback_redirect parse redirect_uri)) [
        | inr outside ↦ rw (outside, exchange) used
        | inl loopback ↦ elim (Option-cases (find_first (has_code c) t.authorizations)) [
          | inl missing ↦ rw (loopback, missing, exchange) used
          | inr (r, found) ↦
              elim (Bool-cases (is_proved challenge_of clock verifier redirect_uri r)) [
                | inr unproved ↦ rw (loopback, found, unproved, exchange) used
                | inl proved ↦
                    rw (loopback, found, proved, exchange)
                      (exchange_for-is_used challenge_of h now clock id m c r t used)
              ]
        ]
      ]

keep-is_exchangeable :
    (now : ℕ) (h : Bytes) (rs : List LinkAuthorization)
    → length (keep (is_exchangeable now h) rs) ≤ length (keep (has_code h) rs)
unfolding is_exchangeable
keep-is_exchangeable now h [] = ground arith
keep-is_exchangeable now h (r ∷ rs) = ground (arith, keep-is_exchangeable now h rs)

is_exchangeable-other :
    (now : ℕ) (h : Bytes) (r : LinkAuthorization)
    → has_code h r ≡ false
    → is_exchangeable now h r ≡ false
unfolding is_exchangeable
is_exchangeable-other now h r other = ground (arith, other)

redeemed-is_used :
    (now : ℕ) (h : Bytes) (r : LinkAuthorization)
    → has_code h r ≡ false ⊎ (is_exchangeable now h r ≡ true)
    → is_used h (redeem_link_row now h r) ≡ true
unfolding redeem_link_row has_code is_exchangeable
redeemed-is_used now h r (inl other) = ground (arith, other)
redeemed-is_used now h r (inr open_one) = ground (arith, open_one)

pub redeem_all :
    (now : ℕ) (h : Bytes) (rs : List LinkAuthorization)
    → length (keep (is_exchangeable now h) rs) ≡ length (keep (has_code h) rs)
    → all_of (is_used h) (map (redeem_link_row now h) rs) ≡ true
redeem_all now h [] same = refl
redeem_all now h (r ∷ rs) same =
    let few = keep-is_exchangeable now h rs in
    elim (Bool-cases (has_code h r)) [
      | inr other ↦
          let closed = is_exchangeable-other now h r other in
          let rest : length (keep (is_exchangeable now h) rs) ≡ length (keep (has_code h) rs) =
            rw (closed, other) at same in
          rw (redeemed-is_used now h r (inl other), redeem_all now h rs rest) refl
      | inl mine ↦ elim (Bool-cases (is_exchangeable now h r)) [
        | inl open_one ↦
            let rest : length (keep (is_exchangeable now h) rs) ≡ length (keep (has_code h) rs) =
              ground (arith, same, open_one, mine) in
            rw (redeemed-is_used now h r (inr open_one), redeem_all now h rs rest) refl
        | inr closed ↦ absurd (ground (arith, same, closed, mine, few))
      ]
    ]
