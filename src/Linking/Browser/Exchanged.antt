-- ===== src/Linking/Browser/Exchanged.antt =====
-- What `Exchange` grants, and to whom.
use lumi_hub.Base.{
  ==→eq, Bool-cases, Option, Option-cases, String, ap, arith, false, find_first, inl, inr, keep,
  leb, length, ltb, map, nat_eq, ok, ok_eq, refl, some, string_eq, sym, true, ℕ, ◌==◌, ◌∙◌, ◌≡◌,
}
use lumi_hub.Block.Content.{is_none}
use lumi_hub.Linking.Browser.{
  Address, Browser, BrowserError, LinkAuthorization, byte_length, challenge_matches, exchange,
  exchange_for, has_code, is_exchangeable, is_proved, redeem_link_row, valid_loopback_redirect,
}
use lumi_hub.Linking.Codes.{Bytes}
use lumi_hub.Linking.Credentials.{Minted}
use lumi_hub.Linking.Device.{Grant, issue_grant}
use lumi_hub.Linking.Device.Once.{issue_grant-eq}

-- How an exchange came to grant: an authorization of the code, opened with the redirect address that
-- the caller names and the challenge of the verifier that the caller shows, approved by the user that
-- the instance is for, neither redeemed nor denied nor past its end; it is redeemed.
pub record IsExchanged (challenge_of : String → String) (now clock : ℕ) (h : Bytes)
    (verifier redirect_uri : String) (g : Grant) (s t : Browser) : Type 0 where
  pub authorization : LinkAuthorization
  pub first : find_first (has_code h) s.authorizations ≡ some authorization
  pub shown : challenge_of verifier ≡ authorization.code_challenge
  pub long_enough : leb 43 (byte_length verifier) ≡ true
  pub returned_to : authorization.redirect_uri ≡ redirect_uri
  pub by_user : authorization.approved_by ≡ some g.user_id
  pub asked_for : g.scopes ≡ authorization.scopes
  pub fresh : is_none authorization.redeemed_at ≡ true
  pub not_denied : is_none authorization.denied_at ≡ true
  pub live : ltb authorization.expires_at clock ≡ false
  pub exchanged_one : length (keep (is_exchangeable now h) s.authorizations) ≡ 1
  pub left : t.authorizations ≡ map (redeem_link_row now h) s.authorizations

is_proved-parts :
    (challenge_of : String → String) (clock : ℕ) (verifier redirect_uri : String)
    (r : LinkAuthorization)
    → is_proved challenge_of clock verifier redirect_uri r ≡ true
    → (is_none r.redeemed_at ≡ true)
      × (is_none r.denied_at ≡ true)
      × (ltb r.expires_at clock ≡ false)
      × (r.redirect_uri ≡ redirect_uri)
      × (challenge_of verifier ≡ r.code_challenge)
      × (leb 43 (byte_length verifier) ≡ true)
unfolding is_proved challenge_matches
is_proved-parts challenge_of clock verifier redirect_uri r h = (
  ground (arith, h),
  ground (arith, h),
  ground (arith, h),
  ==→eq r.redirect_uri redirect_uri (ground (arith, h)),
  ==→eq (challenge_of verifier) r.code_challenge (ground (arith, h)),
  ground (arith, h),
)

module _ (challenge_of : String → String) where
  exchange_for-IsExchanged :
      (now clock id : ℕ) (m : Minted) (h : Bytes) (verifier redirect_uri : String)
      (r : LinkAuthorization) (s : Browser) {g : Grant}
      → find_first (has_code h) s.authorizations ≡ some r
      → is_proved challenge_of clock verifier redirect_uri r ≡ true
      → (exchange_for challenge_of now clock id m h r s).0 ≡ ok g
      → IsExchanged challenge_of now clock h verifier redirect_uri g s
          (exchange_for challenge_of now clock id m h r s).1
  unfolding exchange_for
  exchange_for-IsExchanged now clock id m h verifier redirect_uri r s {g} found proved granted =
      elim (Option-cases r.approved_by) [
        | inl undecided ↦ absurd (ground (arith, undecided, granted))
        | inr (user, by) ↦ elim (Option-cases (issue_grant now clock id m user r.scopes s.store)) [
          | inl gone ↦ absurd (ground (arith, by, gone, granted))
          | inr ((issued_grant, store), issued) ↦
              elim (Bool-cases (length (keep (is_exchangeable now h) s.authorizations) == 1)) [
                | inr other ↦ absurd (ground (arith, by, issued, other, granted))
                | inl one ↦
                    let same : issued_grant ≡ g =
                      ok_eq {E = BrowserError} (rw (by, issued, one, exchange_for) at granted) in
                    let (for, requested) =
                      issue_grant-eq now clock id m user r.scopes s.store issued in
                    let (fresh, allowed, live, returned, shown, long) =
                      is_proved-parts challenge_of clock verifier redirect_uri r proved in
                    rw (by, issued, one, exchange_for)
                      (record {
                        authorization = r;
                        first = found;
                        shown = shown;
                        long_enough = long;
                        returned_to = returned;
                        by_user = by ∙ ap some (sym for ∙ ap (λ (x : Grant). x.user_id) same);
                        asked_for = ap (λ (x : Grant). x.scopes) (sym same) ∙ requested;
                        fresh = fresh;
                        not_denied = allowed;
                        live = live;
                        exchanged_one = ==→eq _ 1 one;
                        left = refl;
                      })
              ]
        ]
      ]

-- An exchange that grants found an authorization of the code, neither redeemed nor denied nor past
-- its end by the process's clock, that the user of the grant approved and that asks for the scopes
-- of the grant. The caller named the redirect address that it was opened with, and showed a verifier
-- of 43 bytes at least whose digest is the challenge that it was opened with. Exactly one
-- authorization can be redeemed, and it is.
pub exchange-IsExchanged :
    (parse : String → Option Address) (challenge_of : String → String) (now clock id : ℕ)
    (m : Minted) (h : Bytes) (verifier redirect_uri : String) (s : Browser) {g : Grant}
    → (exchange parse challenge_of now clock id m (some h) verifier redirect_uri s).0 ≡ ok g
    → IsExchanged challenge_of now clock h verifier redirect_uri g s
        (exchange parse challenge_of now clock id m (some h) verifier redirect_uri s).1
unfolding exchange
exchange-IsExchanged parse challenge_of now clock id m h verifier redirect_uri s {g} granted =
    elim (Bool-cases (valid_loopback_redirect parse redirect_uri)) [
      | inr outside ↦ absurd (ground (arith, outside, granted))
      | inl loopback ↦ elim (Option-cases (find_first (has_code h) s.authorizations)) [
        | inl missing ↦ absurd (ground (arith, loopback, missing, granted))
        | inr (r, found) ↦
            elim (Bool-cases (is_proved challenge_of clock verifier redirect_uri r)) [
              | inr unproved ↦ absurd (ground (arith, loopback, found, unproved, granted))
              | inl proved ↦
                  rw (loopback, found, proved, exchange)
                    (exchange_for-IsExchanged challenge_of now clock id m h verifier redirect_uri r
                      s found proved (rw (loopback, found, proved, exchange) at granted))
            ]
      ]
    ]
