-- ===== src/Linking/Device/Once.antt =====
-- What `Poll` grants, and that it grants a device code once.
use lumi_hub.Base.{
  ==→eq, Bool, Bool-cases, List, Option, Option-cases, String, any_of, ap, arith, err, false,
  find_first, inl, inr, keep, length, ltb, map, nat_eq, ok, ok_eq, refl, some, some_eq, string_eq,
  sym, true, ℕ, ◌+◌, ◌==◌, ◌∙◌, ◌≡◌,
}
use lumi_hub.Block.Content.{is_none}
use lumi_hub.Linking.Codes.{Bytes}
use lumi_hub.Linking.Credentials.{Minted, Store, access_token_lifetime, insert_access}
use lumi_hub.Linking.Device.{
  Grant, LinkRequest, Links, RequestError, answer_poll, approve, approve_row, deny, deny_row,
  has_device, insert_instance, is_pollable, is_redeemable, is_too_soon, issue_grant,
  link_request_not_found, poll, poll_row, redeem, redeem_row,
}
use lumi_hub.Linking.Device.Moves.{approve-keeps, deny-keeps, poll-keeps}
use lumi_hub.Linking.Device.Redeemed.{
  approve_row-Keeps, deny_row-Keeps, is_keyed, is_keyed-Keeps, is_spent, is_spent-Keeps,
  is_spent-redeem_row, poll_row-Keeps, redeem_row-Keeps,
}

-- How a poll came to grant: an open request with the code, approved by the user that the instance
-- is for, polled no sooner than allowed, with the scopes of the grant; it is redeemed.
pub record IsGranted (now clock : ℕ) (h : Bytes) (g : Grant) (s t : Links) : Type 0 where
  pub request : LinkRequest
  pub first : find_first (has_device h) s.requests ≡ some request
  pub fresh : is_none request.redeemed_at ≡ true
  pub live : ltb request.expires_at clock ≡ false
  pub not_denied : is_none request.denied_at ≡ true
  pub not_soon : is_too_soon clock request ≡ false
  pub by_user : request.approved_by ≡ some g.user_id
  pub asked_for : g.scopes ≡ request.scopes
  pub redeemed_one :
      length
        (keep (is_redeemable now h) (map (poll_row now (is_too_soon clock request) h) s.requests))
      ≡ 1
  pub left :
      t.requests
      ≡ map (redeem_row now h) (map (poll_row now (is_too_soon clock request) h) s.requests)

pub issue_grant-eq :
    (now clock id : ℕ) (m : Minted) (user : ℕ) (scopes : List String) (s : Store) {g : Grant}
    {t : Store}
    → issue_grant now clock id m user scopes s ≡ some (g, t)
    → (g.user_id ≡ user) × (g.scopes ≡ scopes)
unfolding issue_grant
issue_grant-eq now clock id m user scopes s {g} {t} issued =
    elim (Option-cases (
      insert_access id m.access_hash (clock + access_token_lifetime)
        (insert_instance now id user m.refresh_hash scopes s))) [
          | inl gone ↦ absurd (ground (arith, issued, gone))
          | inr (u, stored) ↦ (ground (arith, issued, stored), ground (arith, issued, stored))
        ]

redeem-IsGranted :
    (now clock id : ℕ) (m : Minted) (h : Bytes) (user : ℕ) (r : LinkRequest) (s : Links) {g : Grant}
    → find_first (has_device h) s.requests ≡ some r
    → is_none r.redeemed_at ≡ true
    → ltb r.expires_at clock ≡ false
    → is_none r.denied_at ≡ true
    → is_too_soon clock r ≡ false
    → r.approved_by ≡ some user
    → (redeem now clock id m h user r s
        (record s { requests = map (poll_row now (is_too_soon clock r) h) s.requests })).0
      ≡ ok (some g)
    → IsGranted now clock h g s
        (redeem now clock id m h user r s
          (record s { requests = map (poll_row now (is_too_soon clock r) h) s.requests })).1
unfolding redeem
redeem-IsGranted now clock id m h user r s {g} found fresh live allowed later by granted =
    elim (Option-cases (issue_grant now clock id m user r.scopes s.store)) [
      | inl gone ↦ absurd (ground (arith, gone, granted))
      | inr ((g_issued, store), issued) ↦
          elim (Bool-cases (
            length
              (keep (is_redeemable now h) (map (poll_row now (is_too_soon clock r) h) s.requests))
            == 1)) [
              | inr other ↦ absurd (ground (arith, issued, other, granted))
              | inl one ↦
                  let same : g_issued ≡ g =
                    some_eq (ok_eq {E = RequestError} (rw (issued, one, redeem) at granted)) in
                  let (for, asked) = issue_grant-eq now clock id m user r.scopes s.store issued in
                  rw (issued, one, redeem)
                    (record {
                      request = r;
                      first = found;
                      fresh = fresh;
                      live = live;
                      not_denied = allowed;
                      not_soon = later;
                      by_user = by ∙ ap some (sym for ∙ ap (λ (x : Grant). x.user_id) same);
                      asked_for = ap (λ (x : Grant). x.scopes) (sym same) ∙ asked;
                      redeemed_one = ==→eq _ 1 one;
                      left = refl;
                    })
            ]
    ]

pub poll-IsGranted :
    (now clock id : ℕ) (m : Minted) (h : Bytes) (s : Links) {g : Grant}
    → (poll now clock id m (some h) s).0 ≡ ok (some g)
    → IsGranted now clock h g s (poll now clock id m (some h) s).1
unfolding poll answer_poll
poll-IsGranted now clock id m h s {g} granted =
    elim (Option-cases (find_first (has_device h) s.requests)) [
      | inl missing ↦ absurd (ground (arith, missing, granted))
      | inr (r, found) ↦ elim (Bool-cases (is_none r.redeemed_at)) [
        | inr spent ↦ absurd (ground (arith, found, spent, granted))
        | inl fresh ↦ elim (Bool-cases (ltb r.expires_at clock)) [
          | inl expired ↦ absurd (ground (arith, found, fresh, expired, granted))
          | inr live ↦ elim (Bool-cases (is_none r.denied_at)) [
            | inr denied ↦ absurd (ground (arith, found, fresh, live, denied, granted))
            | inl allowed ↦
                rw (found, fresh, live, allowed, poll)
                  (answered r found fresh live allowed
                    (rw (found, fresh, live, allowed, poll) at granted))
          ]
        ]
      ]
    ]
  where
    answered :
        (r : LinkRequest)
        → find_first (has_device h) s.requests ≡ some r
        → is_none r.redeemed_at ≡ true
        → ltb r.expires_at clock ≡ false
        → is_none r.denied_at ≡ true
        → (answer_poll now clock id m h r s).0 ≡ ok (some g)
        → IsGranted now clock h g s (answer_poll now clock id m h r s).1
    answered r found fresh live allowed accepted =
        elim (Bool-cases (any_of (is_pollable now h) s.requests)) [
          | inr no_one ↦ absurd (ground (arith, no_one, accepted))
          | inl some_one ↦ elim (Bool-cases (is_too_soon clock r)) [
            | inl soon ↦ absurd (ground (arith, some_one, soon, accepted))
            | inr later ↦ elim (Option-cases r.approved_by) [
              | inl undecided ↦ absurd (ground (arith, some_one, later, undecided, accepted))
              | inr (user, by) ↦
                  rw (some_one, later, by, answer_poll)
                    (redeem-IsGranted now clock id m h user r s found fresh live allowed later by
                      (rw (some_one, later, by, answer_poll) at accepted))
            ]
          ]
        ]

-- What the device link may go through: approvals, denials and polls, in any order and at any time.
pub data IsAfter (s : Links) : Links → Type 0 where
  unchanged : IsAfter s s
  approved :
      (now user : ℕ) (code token : Option Bytes) (t : Links)
      → IsAfter s t
      → IsAfter s (approve now user code token t).1
  rejected :
      (now user : ℕ) (code token : Option Bytes) (t : Links)
      → IsAfter s t
      → IsAfter s (deny now user code token t).1
  asked :
      (now clock id : ℕ) (m : Minted) (device_code : Option Bytes) (t : Links)
      → IsAfter s t
      → IsAfter s (poll now clock id m device_code t).1

module _ (P : List LinkRequest → Type 0)
    (approves : (now user : ℕ) (token code : Bytes) (rs : List LinkRequest)
      → P rs
      → P (map (approve_row now user token code) rs))
    (denies : (now user : ℕ) (token code : Bytes) (rs : List LinkRequest)
      → P rs
      → P (map (deny_row now user token code) rs))
    (polls : (now : ℕ) (slow_down : Bool) (h : Bytes) (rs : List LinkRequest)
      → P rs
      → P (map (poll_row now slow_down h) rs))
    (redeems : (now : ℕ) (h : Bytes) (rs : List LinkRequest)
      → P rs
      → P (map (redeem_row now h) rs)) where
  pub IsAfter-keeps : {s t : Links} → IsAfter s t → P s.requests → P t.requests
  IsAfter-keeps unchanged p = p
  IsAfter-keeps (approved now user code token t before) p =
      approve-keeps P approves denies polls redeems now user code token t (IsAfter-keeps before p)
  IsAfter-keeps (rejected now user code token t before) p =
      deny-keeps P approves denies polls redeems now user code token t (IsAfter-keeps before p)
  IsAfter-keeps (asked now clock id m device_code t before) p =
      poll-keeps P approves denies polls redeems now clock id m device_code t
        (IsAfter-keeps before p)

poll-is_spent :
    (now clock id : ℕ) (m : Minted) (h : Bytes) (s : Links)
    → is_spent h s.requests ≡ true
    → (poll now clock id m (some h) s).0 ≡ err link_request_not_found
unfolding poll
poll-is_spent now clock id m h s spent =
    elim (Option-cases (find_first (has_device h) s.requests)) [
      | inl missing ↦ ground (arith, missing, spent)
      | inr (r, found) ↦ ground (arith, found, spent)
    ]

-- Where no two requests share a device code, a code for which `Poll` has granted is granted no more:
-- whatever is approved, denied and polled in between, each later poll with it finds no request.
pub poll_once :
    (now clock id : ℕ) (m : Minted) (h : Bytes) (s : Links) {g : Grant} {t : Links}
    → is_keyed s.requests ≡ true
    → (poll now clock id m (some h) s).0 ≡ ok (some g)
    → IsAfter (poll now clock id m (some h) s).1 t
    → (later clock_then id_then : ℕ) (m_then : Minted)
    → (poll later clock_then id_then m_then (some h) t).0 ≡ err link_request_not_found
poll_once now clock id m h s {g} {t} keyed granted after later clock_then id_then m_then =
    poll-is_spent later clock_then id_then m_then h t (
      IsAfter-keeps (λ rs. is_spent h rs ≡ true)
        (λ n u k c. is_spent-Keeps (approve_row-Keeps n u k c) h)
        (λ n u k c. is_spent-Keeps (deny_row-Keeps n u k c) h)
        (λ n b c. is_spent-Keeps (poll_row-Keeps n b c) h)
        (λ n c. is_spent-Keeps (redeem_row-Keeps n c) h) after (rw (how.left) spent))
  where
    how : IsGranted now clock h g s (poll now clock id m (some h) s).1
    how = poll-IsGranted now clock id m h s granted

    polled : List LinkRequest
    polled = map (poll_row now (is_too_soon clock how.request) h) s.requests

    spent : is_spent h (map (redeem_row now h) polled) ≡ true
    spent =
        is_spent-redeem_row now h polled
          (is_keyed-Keeps (poll_row-Keeps now (is_too_soon clock how.request) h) s.requests keyed)
          how.redeemed_one
