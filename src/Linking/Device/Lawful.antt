-- ===== src/Linking/Device/Lawful.antt =====
-- api/migrations/00031_secure_linked_instances.sql: the check constraints of `link_requests` on
-- reviews and decisions, which the operations of the device link never break.
use lumi_hub.Base.{
  ==-refl, Bool, List, Option, [], all_of, and_true, arith, false, map, nat_eq, none, not, refl,
  some, string_eq, true, ℕ, ◌&&◌, ◌==◌, ◌||◌, ◌∷◌, ◌≡◌,
}
use lumi_hub.Block.Content.{is_none}
use lumi_hub.Linking.Codes.{Bytes}
use lumi_hub.Linking.Device.{
  LinkRequest, Links, approve_row, deny_row, is_redeemable, is_reviewable, poll_row, redeem_row,
}
use lumi_hub.Linking.Device.Once.{IsAfter, IsAfter-keeps}

abbrev pub is_paired : {A : Type 0} → Option ℕ → Option A → Bool
is_paired a b = (is_none a && is_none b) || (not (is_none a) && not (is_none b))

abbrev pub is_by : Option ℕ → Option ℕ → Bool
is_by none reviewer = true
is_by (some user) none = false
is_by (some user) (some reviewer) = user == reviewer

-- `link_requests_review_check`, `_approval_check`, `_denial_check`, `_reviewer_decision_check` and
-- `_redemption_check`
abbrev pub is_lawful : LinkRequest → Bool
is_lawful r =
    is_paired r.reviewed_by r.review_token_hash
    && (is_paired r.approved_by r.approved_at
        && (is_paired r.denied_by r.denied_at
            && (is_by r.approved_by r.reviewed_by
                && (is_by r.denied_by r.reviewed_by
                    && (not (not (is_none r.approved_at) && not (is_none r.denied_at))
                        && (is_none r.redeemed_at
                            || (not (is_none r.approved_at) && is_none r.denied_at)))))))

approve_row_lawful :
    (now user : ℕ) (token code : Bytes) (r : LinkRequest)
    → is_lawful r ≡ true
    → is_lawful (approve_row now user token code r) ≡ true
unfolding approve_row is_reviewable
approve_row_lawful now user token code r h = ground (arith, h, ==-refl user)

deny_row_lawful :
    (now user : ℕ) (token code : Bytes) (r : LinkRequest)
    → is_lawful r ≡ true
    → is_lawful (deny_row now user token code r) ≡ true
unfolding deny_row is_reviewable
deny_row_lawful now user token code r h = ground (arith, h, ==-refl user)

poll_row_lawful :
    (now : ℕ) (slow_down : Bool) (code : Bytes) (r : LinkRequest)
    → is_lawful r ≡ true
    → is_lawful (poll_row now slow_down code r) ≡ true
unfolding poll_row
poll_row_lawful now slow_down code r h = ground (arith, h)

redeem_row_lawful :
    (now : ℕ) (code : Bytes) (r : LinkRequest)
    → is_lawful r ≡ true
    → is_lawful (redeem_row now code r) ≡ true
unfolding redeem_row is_redeemable
redeem_row_lawful now code r h = ground (arith, h)

lawful_all :
    (f : LinkRequest → LinkRequest)
    → ((r : LinkRequest) → is_lawful r ≡ true → is_lawful (f r) ≡ true)
    → (rs : List LinkRequest) → all_of is_lawful rs ≡ true
    → all_of is_lawful (map f rs) ≡ true
lawful_all f keeps [] h = refl
lawful_all f keeps (r ∷ rs) h =
    let (first, rest) = and_true (is_lawful r) (all_of is_lawful rs) h in
    rw (keeps r first) (lawful_all f keeps rs rest)

-- Approvals, denials and polls, in any order and at any time, break no check constraint on reviews
-- and decisions of requests that satisfy them: no request is ever both approved and denied, and only
-- an approved one is redeemed.
pub IsAfter-lawful :
    {s t : Links}
    → IsAfter s t
    → all_of is_lawful s.requests ≡ true
    → all_of is_lawful t.requests ≡ true
IsAfter-lawful after h =
    IsAfter-keeps (λ rs. all_of is_lawful rs ≡ true)
      (λ n u k c. lawful_all (approve_row n u k c) (approve_row_lawful n u k c))
      (λ n u k c. lawful_all (deny_row n u k c) (deny_row_lawful n u k c))
      (λ n b c. lawful_all (poll_row n b c) (poll_row_lawful n b c))
      (λ n c. lawful_all (redeem_row n c) (redeem_row_lawful n c)) after h
