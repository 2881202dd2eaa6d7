-- ===== src/Linking/Device/Moves.antt =====
-- What the operations of the device link do to the requests: a property of all requests that the
-- four statements keep is kept by each operation.
use lumi_hub.Base.{
  Bool, Bool-cases, List, Option, Option-cases, any_of, find_first, inl, inr, keep, length, ltb,
  map, nat_eq, none, some, string_eq, true, ℕ, ◌==◌,
}
use lumi_hub.Block.Content.{is_none}
use lumi_hub.Linking.Codes.{Bytes}
use lumi_hub.Linking.Credentials.{Minted}
use lumi_hub.Linking.Device.{
  LinkRequest, Links, answer_poll, approve, approve_row, deny, deny_row, has_device, is_pollable,
  is_redeemable, is_reviewable, is_too_soon, issue_grant, poll, poll_row, redeem, redeem_row,
}

module _ (P : List LinkRequest → Type 0)
    (approves : (now user : ℕ) (token code : Bytes) (rs : List LinkRequest)
      → P rs
      → P (map (approve_row now user token code) rs))
    (denies : (now user : ℕ) (token code : Bytes) (rs : List LinkRequest)
      → P rs
      → P (map (deny_row now user token code) rs))
    (polls : (now : ℕ) (slow_down : Bool) (h : Bytes) (rs : List LinkRequest)
      → P rs
      → P (map (poll_row now slow_down h) rs))
    (redeems : (now : ℕ) (h : Bytes) (rs : List LinkRequest)
      → P rs
      → P (map (redeem_row now h) rs)) where
  pub approve-keeps :
      (now user : ℕ) (code token : Option Bytes) (s : Links)
      → P s.requests
      → P (approve now user code token s).1.requests
  unfolding approve
  approve-keeps now user none token s p = p
  approve-keeps now user (some c) none s p = p
  approve-keeps now user (some c) (some t) s p =
      elim (Option-cases (find_first (is_reviewable now user c) s.requests)) [
        | inl missing ↦ rw (missing, approve) p
        | inr (r, found) ↦ rw (found, approve) (approves now user t c s.requests p)
      ]

  pub deny-keeps :
      (now user : ℕ) (code token : Option Bytes) (s : Links)
      → P s.requests
      → P (deny now user code token s).1.requests
  unfolding deny
  deny-keeps now user none token s p = p
  deny-keeps now user (some c) none s p = p
  deny-keeps now user (some c) (some t) s p =
      elim (Bool-cases (any_of (is_reviewable now user c) s.requests)) [
        | inl some_one ↦ rw (some_one, deny) (denies now user t c s.requests p)
        | inr no_one ↦ rw (no_one, deny) p
      ]

  redeem-keeps :
      (now clock id : ℕ) (m : Minted) (h : Bytes) (user : ℕ) (r : LinkRequest) (before s : Links)
      → P before.requests
      → P s.requests
      → P (redeem now clock id m h user r before s).1.requests
  unfolding redeem
  redeem-keeps now clock id m h user r before s p q =
      elim (Option-cases (issue_grant now clock id m user r.scopes s.store)) [
        | inl stuck ↦ rw (stuck, redeem) p
        | inr (g, granted) ↦
            elim (Bool-cases (length (keep (is_redeemable now h) s.requests) == 1)) [
              | inl one ↦ rw (granted, one, redeem) (redeems now h s.requests q)
              | inr other ↦ rw (granted, other, redeem) p
            ]
      ]

  answer_poll-keeps :
      (now clock id : ℕ) (m : Minted) (h : Bytes) (r : LinkRequest) (s : Links)
      → P s.requests
      → P (answer_poll now clock id m h r s).1.requests
  unfolding answer_poll
  answer_poll-keeps now clock id m h r s p =
      elim (Bool-cases (any_of (is_pollable now h) s.requests)) [
        | inr no_one ↦ rw (no_one, answer_poll) p
        | inl some_one ↦ elim (Bool-cases (is_too_soon clock r)) [
          | inl soon ↦ rw (some_one, soon, answer_poll) (polls now true h s.requests p)
          | inr later ↦ elim (Option-cases r.approved_by) [
            | inl undecided ↦
                rw (some_one, later, undecided, answer_poll)
                  (polls now (is_too_soon clock r) h s.requests p)
            | inr (user, by) ↦
                rw (some_one, later, by, answer_poll)
                  (redeem-keeps now clock id m h user r s
                    (record s { requests = map (poll_row now (is_too_soon clock r) h) s.requests })
                    p (polls now (is_too_soon clock r) h s.requests p))
          ]
        ]
      ]

  pub poll-keeps :
      (now clock id : ℕ) (m : Minted) (device_code : Option Bytes) (s : Links)
      → P s.requests
      → P (poll now clock id m device_code s).1.requests
  unfolding poll
  poll-keeps now clock id m none s p = p
  poll-keeps now clock id m (some h) s p =
      elim (Option-cases (find_first (has_device h) s.requests)) [
        | inl missing ↦ rw (missing, poll) p
        | inr (r, found) ↦ elim (Bool-cases (is_none r.redeemed_at)) [
          | inr redeemed ↦ rw (found, redeemed, poll) p
          | inl fresh ↦ elim (Bool-cases (ltb r.expires_at clock)) [
            | inl expired ↦ rw (found, fresh, expired, poll) p
            | inr live ↦ elim (Bool-cases (is_none r.denied_at)) [
              | inr denied ↦ rw (found, fresh, live, denied, poll) p
              | inl allowed ↦
                  rw (found, fresh, live, allowed, poll) (answer_poll-keeps now clock id m h r s p)
            ]
          ]
        ]
      ]
