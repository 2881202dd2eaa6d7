-- ===== src/Linking/Device/Redeemed.antt =====
-- A device code buys one grant: what a redeemed request answers afterwards.
use lumi_hub.Base.{
  Bool, Bool-cases, List, [], any_of, ap, arith, false, find_first, inl, inr, keep, length, map,
  none, not, refl, some, sym, true, ℕ, ◌&&◌, ◌∙◌, ◌∷◌, ◌≡◌,
}
use lumi_hub.Block.Content.{is_none}
use lumi_hub.Linking.Codes.{Bytes, same_bytes}
use lumi_hub.Linking.Codes.Texts.{same_bytes_sound}
use lumi_hub.Linking.Device.{
  LinkRequest, approve_row, deny_row, has_device, is_redeemable, poll_row, redeem_row,
}

-- The first request of the device code is redeemed.
abbrev pub is_spent : Bytes → List LinkRequest → Bool
is_spent h rs = elim (find_first (has_device h) rs) [
  | none ↦ false
  | some r ↦ not (is_none r.redeemed_at)
]

-- `link_requests_pkey`: no two requests have a device code in common.
abbrev pub is_keyed : List LinkRequest → Bool
is_keyed [] = true
is_keyed (r ∷ rs) = not (any_of (has_device r.device_code_hash) rs) && is_keyed rs

-- A statement that leaves the device codes alone and redeems nothing that it does not keep redeemed.
pub record Keeps (f : LinkRequest → LinkRequest) : Type 0 where
  pub code_kept : (r : LinkRequest) → (f r).device_code_hash ≡ r.device_code_hash
  pub redeemed_kept :
      (r : LinkRequest) → is_none r.redeemed_at ≡ false → is_none (f r).redeemed_at ≡ false

pub approve_row-Keeps :
    (now user : ℕ) (token code : Bytes) → Keeps (approve_row now user token code)
unfolding approve_row
approve_row-Keeps now user token code = record {
  code_kept = λ r. ground arith;
  redeemed_kept = λ r h. ground (arith, h);
}

pub deny_row-Keeps : (now user : ℕ) (token code : Bytes) → Keeps (deny_row now user token code)
unfolding deny_row
deny_row-Keeps now user token code = record {
  code_kept = λ r. ground arith;
  redeemed_kept = λ r h. ground (arith, h);
}

pub poll_row-Keeps : (now : ℕ) (slow_down : Bool) (h : Bytes) → Keeps (poll_row now slow_down h)
unfolding poll_row
poll_row-Keeps now slow_down code = record {
  code_kept = λ r. ground arith;
  redeemed_kept = λ r h. ground (arith, h);
}

pub redeem_row-Keeps : (now : ℕ) (h : Bytes) → Keeps (redeem_row now h)
unfolding redeem_row
redeem_row-Keeps now code = record {
  code_kept = λ r. ground arith;
  redeemed_kept = λ r h. ground (arith, h);
}

module _ {f : LinkRequest → LinkRequest} (k : Keeps f) where
  pub has_device-Keeps : (h : Bytes) (r : LinkRequest) → has_device h (f r) ≡ has_device h r
  unfolding has_device
  has_device-Keeps h r = ap (λ c. same_bytes c h) (k.code_kept r)

  pub any_of-Keeps :
      (h : Bytes) (rs : List LinkRequest)
      → any_of (has_device h) (map f rs) ≡ any_of (has_device h) rs
  any_of-Keeps h [] = refl
  any_of-Keeps h (r ∷ rs) = ground (arith, has_device-Keeps h r, any_of-Keeps h rs)

  pub is_spent-Keeps :
      (h : Bytes) (rs : List LinkRequest) → is_spent h rs ≡ true → is_spent h (map f rs) ≡ true
  is_spent-Keeps h [] spent = spent
  is_spent-Keeps h (r ∷ rs) spent = elim (Bool-cases (has_device h r)) [
    | inl here ↦
        let gone : is_none r.redeemed_at ≡ false = ground (arith, here, spent) in
        ground (arith, here, has_device-Keeps h r, k.redeemed_kept r gone)
    | inr elsewhere ↦ ground (
      arith,
      elsewhere,
      has_device-Keeps h r,
      is_spent-Keeps h rs (ground (arith, elsewhere, spent)),
    )
  ]

  pub is_keyed-Keeps : (rs : List LinkRequest) → is_keyed rs ≡ true → is_keyed (map f rs) ≡ true
  is_keyed-Keeps [] keyed = refl
  is_keyed-Keeps (r ∷ rs) keyed =
      let moved : any_of (has_device (f r).device_code_hash) (map f rs)
          ≡ any_of (has_device r.device_code_hash) rs =
        any_of-Keeps (f r).device_code_hash rs
        ∙ ap (λ c. any_of (has_device c) rs) (k.code_kept r) in
      ground (arith, keyed, moved, is_keyed-Keeps rs (ground (arith, keyed)))

pub has_device-redeemable :
    (now : ℕ) (h : Bytes) (rs : List LinkRequest)
    → any_of (has_device h) rs ≡ false
    → length (keep (is_redeemable now h) rs) ≡ 0
unfolding is_redeemable
has_device-redeemable now h [] none_there = refl
has_device-redeemable now h (r ∷ rs) none_there =
    ground (arith, none_there, has_device-redeemable now h rs)

device_code_of : (h : Bytes) (r : LinkRequest) → has_device h r ≡ true → r.device_code_hash ≡ h
unfolding has_device
device_code_of h r here = same_bytes_sound r.device_code_hash h here

pub is_spent-redeem_row :
    (now : ℕ) (h : Bytes) (rs : List LinkRequest)
    → is_keyed rs ≡ true
    → length (keep (is_redeemable now h) rs) ≡ 1
    → is_spent h (map (redeem_row now h) rs) ≡ true
unfolding is_redeemable redeem_row
is_spent-redeem_row now h [] keyed one = absurd (ground (arith, one))
is_spent-redeem_row now h (r ∷ rs) keyed one = elim (Bool-cases (has_device h r)) [
  | inl here ↦
      let same : r.device_code_hash ≡ h = device_code_of h r here in
      let alone : any_of (has_device h) rs ≡ false =
        ap (λ c. any_of (has_device c) rs) (sym same) ∙ ground (arith, keyed) in
      ground (
        arith,
        here,
        one,
        has_device-redeemable now h rs alone,
        has_device-Keeps (redeem_row-Keeps now h) h r,
      )
  | inr elsewhere ↦ ground (
    arith,
    elsewhere,
    has_device-Keeps (redeem_row-Keeps now h) h r,
    is_spent-redeem_row now h rs (ground (arith, keyed)) (ground (arith, elsewhere, one)),
  )
]
