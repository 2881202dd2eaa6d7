-- ===== src/Linking/Rate/Bounds.antt =====
-- How many attempts the rate limit lets through.
use mathlib.Core.Path.{subst₂}
use lumi_hub.Base.{
  ==-refl, ==→eq, Bool, Bool-cases, List, Option, Result, String, [], all_of, and_true, ap, arith,
  err, false, find_first, if◌then◌else◌, inl, inr, leb, ltb, nat_eq, none, ok, refl, some,
  string_eq, sym, true, ℕ, ◌&&◌, ◌+◌, ◌-◌, ◌==◌, ◌∙◌, ◌∷◌, ◌≡◌, ◌≤◌,
}
use lumi_hub.Linking.Codes.{Bytes, same_bytes}
use lumi_hub.Linking.Codes.Texts.{same_bytes_refl, same_bytes_sound}
use lumi_hub.Linking.Rate.{
  Rate, RateError, count_attempt, is_rate_of, take_link_rate_limit, take_rate,
}

-- One call of `takeRate`, by whoever makes it.
pub record Attempt : Type 0 where
  pub key : Bytes
  pub action : String
  pub now : ℕ
  pub clock : ℕ

abbrev pub is_of_source : Bytes → String → Attempt → Bool
is_of_source key action a = same_bytes a.key key && a.action == action

abbrev is_granted : Result RateError (Unit {0}) → Bool
is_granted (ok x) = true
is_granted (err e) = false

-- How many of the attempts of one source at one action are let through, among those of all.
unfoldable pub granted_of : ℕ → ℕ → Bytes → String → List Attempt → List Rate → ℕ
granted_of limit window key action [] rates = 0
granted_of limit window key action (a ∷ later) rates =
    let (outcome, counted) = take_rate a.now a.clock limit window a.key a.action rates in
    let rest = granted_of limit window key action later counted in
    if is_of_source key action a && is_granted outcome then rest + 1 else rest

rate_of : Bytes → String → List Rate → Option Rate
rate_of key action rates = find_first (is_rate_of key action) rates

-- The row of a source after an attempt of another.
is_rate_of_moved :
    (key other : Bytes) (action act : String) (r : Rate)
    → (same_bytes other key && act == action) ≡ false
    → is_rate_of other act r ≡ true
    → is_rate_of key action r ≡ false
unfolding is_rate_of
is_rate_of_moved key other action act r apart mine =
    let (bytes, text) = and_true (same_bytes r.key_hash other) (r.action == act) mine in
    ap (λ b. same_bytes b key && r.action == action) (same_bytes_sound r.key_hash other bytes)
    ∙ ap (λ t. same_bytes other key && t == action) (==→eq r.action act text)
    ∙ apart

is_rate_of-count_attempt :
    (now clock window : ℕ) (key : Bytes) (action : String) (r : Rate)
    → is_rate_of key action (count_attempt now clock window r) ≡ is_rate_of key action r
unfolding is_rate_of count_attempt
is_rate_of-count_attempt now clock window key action r = ground arith

rate_of_other :
    (now clock window : ℕ) (key other : Bytes) (action act : String) (rates : List Rate)
    → (same_bytes other key && act == action) ≡ false
    → rate_of key action (take_link_rate_limit now clock window other act rates).1
      ≡ rate_of key action rates
unfolding rate_of take_link_rate_limit
rate_of_other now clock window key other action act [] apart = unfold is_rate_of in rw apart refl
rate_of_other now clock window key other action act (r ∷ rs) apart =
    elim (Bool-cases (is_rate_of other act r)) [
      | inl mine ↦
          let skipped : is_rate_of key action r ≡ false =
            is_rate_of_moved key other action act r apart mine in
          ground (arith, mine, skipped, is_rate_of-count_attempt now clock window key action r)
      | inr not_mine ↦
          ground (arith, not_mine, rate_of_other now clock window key other action act rs apart)
    ]

-- The row of a source after an attempt of its own.
stepped : ℕ → ℕ → ℕ → Bytes → String → Option Rate → Rate
stepped now clock window key action none = record {
  key_hash = key;
  action = action;
  attempts = 1;
  window_start = now;
}
stepped now clock window key action (some r) = count_attempt now clock window r

take-stepped :
    (now clock window : ℕ) (key : Bytes) (action : String) (rates : List Rate)
    → (take_link_rate_limit now clock window key action rates).0
      ≡ stepped now clock window key action (rate_of key action rates)
unfolding rate_of take_link_rate_limit stepped
take-stepped now clock window key action [] = refl
take-stepped now clock window key action (r ∷ rs) =
    ground (arith, take-stepped now clock window key action rs)

rate_of_own :
    (now clock window : ℕ) (key : Bytes) (action : String) (rates : List Rate)
    → rate_of key action (take_link_rate_limit now clock window key action rates).1
      ≡ some (take_link_rate_limit now clock window key action rates).0
unfolding rate_of take_link_rate_limit
rate_of_own now clock window key action [] =
    unfold is_rate_of in rw (same_bytes_refl key, ==-refl ⦃e = string_eq⦄ action) refl
rate_of_own now clock window key action (r ∷ rs) = elim (Bool-cases (is_rate_of key action r)) [
  | inl mine ↦ ground (arith, mine, is_rate_of-count_attempt now clock window key action r)
  | inr other ↦ ground (arith, other, rate_of_own now clock window key action rs)
]

-- Every attempt comes after `from` by the database's clock, and before a window has passed by the
-- process's.
abbrev pub within : ℕ → ℕ → List Attempt → Bool
within from window attempts =
    all_of (λ (a : Attempt). leb from a.now && ltb a.clock (from + window)) attempts

-- What a row leaves: before its window is known to have begun, two windows' worth; then the rest of one.
abbrev room : ℕ → ℕ → Option Rate → ℕ
room limit from none = limit
room limit from (some r) =
    if leb from r.window_start then limit - r.attempts else (limit - r.attempts) + limit

-- An attempt of the source itself takes from its room what it is granted.
room-stepped :
    (limit window from now clock : ℕ) (key : Bytes) (action : String) (row : Option Rate)
    → leb from now ≡ true
    → ltb clock (from + window) ≡ true
    → (if ltb limit (stepped now clock window key action row).attempts
        then room limit from (some (stepped now clock window key action row))
        else room limit from (some (stepped now clock window key action row)) + 1)
      ≤ room limit from row
unfolding stepped count_attempt
room-stepped limit window from now clock key action none after before = ground arith
room-stepped limit window from now clock key action (some r) after before = ground arith

granted_of_own :
    (limit window from : ℕ) (a : Attempt) (later : List Attempt) (rates : List Rate)
    → leb from a.now ≡ true
    → ltb a.clock (from + window) ≡ true
    → granted_of limit window a.key a.action later
        (take_link_rate_limit a.now a.clock window a.key a.action rates).1
      ≤ room limit from (
          rate_of a.key a.action (take_link_rate_limit a.now a.clock window a.key a.action rates).1)
    → granted_of limit window a.key a.action (a ∷ later) rates
      ≤ room limit from (rate_of a.key a.action rates)
unfolding granted_of take_rate
granted_of_own limit window from a later rates after before ih =
    let counted = take-stepped a.now a.clock window a.key a.action rates in
    let kept = rate_of_own a.now a.clock window a.key a.action rates in
    let own : is_of_source a.key a.action a ≡ true =
      rw (same_bytes_refl a.key, ==-refl ⦃e = string_eq⦄ a.action) refl in
    let spent =
      room-stepped limit window from a.now a.clock a.key a.action (rate_of a.key a.action rates)
        after before in
    let left = rw (kept, counted) at ih in
    rw (own, counted)
      (elim (Bool-cases (
        ltb limit
          (stepped a.now a.clock window a.key a.action (rate_of a.key a.action rates)).attempts)) [
            | inl over ↦ ground (arith, over, left, spent)
            | inr under ↦ ground (arith, under, left, spent)
          ])

granted_of_other :
    (limit window from : ℕ) (key : Bytes) (action : String) (a : Attempt) (later : List Attempt)
    (rates : List Rate)
    → is_of_source key action a ≡ false
    → granted_of limit window key action later
        (take_link_rate_limit a.now a.clock window a.key a.action rates).1
      ≤ room limit from
          (rate_of key action (take_link_rate_limit a.now a.clock window a.key a.action rates).1)
    → granted_of limit window key action (a ∷ later) rates
      ≤ room limit from (rate_of key action rates)
unfolding granted_of take_rate
granted_of_other limit window from key action a later rates other ih =
    let kept = rate_of_other a.now a.clock window key a.key action a.action rates other in
    rw (other) (rw (kept) at ih)

room_bounded : (limit from : ℕ) (row : Option Rate) → room limit from row ≤ limit + limit
room_bounded limit from none = ground arith
room_bounded limit from (some r) = ground arith

granted_of-room :
    (limit window from : ℕ) (key : Bytes) (action : String) (attempts : List Attempt)
    (rates : List Rate)
    → within from window attempts ≡ true
    → granted_of limit window key action attempts rates ≤ room limit from (rate_of key action rates)
unfolding granted_of
granted_of-room limit window from key action [] rates h = ground (arith)
granted_of-room limit window from key action (a ∷ later) rates h =
    let (now, rest) =
      and_true (leb from a.now && ltb a.clock (from + window)) (within from window later) h in
    let (after, before) = and_true (leb from a.now) (ltb a.clock (from + window)) now in
    let counted = (take_link_rate_limit a.now a.clock window a.key a.action rates).1 in
    let ih = granted_of-room limit window from key action later counted rest in
    elim (Bool-cases (is_of_source key action a)) [
      | inl own ↦
          let (bytes, text) = and_true (same_bytes a.key key) (a.action == action) own in
          subst₂
            (λ (k : Bytes) (t : String).
              granted_of limit window k t (a ∷ later) rates ≤ room limit from (rate_of k t rates))
            (same_bytes_sound a.key key bytes) (==→eq a.action action text)
            (granted_of_own limit window from a later rates after before (
              subst₂
                (λ (k : Bytes) (t : String).
                  granted_of limit window k t later counted ≤ room limit from (rate_of k t counted))
                (sym (same_bytes_sound a.key key bytes)) (sym (==→eq a.action action text)) ih))
      | inr other ↦ granted_of_other limit window from key action a later rates other ih
    ]

-- In a period no longer than the window, at most twice the limit of the attempts of one source at
-- one action are let through, whoever else attempts what, and whatever the table held before: every
-- attempt comes after the period's start by the database's clock, and before its end by the process's.
-- The limit and the window are the same in all attempts.
pub granted_of-within_window :
    (limit window from : ℕ) (key : Bytes) (action : String) (attempts : List Attempt)
    (rates : List Rate)
    → within from window attempts ≡ true
    → granted_of limit window key action attempts rates ≤ limit + limit
granted_of-within_window limit window from key action attempts rates h =
    let kept = granted_of-room limit window from key action attempts rates h in
    let most = room_bounded limit from (rate_of key action rates) in ground (arith, kept, most)
