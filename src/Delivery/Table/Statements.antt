-- ===== src/Delivery/Table/Statements.antt =====
-- Every statement on `instance_deliveries` keeps the constraints of the table.
use mathlib.Core.Path.{subst}
use lumi_hub.Base.{
  Bool, Bool-cases, Has, Has-all_of, Has-keep, Has-map, Has-take, List, Option, Result, String, [],
  all_of, all_of-Has, all_of-keep, any_of, any_of-Has, ap, arith, contains, contains-Has, false,
  inl, inr, keep, leb, map, nat_eq, not, ok, ok_eq, refl, string_eq, take, true, ℕ, ◌&&◌, ◌<◌, ◌==◌,
  ◌∷◌, ◌≡◌, ◌⊎◌,
}
use lumi_hub.Block.Content.{Uuid}
use lumi_hub.Delivery.Table.{
  DbError, Reason, Row, abandon_exhausted, abandon_row, abandoned, candidates, claim_deliveries,
  claim_row, fail_delivery, fail_if, fail_row, insert_row, is_before, is_claimable, is_exhausted,
  is_live, is_live_for, is_queued, is_released, new_row, queue_delivery, release_row, set_target,
  sort_rows, target_fits, target_row,
}
use lumi_hub.Delivery.Table.Rows.{
  IsUpdate, clashes, is_failed, is_unclashed, is_unclashed-keep, is_unclashed-key, is_unclashed-map,
  meets_checks,
}

-- The constraints of the table, and the bound on attempts.
pub record IsLawful (max : ℕ) (t : List Row) : Type 0 where
  pub checks : all_of meets_checks t ≡ true
  pub unclashed : is_unclashed t ≡ true
  pub bounded : all_of (λ r. leb r.attempts max) t ≡ true

-- What an update may do to one row.
pub record IsKept (max : ℕ) (r s : Row) : Type 0 where
  pub update : IsUpdate r s
  pub checked : meets_checks r ≡ true → meets_checks s ≡ true
  pub attempted : leb r.attempts max ≡ true → leb s.attempts max ≡ true

IsLawful-map :
    (max : ℕ) (f : Row → Row) (t : List Row)
    → ((r : Row) → Has r t → IsKept max r (f r))
    → IsLawful max t
    → IsLawful max (map f t)
IsLawful-map max f t kept sound = record {
  checks = Has-all_of meets_checks (map f t) (λ s stands.
      let (r, there, same) = Has-map f t stands in
      subst (λ y. meets_checks y ≡ true) same
        ((kept r there).checked (all_of-Has meets_checks t sound.checks there)));
  unclashed = is_unclashed-map f t (λ r stands. (kept r stands).update) sound.unclashed;
  bounded =
      Has-all_of (λ r. leb r.attempts max) (map f t)
        (λ s stands.
          let (r, there, same) = Has-map f t stands in
          subst (λ (y : Row). leb y.attempts max ≡ true) same
            ((kept r there).attempted
              (all_of-Has (λ r. leb r.attempts max) t sound.bounded there)));
}

pub IsLawful-keep :
    (max : ℕ) (p : Row → Bool) (t : List Row) → IsLawful max t → IsLawful max (keep p t)
IsLawful-keep max p t sound = record {
  checks = all_of-keep meets_checks p t sound.checks;
  unclashed = is_unclashed-keep p t sound.unclashed;
  bounded = all_of-keep (λ r. leb r.attempts max) p t sound.bounded;
}

IsKept-refl : (max : ℕ) (r : Row) → IsKept max r r
IsKept-refl max r = record {
  update = record { id = refl; instance_id = refl; asset_id = refl; live = λ h. h };
  checked = λ h. h;
  attempted = λ h. h;
}

fail_row-IsKept : (max now : ℕ) (reason : Reason) (r : Row) → IsKept max r (fail_row now reason r)
unfolding fail_row meets_checks is_released is_failed is_live
fail_row-IsKept max now reason r = record {
  update = record { id = refl; instance_id = refl; asset_id = refl; live = λ h. absurd (cc h) };
  checked = λ h. ground (arith, h);
  attempted = λ h. h;
}

release_row-IsKept :
    (max lease : ℕ) (r : Row)
    → is_live r ≡ true
    → r.attempts < max
    → IsKept max r (release_row lease r)
unfolding release_row meets_checks is_released is_failed is_live
release_row-IsKept max lease r live fewer = record {
  update = record { id = refl; instance_id = refl; asset_id = refl; live = λ h. live };
  checked = λ h. ground (arith, h, live);
  attempted = λ h. ground (arith, fewer);
}

pub abandon_exhausted-IsLawful :
    (now : ℕ) (instance_id : Uuid) (max : ℕ) (t : List Row)
    → IsLawful max t
    → IsLawful max (abandon_exhausted now instance_id max t)
unfolding abandon_exhausted abandon_row
abandon_exhausted-IsLawful now instance_id max t sound =
    IsLawful-map max (abandon_row now instance_id max) t
      (λ r stands. elim (Bool-cases (is_exhausted now instance_id max r)) [
        | inl gone ↦ rw (gone, abandon_row) (fail_row-IsKept max now abandoned r)
        | inr stays ↦ rw (stays, abandon_row) (IsKept-refl max r)
      ])
      sound

pub fail_delivery-IsLawful :
    (max now : ℕ) (id : Uuid) (reason : Reason) (t : List Row)
    → IsLawful max t
    → IsLawful max (fail_delivery now id reason t)
unfolding fail_delivery fail_if
fail_delivery-IsLawful max now id reason t sound =
    IsLawful-map max (fail_if now id reason) t
      (λ r stands. elim (Bool-cases (r.id == id)) [
        | inl here ↦ rw (here, fail_if) (fail_row-IsKept max now reason r)
        | inr other ↦ rw (other, fail_if) (IsKept-refl max r)
      ])
      sound

set_target-IsKept :
    (max : ℕ) (target : Option String) (r : Row)
    → target_fits target ≡ true
    → IsKept max r (record r { chosen_target = target })
unfolding meets_checks is_released is_failed is_live
set_target-IsKept max target r fits = record {
  update = record { id = refl; instance_id = refl; asset_id = refl; live = λ h. h };
  checked = λ h. ground (arith, h, fits);
  attempted = λ h. h;
}

set_target-eq-ok :
    (id : Uuid) (target : Option String) (t : List Row) {t' : List Row}
    → set_target id target t ≡ ok t'
    → (map (target_row id target) t ≡ t')
      × ((target_fits target ≡ true) ⊎ (any_of (λ (r : Row). r.id == id) t ≡ false))
unfolding set_target
set_target-eq-ok id target t {t'} h =
    elim (Bool-cases (any_of (λ (r : Row). r.id == id) t && not (target_fits target))) [
      | inl unfit ↦ absurd (cc (rw (unfit, set_target) at h))
      | inr stored ↦ (ok_eq {E = DbError} (rw (stored, set_target) at h), which stored)
    ]
  where
    which :
        (any_of (λ (r : Row). r.id == id) t && not (target_fits target)) ≡ false
        → (target_fits target ≡ true) ⊎ (any_of (λ (r : Row). r.id == id) t ≡ false)
    which stored = elim (Bool-cases (target_fits target)) [
      | inl fits ↦ inl fits
      | inr unfit ↦ inr (ground (arith, stored, unfit))
    ]

pub set_target-IsLawful :
    (max : ℕ) (id : Uuid) (target : Option String) (t : List Row) {t' : List Row}
    → IsLawful max t
    → set_target id target t ≡ ok t'
    → IsLawful max t'
unfolding target_row
set_target-IsLawful max id target t {t'} sound h =
    let (same, cause) = set_target-eq-ok id target t h in
    subst (IsLawful max) same (
      IsLawful-map max (target_row id target) t
        (λ r stands. elim (Bool-cases (r.id == id)) [
          | inr other ↦ rw (other, target_row) (IsKept-refl max r)
          | inl here ↦ elim cause [
            | inl fits ↦ rw (here, target_row) (set_target-IsKept max target r fits)
            | inr missing ↦
                absurd (cc (here, any_of-Has (λ (x : Row). x.id == id) t missing stands))
          ]
        ])
        sound)

insert_row-Has :
    (before : Row → Row → Bool) (r : Row) (t : List Row) (x : Row)
    → Has x (insert_row before r t)
    → Has x (r ∷ t)
unfolding insert_row
insert_row-Has before r [] x stands = stands
insert_row-Has before r (s ∷ t) x stands = elim (Bool-cases (before r s)) [
  | inl first ↦ rw (first, insert_row) at stands
  | inr after ↦ elim (rw (after, insert_row) at stands) [
    | inl same ↦ inr (inl same)
    | inr later ↦ elim (insert_row-Has before r t x later) [
      | inl same ↦ inl same
      | inr there ↦ inr (inr there)
    ]
  ]
]

sort_rows-Has :
    (before : Row → Row → Bool) (t : List Row) (x : Row) → Has x (sort_rows before t) → Has x t
unfolding sort_rows
sort_rows-Has before [] x stands = stands
sort_rows-Has before (r ∷ t) x stands =
    elim (insert_row-Has before r (sort_rows before t) x stands) [
      | inl same ↦ inl same
      | inr later ↦ inr (sort_rows-Has before t x later)
    ]

-- Only claimable rows are candidates.
pub candidates-is_claimable :
    (now : ℕ) (may_receive : Bool) (instance_id : Uuid) (max batch : ℕ) (t : List Row) (r : Row)
    → is_unclashed t ≡ true
    → Has r t
    → contains (candidates now may_receive instance_id max batch t) r.id ≡ true
    → is_claimable now may_receive instance_id max r ≡ true
unfolding candidates
candidates-is_claimable now may_receive instance_id max batch t r unclashed stands h =
    let claimable = is_claimable now may_receive instance_id max in
    let sorted = sort_rows is_before (keep claimable t) in
    let (s, chosen, same) =
      Has-map (λ (r : Row). r.id) (take batch sorted) (contains-Has _ r.id h) in
    let (there, passes) =
      Has-keep claimable t
        (sort_rows-Has is_before (keep claimable t) s (Has-take batch sorted s chosen)) in
    subst (λ x. claimable x ≡ true) (is_unclashed-key t s r unclashed there stands same) passes

is_claimable-parts :
    (now : ℕ) (may_receive : Bool) (instance_id : Uuid) (max : ℕ) (r : Row)
    → is_claimable now may_receive instance_id max r ≡ true
    → (is_live r ≡ true) × (r.attempts < max)
unfolding is_claimable is_live is_queued is_released
is_claimable-parts now may_receive instance_id max r h = ground (arith, h)

pub claim_deliveries-IsLawful :
    (lease now : ℕ) (may_receive : Bool) (instance_id : Uuid) (max batch : ℕ) (t : List Row)
    → IsLawful max t
    → IsLawful max (claim_deliveries lease now may_receive instance_id max batch t).1
unfolding claim_deliveries claim_row
claim_deliveries-IsLawful lease now may_receive instance_id max batch t sound =
    let ids = candidates now may_receive instance_id max batch t in
    IsLawful-map max (claim_row lease ids) t
      (λ r stands. elim (Bool-cases (contains ids r.id)) [
        | inl chosen ↦
            let (live, fewer) = is_claimable-parts now may_receive instance_id max r (
              candidates-is_claimable now may_receive instance_id max batch t r sound.unclashed
                stands chosen) in
            rw (chosen, claim_row) (release_row-IsKept max lease r live fewer)
        | inr passed ↦ rw (passed, claim_row) (IsKept-refl max r)
      ])
      sound

new_row-IsLawful :
    (max now : ℕ) (id instance_id asset_id : Uuid) (expires_at : ℕ) (t : List Row)
    → IsLawful max t
    → any_of (is_live_for instance_id asset_id) t ≡ false
    → any_of (λ r. r.id == id) t ≡ false
    → now < expires_at
    → IsLawful max (new_row now id instance_id asset_id expires_at ∷ t)
unfolding meets_checks is_released is_failed is_live is_unclashed clashes is_live_for target_fits
new_row-IsLawful max now id instance_id asset_id expires_at t sound none_live free early = record {
  checks = ground (arith, sound.checks, early);
  unclashed = ground (
    arith,
    sound.unclashed,
    Has-all_of (λ s. not (clashes (new_row now id instance_id asset_id expires_at) s)) t
        (λ s stands. ground (
          arith,
          any_of-Has (is_live_for instance_id asset_id) t none_live stands,
          any_of-Has (λ r. r.id == id) t free stands,
        )),
  );
  bounded = ground (arith, sound.bounded);
}

pub queue_delivery-IsLawful :
    (max now : ℕ) (id instance_id asset_id : Uuid) (expires_at : ℕ) (t : List Row) {r : Option Row}
    {t' : List Row}
    → IsLawful max t
    → queue_delivery now id instance_id asset_id expires_at t ≡ ok (r, t')
    → IsLawful max t'
unfolding queue_delivery
queue_delivery-IsLawful max now id instance_id asset_id expires_at t {r} {t'} sound h =
    elim (Bool-cases (any_of (is_live_for instance_id asset_id) t)) [
      | inl live ↦ after t sound (rw (live, queue_delivery) at h)
      | inr none_live ↦ elim (Bool-cases (any_of (λ r. r.id == id) t)) [
        | inl key_taken ↦
            absurd (cc (rw (key_taken, queue_delivery) at (rw (none_live, queue_delivery) at h)))
        | inr free ↦ elim (Bool-cases (leb expires_at now)) [
          | inl late ↦ absurd (ground (arith, none_live, free, late, h))
          | inr early ↦
              after (new_row now id instance_id asset_id expires_at ∷ t)
                (new_row-IsLawful max now id instance_id asset_id expires_at t sound none_live free
                  (ground (arith, early)))
                (rw (early, queue_delivery) at
                  (rw (free, queue_delivery) at (rw (none_live, queue_delivery) at h)))
        ]
      ]
    ]
  where
    after :
        {x : Option Row} (l : List Row)
        → IsLawful max l
        → ◌≡◌ {A = Result DbError (Option Row × List Row)} (ok (x, l)) (ok (r, t'))
        → IsLawful max t'
    after l kept e =
        subst (λ m. IsLawful max m) (ap (λ (x : Option Row × List Row). x.1) (ok_eq e)) kept
