-- ===== src/Delivery/Table/Rows.antt =====
-- The constraints of migrations/00039_delivery_queue_and_library_mirror.sql, and what keeps them.
use mathlib.Core.Path.{subst}
use lumi_hub.Base.{
  ==-refl, Bool, Has, Has-all_of, Has-map, List, [], all_of, all_of-Has, all_of-keep, and_true, ap,
  arith, false, if◌then◌else◌, inl, inr, keep, ltb, map, nat_eq, not, refl, string_eq, sym, true,
  ◌&&◌, ◌==◌, ◌||◌, ◌∙◌, ◌∷◌, ◌≡◌,
}
use lumi_hub.Block.Content.{is_none}
use lumi_hub.Delivery.Table.{Row, failed, is_live, is_released, queued, released, target_fits}

unfoldable pub is_failed : Row → Bool
is_failed r = elim r.state [ queued ↦ false | released ↦ false | failed ↦ true ]

abbrev same_bool : Bool → Bool → Bool
same_bool a b = if a then b else not b

-- The check constraints on the lease, on what settled a row, on its times and on its target. Those on
-- the state and on the reason hold by the types, and the one on attempts by natural numbers.
unfoldable pub meets_checks : Row → Bool
meets_checks r =
    same_bool (is_released r) (not (is_none r.lease_expires_at))
    && same_bool (is_failed r) (not (is_none r.settled_at))
    && same_bool (is_failed r) (not (is_none r.settled_reason))
    && ltb r.queued_at r.expires_at
    && target_fits r.chosen_target

-- Two rows that the primary key or the unique index on live rows forbids.
unfoldable pub clashes : Row → Row → Bool
clashes r s =
    r.id == s.id
    || (is_live r && is_live s && r.instance_id == s.instance_id && r.asset_id == s.asset_id)

unfoldable pub is_unclashed : List Row → Bool
is_unclashed [] = true
is_unclashed (r ∷ t) = all_of (λ s. not (clashes r s)) t && is_unclashed t

-- A row after an update: the keys stay, and nothing that is settled becomes live.
pub record IsUpdate (r s : Row) : Type 0 where
  pub id : s.id ≡ r.id
  pub instance_id : s.instance_id ≡ r.instance_id
  pub asset_id : s.asset_id ≡ r.asset_id
  pub live : is_live s ≡ true → is_live r ≡ true

clashes-update :
    (r s r' s' : Row)
    → IsUpdate r r'
    → IsUpdate s s'
    → not (clashes r s) ≡ true
    → not (clashes r' s') ≡ true
unfolding clashes
clashes-update r s r' s' u v h =
    ground
      (arith, h, u.id, u.instance_id, u.asset_id, u.live, v.id, v.instance_id, v.asset_id, v.live)

pub is_unclashed-map :
    (f : Row → Row) (t : List Row)
    → ((r : Row) → Has r t → IsUpdate r (f r))
    → is_unclashed t ≡ true
    → is_unclashed (map f t) ≡ true
unfolding is_unclashed
is_unclashed-map f [] update h = refl
is_unclashed-map f (r ∷ t) update h =
    let (first, more) = and_true (all_of (λ s. not (clashes r s)) t) (is_unclashed t) h in
    ground (
      arith,
      is_unclashed-map f t (λ s stands. update s (inr stands)) more,
      Has-all_of (λ s. not (clashes (f r) s)) (map f t)
          (λ s stands.
            let (x, there, same) = Has-map f t stands in
            subst (λ y. not (clashes (f r) y) ≡ true) same
              (clashes-update r x (f r) (f x) (update r (inl refl)) (update x (inr there))
                (all_of-Has (λ s. not (clashes r s)) t first there))),
    )

pub is_unclashed-keep :
    (p : Row → Bool) (t : List Row) → is_unclashed t ≡ true → is_unclashed (keep p t) ≡ true
unfolding is_unclashed
is_unclashed-keep p [] h = refl
is_unclashed-keep p (r ∷ t) h =
    let (first, more) = and_true (all_of (λ s. not (clashes r s)) t) (is_unclashed t) h in
    ground (arith, is_unclashed-keep p t more, all_of-keep (λ s. not (clashes r s)) p t first)

-- The primary key: two rows of one id are one row.
pub is_unclashed-key :
    (t : List Row) (r s : Row) → is_unclashed t ≡ true → Has r t → Has s t → r.id ≡ s.id → r ≡ s
unfolding is_unclashed clashes
is_unclashed-key [] r s h hr hs same = absurd hr
is_unclashed-key (x ∷ t) r s h hr hs same =
    let (first, more) = and_true (all_of (λ y. not (clashes x y)) t) (is_unclashed t) h in
    go first more hr hs (is_unclashed-key t r s more)
  where
    differ :
        (y z : Row) → x ≡ y → y.id ≡ z.id → all_of (λ y. not (clashes x y)) t ≡ true → Has z t → ⊥
    differ y z here equal first there =
        let apart : not (clashes x z) ≡ true = all_of-Has (λ y. not (clashes x y)) t first there in
        let key : (x.id == z.id) ≡ true = rw (ap (λ (r : Row). r.id) here ∙ equal) (==-refl z.id) in
        ground (arith, apart, key)

    go :
        all_of (λ y. not (clashes x y)) t ≡ true
        → is_unclashed t ≡ true
        → Has r (x ∷ t)
        → Has s (x ∷ t)
        → (Has r t → Has s t → r.id ≡ s.id → r ≡ s)
        → r ≡ s
    go first more (inl a) (inl b) rec = sym a ∙ b
    go first more (inl a) (inr b) rec = absurd (differ r s a same first b)
    go first more (inr a) (inl b) rec = absurd (differ s r b (sym same) first a)
    go first more (inr a) (inr b) rec = rec a b same
