-- ===== src/Delivery/Collect/Lease.antt =====
-- Which rows a claim leaves alone until a lease ends, and how `release` keeps them so.
use mathlib.Core.Path.{subst}
use lumi_hub.Base.{
  ==-cases, ==-refl, >>=-eq-ok, Bool, Has, List, Option, Option-cases, Result-cases, String, [],
  all_of, and_true, ap, arith, contains, false, inl, inr, map, nat_beq, nat_eq, none, not, ok,
  ok_eq, refl, some, string_eq, sym, true, ℕ, ◌&&◌, ◌<◌, ◌==◌, ◌||◌, ◌∙◌, ◌∷◌, ◌≡◌,
}
use lumi_hub.Block.Content.{Uuid}
use lumi_hub.Delivery.Collect.{add_work, release_all, release_as, release_one, work_of}
use lumi_hub.Delivery.Service.{Catalog, Deliverable, Instance, Work, text_value}
use lumi_hub.Delivery.Table.{
  Reason, Row, abandon_row, claim_row, fail_delivery, fail_if, fail_row, is_claimable, is_queued,
  is_released, lease_passed, release_row, set_target, target_row, unsupported, withdrawn,
}
use lumi_hub.Delivery.Table.Rows.{is_failed}
use lumi_hub.Delivery.Target.{choose_target}

-- A row that no claim takes before the time: settled, or released until then.
unfoldable pub is_barred : ℕ → Row → Bool
is_barred until r =
    is_failed r
    || (is_released r && elim r.lease_expires_at [ none ↦ false | some l ↦ nat_beq l until ])

-- The rows of the id are barred.
unfoldable pub is_barred_at : Uuid → ℕ → Row → Bool
is_barred_at id until r = not (r.id == id) || is_barred until r

pub IsBarred-map :
    (id : Uuid) (until : ℕ) (f : Row → Row) (t : List Row)
    → ((r : Row) → is_barred_at id until r ≡ true → is_barred_at id until (f r) ≡ true)
    → all_of (is_barred_at id until) t ≡ true
    → all_of (is_barred_at id until) (map f t) ≡ true
IsBarred-map id until f [] kept h = refl
IsBarred-map id until f (r ∷ t) kept h =
    let (first, more) = and_true (is_barred_at id until r) (all_of (is_barred_at id until) t) h in
    ground (arith, kept r first, IsBarred-map id until f t kept more)

is_barred-fail :
    (id other : Uuid) (until now : ℕ) (reason : Reason) (r : Row)
    → is_barred_at id until r ≡ true
    → is_barred_at id until (fail_if now other reason r) ≡ true
unfolding is_barred_at is_barred fail_if fail_row is_failed is_released
is_barred-fail id other until now reason r h = ground (arith, h)

is_barred-target :
    (id other : Uuid) (until : ℕ) (target : Option String) (r : Row)
    → is_barred_at id until r ≡ true
    → is_barred_at id until (target_row other target r) ≡ true
unfolding is_barred_at is_barred target_row is_failed is_released
is_barred-target id other until target r h = ground (arith, h)

pub is_barred-abandon :
    (id instance_id : Uuid) (until now max : ℕ) (r : Row)
    → is_barred_at id until r ≡ true
    → is_barred_at id until (abandon_row now instance_id max r) ≡ true
unfolding is_barred_at is_barred abandon_row fail_row is_failed is_released
is_barred-abandon id instance_id until now max r h = ground (arith, h)

-- A claim bars what it takes.
pub is_barred-claim :
    (id : Uuid) (lease : ℕ) (ids : List Uuid) (r : Row)
    → contains ids id ≡ true
    → is_barred_at id lease (claim_row lease ids r) ≡ true
unfolding is_barred_at is_barred claim_row release_row is_failed is_released
is_barred-claim id lease ids r taken_now = elim (==-cases r.id id) [
  | inr other ↦ ground (arith, other)
  | inl same ↦
      let here : contains ids r.id ≡ true = rw same taken_now in ground (arith, here, ==-refl lease)
]

-- What is barred until later is not claimable.
pub is_barred-is_claimable :
    (id instance_id : Uuid) (until now : ℕ) (may_receive : Bool) (max : ℕ) (r : Row)
    → now < until
    → is_barred_at id until r ≡ true
    → is_claimable now may_receive instance_id max r ≡ true
    → r.id ≡ id
    → ⊥
unfolding is_barred_at is_barred is_claimable is_failed is_released is_queued lease_passed
is_barred-is_claimable id instance_id until now may_receive max r early barred claimable same =
    ground (arith, early, barred, claimable, same, ==-refl id)

module _ (catalog : Catalog) (instance_of : Instance) where
  release_as-barred :
      (id : Uuid) (until now : ℕ) (r : Row) (d : Deliverable) (t : List Row) {w : Option Work}
      {t' : List Row}
      → all_of (is_barred_at id until) t ≡ true
      → release_as catalog instance_of now r d t ≡ ok (w, t')
      → all_of (is_barred_at id until) t' ≡ true
  unfolding release_as fail_delivery set_target
  release_as-barred id until now r d t h given =
      elim (Option-cases (choose_target instance_of.accepted_targets d.targets d.has_original)) [
        | inl missing ↦ ground (
          arith,
          given,
          missing,
          IsBarred-map id until (fail_if now r.id unsupported) t
              (is_barred-fail id r.id until now unsupported) h,
        )
        | inr (chosen, found) ↦ ground (
          arith,
          given,
          found,
          IsBarred-map id until (target_row r.id (text_value chosen.0)) t
              (is_barred-target id r.id until (text_value chosen.0)) h,
        )
      ]

  release_one-barred :
      (id : Uuid) (until now : ℕ) (r : Row) (t : List Row) {w : Option Work} {t' : List Row}
      → all_of (is_barred_at id until) t ≡ true
      → release_one catalog instance_of now r t ≡ ok (w, t')
      → all_of (is_barred_at id until) t' ≡ true
  unfolding release_one fail_delivery
  release_one-barred id until now r t {w} {t'} h given =
      elim (Result-cases (catalog.deliverable r.asset_id)) [
        | inr (d, found) ↦ release_as-barred id until now r d t h (rw (found, release_one) at given)
        | inl (e, failing) ↦ ground (
          arith,
          given,
          failing,
          IsBarred-map id until (fail_if now r.id withdrawn) t
              (is_barred-fail id r.id until now withdrawn) h,
        )
      ]

  pub release_all-barred :
      (id : Uuid) (until now : ℕ) (rows t : List Row) {ws : List Work} {t' : List Row}
      → all_of (is_barred_at id until) t ≡ true
      → release_all catalog instance_of now rows t ≡ ok (ws, t')
      → all_of (is_barred_at id until) t' ≡ true
  unfolding release_all
  release_all-barred id until now [] t h given = ground (arith, h, given)
  release_all-barred id until now (r ∷ rows) t h given =
      let ((w, mid), one, rest) = >>=-eq-ok (release_one catalog instance_of now r t) _ given in
      let ((more, last), two, same) =
        >>=-eq-ok (release_all catalog instance_of now rows mid) _ rest in
      ground (
        arith,
        ok_eq same,
        release_all-barred id until now rows mid (release_one-barred id until now r t h one) two,
      )

  release_one-id :
      (now : ℕ) (r : Row) (t : List Row) {w : Work} {t' : List Row}
      → release_one catalog instance_of now r t ≡ ok (some w, t')
      → r.id ≡ w.id
  unfolding release_one release_as work_of
  release_one-id now r t given = ground (arith, given)

  -- Each work is for a row that the claim took.
  pub release_all-Has :
      (now : ℕ) (rows t : List Row) {ws : List Work} {t' : List Row} (w : Work)
      → release_all catalog instance_of now rows t ≡ ok (ws, t')
      → Has w ws
      → (r : Row) × Has r rows × (r.id ≡ w.id)
  unfolding release_all
  release_all-Has now [] t {ws} w given stands =
      absurd (subst (λ (x : List Work × List Row). Has w x.0) (sym (ok_eq given)) stands)
  release_all-Has now (r ∷ rows) t w given stands =
      let ((first, mid), one, rest) = >>=-eq-ok (release_one catalog instance_of now r t) _ given in
      let ((more, last), two, same) =
        >>=-eq-ok (release_all catalog instance_of now rows mid) _ rest in
      go first mid more one (release_all-Has now rows mid w two)
        (subst (λ (x : List Work × List Row). Has w x.0) (sym (ok_eq same)) stands)
    where
      go :
          (first : Option Work) (mid : List Row) (more : List Work)
          → release_one catalog instance_of now r t ≡ ok (first, mid)
          → (Has w more → (s : Row) × Has s rows × (s.id ≡ w.id))
          → Has w (add_work catalog instance_of first more)
          → (s : Row) × Has s (r ∷ rows) × (s.id ≡ w.id)
      go none mid more one later there =
          let (s, stands, same) = later there in (s, inr stands, same)
      go (some v) mid more one later (inl here) =
          (r, inl refl, release_one-id now r t one ∙ ap (λ (x : Work). x.id) here)
      go (some v) mid more one later (inr there) =
          let (s, stands, same) = later there in (s, inr stands, same)
