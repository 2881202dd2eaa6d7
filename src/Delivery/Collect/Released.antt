-- ===== src/Delivery/Collect/Released.antt =====
-- What the release of the rows that a claim chose keeps of the delivery table.
use mathlib.Core.Path.{subst}
use lumi_hub.Base.{
  >>=-eq-ok, List, Option, Option-cases, Result, Result-cases, [], inl, inr, ok, ok_eq, ℕ, ◌∷◌, ◌≡◌,
}
use lumi_hub.Delivery.Collect.{release_all, release_as, release_one}
use lumi_hub.Delivery.Service.{
  Catalog, Deliverable, DeliveryError, Instance, Work, broken, no_rows, not_deliverable, text_value,
}
use lumi_hub.Delivery.Table.{Row, fail_delivery, set_target, unsupported, withdrawn}
use lumi_hub.Delivery.Table.Statements.{IsLawful, fail_delivery-IsLawful, set_target-IsLawful}
use lumi_hub.Delivery.Target.{choose_target}

module _ (catalog : Catalog) (instance_of : Instance) where
  release_as-IsLawful :
      (max now : ℕ) (r : Row) (d : Deliverable) (t : List Row) {w : Option Work} {t' : List Row}
      → IsLawful max t
      → release_as catalog instance_of now r d t ≡ ok (w, t')
      → IsLawful max t'
  unfolding release_as
  release_as-IsLawful max now r d t {w} {t'} sound given =
      elim (Option-cases (choose_target instance_of.accepted_targets d.targets d.has_original)) [
        | inl missing ↦
            subst (λ (y : Option Work × List Row). IsLawful max y.1)
              (ok_eq {E = DeliveryError} (rw (missing, release_as) at given))
              (fail_delivery-IsLawful max now r.id unsupported t sound)
        | inr (chosen, found) ↦ elim (Result-cases (set_target r.id (text_value chosen.0) t)) [
          | inl (e, failing) ↦ absurd (cc (rw (found, failing, release_as) at given))
          | inr (after, stored) ↦
              subst (λ (y : Option Work × List Row). IsLawful max y.1)
                (ok_eq {E = DeliveryError} (rw (found, stored, release_as) at given))
                (set_target-IsLawful max r.id (text_value chosen.0) t sound stored)
        ]
      ]

  release_one-IsLawful :
      (max now : ℕ) (r : Row) (t : List Row) {w : Option Work} {t' : List Row}
      → IsLawful max t
      → release_one catalog instance_of now r t ≡ ok (w, t')
      → IsLawful max t'
  unfolding release_one
  release_one-IsLawful max now r t {w} {t'} sound given =
      elim (Result-cases (catalog.deliverable r.asset_id)) [
        | inr (d, found) ↦
            release_as-IsLawful max now r d t sound (rw (found, release_one) at given)
        | inl (not_deliverable, found) ↦ after stopped (rw (found, release_one) at given)
        | inl (no_rows, found) ↦ after stopped (rw (found, release_one) at given)
        | inl (broken, found) ↦ absurd (cc (rw (found, release_one) at given))
      ]
    where
      stopped : IsLawful max (fail_delivery now r.id withdrawn t)
      stopped = fail_delivery-IsLawful max now r.id withdrawn t sound

      after :
          {x : Option Work × List Row}
          → IsLawful max x.1
          → ◌≡◌ {A = Result DeliveryError (Option Work × List Row)} (ok x) (ok (w, t'))
          → IsLawful max t'
      after kept e = subst (λ (y : Option Work × List Row). IsLawful max y.1) (ok_eq e) kept

  pub release_all-IsLawful :
      (max now : ℕ) (rows t : List Row) {ws : List Work} {t' : List Row}
      → IsLawful max t
      → release_all catalog instance_of now rows t ≡ ok (ws, t')
      → IsLawful max t'
  unfolding release_all
  release_all-IsLawful max now [] t sound given =
      subst (λ (y : List Work × List Row). IsLawful max y.1) (ok_eq given) sound
  release_all-IsLawful max now (r ∷ rows) t sound given =
      let ((w, mid), one, rest) = >>=-eq-ok (release_one catalog instance_of now r t) _ given in
      let ((more, last), two, same) =
        >>=-eq-ok (release_all catalog instance_of now rows mid) _ rest in
      subst (λ (y : List Work × List Row). IsLawful max y.1) (ok_eq same)
        (release_all-IsLawful max now rows mid (release_one-IsLawful max now r t sound one) two)
