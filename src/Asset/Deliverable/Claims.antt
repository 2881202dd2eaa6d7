-- ===== src/Asset/Deliverable/Claims.antt =====
-- What a claim hands out, where the asset package stands behind the delivery queue.
use mathlib.Core.Path.{subst}
use lumi_hub.Asset.Deliverable.{
  Shelf, Shelved, deliverable_asset, deliverable_of, delivery_targets, is_sendable, shelf_catalog,
}
use lumi_hub.Asset.Deliverable.Offers.{
  artifacts-are_public, chosen-is_permitted, is_described, is_entitled, is_permitted,
  is_public_artifact, sendable-is_described,
}
use lumi_hub.Base.{
  >>=-eq-ok, Bool, Has-any_of, List, Option, Option-cases, Result, Result-cases, String, [], all_of,
  any_of, ap, err, find_first, find_first-Has, find_first_test, inl, inr, none, ok, ok_eq, refl,
  some, some_eq, sym, true, ℕ, ◌>>=◌, ◌∙◌, ◌∷◌, ◌≡◌,
}
use lumi_hub.Block.Content.{Uuid}
use lumi_hub.Delivery.Collect.{
  add_work, claim, release_all, release_as, release_one, taken, work_of,
}
use lumi_hub.Delivery.Service.{
  CatalogError, Deliverable, DeliveryError, Instance, Settings, Work, broken, no_rows,
  not_deliverable, text_value,
}
use lumi_hub.Delivery.Table.{Row, set_target}
use lumi_hub.Delivery.Target.{Target, choose_target}

module _ (media_url export_url : Uuid → String) (shelf : Shelf) (instance_of : Instance) where
  entitled :
      (w : Work)
      → any_of (is_described w) shelf.assets ≡ true
      → is_permitted shelf w.asset_id w.kind w.format ≡ true
      → all_of (is_public_artifact shelf w.asset_id) w.artifacts ≡ true
      → is_entitled shelf w ≡ true
  entitled w described permitted public = rw (described, permitted, public) refl

  -- One row that is one_eq.
  release_as-is_entitled :
      (now : ℕ) (r : Row) (s : Shelved) (offered : List Target) (t t' : List Row) (w : Work)
      → find_first (is_sendable r.asset_id) shelf.assets ≡ some s
      → release_as
          (shelf_catalog media_url export_url shelf)
          instance_of
          now
          r
          (deliverable_of media_url shelf r.asset_id s offered)
          t
        ≡ ok (some w, t')
      → is_entitled shelf w ≡ true
  unfolding release_as work_of deliverable_of shelf_catalog
  release_as-is_entitled now r s offered t t' w found h =
      let d = deliverable_of media_url shelf r.asset_id s offered in
      elim (Option-cases (choose_target instance_of.accepted_targets d.targets d.has_original)) [
        | inl refusing ↦ absurd (cc (rw (refusing, release_as) at h))
        | inr (chosen, served) ↦
            let work = work_of (shelf_catalog media_url export_url shelf) r d chosen in
            elim (Result-cases (set_target r.id (text_value chosen.0) t)) [
              | inl (e, failing) ↦ absurd (cc (rw (served, failing, release_as) at h))
              | inr (after, stored) ↦
                  subst (λ (v : Work). is_entitled shelf v ≡ true)
                    (some_eq (
                      ap (λ (x : Option Work × List Row). x.0)
                        (ok_eq {E = DeliveryError} (rw (served, stored, release_as) at h))))
                    (entitled work
                      (Has-any_of (is_described work) shelf.assets
                        (find_first-Has (is_sendable r.asset_id) shelf.assets found)
                        (sendable-is_described work s
                          (find_first_test (is_sendable r.asset_id) shelf.assets found) refl refl
                          refl))
                      (chosen-is_permitted media_url shelf r.asset_id s offered
                        instance_of.accepted_targets chosen served)
                      (artifacts-are_public media_url export_url shelf r.id r.asset_id s offered))
            ]
      ]

  -- A row whose asset cannot be read leaves no work.
  release_one-unread :
      (now : ℕ) (r : Row) (t : List Row) (e : CatalogError) (w : Work) (t' : List Row)
      → deliverable_asset media_url shelf r.asset_id ≡ err e
      → ¬ (
          release_one (shelf_catalog media_url export_url shelf) instance_of now r t
          ≡ ok (some w, t'))
  unfolding release_one shelf_catalog
  release_one-unread now r t not_deliverable w t' unread h = cc (rw (unread, release_one) at h)
  release_one-unread now r t no_rows w t' unread h = cc (rw (unread, release_one) at h)
  release_one-unread now r t broken w t' unread h = cc (rw (unread, release_one) at h)

  deliverable_asset-read :
      (asset_id : Uuid) (d : Deliverable)
      → deliverable_asset media_url shelf asset_id ≡ ok d
      → (s : Shelved) × (offered : List Target) × (find_first (is_sendable asset_id) shelf.assets
          ≡ some s)
        × (d ≡ deliverable_of media_url shelf asset_id s offered)
  unfolding deliverable_asset
  deliverable_asset-read asset_id d h =
      elim (Option-cases (find_first (is_sendable asset_id) shelf.assets)) [
        | inl absent ↦ absurd (cc (rw (absent, deliverable_asset) at h))
        | inr (s, found) ↦
            let (offered, read, same) =
              >>=-eq-ok (delivery_targets asset_id shelf.projections)
                (λ (offered : List Target). ok (deliverable_of media_url shelf asset_id s offered))
                (rw (found, deliverable_asset) at h) in
            (s, offered, found, sym (ok_eq {E = CatalogError} same))
      ]

  release_one-is_entitled :
      (now : ℕ) (r : Row) (t : List Row) (w : Work) (t' : List Row)
      → release_one (shelf_catalog media_url export_url shelf) instance_of now r t ≡ ok (some w, t')
      → is_entitled shelf w ≡ true
  unfolding release_one shelf_catalog
  release_one-is_entitled now r t w t' h =
      elim (Result-cases (deliverable_asset media_url shelf r.asset_id)) [
        | inl (e, unread) ↦ absurd (release_one-unread now r t e w t' unread h)
        | inr (d, told) ↦
            let (s, offered, found, same) = deliverable_asset-read r.asset_id d told in
            release_as-is_entitled now r s offered t t' w found
              (rw (told ∙ ap ok same, release_one) at h)
      ]

  pub release_all-is_entitled :
      (now : ℕ) (rows t : List Row) (ws : List Work) (t' : List Row)
      → release_all (shelf_catalog media_url export_url shelf) instance_of now rows t ≡ ok (ws, t')
      → all_of (is_entitled shelf) ws ≡ true
  unfolding release_all
  release_all-is_entitled now [] t ws t' h =
      subst (λ (l : List Work). all_of (is_entitled shelf) l ≡ true)
        (ap (λ (x : List Work × List Row). x.0) (ok_eq {E = DeliveryError} h)) refl
  release_all-is_entitled now (r ∷ rows) t ws t' h =
      let served = shelf_catalog media_url export_url shelf in
      let ((one, t1), one_eq, rest) =
        >>=-eq-ok (release_one served instance_of now r t)
          (λ (one : Option Work × List Row).
            release_all served instance_of now rows one.1 >>= λ (more : List Work × List Row).
            ok (add_work served instance_of one.0 more.0, more.1))
          h in
      let ((more, t2), others, same) =
        >>=-eq-ok (release_all served instance_of now rows t1)
          (λ (more : List Work × List Row). ok (add_work served instance_of one more.0, more.1))
          rest in
      subst (λ (l : List Work). all_of (is_entitled shelf) l ≡ true)
        (ap (λ (x : List Work × List Row). x.0) (ok_eq {E = DeliveryError} same))
        (added one more t1 one_eq (release_all-is_entitled now rows t1 more t2 others))
    where
      added :
          (one : Option Work) (more : List Work) (t1 : List Row)
          → release_one (shelf_catalog media_url export_url shelf) instance_of now r t
            ≡ ok (one, t1)
          → all_of (is_entitled shelf) more ≡ true
          → all_of
              (is_entitled shelf)
              (add_work (shelf_catalog media_url export_url shelf) instance_of one more)
            ≡ true
      added none more t1 one_eq sound = sound
      added (some w) more t1 one_eq sound =
          rw (release_one-is_entitled now r t w t1 one_eq, sound) refl

-- A claim hands an instance only what the library lets it have. Each work is of an asset that is
-- published, and neither withheld nor deleted; it carries that asset's kind, name and generation; where
-- the asset has protected prompts, its format is one that an
-- app which its creator allows takes; and every image is a current image of the asset.
pub claim-is_entitled :
    (media_url export_url : Uuid → String) (shelf : Shelf) (instance_of : Instance)
    (settings : Settings) (now clock : ℕ) (may_receive : Bool) (t : List Row) (ws : List Work)
    (t' : List Row)
    → claim (shelf_catalog media_url export_url shelf) instance_of settings now clock may_receive t
      ≡ (ok ws, t')
    → all_of (is_entitled shelf) ws ≡ true
unfolding claim
claim-is_entitled media_url export_url shelf instance_of settings now clock may_receive t ws t' h =
    let served = shelf_catalog media_url export_url shelf in
    let rows = taken served instance_of settings now clock may_receive t in
    elim (Result-cases (release_all served instance_of now rows.0 rows.1)) [
      | inl (e, failing) ↦ absurd (cc (rw (failing, claim) at h))
      | inr ((won, t2), one_eq) ↦
          release_all-is_entitled media_url export_url shelf instance_of now rows.0 rows.1 ws t2 (
            one_eq
            ∙ ap (λ (v : List Work). ok (v, t2))
                (ok_eq {E = DeliveryError} (
                  ap (λ (x : Result DeliveryError (List Work) × List Row). x.0)
                    (rw (one_eq, claim) at h))))
    ]
