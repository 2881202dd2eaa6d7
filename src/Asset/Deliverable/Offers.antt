-- ===== src/Asset/Deliverable/Offers.antt =====
-- What a deliverable tells of the shelf that it was read from.
use mathlib.Core.Path.{subst}
use lumi_hub.Asset.Deliverable.{
  Media, Shelf, Shelved, allowed_targets, deliverable_of, delivery_pictures, insert_media,
  is_sendable, is_shown, newest_first, picture_of, shelf_catalog, target_allowed,
}
use lumi_hub.Asset.Table.{lifecycle_published}
use lumi_hub.Base.{
  ==-refl, ==-sym, Bool, Bool-cases, Has, Has-all_of, Has-any_of, Has-keep, List, Option, String,
  [], all_of, all_of-map, any_of, ap, arith, contains, false, inl, inr, keep, map, nat_eq, none,
  not, refl, some, some_eq, string_eq, sym, true, ◌&&◌, ◌==◌, ◌||◌, ◌∙◌, ◌∷◌, ◌≡◌, ◌⊎◌,
}
use lumi_hub.Block.Content.{Uuid, is_nil, is_none}
use lumi_hub.Delivery.Collect.{artifacts, picture_artifact}
use lumi_hub.Delivery.Service.{Artifact, Picture, Work}
use lumi_hub.Delivery.Target.{
  IsFair, Target, choose_target, choose_target-IsFair, fallen_back, refused, wished, written_as,
}
use lumi_hub.Protected.{app_targets, stored_apps}

-- A current image of the asset that has its bytes.
abbrev pub is_image_of : Uuid → Uuid → Media → Bool
is_image_of asset_id id m =
    m.id == id && (m.is_current && (m.asset_id == asset_id && not (is_none m.blob_id)))

-- An artifact names no image, or one of the asset's.
abbrev pub is_public_artifact : Shelf → Uuid → Artifact → Bool
is_public_artifact shelf asset_id a = elim a.media_id [
  | none ↦ true
  | some id ↦ any_of (is_image_of asset_id id) shelf.media
]

-- The apps of a protected asset take the format; another asset goes in any format.
abbrev pub is_permitted : Shelf → Uuid → String → String → Bool
is_permitted shelf asset_id kind format =
    let apps = stored_apps asset_id shelf.vault in
    is_nil apps || any_of (λ (app : String). contains (app_targets kind app) format) apps

-- The row of an asset that readers may have, as the work describes it.
abbrev pub is_described : Work → Shelved → Bool
is_described w s =
    (s.row.lifecycle == lifecycle_published
      && (is_none s.row.withheld_at && is_none s.row.deleted_at))
    && (s.row.id == w.asset_id
        && (s.row.kind == w.kind
            && (s.row.name == w.name && s.row.content_generation == w.content_generation)))

-- What the library lets a linked instance have.
abbrev pub is_entitled : Shelf → Work → Bool
is_entitled shelf w =
    any_of (is_described w) shelf.assets
    && is_permitted shelf w.asset_id w.kind w.format
    && all_of (is_public_artifact shelf w.asset_id) w.artifacts

contains-any_of : (xs : List String) (x : String) → any_of (λ y. x == y) xs ≡ contains xs x
contains-any_of [] x = refl
contains-any_of (y ∷ xs) x = rw (==-sym x y, contains-any_of xs x) refl

target_allowed_lem :
    (apps : List String) (kind target : String)
    → target_allowed apps kind target
      ≡ any_of (λ (app : String). contains (app_targets kind app) target) apps
unfolding target_allowed
target_allowed_lem [] kind target = refl
target_allowed_lem (app ∷ apps) kind target =
    rw (contains-any_of (app_targets kind app) target, target_allowed_lem apps kind target) refl

pub choose_target-found :
    (accepted : List String) (offered : List Target) (has_original : Bool)
    (chosen : String × String)
    → choose_target accepted offered has_original ≡ some chosen
    → (has_original ≡ true) ⊎ ((t : Target) × Has t offered × (t.format ≡ chosen.0))
choose_target-found accepted offered has_original chosen h =
    go (choose_target accepted offered has_original)
      (choose_target-IsFair accepted offered has_original) h
  where
    go :
        (choice : Option (String × String))
        → IsFair offered has_original accepted choice
        → choice ≡ some chosen
        → (has_original ≡ true) ⊎ ((t : Target) × Has t offered × (t.format ≡ chosen.0))
    go choice (written_as before after t at u o stands) same =
        inr (t, stands, ap (λ (c : String × String). c.0) (some_eq same))
    go choice (wished before after at u has) same = inl has
    go choice (fallen_back u has) same = inl has
    go choice (refused u lacks) same = absurd (cc same)

pub chosen-is_permitted :
    (media_url : Uuid → String) (shelf : Shelf) (asset_id : Uuid) (s : Shelved)
    (offered : List Target) (accepted : List String) (chosen : String × String)
    → choose_target accepted
        (deliverable_of media_url shelf asset_id s offered).targets
        (deliverable_of media_url shelf asset_id s offered).has_original
      ≡ some chosen
    → is_permitted shelf asset_id s.row.kind chosen.0 ≡ true
unfolding deliverable_of allowed_targets
chosen-is_permitted media_url shelf asset_id s offered accepted chosen h =
    elim (Bool-cases (is_nil (stored_apps asset_id shelf.vault))) [
      | inl open_to_all ↦ rw (open_to_all) refl
      | inr guarded ↦
          let found =
            choose_target-found accepted
              (allowed_targets (stored_apps asset_id shelf.vault) s.row.kind offered) false chosen
              (rw (guarded) at h) in
          elim found [
            | inl open_to_all ↦ absurd (cc open_to_all)
            | inr (t, stands, same) ↦
                let (there, allowed) =
                  Has-keep
                    (λ (u : Target).
                      target_allowed (stored_apps asset_id shelf.vault) s.row.kind u.format)
                    offered stands in
                let apps = stored_apps asset_id shelf.vault in
                rw (guarded) (
                  sym (target_allowed_lem apps s.row.kind chosen.0)
                  ∙ subst (λ (f : String). target_allowed apps s.row.kind f ≡ true) same allowed)
          ]
    ]

all_of-insert_media :
    (p : Media → Bool) (m : Media) (ms : List Media)
    → all_of p (insert_media m ms) ≡ (p m && all_of p ms)
unfolding insert_media
all_of-insert_media p m [] = refl
all_of-insert_media p m (n ∷ ns) = ground (arith, all_of-insert_media p m ns)

all_of-newest_first :
    (p : Media → Bool) (ms : List Media) → all_of p (newest_first ms) ≡ all_of p ms
unfolding newest_first
all_of-newest_first p [] = refl
all_of-newest_first p (m ∷ ms) =
    ground (arith, all_of-insert_media p m (newest_first ms), all_of-newest_first p ms)

abbrev is_own : Shelf → Uuid → Media → Bool
is_own shelf asset_id m = any_of (is_image_of asset_id m.id) shelf.media

shown-is_image_of :
    (asset_id : Uuid) (m : Media) → is_shown asset_id m ≡ true → is_image_of asset_id m.id m ≡ true
unfolding is_shown
shown-is_image_of asset_id m h = ground (arith, h, ==-refl ⦃e = nat_eq⦄ m.id)

pub sendable-is_described :
    (w : Work) (s : Shelved)
    → is_sendable w.asset_id s ≡ true
    → s.row.kind ≡ w.kind
    → s.row.name ≡ w.name
    → s.row.content_generation ≡ w.content_generation
    → is_described w s ≡ true
unfolding is_sendable
sendable-is_described w s h kind name generation =
    rw
      (
        kind,
        name,
        generation,
        ==-refl ⦃e = string_eq⦄ w.kind,
        ==-refl ⦃e = string_eq⦄ w.name,
        ==-refl ⦃e = nat_eq⦄ w.content_generation,
      )
      (ground (arith, h))

-- The images of a deliverable are the asset's own.
pub artifacts-are_public :
    (media_url export_url : Uuid → String) (shelf : Shelf) (id asset_id : Uuid) (s : Shelved)
    (offered : List Target)
    → all_of (is_public_artifact shelf asset_id) (
        artifacts
          (shelf_catalog media_url export_url shelf)
          id
          (deliverable_of media_url shelf asset_id s offered))
      ≡ true
unfolding artifacts deliverable_of delivery_pictures picture_of
artifacts-are_public media_url export_url shelf id asset_id s offered =
    let public = is_public_artifact shelf asset_id in
    let shown = keep (is_shown asset_id) shelf.media in
    let picture = picture_of media_url s.cover_media_id in
    all_of-map public picture_artifact (map picture (newest_first shown))
    ∙ all_of-map (λ (q : Picture). public (picture_artifact q)) picture (newest_first shown)
    ∙ all_of-newest_first (is_own shelf asset_id) shown
    ∙ Has-all_of (is_own shelf asset_id) shown (λ m stands.
      let (there, passes) = Has-keep (is_shown asset_id) shelf.media stands in
      Has-any_of (is_image_of asset_id m.id) shelf.media there
        (shown-is_image_of asset_id m passes))
