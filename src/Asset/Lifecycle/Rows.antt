-- ===== src/Asset/Lifecycle/Rows.antt =====
-- The law of one row of `assets`, which each update of a row keeps, and the rows that an update leaves
-- as they are.
use lumi_hub.Asset.Lifecycle.{is_discovery}
use lumi_hub.Asset.Table.{
  AssetRow, Library, clear_row, delete_row, discovery_row, identity_row, is_clearable, is_deletable,
  is_restorable, is_standing, is_withholdable, lifecycle_draft, lifecycle_published, moved_row,
  publish_row, restore_row, withhold_row,
}
use lumi_hub.Base.{
  ==-refl, ==→eq, Bool, Bool-cases, List, Option, String, [], ap, arith, false, find_first, inl,
  inr, ltb, nat_eq, not, refl, some, some_eq, string_eq, sym, true, ℕ, ◌&&◌, ◌==◌, ◌||◌, ◌∙◌, ◌∷◌,
  ◌≡◌,
}
use lumi_hub.Block.Content.{Uuid, is_none}

-- `assets_withheld_check`
abbrev pub is_held_whole : AssetRow → Bool
is_held_whole r =
    (is_none r.withheld_at && (is_none r.withheld_by && is_none r.withheld_reason))
    || (not (is_none r.withheld_at)
        && (not (is_none r.withheld_by) && not (is_none r.withheld_reason)))

-- `assets_deletion_window_check`
abbrev pub is_deleted_whole : AssetRow → Bool
is_deleted_whole r =
    (is_none r.deleted_at && is_none r.recoverable_until)
    || (not (is_none r.deleted_at) && not (is_none r.recoverable_until))

-- `assets_kind_check`
abbrev pub is_kind : String → Bool
is_kind kind =
    kind == "character"
    || (kind == "lorebook" || (kind == "preset" || (kind == "theme" || kind == "pack")))

-- `assets_kind_check` and `assets_content_generation_check`
unfoldable pub is_sized : AssetRow → Bool
is_sized r = is_kind r.kind && ltb 0 r.content_generation

-- The checks above, and: a draft, or published with the adult content question answered; only a published asset that is not
-- deleted is withheld.
abbrev pub is_lawful : AssetRow → Bool
is_lawful r =
    is_sized r
    && ((r.lifecycle == lifecycle_draft
          || (r.lifecycle == lifecycle_published && not (is_none r.is_nsfw)))
        && (is_discovery r.discovery
            && (is_held_whole r
                && (is_deleted_whole r
                    && (is_none r.withheld_at
                        || (r.lifecycle == lifecycle_published && is_none r.deleted_at))))))

pub find_first-holds :
    (p : AssetRow → Bool) (rs : List AssetRow) {r : AssetRow}
    → find_first p rs ≡ some r
    → p r ≡ true
find_first-holds p [] found = absurd (cc found)
find_first-holds p (q ∷ qs) {r} found = elim (Bool-cases (p q)) [
  | inl here ↦ ap p (sym (some_eq (rw here at found))) ∙ here
  | inr later ↦ find_first-holds p qs (rw later at found)
]

pub standing_id :
    (owner id : Uuid) (s : Library) {r : AssetRow}
    → find_first (is_standing owner id) s.assets ≡ some r
    → r.id ≡ id
unfolding is_standing
standing_id owner id s {r} found =
    let stands : is_standing owner id r ≡ true =
      find_first-holds (is_standing owner id) s.assets found in
    ==→eq r.id id (ground (arith, stands))

publish_row-is_sized :
    (id : Uuid) (r : AssetRow) → is_sized r ≡ true → is_sized (publish_row id r) ≡ true
unfolding publish_row is_sized
publish_row-is_sized id r h = ground (arith, h)

pub publish_row-lawful :
    (id : Uuid) (r : AssetRow)
    → is_none r.withheld_at ≡ true
    → is_none r.is_nsfw ≡ false
    → is_lawful r ≡ true
    → is_lawful (publish_row id r) ≡ true
unfolding publish_row
publish_row-lawful id r unheld answered h =
    let sized : is_sized r ≡ true = ground (arith, h) in
    let still = publish_row-is_sized id r sized in
    elim (Bool-cases (r.id == id)) [
      | inr other ↦ rw (other, publish_row) h
      | inl this ↦
          rw (this, publish_row)
            (ground (
              arith,
              rw (this, publish_row) at still,
              unheld,
              answered,
              h,
              ==-refl lifecycle_published,
            ))
    ]

identity_row-is_sized :
    (id : Uuid) (name : String) (is_nsfw : Option Bool) (moved : ℕ) (r : AssetRow)
    → is_sized r ≡ true
    → is_sized (identity_row id name is_nsfw moved r) ≡ true
unfolding identity_row is_sized
identity_row-is_sized id name is_nsfw moved r h = ground (arith, h)

pub identity_row-lawful :
    (id : Uuid) (name : String) (is_nsfw : Option Bool) (moved : ℕ) (r : AssetRow)
    → (is_none is_nsfw && not (r.lifecycle == lifecycle_draft)) ≡ false
    → is_lawful r ≡ true
    → is_lawful (identity_row id name is_nsfw moved r) ≡ true
unfolding identity_row
identity_row-lawful id name is_nsfw moved r fair h =
    let sized : is_sized r ≡ true = ground (arith, h) in
    let still = identity_row-is_sized id name is_nsfw moved r sized in
    ground (arith, still, fair, h)

moved_row-is_sized :
    (id : Uuid) (moved : Bool) (r : AssetRow)
    → is_sized r ≡ true
    → is_sized (moved_row id moved r) ≡ true
unfolding moved_row is_sized
moved_row-is_sized id moved r h = ground (arith, h)

pub moved_row-lawful :
    (id : Uuid) (moved : Bool) (r : AssetRow)
    → is_lawful r ≡ true
    → is_lawful (moved_row id moved r) ≡ true
unfolding moved_row
moved_row-lawful id moved r h =
    let sized : is_sized r ≡ true = ground (arith, h) in
    let still = moved_row-is_sized id moved r sized in ground (arith, still, h)

discovery_row-is_sized :
    (owner id : Uuid) (d : String) (r : AssetRow)
    → is_sized r ≡ true
    → is_sized (discovery_row owner id d r) ≡ true
unfolding discovery_row is_sized
discovery_row-is_sized owner id d r h = ground (arith, h)

pub discovery_row-lawful :
    (owner id : Uuid) (d : String)
    → is_discovery d ≡ true
    → (r : AssetRow) → is_lawful r ≡ true
    → is_lawful (discovery_row owner id d r) ≡ true
unfolding discovery_row
discovery_row-lawful owner id d known r h =
    let sized : is_sized r ≡ true = ground (arith, h) in
    let still = discovery_row-is_sized owner id d r sized in ground (arith, still, known, h)

delete_row-is_sized :
    (owner id : Uuid) (now until : ℕ) (r : AssetRow)
    → is_sized r ≡ true
    → is_sized (delete_row owner id now until r) ≡ true
unfolding delete_row is_sized
delete_row-is_sized owner id now until r h = ground (arith, h)

pub delete_row-lawful :
    (owner id : Uuid) (now until : ℕ) (r : AssetRow)
    → is_lawful r ≡ true
    → is_lawful (delete_row owner id now until r) ≡ true
unfolding delete_row is_deletable
delete_row-lawful owner id now until r h =
    let sized : is_sized r ≡ true = ground (arith, h) in
    let still = delete_row-is_sized owner id now until r sized in ground (arith, still, h)

restore_row-is_sized :
    (owner id : Uuid) (now : ℕ) (r : AssetRow)
    → is_sized r ≡ true
    → is_sized (restore_row owner id now r) ≡ true
unfolding restore_row is_sized
restore_row-is_sized owner id now r h = ground (arith, h)

pub restore_row-lawful :
    (owner id : Uuid) (now : ℕ) (r : AssetRow)
    → is_lawful r ≡ true
    → is_lawful (restore_row owner id now r) ≡ true
unfolding restore_row is_restorable
restore_row-lawful owner id now r h =
    let sized : is_sized r ≡ true = ground (arith, h) in
    let still = restore_row-is_sized owner id now r sized in ground (arith, still, h)

withhold_row-is_sized :
    (id actor : Uuid) (reason : String) (now : ℕ) (r : AssetRow)
    → is_sized r ≡ true
    → is_sized (withhold_row id actor reason now r) ≡ true
unfolding withhold_row is_sized
withhold_row-is_sized id actor reason now r h = ground (arith, h)

pub withhold_row-lawful :
    (id actor : Uuid) (reason : String) (now : ℕ) (r : AssetRow)
    → is_lawful r ≡ true
    → is_lawful (withhold_row id actor reason now r) ≡ true
unfolding withhold_row is_withholdable
withhold_row-lawful id actor reason now r h =
    let sized : is_sized r ≡ true = ground (arith, h) in
    let still = withhold_row-is_sized id actor reason now r sized in ground (arith, still, h)

clear_row-is_sized :
    (id : Uuid) (r : AssetRow) → is_sized r ≡ true → is_sized (clear_row id r) ≡ true
unfolding clear_row is_sized
clear_row-is_sized id r h = ground (arith, h)

pub clear_row-lawful :
    (id : Uuid) (r : AssetRow) → is_lawful r ≡ true → is_lawful (clear_row id r) ≡ true
unfolding clear_row is_clearable
clear_row-lawful id r h =
    let sized : is_sized r ≡ true = ground (arith, h) in
    let still = clear_row-is_sized id r sized in ground (arith, still, h)

pub publish_row-id : (id : Uuid) (r : AssetRow) → (publish_row id r).id ≡ r.id
unfolding publish_row
publish_row-id id r = ground arith

pub publish_row-elsewhere : (id : Uuid) (r : AssetRow) → r.id == id ≡ false → publish_row id r ≡ r
unfolding publish_row
publish_row-elsewhere id r other = rw other refl

pub identity_row-id :
    (id : Uuid) (name : String) (is_nsfw : Option Bool) (moved : ℕ) (r : AssetRow)
    → (identity_row id name is_nsfw moved r).id ≡ r.id
unfolding identity_row
identity_row-id id name is_nsfw moved r = ground arith

pub identity_row-elsewhere :
    (id : Uuid) (name : String) (is_nsfw : Option Bool) (moved : ℕ) (r : AssetRow)
    → r.id == id ≡ false
    → identity_row id name is_nsfw moved r ≡ r
unfolding identity_row
identity_row-elsewhere id name is_nsfw moved r other = rw other refl

pub moved_row-id : (id : Uuid) (moved : Bool) (r : AssetRow) → (moved_row id moved r).id ≡ r.id
unfolding moved_row
moved_row-id id moved r = ground arith

pub moved_row-elsewhere :
    (id : Uuid) (moved : Bool) (r : AssetRow) → r.id == id ≡ false → moved_row id moved r ≡ r
unfolding moved_row
moved_row-elsewhere id moved r other = rw other refl

pub discovery_row-id :
    (owner id : Uuid) (d : String) (r : AssetRow) → (discovery_row owner id d r).id ≡ r.id
unfolding discovery_row
discovery_row-id owner id d r = ground arith

pub delete_row-id :
    (owner id : Uuid) (now until : ℕ) (r : AssetRow) → (delete_row owner id now until r).id ≡ r.id
unfolding delete_row
delete_row-id owner id now until r = ground arith

pub restore_row-id :
    (owner id : Uuid) (now : ℕ) (r : AssetRow) → (restore_row owner id now r).id ≡ r.id
unfolding restore_row
restore_row-id owner id now r = ground arith

pub withhold_row-id :
    (id actor : Uuid) (reason : String) (now : ℕ) (r : AssetRow)
    → (withhold_row id actor reason now r).id ≡ r.id
unfolding withhold_row
withhold_row-id id actor reason now r = ground arith

pub clear_row-id : (id : Uuid) (r : AssetRow) → (clear_row id r).id ≡ r.id
unfolding clear_row
clear_row-id id r = ground arith
