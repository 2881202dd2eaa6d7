-- ===== src/Asset/Lifecycle/Runs.antt =====
-- What may happen to the library, one transaction after the other, in any order and at any time.
use lumi_hub.Asset.Lifecycle.{
  clear_withhold, delete_asset, is_discovery, lock_editable_asset, lock_media_owner,
  lock_revision_target, publish, restore, set_discovery, set_identity, withhold,
}
use lumi_hub.Asset.Lifecycle.Moves.{
  Updates, delete_asset-keeps, publish-keeps, restore-keeps, set_discovery-keeps,
  set_identity-keeps, withhold-keeps,
}
use lumi_hub.Asset.Lifecycle.Rows.{is_sized}
use lumi_hub.Asset.Table.{
  AssetRow, Library, change, clear_row, is_clearable, is_standing, lifecycle_draft,
  lifecycle_published, moved_row,
}
use lumi_hub.Base.{
  Bool, Bool-cases, List, Option, Option-cases, String, any_of, arith, false, find_first,
  if◌then◌else◌, inl, inr, nat_eq, not, ok, some, string_eq, true, ℕ, ◌&&◌, ◌==◌, ◌||◌, ◌∷◌, ◌≡◌,
}
use lumi_hub.Block.Content.{Block, Uuid, is_none}

abbrev pub has_id : Uuid → AssetRow → Bool
has_id id r = r.id == id

-- The rows that `StartFromNothing`, the ingest of a file and `Create` insert: a draft, or a published
-- asset with its adult content answered, of a known kind, in a valid discovery state, with a
-- generation, no hold and no deletion.
abbrev pub is_new : AssetRow → Bool
is_new r =
    is_sized r
    && ((r.lifecycle == lifecycle_draft
          || (r.lifecycle == lifecycle_published && not (is_none r.is_nsfw)))
        && (is_discovery r.discovery
            && (is_none r.withheld_at
                && (is_none r.withheld_by
                    && (is_none r.withheld_reason
                        && (is_none r.deleted_at && is_none r.recoverable_until))))))

-- `insertAsset` and `insertBlocks`
unfoldable pub insert_asset : AssetRow → List Block → Library → Library
insert_asset r page s = record {
  assets = r ∷ s.assets;
  pages = λ id. if id == r.id then page else s.pages id;
}

-- A change of what the file of an asset holds: its page, and the generation of its row where the
-- fingerprint of the file moved. The fingerprint also reads tables that the model does not have.
unfoldable pub put_page : Uuid → List Block → Bool → Library → Library
put_page id page moved s = record (change (moved_row id moved) s) {
  pages = λ other. if other == id then page else s.pages other;
}

-- One transaction, where the holds that `may_clear` allows are cleared. `edited` is an edit of the page,
-- or `DeletePreservedNamespace`, which leaves the page; `pictured` is `AddMedia`, and `revised` the
-- ingest of a revision.
pub data Step (fingerprint : AssetRow → List Block → ℕ) (may_clear : Uuid → Bool) (s : Library)
    : Library → Type 0 where
  created :
      (r : AssetRow) (page : List Block)
      → is_new r ≡ true
      → any_of (has_id r.id) s.assets ≡ false
      → Step fingerprint may_clear s (insert_asset r page s)
  made_public : (owner id : Uuid) → Step fingerprint may_clear s (publish owner id s).1
  renamed :
      (owner id : Uuid) (name : String) (is_nsfw : Option Bool)
      → Step fingerprint may_clear s (set_identity fingerprint owner id name is_nsfw s).1
  listed :
      (owner id : Uuid) (d : String) → Step fingerprint may_clear s (set_discovery owner id d s).1
  deleted :
      (owner id : Uuid) (now : ℕ) → Step fingerprint may_clear s (delete_asset owner id now s).1
  restored : (owner id : Uuid) (now : ℕ) → Step fingerprint may_clear s (restore owner id now s).1
  withheld :
      (id actor : Uuid) (reason : String) (now : ℕ)
      → Step fingerprint may_clear s (withhold id actor reason now s).1
  cleared : (id : Uuid) → may_clear id ≡ true → Step fingerprint may_clear s (clear_withhold id s).1
  edited :
      (owner id : Uuid) (page : List Block) (moved : Bool) {kind : String}
      → lock_editable_asset owner id s ≡ ok kind
      → Step fingerprint may_clear s (put_page id page moved s)
  pictured :
      (owner id : Uuid) (moved : Bool)
      → lock_media_owner owner id s ≡ ok tt
      → Step fingerprint may_clear s (put_page id (s.pages id) moved s)
  revised :
      (owner id : Uuid) (page : List Block) (moved : Bool)
      → lock_revision_target id owner s ≡ ok tt
      → Step fingerprint may_clear s (put_page id page moved s)

pub data Runs (fingerprint : AssetRow → List Block → ℕ) (may_clear : Uuid → Bool) (s : Library)
    : Library → Type 0 where
  at_rest : Runs fingerprint may_clear s s
  then_one :
      {t u : Library}
      → Runs fingerprint may_clear s t
      → Step fingerprint may_clear t u
      → Runs fingerprint may_clear s u

-- Each guard of a change of the file finds a row that is not withheld.
abbrev IsOpen : Uuid → Uuid → Library → Type 0
IsOpen owner id s =
    (r : AssetRow) × (find_first (is_standing owner id) s.assets ≡ some r)
    × (is_none r.withheld_at ≡ true)

lock_editable_asset-IsOpen :
    (owner id : Uuid) (s : Library) {kind : String}
    → lock_editable_asset owner id s ≡ ok kind
    → IsOpen owner id s
unfolding lock_editable_asset
lock_editable_asset-IsOpen owner id s locked =
    elim (Option-cases (find_first (is_standing owner id) s.assets)) [
      | inl missing ↦ absurd (ground (arith, missing, locked))
      | inr (r, found) ↦ (r, found, ground (arith, found, locked))
    ]

lock_media_owner-IsOpen :
    (owner id : Uuid) (s : Library) → lock_media_owner owner id s ≡ ok tt → IsOpen owner id s
unfolding lock_media_owner
lock_media_owner-IsOpen owner id s locked =
    elim (Option-cases (find_first (is_standing owner id) s.assets)) [
      | inl missing ↦ absurd (ground (arith, missing, locked))
      | inr (r, found) ↦ (r, found, ground (arith, found, locked))
    ]

lock_revision_target-IsOpen :
    (owner id : Uuid) (s : Library) → lock_revision_target id owner s ≡ ok tt → IsOpen owner id s
unfolding lock_revision_target
lock_revision_target-IsOpen owner id s locked =
    elim (Option-cases (find_first (is_standing owner id) s.assets)) [
      | inl missing ↦ absurd (ground (arith, missing, locked))
      | inr (r, found) ↦ (r, found, ground (arith, found, locked))
    ]

clear_withhold-keeps :
    (P : Library → Type 0) (id : Uuid) (s : Library)
    → P s
    → P (change (clear_row id) s)
    → P (clear_withhold id s).1
unfolding clear_withhold
clear_withhold-keeps P id s p q = elim (Bool-cases (any_of (is_clearable id) s.assets)) [
  | inl some_one ↦ rw (some_one, clear_withhold) q
  | inr no_one ↦ rw (no_one, clear_withhold) p
]

-- What the updates keep, and what creation, clearing and edits keep, every run keeps.
module _ {fingerprint : AssetRow → List Block → ℕ} {may_clear : Uuid → Bool} {P : Library → Type 0}
    (updates : Updates P)
    (creates : (r : AssetRow) (page : List Block) (s : Library)
      → is_new r ≡ true
      → any_of (has_id r.id) s.assets ≡ false
      → P s
      → P (insert_asset r page s))
    (clears : (id : Uuid) (s : Library) → may_clear id ≡ true → P s → P (change (clear_row id) s))
    (edits : (owner id : Uuid) (page : List Block) (moved : Bool) (r : AssetRow) (s : Library)
      → find_first (is_standing owner id) s.assets ≡ some r
      → is_none r.withheld_at ≡ true
      → P s
      → P (put_page id page moved s)) where
  Step-keeps : {s t : Library} → Step fingerprint may_clear s t → P s → P t
  Step-keeps {s} (created r page new fresh) p = creates r page s new fresh p
  Step-keeps {s} (made_public owner id) p = publish-keeps updates owner id s p
  Step-keeps {s} (renamed owner id name is_nsfw) p =
      set_identity-keeps updates fingerprint owner id name is_nsfw s p
  Step-keeps {s} (listed owner id d) p = set_discovery-keeps updates owner id d s p
  Step-keeps {s} (deleted owner id now) p = delete_asset-keeps updates owner id now s p
  Step-keeps {s} (restored owner id now) p = restore-keeps updates owner id now s p
  Step-keeps {s} (withheld id actor reason now) p = withhold-keeps updates id actor reason now s p
  Step-keeps {s} (cleared id allowed) p = clear_withhold-keeps P id s p (clears id s allowed p)
  Step-keeps {s} (edited owner id page moved locked) p =
      let (r, found, unheld) = lock_editable_asset-IsOpen owner id s locked in
      edits owner id page moved r s found unheld p
  Step-keeps {s} (pictured owner id moved locked) p =
      let (r, found, unheld) = lock_media_owner-IsOpen owner id s locked in
      edits owner id (s.pages id) moved r s found unheld p
  Step-keeps {s} (revised owner id page moved locked) p =
      let (r, found, unheld) = lock_revision_target-IsOpen owner id s locked in
      edits owner id page moved r s found unheld p

  pub Runs-keeps : {s t : Library} → Runs fingerprint may_clear s t → P s → P t
  Runs-keeps at_rest p = p
  Runs-keeps (then_one before step) p = Step-keeps step (Runs-keeps before p)
