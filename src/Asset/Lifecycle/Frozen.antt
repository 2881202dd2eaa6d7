-- ===== src/Asset/Lifecycle/Frozen.antt =====
-- A withheld asset is frozen until an administrator clears the hold.
use mathlib.Core.Path.{subst}
use lumi_hub.Asset.Lifecycle.Moves.{Updates}
use lumi_hub.Asset.Lifecycle.Rows.{
  clear_row-id, delete_row-id, discovery_row-id, identity_row-elsewhere, identity_row-id,
  moved_row-elsewhere, moved_row-id, publish_row-elsewhere, publish_row-id, restore_row-id,
  standing_id, withhold_row-id,
}
use lumi_hub.Asset.Lifecycle.Runs.{Runs, Runs-keeps, has_id, insert_asset, put_page}
use lumi_hub.Asset.Table.{
  AssetRow, Library, change, clear_row, delete_row, discovery_row, identity_row, is_clearable,
  is_deletable, is_discoverable, is_restorable, is_standing, is_withholdable, moved_row,
  publish_row, restore_row, withhold_row,
}
use lumi_hub.Base.{
  ==-cases, ==-refl, ==→eq, Bool, Bool-cases, Has, List, String, [], all_of, all_of-Has, and_true,
  any_of, ap, arith, beq→neq, false, find_first, find_first-Has, inl, inr, keep, map, nat_eq,
  neq→beq, not, refl, some, string_eq, sym, true, ℕ, ◌&&◌, ◌==◌, ◌∙◌, ◌∷◌, ◌≡◌,
}
use lumi_hub.Block.Content.{Block, Uuid, is_none}

abbrev pub is_held : AssetRow → Bool
is_held r = not (is_none r.withheld_at) && is_none r.deleted_at

-- What a frozen asset must keep: its rows in the table, and its page.
pub record IsFrozenAs (id : Uuid) (rows : List AssetRow) (page : List Block) (s : Library)
    : Type 0 where
  pub same_rows : keep (has_id id) s.assets ≡ rows
  pub same_page : s.pages id ≡ page

Has-keep_back :
    (p : AssetRow → Bool) (rs : List AssetRow) {r : AssetRow}
    → Has r rs
    → p r ≡ true
    → Has r (keep p rs)
Has-keep_back p [] stands holds = absurd stands
Has-keep_back p (q ∷ qs) {r} stands holds = elim (Bool-cases (p q)) [
  | inl here ↦ elim stands [
    | inl same ↦ rw here (inl same)
    | inr later ↦ rw here (inr (Has-keep_back p qs later holds))
  ]
  | inr out ↦ elim stands [
    | inl same ↦ absurd (cc (out, ap p same, holds))
    | inr later ↦ rw out (Has-keep_back p qs later holds)
  ]
]

any_of-keep :
    (p : AssetRow → Bool) (rs : List AssetRow) → any_of p (keep p rs) ≡ true → any_of p rs ≡ true
any_of-keep p [] h = h
any_of-keep p (r ∷ rs) h = elim (Bool-cases (p r)) [
  | inl here ↦ ground (arith, here)
  | inr out ↦ ground (arith, out, any_of-keep p rs (rw out at h))
]

discovery_row-held :
    (owner other : Uuid) (d : String) (r : AssetRow)
    → is_held r ≡ true
    → discovery_row owner other d r ≡ r
unfolding discovery_row is_discoverable
discovery_row-held owner other d r h = ground (arith, h)

delete_row-held :
    (owner other : Uuid) (now until : ℕ) (r : AssetRow)
    → is_held r ≡ true
    → delete_row owner other now until r ≡ r
unfolding delete_row is_deletable
delete_row-held owner other now until r h = ground (arith, h)

restore_row-held :
    (owner other : Uuid) (now : ℕ) (r : AssetRow)
    → is_held r ≡ true
    → restore_row owner other now r ≡ r
unfolding restore_row is_restorable
restore_row-held owner other now r h = ground (arith, h)

withhold_row-held :
    (other actor : Uuid) (reason : String) (now : ℕ) (r : AssetRow)
    → is_held r ≡ true
    → withhold_row other actor reason now r ≡ r
unfolding withhold_row is_withholdable
withhold_row-held other actor reason now r h = ground (arith, h)

clear_row-elsewhere : (id : Uuid) (r : AssetRow) → r.id == id ≡ false → clear_row id r ≡ r
unfolding clear_row is_clearable
clear_row-elsewhere id r other = ground (arith, other)

any_of-keep_back :
    (p : AssetRow → Bool) (rs : List AssetRow) → any_of p rs ≡ true → any_of p (keep p rs) ≡ true
any_of-keep_back p [] h = h
any_of-keep_back p (r ∷ rs) h = elim (Bool-cases (p r)) [
  | inl here ↦ ground (arith, here)
  | inr out ↦ ground (arith, out, any_of-keep_back p rs (rw out at h))
]

-- An update that leaves held rows alone leaves the rows alone.
keep-map :
    (f : AssetRow → AssetRow) (id : Uuid)
    → ((r : AssetRow) → (f r).id ≡ r.id)
    → ((r : AssetRow) → r.id == id ≡ true → is_held r ≡ true → f r ≡ r)
    → (rs : List AssetRow) → all_of is_held (keep (has_id id) rs) ≡ true
    → keep (has_id id) (map f rs) ≡ keep (has_id id) rs
keep-map f id same_id still [] held_all = refl
keep-map f id same_id still (r ∷ rs) held_all = elim (Bool-cases (r.id == id)) [
  | inl here ↦
      let both : (is_held r && all_of is_held (keep (has_id id) rs)) ≡ true = rw here at held_all in
      let (first, rest) = and_true (is_held r) (all_of is_held (keep (has_id id) rs)) both in
      rw (still r here first, here) (ap (λ qs. r ∷ qs) (keep-map f id same_id still rs rest))
  | inr out ↦
      let apart : (f r).id == id ≡ false = ap (λ i. i == id) (same_id r) ∙ out in
      rw (apart, out) (keep-map f id same_id still rs (rw out at held_all))
]

module _ (id : Uuid) (rows : List AssetRow) (page : List Block)
    (held_all : all_of is_held rows ≡ true) (there : any_of (has_id id) rows ≡ true) where
  change-IsFrozenAs :
      (f : AssetRow → AssetRow)
      → ((r : AssetRow) → (f r).id ≡ r.id)
      → ((r : AssetRow) → r.id == id ≡ true → is_held r ≡ true → f r ≡ r)
      → (s : Library) → IsFrozenAs id rows page s
      → IsFrozenAs id rows page (change f s)
  unfolding change
  change-IsFrozenAs f same_id still s z = record {
    same_rows =
        keep-map f id same_id still s.assets (ap (all_of is_held) z.same_rows ∙ held_all)
        ∙ z.same_rows;
    same_page = z.same_page;
  }

  -- No guard finds a row of the asset that is not withheld.
  found_elsewhere :
      (owner other : Uuid) (r : AssetRow) (s : Library)
      → IsFrozenAs id rows page s
      → find_first (is_standing owner other) s.assets ≡ some r
      → is_none r.withheld_at ≡ true
      → other == id ≡ false
  found_elsewhere owner other r s z found unheld = elim (==-cases other id) [
    | inr apart ↦ apart
    | inl same ↦
        let at_id : r.id ≡ id = standing_id owner other s found ∙ same in
        let mine : Has r rows =
          subst (λ rs. Has r rs) z.same_rows
            (Has-keep_back (has_id id) s.assets
              (find_first-Has (is_standing owner other) s.assets found)
              (ap (λ i. i == id) at_id ∙ ==-refl id)) in
        absurd (ground (arith, all_of-Has is_held rows held_all mine, unheld))
  ]

  other_row :
      (other : Uuid) (r : AssetRow)
      → other == id ≡ false
      → r.id == id ≡ true
      → r.id == other ≡ false
  other_row other r apart here =
      neq→beq r.id other (λ e. beq→neq other id apart (sym e ∙ ==→eq r.id id here))

  IsFrozenAs-Updates : Updates (IsFrozenAs id rows page)
  IsFrozenAs-Updates = record {
    publishes = λ owner other r s found unheld answered z.
        change-IsFrozenAs (publish_row other) (publish_row-id other)
          (λ q here h.
            publish_row-elsewhere other q
              (other_row other q (found_elsewhere owner other r s z found unheld) here))
          s z;
    identifies = λ owner other name is_nsfw moved r s found unheld fair z.
        change-IsFrozenAs (identity_row other name is_nsfw moved)
          (identity_row-id other name is_nsfw moved)
          (λ q here h.
            identity_row-elsewhere other name is_nsfw moved q
              (other_row other q (found_elsewhere owner other r s z found unheld) here))
          s z;
    discovers = λ owner other d s known z.
        change-IsFrozenAs (discovery_row owner other d) (discovery_row-id owner other d)
          (λ q here h. discovery_row-held owner other d q h) s z;
    deletes = λ owner other now until s z.
        change-IsFrozenAs (delete_row owner other now until) (delete_row-id owner other now until)
          (λ q here h. delete_row-held owner other now until q h) s z;
    restores = λ owner other now s z.
        change-IsFrozenAs (restore_row owner other now) (restore_row-id owner other now)
          (λ q here h. restore_row-held owner other now q h) s z;
    withholds = λ other actor reason now s z.
        change-IsFrozenAs (withhold_row other actor reason now)
          (withhold_row-id other actor reason now)
          (λ q here h. withhold_row-held other actor reason now q h) s z;
  }

  insert_asset-IsFrozenAs :
      (r : AssetRow) (new_page : List Block) (s : Library)
      → any_of (has_id r.id) s.assets ≡ false
      → IsFrozenAs id rows page s
      → IsFrozenAs id rows page (insert_asset r new_page s)
  unfolding insert_asset
  insert_asset-IsFrozenAs r new_page s fresh z =
      let present : any_of (has_id id) s.assets ≡ true =
        any_of-keep (has_id id) s.assets (ap (any_of (has_id id)) z.same_rows ∙ there) in
      let apart : r.id == id ≡ false =
        neq→beq r.id id (λ e. cc (fresh, present, ap (λ i. any_of (has_id i) s.assets) e)) in
      let apart_too : id == r.id ≡ false = neq→beq id r.id (λ e. beq→neq r.id id apart (sym e)) in
      record { same_rows = rw apart z.same_rows; same_page = rw apart_too z.same_page }

  put_page-IsFrozenAs :
      (owner other : Uuid) (new_page : List Block) (moved : Bool) (r : AssetRow) (s : Library)
      → find_first (is_standing owner other) s.assets ≡ some r
      → is_none r.withheld_at ≡ true
      → IsFrozenAs id rows page s
      → IsFrozenAs id rows page (put_page other new_page moved s)
  unfolding put_page
  put_page-IsFrozenAs owner other new_page moved r s found unheld z =
      let apart : other == id ≡ false = found_elsewhere owner other r s z found unheld in
      let apart_too : id == other ≡ false =
        neq→beq id other (λ e. beq→neq other id apart (sym e)) in
      let row_kept : IsFrozenAs id rows page (change (moved_row other moved) s) =
        change-IsFrozenAs (moved_row other moved) (moved_row-id other moved)
          (λ q here h. moved_row-elsewhere other moved q (other_row other q apart here)) s z in
      record { same_rows = row_kept.same_rows; same_page = rw apart_too z.same_page }

-- Whatever is created, published, renamed, listed, deleted, restored, withheld, cleared for other
-- assets, edited, given a picture and revised through the operations of this model, a withheld asset
-- that is not deleted keeps the columns of `AssetRow`, its content generation among them, and its page.
pub Runs-frozen :
    {fingerprint : AssetRow → List Block → ℕ} (id : Uuid) {s t : Library}
    → any_of (has_id id) s.assets ≡ true
    → all_of is_held (keep (has_id id) s.assets) ≡ true
    → Runs fingerprint (λ other. not (other == id)) s t
    → (keep (has_id id) t.assets ≡ keep (has_id id) s.assets) × (t.pages id ≡ s.pages id)
Runs-frozen {fingerprint} id {s} {t} present held_all run = (after.same_rows, after.same_page)
  where
    there : any_of (has_id id) (keep (has_id id) s.assets) ≡ true
    there = any_of-keep_back (has_id id) s.assets present

    after : IsFrozenAs id (keep (has_id id) s.assets) (s.pages id) t
    after =
        Runs-keeps (IsFrozenAs-Updates id (keep (has_id id) s.assets) (s.pages id) held_all there)
          (λ r new_page q new fresh z.
            insert_asset-IsFrozenAs id (keep (has_id id) s.assets) (s.pages id) held_all there r
              new_page q fresh z)
          (λ other q allowed z.
            change-IsFrozenAs id (keep (has_id id) s.assets) (s.pages id) held_all there
              (clear_row other) (clear_row-id other)
              (λ r here h. clear_row-elsewhere other r (
                other_row id (keep (has_id id) s.assets) (s.pages id) held_all there other r
                  (ground (arith, allowed)) here))
              q z)
          (λ owner other new_page moved r q found unheld z.
            put_page-IsFrozenAs id (keep (has_id id) s.assets) (s.pages id) held_all there owner
              other new_page moved r q found unheld z)
          run (record { same_rows = refl; same_page = refl })
