-- ===== src/Asset/Lifecycle/Lawful.antt =====
-- What every reachable library satisfies: `assets_pkey`, the check constraints of the table `assets`
-- on the columns of `AssetRow` (api/migrations 00008, 00019, 00026, 00027 and 00030), and what the code
-- promises beyond them.
use lumi_hub.Asset.Lifecycle.Moves.{Updates}
use lumi_hub.Asset.Lifecycle.Rows.{
  clear_row-id, clear_row-lawful, delete_row-id, delete_row-lawful, discovery_row-id,
  discovery_row-lawful, identity_row-elsewhere, identity_row-id, identity_row-lawful, is_lawful,
  moved_row-id, moved_row-lawful, publish_row-elsewhere, publish_row-id, publish_row-lawful,
  restore_row-id, restore_row-lawful, standing_id, withhold_row-id, withhold_row-lawful,
}
use lumi_hub.Asset.Lifecycle.Runs.{Runs, Runs-keeps, has_id, insert_asset, is_new, put_page}
use lumi_hub.Asset.Table.{
  AssetRow, Library, change, clear_row, delete_row, discovery_row, identity_row, is_standing,
  moved_row, publish_row, restore_row, withhold_row,
}
use lumi_hub.Base.{
  Bool, Bool-cases, Has, List, [], all_of, all_of-Has, and_true, any_of, any_of-Has, ap, arith,
  beq→neq, false, find_first, find_first-Has, inl, inr, map, nat_eq, neq→beq, not, refl, some,
  some_eq, string_eq, sym, true, ℕ, ◌&&◌, ◌==◌, ◌∙◌, ◌∷◌, ◌≡◌,
}
use lumi_hub.Block.Content.{Block, Uuid}

abbrev pub is_keyed : List AssetRow → Bool
is_keyed [] = true
is_keyed (r ∷ rs) = not (any_of (has_id r.id) rs) && is_keyed rs

pub record IsLawful (s : Library) : Type 0 where
  pub keyed : is_keyed s.assets ≡ true
  pub lawful : all_of is_lawful s.assets ≡ true

module _ (f : AssetRow → AssetRow) (same_id : (r : AssetRow) → (f r).id ≡ r.id) where
  any_of-map-has_id :
      (id : Uuid) (rs : List AssetRow) → any_of (has_id id) (map f rs) ≡ any_of (has_id id) rs
  any_of-map-has_id id [] = refl
  any_of-map-has_id id (r ∷ rs) = ground (arith, same_id r, any_of-map-has_id id rs)

  is_keyed-map : (rs : List AssetRow) → is_keyed rs ≡ true → is_keyed (map f rs) ≡ true
  is_keyed-map [] keyed = refl
  is_keyed-map (r ∷ rs) keyed =
      let moved : any_of (has_id (f r).id) (map f rs) ≡ any_of (has_id r.id) rs =
        any_of-map-has_id (f r).id rs ∙ ap (λ i. any_of (has_id i) rs) (same_id r) in
      ground (arith, keyed, moved, is_keyed-map rs (ground (arith, keyed)))

  -- An update of which each row keeps to the law.
  change-IsLawful :
      ((r : AssetRow) → is_lawful r ≡ true → is_lawful (f r) ≡ true)
      → (s : Library) → IsLawful s
      → IsLawful (change f s)
  unfolding change
  change-IsLawful keeps s q = record {
    keyed = is_keyed-map s.assets q.keyed;
    lawful = each s.assets q.lawful;
  }
    where
      each : (rs : List AssetRow) → all_of is_lawful rs ≡ true → all_of is_lawful (map f rs) ≡ true
      each [] h = refl
      each (r ∷ rs) h =
          let (first, rest) = and_true (is_lawful r) (all_of is_lawful rs) h in
          rw (keeps r first) (each rs rest)

  module _ (id : Uuid) (elsewhere : (r : AssetRow) → r.id == id ≡ false → f r ≡ r) where
    map-elsewhere : (rs : List AssetRow) → any_of (has_id id) rs ≡ false → map f rs ≡ rs
    map-elsewhere [] h = refl
    map-elsewhere (r ∷ rs) h =
        let apart : r.id == id ≡ false = ground (arith, h) in
        cc (elsewhere r apart, map-elsewhere rs (ground (arith, h, apart)))

    -- The update of the row with the id, which the guard found.
    all_of-map_at :
        (p : AssetRow → Bool) (rs : List AssetRow) (r : AssetRow)
        → is_keyed rs ≡ true
        → all_of is_lawful rs ≡ true
        → find_first p rs ≡ some r
        → r.id ≡ id
        → is_lawful (f r) ≡ true
        → all_of is_lawful (map f rs) ≡ true
    all_of-map_at p [] r keyed lawful found at_id good = absurd (cc found)
    all_of-map_at p (q ∷ qs) r keyed lawful found at_id good =
        let (first, rest) = and_true (is_lawful q) (all_of is_lawful qs) lawful in
        elim (Bool-cases (p q)) [
          | inl here ↦
              let same : q ≡ r = some_eq (rw here at found) in
              let alone : any_of (has_id id) qs ≡ false =
                ap (λ i. any_of (has_id i) qs) (sym (ap (λ (x : AssetRow). x.id) same ∙ at_id))
                ∙ ground (arith, keyed) in
              let head : is_lawful (f q) ≡ true = ap (λ x. is_lawful (f x)) same ∙ good in
              rw (head, map-elsewhere qs alone) rest
          | inr later ↦
              let stands : Has r qs = find_first-Has p qs (rw later at found) in
              let differs : r.id == q.id ≡ false =
                any_of-Has (has_id q.id) qs (ground (arith, keyed)) stands in
              let apart : q.id == id ≡ false =
                neq→beq q.id id (λ e. beq→neq r.id q.id differs (at_id ∙ sym e)) in
              let head : is_lawful (f q) ≡ true = ap is_lawful (elsewhere q apart) ∙ first in
              rw head
                (all_of-map_at p qs r (ground (arith, keyed)) rest (rw later at found) at_id good)
        ]

standing_lawful :
    (owner id : Uuid) (s : Library) {r : AssetRow}
    → IsLawful s
    → find_first (is_standing owner id) s.assets ≡ some r
    → is_lawful r ≡ true
standing_lawful owner id s q found =
    all_of-Has is_lawful s.assets q.lawful (find_first-Has (is_standing owner id) s.assets found)

IsLawful-Updates : Updates IsLawful
unfolding change
IsLawful-Updates = record {
  publishes = λ owner id r s found unheld answered q. record {
    keyed = is_keyed-map (publish_row id) (publish_row-id id) s.assets q.keyed;
    lawful =
        all_of-map_at (publish_row id) (publish_row-id id) id (publish_row-elsewhere id)
          (is_standing owner id) s.assets r q.keyed q.lawful found (standing_id owner id s found)
          (publish_row-lawful id r unheld answered (standing_lawful owner id s q found));
  };
  identifies = λ owner id name is_nsfw moved r s found unheld fair q. record {
    keyed =
        is_keyed-map (identity_row id name is_nsfw moved) (identity_row-id id name is_nsfw moved)
          s.assets q.keyed;
    lawful =
        all_of-map_at (identity_row id name is_nsfw moved) (identity_row-id id name is_nsfw moved)
          id (identity_row-elsewhere id name is_nsfw moved) (is_standing owner id) s.assets r
          q.keyed q.lawful found (standing_id owner id s found)
          (identity_row-lawful id name is_nsfw moved r fair (standing_lawful owner id s q found));
  };
  discovers = λ owner id d s known q.
      change-IsLawful (discovery_row owner id d) (λ r. discovery_row-id owner id d r)
        (discovery_row-lawful owner id d known) s q;
  deletes = λ owner id now until s q.
      change-IsLawful (delete_row owner id now until) (delete_row-id owner id now until)
        (delete_row-lawful owner id now until) s q;
  restores = λ owner id now s q.
      change-IsLawful (restore_row owner id now) (restore_row-id owner id now)
        (restore_row-lawful owner id now) s q;
  withholds = λ id actor reason now s q.
      change-IsLawful (withhold_row id actor reason now) (withhold_row-id id actor reason now)
        (withhold_row-lawful id actor reason now) s q;
}

insert_asset-IsLawful :
    (r : AssetRow) (page : List Block) (s : Library)
    → is_new r ≡ true
    → any_of (has_id r.id) s.assets ≡ false
    → IsLawful s
    → IsLawful (insert_asset r page s)
unfolding insert_asset
insert_asset-IsLawful r page s new fresh q = record {
  keyed = ground (arith, fresh, q.keyed);
  lawful = ground (arith, new, q.lawful);
}

put_page-IsLawful :
    (id : Uuid) (page : List Block) (moved : Bool) (s : Library)
    → IsLawful s
    → IsLawful (put_page id page moved s)
unfolding put_page
put_page-IsLawful id page moved s q =
    let after : IsLawful (change (moved_row id moved) s) =
      change-IsLawful (moved_row id moved) (moved_row-id id moved) (moved_row-lawful id moved) s
        q in
    record { keyed = after.keyed; lawful = after.lawful }

-- Whatever is created, edited, given a picture, revised, published, renamed, listed, deleted,
-- restored, withheld and cleared, in any order, the table of assets keeps to its primary key and to
-- its check constraints on the columns of `AssetRow` (kind, generation, discovery, hold and deletion
-- window); a published
-- asset has its adult content question answered, and only a published asset that is not deleted is
-- withheld, if all this holds at the start.
pub Runs-IsLawful :
    {fingerprint : AssetRow → List Block → ℕ} {s t : Library}
    → Runs fingerprint (λ id. true) s t
    → IsLawful s
    → IsLawful t
Runs-IsLawful run q =
    Runs-keeps IsLawful-Updates (λ r page s new fresh p. insert_asset-IsLawful r page s new fresh p)
      (λ id s allowed p. change-IsLawful (clear_row id) (clear_row-id id) (clear_row-lawful id) s p)
      (λ owner id page moved r s found unheld p. put_page-IsLawful id page moved s p) run q
