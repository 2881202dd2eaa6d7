-- ===== src/Asset/Lifecycle/Moves.antt =====
-- Each operation of the lifecycle leaves the library as it was, or makes one update under its guard:
-- what the guarded updates keep, the operations keep.
use lumi_hub.Asset.Lifecycle.{
  delete_asset, is_discovery, max_name_runes, publish, readiness, ready, recovery_window, restore,
  rune_count, set_discovery, set_identity, trim_space, withhold,
}
use lumi_hub.Asset.Lifecycle.Publish.{ready-readiness}
use lumi_hub.Asset.Table.{
  AssetRow, Library, change, delete_row, discovery_row, identity_row, is_deletable, is_discoverable,
  is_of, is_restorable, is_standing, is_withholdable, lifecycle_draft, publish_row, restore_row,
  withhold_row,
}
use lumi_hub.Base.{
  Bool, Bool-cases, List, Option, Option-cases, String, any_of, arith, false, find_first, inl, inr,
  ltb, nat_eq, not, some, string_eq, true, ℕ, ◌&&◌, ◌+◌, ◌==◌, ◌≡◌,
}
use lumi_hub.Block.Content.{Block, Uuid, is_none}

pub record Updates (P : Library → Type 0) : Type 0 where
  pub publishes :
      (owner id : Uuid) (r : AssetRow) (s : Library)
      → find_first (is_standing owner id) s.assets ≡ some r
      → is_none r.withheld_at ≡ true
      → is_none r.is_nsfw ≡ false
      → P s
      → P (change (publish_row id) s)
  pub identifies :
      (owner id : Uuid) (name : String) (is_nsfw : Option Bool) (moved : ℕ) (r : AssetRow)
      (s : Library)
      → find_first (is_standing owner id) s.assets ≡ some r
      → is_none r.withheld_at ≡ true
      → (is_none is_nsfw && not (r.lifecycle == lifecycle_draft)) ≡ false
      → P s
      → P (change (identity_row id name is_nsfw moved) s)
  pub discovers :
      (owner id : Uuid) (d : String) (s : Library)
      → is_discovery d ≡ true
      → P s
      → P (change (discovery_row owner id d) s)
  pub deletes :
      (owner id : Uuid) (now until : ℕ) (s : Library)
      → P s
      → P (change (delete_row owner id now until) s)
  pub restores :
      (owner id : Uuid) (now : ℕ) (s : Library) → P s → P (change (restore_row owner id now) s)
  pub withholds :
      (id actor : Uuid) (reason : String) (now : ℕ) (s : Library)
      → P s
      → P (change (withhold_row id actor reason now) s)

module _ {P : Library → Type 0} (u : Updates P) where
  pub publish-keeps : (owner id : Uuid) (s : Library) → P s → P (publish owner id s).1
  unfolding publish
  publish-keeps owner id s p = elim (Option-cases (find_first (is_standing owner id) s.assets)) [
    | inl missing ↦ rw (missing, publish) p
    | inr (r, found) ↦ elim (Bool-cases (is_none r.withheld_at)) [
      | inr withheld ↦ rw (found, withheld, publish) p
      | inl unheld ↦ elim (Bool-cases (r.lifecycle == lifecycle_draft)) [
        | inr out ↦ rw (found, unheld, out, publish) p
        | inl drafted ↦ elim (Bool-cases (ready (readiness r.kind r.name r.is_nsfw (s.pages id)))) [
          | inr lacking ↦ rw (found, unheld, drafted, lacking, publish) p
          | inl complete ↦
              rw (found, unheld, drafted, complete, publish)
                (u.publishes owner id r s found unheld
                  (ground (arith, complete, ready-readiness r.kind r.name r.is_nsfw (s.pages id)))
                  p)
        ]
      ]
    ]
  ]

  pub set_identity-keeps :
      (fingerprint : AssetRow → List Block → ℕ) (owner id : Uuid) (raw : String)
      (is_nsfw : Option Bool) (s : Library)
      → P s
      → P (set_identity fingerprint owner id raw is_nsfw s).1
  unfolding set_identity
  set_identity-keeps fingerprint owner id raw is_nsfw s p =
      elim (Bool-cases (ltb max_name_runes (rune_count (trim_space raw)))) [
        | inl long ↦ rw (long, set_identity) p
        | inr short ↦ elim (Option-cases (find_first (is_standing owner id) s.assets)) [
          | inl missing ↦ rw (short, missing, set_identity) p
          | inr (r, found) ↦ elim (Bool-cases (is_none r.withheld_at)) [
            | inr withheld ↦ rw (short, found, withheld, set_identity) p
            | inl unheld ↦
                elim (Bool-cases (is_none is_nsfw && not (r.lifecycle == lifecycle_draft))) [
                  | inl unanswered ↦ rw (short, found, unheld, unanswered, set_identity) p
                  | inr fair ↦
                      rw (short, found, unheld, fair, set_identity)
                        (u.identifies owner id (trim_space raw) is_nsfw _ r s found unheld fair p)
                ]
          ]
        ]
      ]

  pub set_discovery-keeps :
      (owner id : Uuid) (d : String) (s : Library) → P s → P (set_discovery owner id d s).1
  unfolding set_discovery
  set_discovery-keeps owner id d s p = elim (Bool-cases (is_discovery d)) [
    | inr odd ↦ rw (odd, set_discovery) p
    | inl known ↦ elim (Bool-cases (any_of (is_discoverable owner id) s.assets)) [
      | inl some_one ↦ rw (known, some_one, set_discovery) (u.discovers owner id d s known p)
      | inr no_one ↦ elim (Option-cases (find_first (is_standing owner id) s.assets)) [
        | inl missing ↦ rw (known, no_one, missing, set_discovery) p
        | inr (r, found) ↦ rw (known, no_one, found, set_discovery) p
      ]
    ]
  ]

  pub delete_asset-keeps :
      (owner id : Uuid) (now : ℕ) (s : Library) → P s → P (delete_asset owner id now s).1
  unfolding delete_asset
  delete_asset-keeps owner id now s p = elim (Option-cases (find_first (is_of owner id) s.assets)) [
    | inl missing ↦ rw (missing, delete_asset) p
    | inr (r, found) ↦ elim (Bool-cases (is_none r.deleted_at)) [
      | inr gone ↦ rw (found, gone, delete_asset) p
      | inl here ↦ elim (Bool-cases (is_none r.withheld_at)) [
        | inr withheld ↦ rw (found, here, withheld, delete_asset) p
        | inl unheld ↦ elim (Bool-cases (any_of (is_deletable owner id) s.assets)) [
          | inl some_one ↦
              rw (found, here, unheld, some_one, delete_asset)
                (u.deletes owner id now (now + recovery_window) s p)
          | inr no_one ↦ rw (found, here, unheld, no_one, delete_asset) p
        ]
      ]
    ]
  ]

  pub restore-keeps : (owner id : Uuid) (now : ℕ) (s : Library) → P s → P (restore owner id now s).1
  unfolding restore
  restore-keeps owner id now s p =
      elim (Bool-cases (any_of (is_restorable owner id now) s.assets)) [
        | inl some_one ↦ rw (some_one, restore) (u.restores owner id now s p)
        | inr no_one ↦ rw (no_one, restore) p
      ]

  pub withhold-keeps :
      (id actor : Uuid) (raw : String) (now : ℕ) (s : Library)
      → P s
      → P (withhold id actor raw now s).1
  unfolding withhold
  withhold-keeps id actor raw now s p = elim (Bool-cases (trim_space raw == "")) [
    | inl bare ↦ rw (bare, withhold) p
    | inr given ↦ elim (Bool-cases (any_of (is_withholdable id) s.assets)) [
      | inl some_one ↦
          rw (given, some_one, withhold) (u.withholds id actor (trim_space raw) now s p)
      | inr no_one ↦ rw (given, no_one, withhold) p
    ]
  ]
