-- ===== src/Asset/Lifecycle/Publish.antt =====
-- When `Publish` publishes: the floor of the kind is met by the page.
use lumi_hub.Asset.Lifecycle.{ReadinessItem, publish, readiness, readiness_of, ready}
use lumi_hub.Asset.Table.{AssetRow, Library, is_standing, lifecycle_draft}
use lumi_hub.Base.{
  Bool, List, Option, Option-cases, String, [], all_of, any_of, ap, arith, false, find_first, inl,
  inr, map, nat_eq, not, ok, refl, some, string_eq, true, ◌&&◌, ◌==◌, ◌↔◌, ◌∙◌, ◌∷◌, ◌≡◌,
}
use lumi_hub.Block.Content.{Block, Uuid, is_none}
use lumi_hub.Block.Floor.{Requirement, requirements_of}
use lumi_hub.Block.Floor.Exact.{content_floor_lem, expected_check, holds_written}

-- What publishing waits on, read off the row and the page.
pub record IsPublishable (owner id : Uuid) (s : Library) : Type 0 where
  pub row : AssetRow
  pub first : find_first (is_standing owner id) s.assets ≡ some row
  pub not_withheld : is_none row.withheld_at ≡ true
  pub drafted : row.lifecycle == lifecycle_draft ≡ true
  pub named : row.name == "" ≡ false
  pub answered : is_none row.is_nsfw ≡ false
  pub furnished :
      all_of
        (λ (q : Requirement). any_of (holds_written q.role) (s.pages id))
        (requirements_of row.kind)
      ≡ true

ready-map :
    (blocks : List Block) (qs : List Requirement)
    → ready (map readiness_of (map (expected_check blocks) qs))
      ≡ all_of (λ (q : Requirement). any_of (holds_written q.role) blocks) qs
unfolding ready
ready-map blocks [] = refl
ready-map blocks (q ∷ qs) = cc (ready-map blocks qs)

pub ready-readiness :
    (kind name : String) (is_nsfw : Option Bool) (blocks : List Block)
    → ready (readiness kind name is_nsfw blocks) ≡ (
        not (name == "")
        && (not (is_none is_nsfw)
            && all_of
                (λ (q : Requirement). any_of (holds_written q.role) blocks)
                (requirements_of kind)))
unfolding ready readiness
ready-readiness kind name is_nsfw blocks =
    ap (λ b. not (name == "") && (not (is_none is_nsfw) && b))
      (ap (λ cs. ready (map readiness_of cs)) (content_floor_lem kind blocks)
        ∙ ready-map blocks (requirements_of kind))

-- `Publish` succeeds exactly if the owner has a standing draft with the id that is not withheld, has
-- a name and an adult content answer, and whose page has a written element of every role that its
-- kind requires.
pub publish-IsPublishable :
    (owner id : Uuid) (s : Library)
    → ((items : List ReadinessItem) × ((publish owner id s).0 ≡ ok items))
      ↔ IsPublishable owner id s
unfolding publish
publish-IsPublishable owner id s = (forth, back)
  where
    forth :
        ((items : List ReadinessItem) × ((publish owner id s).0 ≡ ok items))
        → IsPublishable owner id s
    forth (items, h) = elim (Option-cases (find_first (is_standing owner id) s.assets)) [
      | inl missing ↦ absurd (ground (arith, missing, h))
      | inr (r, found) ↦ record {
        row = r;
        first = found;
        not_withheld = ground (arith, found, h);
        drafted = ground (arith, found, h);
        named = ground (arith, found, h, ready-readiness r.kind r.name r.is_nsfw (s.pages id));
        answered = ground (arith, found, h, ready-readiness r.kind r.name r.is_nsfw (s.pages id));
        furnished = ground (arith, found, h, ready-readiness r.kind r.name r.is_nsfw (s.pages id));
      }
    ]

    back :
        IsPublishable owner id s
        → ((items : List ReadinessItem) × ((publish owner id s).0 ≡ ok items))
    back p = (
      readiness p.row.kind p.row.name p.row.is_nsfw (s.pages id),
      ground (
        arith,
        p.first,
        p.not_withheld,
        p.drafted,
        p.named,
        p.answered,
        p.furnished,
        ready-readiness p.row.kind p.row.name p.row.is_nsfw (s.pages id),
      ),
    )
