-- ===== src/Delivery/Collect/Claim.antt =====
-- What `claim` hands out, and that nobody is handed it again before its lease ends.
use mathlib.Core.Path.{subst}
use lumi_hub.Base.{
  Bool, Has, Has-all_of, Has-keep, Has-map, List, Result, Result-cases, all_of, all_of-Has, ap,
  arith, contains, inl, inr, map, nat_eq, ok, string_eq, sym, true, ℕ, ◌+◌, ◌<◌, ◌∙◌, ◌≡◌, ◌≢◌,
}
use lumi_hub.Delivery.Collect.{claim, release_all, taken}
use lumi_hub.Delivery.Collect.Due.{IsDue, abandoned-is_claimable, is_claimable-IsDue}
use lumi_hub.Delivery.Collect.Lease.{
  IsBarred-map, is_barred-abandon, is_barred-claim, is_barred-is_claimable, is_barred_at,
  release_all-Has, release_all-barred,
}
use lumi_hub.Delivery.Collect.Released.{release_all-IsLawful}
use lumi_hub.Delivery.Service.{Catalog, DeliveryError, Instance, Settings, Work}
use lumi_hub.Delivery.Table.{
  Row, abandon_exhausted, abandon_row, candidates, claim_deliveries, claim_row, is_claimable,
  release_row,
}
use lumi_hub.Delivery.Table.Statements.{
  IsLawful, abandon_exhausted-IsLawful, candidates-is_claimable, claim_deliveries-IsLawful,
}

module _ (catalog : Catalog) (instance_of : Instance) (settings : Settings) where
  claim-eq-ok :
      (now clock : ℕ) (may_receive : Bool) (t : List Row) {ws : List Work} {t' : List Row}
      → claim catalog instance_of settings now clock may_receive t ≡ (ok ws, t')
      → let rows = taken catalog instance_of settings now clock may_receive t in
        release_all catalog instance_of now rows.0 rows.1 ≡ ok (ws, t')
  unfolding claim
  claim-eq-ok now clock may_receive t given =
      let rows = taken catalog instance_of settings now clock may_receive t in
      elim (Result-cases (release_all catalog instance_of now rows.0 rows.1)) [
        | inl (e, failing) ↦ absurd (cc (rw (failing, claim) at given))
        | inr (won, released_now) ↦ ground (arith, released_now, given)
      ]

  taken-IsLawful :
      (now clock : ℕ) (may_receive : Bool) (t : List Row)
      → IsLawful settings.max_attempts t
      → IsLawful settings.max_attempts
          (taken catalog instance_of settings now clock may_receive t).1
  unfolding taken
  taken-IsLawful now clock may_receive t sound =
      claim_deliveries-IsLawful (clock + settings.lease) now may_receive instance_of.id
        settings.max_attempts settings.batch
        (abandon_exhausted now instance_of.id settings.max_attempts t)
        (abandon_exhausted-IsLawful now instance_of.id settings.max_attempts t sound)

  -- The rows that a claim takes are candidates before it.
  taken-Has :
      (now clock : ℕ) (may_receive : Bool) (t : List Row) (row : Row)
      → Has row (taken catalog instance_of settings now clock may_receive t).0
      → let aged = abandon_exhausted now instance_of.id settings.max_attempts t in
        (r : Row) × Has r aged
        × (r.id ≡ row.id)
        × (contains
              (candidates now may_receive instance_of.id settings.max_attempts settings.batch aged)
              row.id
            ≡ true)
  unfolding taken claim_deliveries claim_row release_row
  taken-Has now clock may_receive t row stands =
      let aged = abandon_exhausted now instance_of.id settings.max_attempts t in
      let ids =
        candidates now may_receive instance_of.id settings.max_attempts settings.batch aged in
      let moved = claim_row (clock + settings.lease) ids in
      let (there, chosen) = Has-keep (λ (r : Row). contains ids r.id) (map moved aged) stands in
      let (r, origin, same) = Has-map moved aged there in
      let key : r.id ≡ (moved r).id = ground arith in
      (r, origin, key ∙ ap (λ (x : Row). x.id) same, chosen)

  -- `claim` keeps the constraints of the table and the bound on attempts, whether it succeeds or
  -- is rolled back.
  pub claim-IsLawful :
      (now clock : ℕ) (may_receive : Bool) (t : List Row)
      → IsLawful settings.max_attempts t
      → IsLawful settings.max_attempts
          (claim catalog instance_of settings now clock may_receive t).1
  unfolding claim
  claim-IsLawful now clock may_receive t sound =
      let rows = taken catalog instance_of settings now clock may_receive t in
      elim (Result-cases (release_all catalog instance_of now rows.0 rows.1)) [
        | inl (e, failing) ↦ rw (failing, claim) sound
        | inr (won, released_now) ↦
            rw (released_now, claim)
              (release_all-IsLawful catalog instance_of settings.max_attempts now rows.0 rows.1
                (taken-IsLawful now clock may_receive t sound) released_now)
      ]

  -- The row that a claim chose, as `abandon_exhausted` left it.
  chosen-is_claimable :
      (now clock : ℕ) (may_receive : Bool) (t : List Row) {ws : List Work} {t' : List Row}
      (w : Work)
      → IsLawful settings.max_attempts t
      → claim catalog instance_of settings now clock may_receive t ≡ (ok ws, t')
      → Has w ws
      → (r : Row) × Has r (abandon_exhausted now instance_of.id settings.max_attempts t)
        × (r.id ≡ w.id)
        × (is_claimable now may_receive instance_of.id settings.max_attempts r ≡ true)
  chosen-is_claimable now clock may_receive t w sound given stands =
      let aged = abandon_exhausted now instance_of.id settings.max_attempts t in
      let rows = taken catalog instance_of settings now clock may_receive t in
      let (row, among, same) =
        release_all-Has catalog instance_of now rows.0 rows.1 w
          (claim-eq-ok now clock may_receive t given) stands in
      let (r, there, key, chosen) = taken-Has now clock may_receive t row among in
      (
        r,
        there,
        key ∙ same,
        candidates-is_claimable now may_receive instance_of.id settings.max_attempts settings.batch
            aged r
            (abandon_exhausted-IsLawful now instance_of.id settings.max_attempts t sound).unclashed
            there (rw key chosen),
      )

  -- Work is handed out only for a delivery in the table before the claim that the instance may take:
  -- its own, not expired, with attempts left, queued or released with its lease over, and only where
  -- the instance may receive.
  pub claim-IsDue :
      (now clock : ℕ) (may_receive : Bool) (t : List Row) {ws : List Work} {t' : List Row}
      (w : Work)
      → IsLawful settings.max_attempts t
      → claim catalog instance_of settings now clock may_receive t ≡ (ok ws, t')
      → Has w ws
      → (may_receive ≡ true)
        × ((r : Row) × Has r t × IsDue now instance_of.id settings.max_attempts w r)
  unfolding abandon_exhausted
  claim-IsDue now clock may_receive t w sound given stands =
      let (aged_row, there, same, claimable) =
        chosen-is_claimable now clock may_receive t w sound given stands in
      let (r, before, aged_as) =
        Has-map (abandon_row now instance_of.id settings.max_attempts) t there in
      let kept : aged_row ≡ r =
        abandoned-is_claimable now instance_of.id settings.max_attempts may_receive r aged_row
          aged_as claimable in
      let due = is_claimable-IsDue now may_receive instance_of.id settings.max_attempts r (
        ap (λ (x : Row). is_claimable now may_receive instance_of.id settings.max_attempts x)
          (sym kept)
        ∙ claimable) in
      (due.0, (r, before, due.1 w (ap (λ (x : Row). x.id) (sym kept) ∙ same)))

  claim-barred :
      (now clock : ℕ) (may_receive : Bool) (t : List Row) {ws : List Work} {t' : List Row}
      (w : Work)
      → claim catalog instance_of settings now clock may_receive t ≡ (ok ws, t')
      → Has w ws
      → all_of (is_barred_at w.id (clock + settings.lease)) t' ≡ true
  unfolding taken claim_deliveries
  claim-barred now clock may_receive t w given stands =
      let aged = abandon_exhausted now instance_of.id settings.max_attempts t in
      let ids =
        candidates now may_receive instance_of.id settings.max_attempts settings.batch aged in
      let rows = taken catalog instance_of settings now clock may_receive t in
      let (row, among, same) =
        release_all-Has catalog instance_of now rows.0 rows.1 w
          (claim-eq-ok now clock may_receive t given) stands in
      let (r, there, key, chosen) = taken-Has now clock may_receive t row among in
      let mine : contains ids w.id ≡ true = rw (sym same) chosen in
      release_all-barred catalog instance_of w.id (clock + settings.lease) now rows.0 rows.1
        (Has-all_of (is_barred_at w.id (clock + settings.lease)) rows.1 (λ x stood.
          let (y, origin, e) = Has-map (claim_row (clock + settings.lease) ids) aged stood in
          subst (λ z. is_barred_at w.id (clock + settings.lease) z ≡ true) e
            (is_barred-claim w.id (clock + settings.lease) ids y mine)))
        (claim-eq-ok now clock may_receive t given)

-- Work that is handed out is handed to nobody again before its lease ends: whichever instance
-- claims next, with whatever catalog, at a time before the end of the first claim's lease, gets
-- none of the deliveries that the first claim got.
pub claim_exclusive :
    (catalog other_catalog : Catalog) (instance_of other : Instance) (settings : Settings)
    (now clock now' clock' : ℕ) (may_receive may_receive' : Bool) (t : List Row) {ws vs : List Work}
    {t' t'' : List Row} (w v : Work)
    → IsLawful settings.max_attempts t
    → claim catalog instance_of settings now clock may_receive t ≡ (ok ws, t')
    → now' < clock + settings.lease
    → claim other_catalog other settings now' clock' may_receive' t' ≡ (ok vs, t'')
    → Has w ws
    → Has v vs
    → v.id ≢ w.id
unfolding abandon_exhausted
claim_exclusive catalog other_catalog instance_of other settings now clock now' clock' may_receive
      may_receive' t {ws} {vs} {t'} w v lawful first early second won again same =
    let lawful' : IsLawful settings.max_attempts t' =
      subst
        (λ (x : Result DeliveryError (List Work) × List Row). IsLawful settings.max_attempts x.1)
        first (claim-IsLawful catalog instance_of settings now clock may_receive t lawful) in
    let barred : all_of (is_barred_at w.id (clock + settings.lease)) t' ≡ true =
      claim-barred catalog instance_of settings now clock may_receive t w first won in
    let (r, there, key, claimable) =
      chosen-is_claimable other_catalog other settings now' clock' may_receive' t' v lawful' second
        again in
    is_barred-is_claimable w.id other.id (clock + settings.lease) now' may_receive'
      settings.max_attempts r early
      (all_of-Has (is_barred_at w.id (clock + settings.lease)) _
        (IsBarred-map w.id (clock + settings.lease)
          (abandon_row now' other.id settings.max_attempts) t'
          (is_barred-abandon w.id other.id (clock + settings.lease) now' settings.max_attempts)
          barred)
        there)
      claimable (key ∙ same)
