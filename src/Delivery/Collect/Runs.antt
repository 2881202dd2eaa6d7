-- ===== src/Delivery/Collect/Runs.antt =====
-- The delivery queue under any sequence of requests, and the end of a wait.
use lumi_hub.Base.{
  Bool, Bool-cases, List, Option, Result, Result-cases, [], any_of, arith, err, false, inl, inr,
  leb, none, ok, refl, some, true, ℕ, ◌+◌, ◌∷◌, ◌≡◌, ◌⊎◌,
}
use lumi_hub.Block.Content.{Uuid}
use lumi_hub.Delivery.Collect.{
  Turn, Wake, answer, await, cancelled, claim, rechecked, superseded_by_another, waited_out,
  work_signalled,
}
use lumi_hub.Delivery.Collect.Claim.{claim-IsLawful}
use lumi_hub.Delivery.Service.{
  Catalog, DeliveryError, Instance, Instances, Server, Settings, Work, admit, discard, enqueue,
  fault, queue, sweep,
}
use lumi_hub.Delivery.Table.{
  Row, acknowledge, count_live, delete_expired, discard_delivery, queue_delivery,
}
use lumi_hub.Delivery.Table.Rows.{is_unclashed}
use lumi_hub.Delivery.Table.Statements.{IsLawful, IsLawful-keep, queue_delivery-IsLawful}

-- The tables that the operations of the package lead to, whatever the clocks, the other package's
-- answers and the order of the requests.
pub data IsReached (settings : Settings) : List Row → Type 0 where
  nothing_queued : IsReached settings []
  pressed :
      (instances : Instances) (catalog : Catalog) (id : Uuid) (now clock : ℕ)
      (user_id instance_id asset_id : Uuid) (s : Server)
      → IsReached settings s.table
      → IsReached settings
          (queue instances catalog settings id now clock user_id instance_id asset_id s).1.table
  claimed :
      (catalog : Catalog) (i : Instance) (now clock : ℕ) (may_receive : Bool) (t : List Row)
      → IsReached settings t
      → IsReached settings (claim catalog i settings now clock may_receive t).1
  acknowledged :
      (instance_id : Uuid) (ids : List Uuid) (t : List Row)
      → IsReached settings t
      → IsReached settings (acknowledge instance_id ids t)
  dropped :
      (owner : Uuid → Option Uuid) (user_id id : Uuid) (s : Server)
      → IsReached settings s.table
      → IsReached settings (discard owner user_id id s).1.table
  swept :
      (now : ℕ) (s : Server) → IsReached settings s.table → IsReached settings (sweep now s).table

enqueue-IsLawful :
    (instances : Instances) (catalog : Catalog) (settings : Settings) (id : Uuid) (now clock : ℕ)
    (instance_id asset_id : Uuid) (s : Server)
    → IsLawful settings.max_attempts s.table
    → IsLawful settings.max_attempts
        (enqueue instances catalog settings id now clock instance_id asset_id s).1.table
unfolding enqueue
enqueue-IsLawful instances catalog settings id now clock instance_id asset_id s lawful =
    let expires_at = clock + settings.retention in
    elim (Bool-cases (leb settings.pending_per_instance (count_live instance_id s.table))) [
      | inl crowded ↦ rw (crowded, enqueue) lawful
      | inr room ↦
          elim (Result-cases (queue_delivery now id instance_id asset_id expires_at s.table)) [
            | inl (e, failing) ↦ rw (room, enqueue) (rw (failing, enqueue) lawful)
            | inr ((none, t'), found) ↦ rw (room, enqueue) (rw (found, enqueue) lawful)
            | inr ((some row, t'), found) ↦
                rw (room, enqueue)
                  (rw (found, enqueue)
                    (queue_delivery-IsLawful settings.max_attempts now id instance_id asset_id
                      expires_at s.table lawful found))
          ]
    ]

-- Whatever the requests and their order, the table meets its constraints: the checks on each row,
-- one id a row, one live delivery an asset and instance, and no more attempts than the limit.
pub IsReached-IsLawful :
    (settings : Settings) {t : List Row} → IsReached settings t → IsLawful settings.max_attempts t
unfolding queue discard discard_delivery sweep delete_expired acknowledge is_unclashed
IsReached-IsLawful settings nothing_queued = record {
  checks = refl;
  unclashed = refl;
  bounded = refl;
}
IsReached-IsLawful settings
      (pressed instances catalog id now clock user_id instance_id asset_id s before) =
    let lawful = IsReached-IsLawful settings before in
    elim (Result-cases (admit instances catalog settings user_id instance_id asset_id)) [
      | inl (e, refused_now) ↦ rw (refused_now, queue) lawful
      | inr (u, admitted) ↦
          rw (admitted, queue)
            (enqueue-IsLawful instances catalog settings id now clock instance_id asset_id s lawful)
    ]
IsReached-IsLawful settings (claimed catalog i now clock may_receive t before) =
    claim-IsLawful catalog i settings now clock may_receive t (IsReached-IsLawful settings before)
IsReached-IsLawful settings (acknowledged instance_id ids t before) =
    IsLawful-keep settings.max_attempts _ t (IsReached-IsLawful settings before)
IsReached-IsLawful settings (dropped owner user_id id s before) =
    IsLawful-keep settings.max_attempts _ s.table (IsReached-IsLawful settings before)
IsReached-IsLawful settings (swept now s before) =
    IsLawful-keep settings.max_attempts _ s.table (IsReached-IsLawful settings before)

-- The timer, a superseding request and the end of the request end a wait; a signal and the ticker
-- do not.
abbrev pub ends_wait : Wake → Bool
ends_wait work_signalled = false
ends_wait rechecked = false
ends_wait superseded_by_another = true
ends_wait waited_out = true
ends_wait cancelled = true

module _ (catalog : Catalog) (i : Instance) (settings : Settings) where
  -- What the claim of a turn finds, after what the other requests did.
  abbrev pub claim_of : Turn → Server → Result DeliveryError (List Work) × List Row
  claim_of turn s =
      claim catalog i settings turn.now turn.clock turn.may_receive (turn.others s).table

  -- What a wait answers: the error or the work of the first claim that does not find nothing; nothing
  -- where the timer or a superseding request comes first, and an error where the request ends first.
  pub data IsAnswered : List Turn → Server → Result DeliveryError (List Work) → Type 0 where
    broken_off :
        (turn : Turn) (turns : List Turn) (s : Server) (e : DeliveryError)
        → (claim_of turn s).0 ≡ err e
        → IsAnswered (turn ∷ turns) s (err e)
    supplied :
        (turn : Turn) (turns : List Turn) (s : Server) (w : Work) (ws : List Work)
        → (claim_of turn s).0 ≡ ok (w ∷ ws)
        → IsAnswered (turn ∷ turns) s (ok (w ∷ ws))
    timed_out :
        (turn : Turn) (turns : List Turn) (s : Server)
        → (claim_of turn s).0 ≡ ok []
        → turn.wake ≡ waited_out
        → IsAnswered (turn ∷ turns) s (ok [])
    replaced :
        (turn : Turn) (turns : List Turn) (s : Server)
        → (claim_of turn s).0 ≡ ok []
        → turn.wake ≡ superseded_by_another
        → IsAnswered (turn ∷ turns) s (ok [])
    left_alone :
        (turn : Turn) (turns : List Turn) (s : Server)
        → (claim_of turn s).0 ≡ ok []
        → turn.wake ≡ cancelled
        → IsAnswered (turn ∷ turns) s (err fault)
    kept_waiting :
        (turn : Turn) (turns : List Turn) (s : Server) (a : Result DeliveryError (List Work))
        → (claim_of turn s).0 ≡ ok []
        → (turn.wake ≡ work_signalled) ⊎ (turn.wake ≡ rechecked)
        → IsAnswered turns (record (turn.others s) { table = (claim_of turn s).1 }) a
        → IsAnswered (turn ∷ turns) s a

  -- A wait in which some turn ends with the timer, with a superseding request or with the end of the
  -- request answers, whatever the other requests do: with the error or the work of the first claim that
  -- finds something, if that comes first, else with no work after the timer or a superseding request,
  -- and with an error after the end of the request; a signal and the ticker let it claim again.
  pub await_answers :
      (turns : List Turn) (s : Server)
      → any_of (λ (turn : Turn). ends_wait turn.wake) turns ≡ true
      → (a : Result DeliveryError (List Work)) × ((await catalog i settings turns s).0 ≡ some a)
        × IsAnswered turns s a
  unfolding await
  await_answers [] s ends = absurd (cc ends)
  await_answers (turn ∷ turns) s ends = elim (Result-cases (claim_of turn s).0) [
    | inl (e, failing) ↦ (err e, rw (failing, await) refl, broken_off turn turns s e failing)
    | inr (w ∷ ws, won) ↦ (ok (w ∷ ws), rw (won, await) refl, supplied turn turns s w ws won)
    | inr ([], idle) ↦ go turn.wake refl idle (λ goes_on.
        await_answers turns (record (turn.others s) { table = (claim_of turn s).1 })
          (ground (arith, ends, goes_on)))
  ]
    where
      go :
          (wake : Wake)
          → turn.wake ≡ wake
          → (claim_of turn s).0 ≡ ok []
          → (ends_wait turn.wake ≡ false
              → (a : Result DeliveryError (List Work)) × ((await catalog i settings turns
                    (record (turn.others s) { table = (claim_of turn s).1 })).0
                  ≡ some a)
                × IsAnswered turns (record (turn.others s) { table = (claim_of turn s).1 }) a)
          → (a : Result DeliveryError (List Work)) × ((await catalog i settings (turn ∷ turns) s).0
              ≡ some a)
            × IsAnswered (turn ∷ turns) s a
      go waited_out woken idle later = (
        ok [],
        rw (idle, await) (unfold answer in rw (woken) refl),
        timed_out turn turns s idle woken,
      )
      go superseded_by_another woken idle later = (
        ok [],
        rw (idle, await) (unfold answer in rw (woken) refl),
        replaced turn turns s idle woken,
      )
      go cancelled woken idle later = (
        err fault,
        rw (idle, await) (unfold answer in rw (woken) refl),
        left_alone turn turns s idle woken,
      )
      go work_signalled woken idle later =
          let (a, answered, how) = later (rw (woken) refl) in
          (
            a,
            rw (idle, await) (unfold answer in rw (woken) answered),
            kept_waiting turn turns s a idle (inl woken) how,
          )
      go rechecked woken idle later =
          let (a, answered, how) = later (rw (woken) refl) in
          (
            a,
            rw (idle, await) (unfold answer in rw (woken) answered),
            kept_waiting turn turns s a idle (inr woken) how,
          )
