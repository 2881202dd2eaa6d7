-- ===== src/Delivery/Collect/Due.antt =====
-- What makes a delivery due to an instance, and what the test of the claim statement says of it.
use lumi_hub.Base.{
  ==→eq, Bool, Bool-cases, Option, arith, inl, inr, leb→le, nat_eq, none, refl, some, sym, true, ℕ,
  ◌&&◌, ◌<◌, ◌||◌, ◌≡◌, ◌≤◌, ◌⊎◌,
}
use lumi_hub.Delivery.Service.{Work}
use lumi_hub.Delivery.Table.{
  Row, State, abandon_row, fail_row, failed, is_claimable, is_exhausted, is_queued, is_released,
  lease_passed, queued, released,
}

-- The delivery that a work is for may be taken by the instance.
pub record IsDue (now instance_id max : ℕ) (w : Work) (r : Row) : Type 0 where
  pub for_work : r.id ≡ w.id
  pub own : r.instance_id ≡ instance_id
  pub unexpired : now < r.expires_at
  pub has_attempts : r.attempts < max
  pub waits :
      (r.state ≡ queued)
      ⊎ ((r.state ≡ released) × ((l : ℕ) × (r.lease_expires_at ≡ some l) × (l ≤ now)))

waits_for :
    (now : ℕ) (r : Row)
    → (is_queued r || (is_released r && lease_passed now r)) ≡ true
    → (r.state ≡ queued)
      ⊎ ((r.state ≡ released) × ((l : ℕ) × (r.lease_expires_at ≡ some l) × (l ≤ now)))
unfolding is_queued is_released lease_passed
waits_for now r h = go r.state r.lease_expires_at refl refl h
  where
    go :
        (s : State) (e : Option ℕ)
        → r.state ≡ s
        → r.lease_expires_at ≡ e
        → (is_queued r || (is_released r && lease_passed now r)) ≡ true
        → (r.state ≡ queued)
          ⊎ ((r.state ≡ released) × ((l : ℕ) × (r.lease_expires_at ≡ some l) × (l ≤ now)))
    go queued e state ends h = inl state
    go released (some l) state ends h = inr (state, (l, ends, leb→le l now (rw (state, ends) at h)))
    go released none state ends h = absurd (cc (rw (state, ends) at h))
    go failed e state ends h = absurd (cc (rw (state) at h))

pub is_claimable-IsDue :
    (now : ℕ) (may_receive : Bool) (instance_id max : ℕ) (r : Row)
    → is_claimable now may_receive instance_id max r ≡ true
    → (may_receive ≡ true) × ((w : Work) → r.id ≡ w.id → IsDue now instance_id max w r)
unfolding is_claimable
is_claimable-IsDue now may_receive instance_id max r h = (
  ground (arith, h),
  λ w same. record {
    for_work = same;
    own = ==→eq r.instance_id instance_id (ground (arith, h));
    unexpired = ground (arith, h);
    has_attempts = ground (arith, h);
    waits = waits_for now r (ground (arith, h));
  },
)

-- A row that was abandoned is not claimable.
pub abandoned-is_claimable :
    (now instance_id max : ℕ) (may_receive : Bool) (r aged : Row)
    → abandon_row now instance_id max r ≡ aged
    → is_claimable now may_receive instance_id max aged ≡ true
    → aged ≡ r
unfolding abandon_row fail_row is_claimable is_queued is_released
abandoned-is_claimable now instance_id max may_receive r aged same h =
    elim (Bool-cases (is_exhausted now instance_id max r)) [
      | inr stays ↦ sym (rw (stays, abandon_row) at same)
      | inl gone ↦ absurd (ground (arith, gone, same, h))
    ]
