-- ===== src/Delivery/Waiting/Runs.antt =====
-- What holds of the hub after any sequence of calls, and what becomes of a request that another
-- one supersedes.
use mathlib.Core.Path.{subst}
use lumi_hub.Base.{
  ==-refl, Bool-cases, Option, Option-cases, arith, contains, false, inl, inr, length, lookup,
  lookup-all_of, nat_eq, ok, ok_eq, refl, some, string_eq, sym, true, ℕ, ◌==◌, ◌∙◌, ◌≡◌, ◌≤◌,
}
use lumi_hub.Block.Content.{Uuid}
use lumi_hub.Delivery.Waiting.{Hub, hold, new_hub, release, signal}
use lumi_hub.Delivery.Waiting.Sound.{
  IsSound, all_of-delete_key, hold-IsSound, is_apart, is_apart-delete_key, is_open,
  length-delete_key, supersede,
}

-- The hubs that calls lead to, from `newHub(limit)` on.
pub data IsReachable (limit : ℕ) : Hub → Type 0 where
  started : IsReachable limit (new_hub limit)
  held :
      {h h' : Hub} (id : Uuid) (r : Option ℕ)
      → IsReachable limit h
      → hold id h ≡ ok (r, h')
      → IsReachable limit h'
  released :
      {h : Hub} (id : Uuid) (w : ℕ) → IsReachable limit h → IsReachable limit (release id w h)
  signalled : {h : Hub} (id : Uuid) → IsReachable limit h → IsReachable limit (signal id h)

release-IsSound : (id : Uuid) (w : ℕ) (h : Hub) → IsSound h → IsSound (release id w h)
unfolding release
release-IsSound id w h sound = elim (Option-cases (lookup id h.waiting)) [
  | inl missing ↦ rw (missing, release) sound
  | inr (current, found) ↦ elim (Bool-cases (current == w)) [
    | inr other ↦ rw (found, release) (rw (other, release) sound)
    | inl same ↦
        rw (found, release)
          (rw (same, release)
            (record {
              few = omega (arith, length-delete_key id h.waiting, sound.few);
              apart = is_apart-delete_key id h.waiting sound.apart;
              all_open = all_of-delete_key (is_open h) id h.waiting sound.all_open;
              superseded_made = sound.superseded_made;
            }))
  ]
]

signal-IsSound : (id : Uuid) (h : Hub) → IsSound h → IsSound (signal id h)
unfolding signal
signal-IsSound id h sound = elim (Option-cases (lookup id h.waiting)) [
  | inl missing ↦ rw (missing, signal) sound
  | inr (w, found) ↦ elim (Bool-cases (contains h.work w)) [
    | inl waiting_still ↦ rw (found, signal) (rw (waiting_still, signal) sound)
    | inr idle ↦
        rw (found, signal)
          (rw (idle, signal)
            (record {
              few = sound.few;
              apart = sound.apart;
              all_open = sound.all_open;
              superseded_made = sound.superseded_made;
            }))
  ]
]

hold-limit :
    (id : Uuid) (h : Hub) {r : Option ℕ} {h' : Hub} → hold id h ≡ ok (r, h') → h'.limit ≡ h.limit
unfolding hold
hold-limit id h held_now = ground arith

release-limit : (id : Uuid) (w : ℕ) (h : Hub) → (release id w h).limit ≡ h.limit
unfolding release
release-limit id w h = ground arith

signal-limit : (id : Uuid) (h : Hub) → (signal id h).limit ≡ h.limit
unfolding signal
signal-limit id h = ground arith

IsReachable-kept : (limit : ℕ) {h : Hub} → IsReachable limit h → IsSound h × (h.limit ≡ limit)
unfolding new_hub is_apart
IsReachable-kept limit started =
    (record { few = ground arith; apart = refl; all_open = refl; superseded_made = refl }, refl)
IsReachable-kept limit (held {h} {h'} id r before now) =
    let (sound, same) = IsReachable-kept limit before in
    let (r', again, after) = hold-IsSound id h sound in
    (
      subst (λ (x : Option ℕ × Hub). IsSound x.1) (ok_eq (sym again ∙ now)) after,
      hold-limit id h now ∙ same,
    )
IsReachable-kept limit (released {h} id w before) =
    let (sound, same) = IsReachable-kept limit before in
    (release-IsSound id w h sound, release-limit id w h ∙ same)
IsReachable-kept limit (signalled {h} id before) =
    let (sound, same) = IsReachable-kept limit before in
    (signal-IsSound id h sound, signal-limit id h ∙ same)

-- After any sequence of `hold`, `release` and `signal` calls on a new hub, at most `limit` requests
-- wait, each for an instance of its own, and no further `hold` closes a channel twice.
pub IsReachable-safe :
    (limit : ℕ) {h : Hub}
    → IsReachable limit h
    → (length h.waiting ≤ limit)
      × (is_apart h.waiting ≡ true)
      × ((id : Uuid) → (r : Option ℕ × Hub) × (hold id h ≡ ok r))
IsReachable-safe limit {h} reached =
    let (sound, same) = IsReachable-kept limit reached in
    (
      subst (λ l. length h.waiting ≤ l) same sound.few,
      sound.apart,
      λ id. ((hold-IsSound id h sound).0, (hold-IsSound id h sound).1),
    )

-- Where a second request of an instance is held, it gets a waiter of its own, the first one's
-- channel is closed, and the release of the first one changes nothing.
pub hold_superseding :
    (id : Uuid) (h : Hub) (old : ℕ)
    → IsSound h
    → lookup id h.waiting ≡ some old
    → (w : ℕ) × (h' : Hub) × (hold id h ≡ ok (some w, h'))
      × (lookup id h'.waiting ≡ some w)
      × (contains h'.superseded old ≡ true)
      × (release id old h' ≡ h')
unfolding hold release
hold_superseding id h old sound found =
    let opened : is_open h (id, old) ≡ true =
      lookup-all_of (λ (w : ℕ). is_open h (id, w)) id h.waiting sound.all_open found in
    let closed_once : contains h.superseded old ≡ false = ground (arith, opened) in
    (
      h.made,
      supersede id old h,
      rw (found, hold) (rw closed_once refl),
      ground (arith, ==-refl id),
      ground (arith, ==-refl old),
      ground (arith, opened, ==-refl id),
    )
