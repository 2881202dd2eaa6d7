-- ===== src/Delivery/Waiting/Sound.antt =====
-- The hub keeps its promises: one waiter an instance, never more than the limit, and no channel
-- closed twice.
use lumi_hub.Base.{
  Bool, Bool-cases, List, Option, Option-cases, [], all_of, all_of-both, all_of-weaken, and_true,
  arith, contains, false, inl, inr, leb, length, lookup, lookup-all_of, ltb, nat_eq, none, not, ok,
  refl, some, some_eq, string_eq, true, ℕ, ◌&&◌, ◌+◌, ◌<◌, ◌==◌, ◌∷◌, ◌≡◌, ◌≤◌,
}
use lumi_hub.Block.Content.{Uuid}
use lumi_hub.Delivery.Waiting.{Hub, delete_key, hold, register}

-- A registration under another instance, with another waiter.
abbrev pub is_apart_from : Uuid → ℕ → Uuid × ℕ → Bool
is_apart_from k w e = not (e.0 == k) && not (e.1 == w)

unfoldable pub is_apart : List (Uuid × ℕ) → Bool
is_apart [] = true
is_apart ((k, w) ∷ m) = all_of (is_apart_from k w) m && is_apart m

-- A waiter that was made and that nothing has superseded.
abbrev pub is_open : Hub → Uuid × ℕ → Bool
is_open h e = ltb e.1 h.made && not (contains h.superseded e.1)

pub record IsSound (h : Hub) : Type 0 where
  pub few : length h.waiting ≤ h.limit
  pub apart : is_apart h.waiting ≡ true
  pub all_open : all_of (is_open h) h.waiting ≡ true
  pub superseded_made : all_of (λ w. ltb w h.made) h.superseded ≡ true

pub all_of-delete_key :
    (p : Uuid × ℕ → Bool) (id : Uuid) (m : List (Uuid × ℕ))
    → all_of p m ≡ true
    → all_of p (delete_key id m) ≡ true
unfolding delete_key
all_of-delete_key p id [] h = refl
all_of-delete_key p id ((k, w) ∷ m) h =
    let (first, more) = and_true (p (k, w)) (all_of p m) h in
    ground (arith, first, all_of-delete_key p id m more)

pub is_apart-delete_key :
    (id : Uuid) (m : List (Uuid × ℕ)) → is_apart m ≡ true → is_apart (delete_key id m) ≡ true
unfolding delete_key is_apart
is_apart-delete_key id [] h = refl
is_apart-delete_key id ((k, w) ∷ m) h =
    let (first, more) = and_true (all_of (is_apart_from k w) m) (is_apart m) h in
    ground (arith, all_of-delete_key (is_apart_from k w) id m first, is_apart-delete_key id m more)

pub length-delete_key : (id : Uuid) (m : List (Uuid × ℕ)) → length (delete_key id m) ≤ length m
unfolding delete_key
length-delete_key id [] = omega arith
length-delete_key id ((k, w) ∷ m) = ground (arith, length-delete_key id m)

length-delete_key-held :
    (id : Uuid) (m : List (Uuid × ℕ)) {w : ℕ}
    → lookup id m ≡ some w
    → length (delete_key id m) + 1 ≤ length m
unfolding delete_key
length-delete_key-held id [] h = absurd (cc h)
length-delete_key-held id ((k, v) ∷ m) {w} h = elim (Bool-cases (k == id)) [
  | inl here ↦ ground (arith, here, length-delete_key id m)
  | inr later ↦ ground (arith, later, length-delete_key-held id m {w = w} (rw later at h))
]

-- What is left after the instance's registration is deleted is not its own.
delete_key-others :
    (id : Uuid) (m : List (Uuid × ℕ)) → all_of (λ e. not (e.0 == id)) (delete_key id m) ≡ true
unfolding delete_key
delete_key-others id [] = refl
delete_key-others id ((k, w) ∷ m) = ground (arith, delete_key-others id m)

delete_key-waiters :
    (id : Uuid) (m : List (Uuid × ℕ)) {w : ℕ}
    → is_apart m ≡ true
    → lookup id m ≡ some w
    → all_of (λ e. not (e.1 == w)) (delete_key id m) ≡ true
unfolding delete_key is_apart
delete_key-waiters id [] apart h = refl
delete_key-waiters id ((k, v) ∷ m) {w} apart h =
    let (first, more) = and_true (all_of (is_apart_from k v) m) (is_apart m) apart in
    elim (Bool-cases (k == id)) [
      | inl here ↦
          let same : v ≡ w = some_eq (rw here at h) in
          rw here (
            all_of-delete_key (λ e. not (e.1 == w)) id m
              (all_of-weaken (is_apart_from k v) (λ e. not (e.1 == w)) m
                (λ e p. ground (arith, same, p)) first))
      | inr later ↦
          let found : lookup id m ≡ some w = rw later at h in
          ground (
            arith,
            later,
            delete_key-waiters id m {w = w} more found,
            lookup-all_of (λ (x : ℕ). not (x == v)) id m
                (all_of-weaken (is_apart_from k v) (λ e. not (e.1 == v)) m
                  (λ e p. ground (arith, p)) first)
                found,
          )
    ]

-- A waiter that is not made yet is not superseded.
contains-made :
    (made : ℕ) (ws : List ℕ) → all_of (λ w. ltb w made) ws ≡ true → contains ws made ≡ false
contains-made made [] h = refl
contains-made made (w ∷ ws) h = ground (arith, contains-made made ws)

-- What `hold` does to the registrations of the others.
register-apart : (id : Uuid) (h : Hub) → IsSound h → is_apart (register id h).waiting ≡ true
unfolding is_apart
register-apart id h sound = ground (
  arith,
  is_apart-delete_key id h.waiting sound.apart,
  all_of-both (λ e. not (e.0 == id)) (is_open h) (is_apart_from id h.made) (delete_key id h.waiting)
      (λ e other opened. ground (arith, other, opened)) (delete_key-others id h.waiting)
      (all_of-delete_key (is_open h) id h.waiting sound.all_open),
)

register-IsSound :
    (id : Uuid) (h : Hub) → IsSound h → length h.waiting < h.limit → IsSound (register id h)
register-IsSound id h sound room = record {
  few = omega (arith, length-delete_key id h.waiting);
  apart = register-apart id h sound;
  all_open = ground (
    arith,
    contains-made h.made h.superseded sound.superseded_made,
    all_of-weaken (is_open h) (is_open (register id h)) (delete_key id h.waiting)
        (λ e opened. ground (arith, opened))
        (all_of-delete_key (is_open h) id h.waiting sound.all_open),
  );
  superseded_made =
      all_of-weaken (λ w. ltb w h.made) (λ w. ltb w (h.made + 1)) h.superseded
        (λ w old. ground (arith, old)) sound.superseded_made;
}

-- The hub after a waiter took the place of the one before it.
abbrev pub supersede : Uuid → ℕ → Hub → Hub
supersede id previous h = record (register id h) { superseded = previous ∷ h.superseded }

supersede-IsSound :
    (id : Uuid) (h : Hub) (previous : ℕ)
    → IsSound h
    → lookup id h.waiting ≡ some previous
    → IsSound (supersede id previous h)
supersede-IsSound id h previous sound found =
    let opened : is_open h (id, previous) ≡ true =
      lookup-all_of (λ (w : ℕ). is_open h (id, w)) id h.waiting sound.all_open found in
    record {
      few = omega (arith, length-delete_key-held id h.waiting found, sound.few);
      apart = register-apart id h sound;
      all_open = ground (
        arith,
        opened,
        contains-made h.made h.superseded sound.superseded_made,
        all_of-both (is_open h) (λ e. not (e.1 == previous)) (is_open (supersede id previous h))
            (delete_key id h.waiting) (λ e here other. ground (arith, here, other))
            (all_of-delete_key (is_open h) id h.waiting sound.all_open)
            (delete_key-waiters id h.waiting sound.apart found),
      );
      superseded_made = ground (
        arith,
        opened,
        all_of-weaken (λ w. ltb w h.made) (λ w. ltb w (h.made + 1)) h.superseded
            (λ w old. ground (arith, old)) sound.superseded_made,
      );
    }

-- On a sound hub `hold` does not panic, and leaves a sound hub.
pub hold-IsSound :
    (id : Uuid) (h : Hub) → IsSound h → (r : Option ℕ × Hub) × (hold id h ≡ ok r) × IsSound r.1
unfolding hold
hold-IsSound id h sound = elim (Option-cases (lookup id h.waiting)) [
  | inl missing ↦ elim (Bool-cases (leb h.limit (length h.waiting))) [
    | inl full ↦ ((none, h), rw (missing, hold) (rw full refl), sound)
    | inr room ↦ (
      (some h.made, register id h),
      rw (missing, hold) (rw room refl),
      register-IsSound id h sound (ground (arith, room)),
    )
  ]
  | inr (previous, found) ↦
      let opened : is_open h (id, previous) ≡ true =
        lookup-all_of (λ (w : ℕ). is_open h (id, w)) id h.waiting sound.all_open found in
      let closed_once : contains h.superseded previous ≡ false = ground (arith, opened) in
      (
        (some h.made, supersede id previous h),
        rw (found, hold) (rw closed_once refl),
        supersede-IsSound id h previous sound found,
      )
]
