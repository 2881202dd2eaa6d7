-- ===== src/Linking/Device/Opened.antt =====
-- What `Start` leaves in the table, and searches for a value that stands last in a list.
use mathlib.Core.Path.{subst}
use lumi_hub.Base.{
  Bool, Bool-cases, List, Option-cases, String, [], any_of, ap, arith, false, find_first, inl, inr,
  keep, length, map, refl, some, some_eq, suc, true, zero, ℕ, ◌++◌, ◌+◌, ◌||◌, ◌∷◌, ◌≡◌,
}
use lumi_hub.Linking.Device.{LinkRequest, Links, has_device}
use lumi_hub.Linking.Device.Start.{
  Drawn, attempts, cleanup_batch, delete_expired_requests, has_user_code, insert_request,
  new_request, request_lifetime, start,
}

or_false : (a b : Bool) → (a || b) ≡ false → (a ≡ false) × (b ≡ false)
or_false true b h = absurd (cc h)
or_false false b h = (refl, h)

module _ {A : Type 0} (p : A → Bool) where
  pub find_first_last :
      (xs : List A) (x : A)
      → any_of p xs ≡ false
      → p x ≡ true
      → find_first p (xs ++ (x ∷ [])) ≡ some x
  find_first_last [] x none_before holds = rw holds refl
  find_first_last (y ∷ xs) x none_before holds =
      let (first, rest) = or_false (p y) (any_of p xs) none_before in
      rw first (find_first_last xs x rest holds)

  pub any_of_last : (xs : List A) (x : A) → p x ≡ true → any_of p (xs ++ (x ∷ [])) ≡ true
  any_of_last [] x holds = rw holds refl
  any_of_last (y ∷ xs) x holds = ground (arith, any_of_last xs x holds)

  pub keep_last :
      (xs : List A) (x : A)
      → length (keep p xs) ≡ 0
      → p x ≡ true
      → length (keep p (xs ++ (x ∷ []))) ≡ 1
  keep_last [] x none_before holds = rw holds refl
  keep_last (y ∷ xs) x none_before holds = ground (arith, none_before, holds, keep_last xs x)

pub map_last :
    {A B : Type 0} (f : A → B) (xs : List A) (x : A)
    → map f (xs ++ (x ∷ [])) ≡ map f xs ++ (f x ∷ [])
map_last f [] x = refl
map_last f (y ∷ xs) x = ap (λ zs. f y ∷ zs) (map_last f xs x)

-- What `Start` leaves: the new request stands last, and no other has one of its codes.
pub record IsOpened (d : Drawn) (scopes : List String) (expires_at : ℕ) (rs : List LinkRequest)
    : Type 0 where
  pub others : List LinkRequest
  pub no_device : any_of (has_device d.device_code_hash) others ≡ false
  pub no_user : any_of (has_user_code d.user_code_hash) others ≡ false
  pub opened : rs ≡ others ++ (new_request d scopes expires_at ∷ [])

attempts-IsOpened :
    (left : ℕ) (codes : ℕ → Drawn) (scopes : List String) (expires_at : ℕ) (rs : List LinkRequest)
    {d : Drawn} {qs : List LinkRequest}
    → attempts left codes scopes expires_at rs ≡ some (d, qs)
    → IsOpened d scopes expires_at qs
unfolding attempts insert_request
attempts-IsOpened zero codes scopes expires_at rs drawn = absurd (cc drawn)
attempts-IsOpened (suc left) codes scopes expires_at rs {d} {qs} drawn =
    elim (Bool-cases (
      any_of (has_device (codes left).device_code_hash) rs
      || any_of (has_user_code (codes left).user_code_hash) rs)) [
        | inl in_use ↦
            attempts-IsOpened left codes scopes expires_at rs
              (rw (in_use, attempts, insert_request) at drawn)
        | inr unused ↦
            let (device, user) =
              or_false (any_of (has_device (codes left).device_code_hash) rs)
                (any_of (has_user_code (codes left).user_code_hash) rs) unused in
            let e : (codes left, rs ++ (new_request (codes left) scopes expires_at ∷ []))
                ≡ (d, qs) =
              some_eq (rw (unused, attempts, insert_request) at drawn) in
            subst (λ (x : Drawn × List LinkRequest). IsOpened x.0 scopes expires_at x.1) e
              (record { others = rs; no_device = device; no_user = user; opened = refl })
      ]

pub start-IsOpened :
    (now clock : ℕ) (codes : ℕ → Drawn) (scopes : List String) (s : Links) {d : Drawn}
    → (start now clock codes scopes s).0 ≡ some d
    → IsOpened d scopes (clock + request_lifetime) (start now clock codes scopes s).1.requests
unfolding start
start-IsOpened now clock codes scopes s {d} began =
    let cleared = delete_expired_requests now cleanup_batch s.requests in
    elim (Option-cases (attempts 8 codes scopes (clock + request_lifetime) cleared)) [
      | inl out ↦ absurd (ground (arith, out, began))
      | inr ((drawn, opened), tried) ↦
          let same : drawn ≡ d = ground (arith, tried, began) in
          rw (tried, start)
            (subst (λ c. IsOpened c scopes (clock + request_lifetime) opened) same
              (attempts-IsOpened 8 codes scopes (clock + request_lifetime) cleared tried))
    ]
