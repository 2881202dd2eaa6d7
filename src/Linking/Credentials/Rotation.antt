-- ===== src/Linking/Credentials/Rotation.antt =====
-- What a replaced refresh token does when it comes back: it ends the instance.
use lumi_hub.Base.{
  ==-refl, Bool, Bool-cases, Has, List, Option-cases, [], all_of, all_of-Has, any_of, arith, false,
  find_first, find_first-Has, find_first_test, inl, inr, map, nat_eq, not, ok, refl, some,
  string_eq, true, ℕ, ◌&&◌, ◌+◌, ◌==◌, ◌∷◌, ◌≡◌, ◌≢◌,
}
use lumi_hub.Linking.Codes.{Bytes, same_bytes}
use lumi_hub.Linking.Credentials.{
  Linked, Minted, Store, handle_refresh_reuse, has_hash, holds_refresh, insert_access,
  instance_of_access, is_current, is_revoked, refresh_expired, refresh_hash_of,
  refresh_reuse_window, revoke_by_id, revoke_row, rotate, rotate_refresh_grant, rotate_row,
}

-- `refresh_token_hash` is unique: the live holders of a hash are one instance.
abbrev pub IsUnique : Bytes → List Linked → Type 0
IsUnique h ls =
    (l k : Linked)
    → Has l ls
    → Has k ls
    → holds_refresh h l ≡ true
    → holds_refresh h k ≡ true
    → l.id ≡ k.id

-- No row of the id is live.
abbrev pub is_other_or_revoked : ℕ → Linked → Bool
is_other_or_revoked id l = not (l.id == id && not (is_revoked l))

revoke_row-revokes : (now id : ℕ) (l : Linked) → is_other_or_revoked id (revoke_row now id l) ≡ true
unfolding revoke_row is_revoked
revoke_row-revokes now id l = ground arith

none_live :
    (id : ℕ) (ls : List Linked)
    → any_of (λ (l : Linked). l.id == id && not (is_revoked l)) ls ≡ false
    → all_of (is_other_or_revoked id) ls ≡ true
none_live id [] h = refl
none_live id (l ∷ ls) h = ground (arith, h, none_live id ls)

map-revokes :
    (now id : ℕ) (ls : List Linked)
    → all_of (is_other_or_revoked id) (map (revoke_row now id) ls) ≡ true
map-revokes now id [] = refl
map-revokes now id (l ∷ ls) = ground (arith, revoke_row-revokes now id l, map-revokes now id ls)

-- After a revocation no row of the instance is live.
pub revoke_by_id-revokes :
    (now id : ℕ) (s : Store)
    → all_of (is_other_or_revoked id) (revoke_by_id now id s).instances ≡ true
unfolding revoke_by_id
revoke_by_id-revokes now id s =
    elim (Bool-cases (any_of (λ (l : Linked). l.id == id && not (is_revoked l)) s.instances)) [
      | inl live ↦ rw (live, revoke_by_id) (map-revokes now id s.instances)
      | inr gone ↦ rw (gone, revoke_by_id) (none_live id s.instances gone)
    ]

-- A revoked instance is granted nothing: no access token of it is accepted.
pub cut_off-access :
    (id now : ℕ) (h : Bytes) (s : Store) {l : Linked}
    → all_of (is_other_or_revoked id) s.instances ≡ true
    → instance_of_access now h s ≡ some l
    → l.id ≢ id
unfolding instance_of_access
cut_off-access id now h s {l} revoked found same =
    elim (Option-cases (find_first (is_current now h) s.access)) [
      | inl missing ↦ absurd (cc (rw (missing, instance_of_access) at found))
      | inr (a, current) ↦
          let live_for = λ (l : Linked). l.id == a.instance_id && not (is_revoked l) in
          let chosen = rw (current, instance_of_access) at found in
          let test : live_for l ≡ true = find_first_test live_for s.instances chosen in
          let there = find_first-Has live_for s.instances chosen in
          let off : is_other_or_revoked id l ≡ true =
            all_of-Has (is_other_or_revoked id) s.instances revoked there in
          ground (arith, test, off, same, ==-refl id)
    ]

rotate_refresh_grant-id :
    (now clock : ℕ) (m : Minted) (id : ℕ) (old : Bytes) (s : Store) {g : ℕ} {s' : Store}
    → rotate_refresh_grant now clock m id old s ≡ (ok g, s')
    → g ≡ id
unfolding rotate_refresh_grant
rotate_refresh_grant-id now clock m id old s granted = ground (arith, granted)

handle_refresh_reuse-refuses :
    (now : ℕ) (h : Bytes) (s : Store) {g : ℕ} {s' : Store}
    → handle_refresh_reuse now h s ≡ (ok g, s')
    → ⊥
unfolding handle_refresh_reuse
handle_refresh_reuse-refuses now h s granted = ground (arith, granted)

-- What a granted refresh went through: a live holder of the hash, whose instance it grants for.
pub refresh_hash_of-granted :
    (now clock : ℕ) (m : Minted) (h : Bytes) (s : Store) {g : ℕ} {s' : Store}
    → refresh_hash_of now clock m h s ≡ (ok g, s')
    → (l : Linked) × (find_first (holds_refresh h) s.instances ≡ some l)
      × (g ≡ l.id)
      × (rotate_refresh_grant now clock m l.id h s ≡ (ok g, s'))
unfolding refresh_hash_of
refresh_hash_of-granted now clock m h s granted =
    elim (Option-cases (find_first (holds_refresh h) s.instances)) [
      | inl missing ↦
          absurd (handle_refresh_reuse-refuses now h s (rw (missing, refresh_hash_of) at granted))
      | inr (l, found) ↦ elim (Bool-cases (refresh_expired clock l)) [
        | inl idle ↦ absurd (ground (arith, found, idle, granted))
        | inr active ↦
            let rotated =
              rw (active, refresh_hash_of) at (rw (found, refresh_hash_of) at granted) in
            (l, found, rotate_refresh_grant-id now clock m l.id h s rotated, rotated)
      ]
    ]

-- No refresh token of it is accepted.
pub cut_off-refresh :
    (id now clock : ℕ) (m : Minted) (h : Bytes) (s : Store) {g : ℕ} {s' : Store}
    → all_of (is_other_or_revoked id) s.instances ≡ true
    → refresh_hash_of now clock m h s ≡ (ok g, s')
    → g ≢ id
unfolding holds_refresh
cut_off-refresh id now clock m h s {g} revoked granted same =
    let (l, found, key, rotated) = refresh_hash_of-granted now clock m h s granted in
    let test : holds_refresh h l ≡ true = find_first_test (holds_refresh h) s.instances found in
    let off : is_other_or_revoked id l ≡ true =
      all_of-Has (is_other_or_revoked id) s.instances revoked
        (find_first-Has (holds_refresh h) s.instances found) in
    ground (arith, test, off, key, same, ==-refl id)

-- The row that a rotation wrote does not hold the old hash.
rotate_row-drops :
    (now id : ℕ) (old new : Bytes) (l : Linked)
    → same_bytes new old ≡ false
    → (holds_refresh old l ≡ true → l.id ≡ id)
    → not (holds_refresh old (rotate_row now id old new l)) ≡ true
unfolding rotate_row
rotate_row-drops now id old new l fresh owner = elim (Bool-cases (holds_refresh old l)) [
  | inr other ↦ ground (arith, other)
  | inl holds ↦
      let key : (l.id == id) ≡ true = rw (owner holds) (==-refl id) in
      rw holds (rw key (unfold holds_refresh has_hash in rw fresh refl))
]

pub rotate-drops :
    (now id : ℕ) (old new : Bytes) (ls : List Linked)
    → same_bytes new old ≡ false
    → ((l : Linked) → Has l ls → holds_refresh old l ≡ true → l.id ≡ id)
    → all_of (λ l. not (holds_refresh old l)) (map (rotate_row now id old new) ls) ≡ true
rotate-drops now id old new [] fresh owner = refl
rotate-drops now id old new (l ∷ ls) fresh owner = ground (
  arith,
  rotate_row-drops now id old new l fresh (owner l (inl refl)),
  rotate-drops now id old new ls fresh (λ k there. owner k (inr there)),
)

-- What a granted rotation leaves in the tables.
pub rotate_refresh_grant-tables :
    (now clock : ℕ) (m : Minted) (id : ℕ) (old : Bytes) (s : Store) {g : ℕ} {s' : Store}
    → rotate_refresh_grant now clock m id old s ≡ (ok g, s')
    → (s'.instances ≡ map (rotate_row now id old m.refresh_hash) s.instances)
      × (s'.history
          ≡ record {
            token_hash = old;
            instance_id = id;
            detectable_until = clock + refresh_reuse_window;
          }
            ∷ s.history)
unfolding rotate_refresh_grant rotate insert_access
rotate_refresh_grant-tables now clock m id old s granted = ground (arith, granted)
