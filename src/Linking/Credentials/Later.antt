-- ===== src/Linking/Credentials/Later.antt =====
-- What may happen to the credentials between a rotation and the return of the token that it replaced.
use mathlib.Core.Path.{subst}
use lumi_hub.Base.{
  Bool-cases, List, Option, Option-cases, String, [], all_of, all_of-Has, and_true, any_of, ap,
  arith, false, find_first, find_first-Has, find_first_test, inl, inr, map, nat_eq, not, refl, some,
  string_eq, true, ℕ, ◌&&◌, ◌+◌, ◌==◌, ◌∷◌, ◌≡◌,
}
use lumi_hub.Linking.Codes.{
  Bytes, access_token_kind, credential_hash, refresh_token_kind, same_bytes,
}
use lumi_hub.Linking.Codes.Texts.{same_bytes_sound}
use lumi_hub.Linking.Credentials.{
  Linked, Minted, Store, Used, access_token_lifetime, authenticate, handle_refresh_reuse, has_hash,
  holds_refresh, insert_access, instance_of_access, is_detectable, is_revoked, refresh,
  refresh_expired, refresh_hash_of, refresh_reuse_window, revoke_by_id, revoke_row, rotate,
  rotate_refresh_grant, rotate_row, touch_row,
}
use lumi_hub.Linking.Device.{Grant, insert_instance, issue_grant}

-- One request: an exchange of any refresh token, a check of any access token, a revocation, or a
-- grant to a new instance. No token that is minted has the hash.
pub data Request (decode : Bytes → Option Bytes) (hash : Bytes → Bytes) (h : Bytes) (s : Store)
    : Store → Type 0 where
  refreshes :
      (now clock : ℕ) (m : Minted) (token : Bytes)
      → same_bytes m.refresh_hash h ≡ false
      → Request decode hash h s (refresh decode hash now clock m token s).1
  authenticates :
      (now : ℕ) (token : Bytes) (needs : String)
      → Request decode hash h s (authenticate decode hash now token needs s).1
  revokes : (now id : ℕ) → Request decode hash h s (revoke_by_id now id s)
  links :
      (now clock id : ℕ) (m : Minted) (user : ℕ) (scopes : List String) {grant : Grant} {t : Store}
      → same_bytes m.refresh_hash h ≡ false
      → issue_grant now clock id m user scopes s ≡ some (grant, t)
      → Request decode hash h s t

pub data Requests (decode : Bytes → Option Bytes) (hash : Bytes → Bytes) (h : Bytes) (s : Store)
    : Store → Type 0 where
  no_more : Requests decode hash h s s
  and_one :
      {t u : Store}
      → Requests decode hash h s t
      → Request decode hash h t u
      → Requests decode hash h s u

-- No live instance holds the hash, and its record in the history is found at the time.
pub record IsReplaced (h : Bytes) (time : ℕ) (u : Used) (s : Store) : Type 0 where
  pub unheld : all_of (λ (l : Linked). not (holds_refresh h l)) s.instances ≡ true
  pub detected : find_first (is_detectable time h) s.history ≡ some u

abbrev rotated_store : ℕ → ℕ → Minted → ℕ → Bytes → Store → Store
rotated_store now clock m id old s = record s {
  instances = map (rotate_row now id old m.refresh_hash) s.instances;
  history =
      record { token_hash = old; instance_id = id; detectable_until = clock + refresh_reuse_window }
      ∷ s.history;
}

module _ (h : Bytes) where
  all_unheld-map :
      (f : Linked → Linked)
      → ((l : Linked) → not (holds_refresh h l) ≡ true → not (holds_refresh h (f l)) ≡ true)
      → (ls : List Linked) → all_of (λ (l : Linked). not (holds_refresh h l)) ls ≡ true
      → all_of (λ (l : Linked). not (holds_refresh h l)) (map f ls) ≡ true
  all_unheld-map f keeps [] out = refl
  all_unheld-map f keeps (l ∷ ls) out =
      let (first, rest) =
        and_true (not (holds_refresh h l)) (all_of (λ (k : Linked). not (holds_refresh h k)) ls)
          out in
      rw (keeps l first) (all_unheld-map f keeps ls rest)

  revoke_row-unheld :
      (now id : ℕ) (l : Linked)
      → not (holds_refresh h l) ≡ true
      → not (holds_refresh h (revoke_row now id l)) ≡ true
  unfolding revoke_row holds_refresh has_hash is_revoked
  revoke_row-unheld now id l out = ground (arith, out)

  touch_row-unheld :
      (now id : ℕ) (l : Linked)
      → not (holds_refresh h l) ≡ true
      → not (holds_refresh h (touch_row now id l)) ≡ true
  unfolding touch_row holds_refresh has_hash is_revoked
  touch_row-unheld now id l out = ground (arith, out)

  rotate_row-unheld :
      (now id : ℕ) (old new : Bytes)
      → same_bytes new h ≡ false
      → (l : Linked) → not (holds_refresh h l) ≡ true
      → not (holds_refresh h (rotate_row now id old new l)) ≡ true
  unfolding rotate_row holds_refresh has_hash is_revoked
  rotate_row-unheld now id old new fresh l out = ground (arith, out, fresh)

  module _ (time : ℕ) (u : Used) where
    revoke_by_id-IsReplaced :
        (now id : ℕ) (s : Store)
        → IsReplaced h time u s
        → IsReplaced h time u (revoke_by_id now id s)
    unfolding revoke_by_id
    revoke_by_id-IsReplaced now id s z =
        elim (Bool-cases (any_of (λ (l : Linked). l.id == id && not (is_revoked l)) s.instances)) [
          | inl live ↦
              rw (live, revoke_by_id)
                (record {
                  unheld =
                      all_unheld-map (revoke_row now id) (revoke_row-unheld now id) s.instances
                        z.unheld;
                  detected = z.detected;
                })
          | inr gone ↦ rw (gone, revoke_by_id) z
        ]

    handle_refresh_reuse-IsReplaced :
        (now : ℕ) (old : Bytes) (s : Store)
        → IsReplaced h time u s
        → IsReplaced h time u (handle_refresh_reuse now old s).1
    unfolding handle_refresh_reuse
    handle_refresh_reuse-IsReplaced now old s z =
        elim (Option-cases (find_first (is_detectable now old) s.history)) [
          | inl nothing ↦ rw (nothing, handle_refresh_reuse) z
          | inr (used, found) ↦
              rw (found, handle_refresh_reuse) (revoke_by_id-IsReplaced now used.instance_id s z)
        ]

    insert_access-IsReplaced :
        (id : ℕ) (key : Bytes) (until : ℕ) (s : Store) {t : Store}
        → insert_access id key until s ≡ some t
        → IsReplaced h time u s
        → IsReplaced h time u t
    unfolding insert_access
    insert_access-IsReplaced id key until s {t} stored z = record {
      unheld = ground (arith, stored, z.unheld);
      detected = ground (arith, stored, z.detected);
    }

    -- The holder of another hash is rotated: its record hides none of this hash.
    rotate_refresh_grant-IsReplaced :
        (now clock : ℕ) (m : Minted) (id : ℕ) (old : Bytes) (s : Store)
        → same_bytes old h ≡ false
        → same_bytes m.refresh_hash h ≡ false
        → IsReplaced h time u s
        → IsReplaced h time u (rotate_refresh_grant now clock m id old s).1
    unfolding rotate_refresh_grant rotate is_detectable
    rotate_refresh_grant-IsReplaced now clock m id old s other fresh z =
        elim (Bool-cases (any_of (λ (l : Linked). l.id == id && holds_refresh old l) s.instances)) [
          | inr no_holder ↦ rw (no_holder, rotate_refresh_grant, rotate) z
          | inl holder ↦
              elim (Option-cases (
                insert_access id m.access_hash (clock + access_token_lifetime)
                  (rotated_store now clock m id old s))) [
                    | inl gone ↦ rw (holder, gone, rotate_refresh_grant, rotate) z
                    | inr (granted, stored) ↦
                        rw (holder, stored, rotate_refresh_grant, rotate)
                          (insert_access-IsReplaced id m.access_hash _ _ stored (record {
                            unheld =
                                all_unheld-map (rotate_row now id old m.refresh_hash)
                                  (rotate_row-unheld now id old m.refresh_hash fresh) s.instances
                                  z.unheld;
                            detected = rw other z.detected;
                          }))
                  ]
        ]

    refresh_hash_of-IsReplaced :
        (now clock : ℕ) (m : Minted) (old : Bytes) (s : Store)
        → same_bytes m.refresh_hash h ≡ false
        → IsReplaced h time u s
        → IsReplaced h time u (refresh_hash_of now clock m old s).1
    unfolding refresh_hash_of
    refresh_hash_of-IsReplaced now clock m old s fresh z =
        elim (Option-cases (find_first (holds_refresh old) s.instances)) [
          | inl missing ↦
              rw (missing, refresh_hash_of) (handle_refresh_reuse-IsReplaced now old s z)
          | inr (l, found) ↦
              let live_holder : holds_refresh old l ≡ true =
                find_first_test (holds_refresh old) s.instances found in
              let out : not (holds_refresh h l) ≡ true =
                all_of-Has (λ (k : Linked). not (holds_refresh h k)) s.instances z.unheld
                  (find_first-Has (holds_refresh old) s.instances found) in
              elim (Bool-cases (same_bytes old h)) [
                | inl same ↦
                    let e : holds_refresh old l ≡ holds_refresh h l =
                      ap (λ x. holds_refresh x l) (same_bytes_sound old h same) in
                    absurd (ground (arith, e, live_holder, out))
                | inr other ↦ elim (Bool-cases (refresh_expired clock l)) [
                  | inl idle ↦
                      rw (found, idle, refresh_hash_of) (revoke_by_id-IsReplaced now l.id s z)
                  | inr active ↦
                      rw (found, active, refresh_hash_of)
                        (rotate_refresh_grant-IsReplaced now clock m l.id old s other fresh z)
                ]
              ]
        ]

    module _ (decode : Bytes → Option Bytes) (hash : Bytes → Bytes) where
      refresh-IsReplaced :
          (now clock : ℕ) (m : Minted) (token : Bytes) (s : Store)
          → same_bytes m.refresh_hash h ≡ false
          → IsReplaced h time u s
          → IsReplaced h time u (refresh decode hash now clock m token s).1
      unfolding refresh
      refresh-IsReplaced now clock m token s fresh z =
          elim (Option-cases (credential_hash decode hash token refresh_token_kind)) [
            | inl none_read ↦ rw (none_read, refresh) z
            | inr (old, read) ↦
                rw (read, refresh) (refresh_hash_of-IsReplaced now clock m old s fresh z)
          ]

      authenticate-IsReplaced :
          (now : ℕ) (token : Bytes) (needs : String) (s : Store)
          → IsReplaced h time u s
          → IsReplaced h time u (authenticate decode hash now token needs s).1
      unfolding authenticate
      authenticate-IsReplaced now token needs s z =
          elim (Option-cases (credential_hash decode hash token access_token_kind)) [
            | inl none_read ↦ rw (none_read, authenticate) z
            | inr (key, read) ↦ elim (Option-cases (instance_of_access now key s)) [
              | inl nobody ↦ rw (read, nobody, authenticate) z
              | inr (l, found) ↦
                  rw (read, found, authenticate)
                    (record {
                      unheld =
                          all_unheld-map (touch_row now l.id) (touch_row-unheld now l.id)
                            s.instances z.unheld;
                      detected = z.detected;
                    })
            ]
          ]

      Request-IsReplaced :
          {s t : Store} → Request decode hash h s t → IsReplaced h time u s → IsReplaced h time u t
      unfolding issue_grant insert_instance holds_refresh has_hash is_revoked
      Request-IsReplaced {s} (refreshes now clock m token fresh) z =
          refresh-IsReplaced now clock m token s fresh z
      Request-IsReplaced {s} (authenticates now token needs) z =
          authenticate-IsReplaced now token needs s z
      Request-IsReplaced {s} (revokes now id) z = revoke_by_id-IsReplaced now id s z
      Request-IsReplaced {s} {t} (links now clock id m user scopes fresh issued) z =
          elim (Option-cases (
            insert_access id m.access_hash (clock + access_token_lifetime)
              (insert_instance now id user m.refresh_hash scopes s))) [
                | inl gone ↦ absurd (ground (arith, issued, gone))
                | inr (stored, inserted) ↦
                    let same : stored ≡ t = ground (arith, issued, inserted) in
                    subst (IsReplaced h time u) same (
                      insert_access-IsReplaced id m.access_hash _ _ inserted (record {
                        unheld = ground (arith, fresh, z.unheld);
                        detected = z.detected;
                      }))
              ]

      pub Requests-IsReplaced :
          {s t : Store} → Requests decode hash h s t → IsReplaced h time u s → IsReplaced h time u t
      Requests-IsReplaced no_more z = z
      Requests-IsReplaced (and_one before request) z =
          Request-IsReplaced request (Requests-IsReplaced before z)
