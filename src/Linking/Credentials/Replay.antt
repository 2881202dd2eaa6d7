-- ===== src/Linking/Credentials/Replay.antt =====
-- A refresh token that comes back after it was replaced, and what a revoked instance is refused.
use lumi_hub.Base.{
  List, Option, Option-cases, String, all_of, ap, arith, err, false, find_first, find_first-Has,
  find_first-eq-none, find_first_test, inl, inr, none, not, ok, some, sym, true, ℕ, ◌+◌, ◌<◌, ◌∙◌,
  ◌∷◌, ◌≡◌, ◌≢◌,
}
use lumi_hub.Linking.Codes.{
  Bytes, access_token_kind, credential_hash, refresh_token_kind, same_bytes,
}
use lumi_hub.Linking.Codes.Texts.{same_bytes_refl}
use lumi_hub.Linking.Credentials.{
  Linked, Minted, Store, Used, authenticate, handle_refresh_reuse, holds_refresh,
  instance_of_access, is_detectable, refresh, refresh_hash_of, refresh_reuse, refresh_reuse_window,
  revoke_by_id,
}
use lumi_hub.Linking.Credentials.Later.{IsReplaced, Requests, Requests-IsReplaced}
use lumi_hub.Linking.Credentials.Rotation.{
  IsUnique, cut_off-access, cut_off-refresh, refresh_hash_of-granted, revoke_by_id-revokes,
  rotate-drops, rotate_refresh_grant-tables,
}

-- The record that a rotation leaves is found while the window lasts.
detects :
    (now until id : ℕ) (h : Bytes) (us : List Used)
    → now < until
    → find_first
        (is_detectable now h)
        (record { token_hash = h; instance_id = id; detectable_until = until } ∷ us)
      ≡ some (record { token_hash = h; instance_id = id; detectable_until = until })
unfolding is_detectable
detects now until id h us early = ground (arith, early, same_bytes_refl h)

reuse_found :
    (now : ℕ) (h : Bytes) (s : Store) (u : Used)
    → find_first (is_detectable now h) s.history ≡ some u
    → handle_refresh_reuse now h s ≡ (err refresh_reuse, revoke_by_id now u.instance_id s)
unfolding handle_refresh_reuse
reuse_found now h s u found = ground (arith, found)

no_holder :
    (now clock : ℕ) (m : Minted) (h : Bytes) (s : Store)
    → find_first (holds_refresh h) s.instances ≡ none
    → refresh_hash_of now clock m h s ≡ handle_refresh_reuse now h s
unfolding refresh_hash_of
no_holder now clock m h s missing = ground (arith, missing)

-- A granted refresh leaves the hash replaced, with a record that lasts for the window.
refresh_hash_of-IsReplaced_after :
    (now clock time : ℕ) (m : Minted) (h : Bytes) (s : Store) {g : ℕ} {s' : Store}
    → IsUnique h s.instances
    → same_bytes m.refresh_hash h ≡ false
    → refresh_hash_of now clock m h s ≡ (ok g, s')
    → time < clock + refresh_reuse_window
    → (u : Used) × (g ≡ u.instance_id) × IsReplaced h time u s'
refresh_hash_of-IsReplaced_after now clock time m h s {g} {s'} unique fresh granted early =
    let (l, found, key, rotated) = refresh_hash_of-granted now clock m h s granted in
    let (instances, history) = rotate_refresh_grant-tables now clock m l.id h s rotated in
    let live_holder : holds_refresh h l ≡ true =
      find_first_test (holds_refresh h) s.instances found in
    let there = find_first-Has (holds_refresh h) s.instances found in
    let until = clock + refresh_reuse_window in
    let used : Used = record { token_hash = h; instance_id = l.id; detectable_until = until } in
    (
      used,
      key,
      record {
        unheld =
            ap (all_of (λ (k : Linked). not (holds_refresh h k))) instances
            ∙ rotate-drops now l.id h m.refresh_hash s.instances fresh
                (λ k stands test. unique k l stands there test live_holder);
        detected =
            ap (λ us. find_first (is_detectable time h) us) history
            ∙ detects time until l.id h s.history early;
      },
    )

-- A replaced hash that comes back revokes the instance of its record.
replay_hash :
    (now clock : ℕ) (m : Minted) (h : Bytes) (u : Used) (t : Store)
    → IsReplaced h now u t
    → refresh_hash_of now clock m h t ≡ (err refresh_reuse, revoke_by_id now u.instance_id t)
replay_hash now clock m h u t z =
    no_holder now clock m h t (find_first-eq-none (holds_refresh h) t.instances z.unheld)
    ∙ reuse_found now h t u z.detected

module _ (decode : Bytes → Option Bytes) (hash : Bytes → Bytes) where
  refresh_read :
      (now clock : ℕ) (m : Minted) (token h : Bytes) (s : Store)
      → credential_hash decode hash token refresh_token_kind ≡ some h
      → refresh decode hash now clock m token s ≡ refresh_hash_of now clock m h s
  unfolding refresh
  refresh_read now clock m token h s read = ground (arith, read)

  refresh-eq-ok :
      (now clock : ℕ) (m : Minted) (token : Bytes) (s : Store) {g : ℕ} {s' : Store}
      → refresh decode hash now clock m token s ≡ (ok g, s')
      → (h : Bytes) × (credential_hash decode hash token refresh_token_kind ≡ some h)
        × (refresh_hash_of now clock m h s ≡ (ok g, s'))
  unfolding refresh
  refresh-eq-ok now clock m token s granted =
      elim (Option-cases (credential_hash decode hash token refresh_token_kind)) [
        | inl missing ↦ absurd (ground (arith, missing, granted))
        | inr (h, read) ↦ (h, read, (rw (read, refresh) at granted))
      ]

  -- A refresh token that was replaced by one of another hash and comes back within the reuse window,
  -- after any run of exchanges, checks, revocations and new grants that mint no token of its hash, is
  -- refused as reused and revokes the instance that it was granted for, where no two live instances
  -- hold its hash.
  pub refresh_replayed :
      (now clock now' clock' : ℕ) (m m' : Minted) (token h : Bytes) (s : Store) {g : ℕ}
      {s' t : Store}
      → credential_hash decode hash token refresh_token_kind ≡ some h
      → IsUnique h s.instances
      → same_bytes m.refresh_hash h ≡ false
      → refresh decode hash now clock m token s ≡ (ok g, s')
      → Requests decode hash h s' t
      → now' < clock + refresh_reuse_window
      → refresh decode hash now' clock' m' token t ≡ (err refresh_reuse, revoke_by_id now' g t)
  refresh_replayed now clock now' clock' m m' token h s {g} {s'} {t} read unique fresh granted
        between early =
      let (u, key, replaced) =
        refresh_hash_of-IsReplaced_after now clock now' m h s unique fresh
          (sym (refresh_read now clock m token h s read) ∙ granted) early in
      refresh_read now' clock' m' token h t read
      ∙ replay_hash now' clock' m' h u t (Requests-IsReplaced h now' u decode hash between replaced)
      ∙ ap (λ id. (err refresh_reuse, revoke_by_id now' id t)) (sym key)

  -- After a revocation no refresh token is exchanged for the instance.
  pub refresh-revoke_by_id :
      (now clock now' id : ℕ) (m : Minted) (token : Bytes) (s : Store) {g : ℕ} {s' : Store}
      → refresh decode hash now clock m token (revoke_by_id now' id s) ≡ (ok g, s')
      → g ≢ id
  refresh-revoke_by_id now clock now' id m token s granted =
      let (h, read, exchanged) = refresh-eq-ok now clock m token (revoke_by_id now' id s) granted in
      cut_off-refresh id now clock m h (revoke_by_id now' id s) (revoke_by_id-revokes now' id s)
        exchanged

  -- After a revocation no access token is accepted for the instance.
  pub authenticate-revoke_by_id :
      (now now' id : ℕ) (token : Bytes) (needs : String) (s : Store) {g : ℕ} {s' : Store}
      → authenticate decode hash now token needs (revoke_by_id now' id s) ≡ (ok g, s')
      → g ≢ id
  unfolding authenticate
  authenticate-revoke_by_id now now' id token needs s {g} {s'} granted same =
      let after = revoke_by_id now' id s in
      elim (Option-cases (credential_hash decode hash token access_token_kind)) [
        | inl missing ↦ absurd (ground (arith, missing, granted))
        | inr (h, read) ↦ elim (Option-cases (instance_of_access now h after)) [
          | inl nobody ↦ absurd (ground (arith, read, nobody, granted))
          | inr (l, found) ↦
              cut_off-access id now h after (revoke_by_id-revokes now' id s) found
                (ground (arith, read, found, granted, same))
        ]
      ]
