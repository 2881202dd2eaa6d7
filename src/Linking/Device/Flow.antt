-- ===== src/Linking/Device/Flow.antt =====
-- From `Start` over `Approve` to `Poll`.
use lumi_hub.Base.{
  ==-refl, List, Option-cases, String, [], any_of, ap, arith, false, find_first, inl, inr, keep,
  length, ltb, map, nat_eq, ok, refl, some, true, ℕ, ◌++◌, ◌+◌, ◌∙◌, ◌∷◌, ◌≡◌,
}
use lumi_hub.Linking.Codes.{Bytes}
use lumi_hub.Linking.Codes.Texts.{same_bytes_refl}
use lumi_hub.Linking.Credentials.{Minted, Store, access_token_lifetime, insert_access, is_revoked}
use lumi_hub.Linking.Device.{
  LinkRequest, Links, answer_poll, approve, approve_row, has_device, insert_instance, is_pollable,
  is_redeemable, is_reviewable, is_too_soon, issue_grant, poll, poll_row, redeem, slowed,
}
use lumi_hub.Linking.Device.Opened.{
  any_of_last, find_first_last, keep_last, map_last, start-IsOpened,
}
use lumi_hub.Linking.Device.Redeemed.{
  any_of-Keeps, approve_row-Keeps, has_device-Keeps, has_device-redeemable, poll_row-Keeps,
}
use lumi_hub.Linking.Device.Start.{Drawn, has_user_code, new_request, request_lifetime, start}

-- The request that `Start` opened, once the user has approved it.
abbrev approved_request : Drawn → List String → ℕ → ℕ → ℕ → Bytes → LinkRequest
approved_request d scopes expires_at now user token = record (new_request d scopes expires_at) {
  review_token_hash = some token;
  reviewed_by = some user;
  approved_by = some user;
  approved_at = some now;
}

any_of-reviewable :
    (now user : ℕ) (code : Bytes) (rs : List LinkRequest)
    → any_of (has_user_code code) rs ≡ false
    → any_of (is_reviewable now user code) rs ≡ false
unfolding is_reviewable has_user_code
any_of-reviewable now user code [] h = refl
any_of-reviewable now user code (r ∷ rs) h = ground (arith, h, any_of-reviewable now user code rs)

issue_grant_stored :
    (now clock id : ℕ) (m : Minted) (user : ℕ) (scopes : List String) (s : Store)
    → (t : Store) × (issue_grant now clock id m user scopes s
        ≡ some (record { instance_id = id; user_id = user; scopes = scopes }, t))
unfolding issue_grant insert_access insert_instance is_revoked
issue_grant_stored now clock id m user scopes s =
    elim (Option-cases (
      insert_access id m.access_hash (clock + access_token_lifetime)
        (insert_instance now id user m.refresh_hash scopes s))) [
          | inl gone ↦ absurd (ground (arith, gone, ==-refl ⦃e = nat_eq⦄ id))
          | inr (t, stored) ↦ (t, ground (arith, stored))
        ]

module _ (d : Drawn) (scopes : List String) (expires_at : ℕ) where
  approve-opened :
      (now user : ℕ) (token : Bytes) (others : List LinkRequest) (store : Store)
      → any_of (has_user_code d.user_code_hash) others ≡ false
      → ltb now expires_at ≡ true
      → approve now user
          (some d.user_code_hash)
          (some token)
          (record { requests = others ++ (new_request d scopes expires_at ∷ []); store = store })
        ≡ (
          ok scopes,
          record {
            requests =
                map (approve_row now user token d.user_code_hash) others
                ++ (approved_request d scopes expires_at now user token ∷ []);
            store = store;
          },
        )
  unfolding approve approve_row new_request
  approve-opened now user token others store unused early =
      let mine : is_reviewable now user d.user_code_hash (new_request d scopes expires_at) ≡ true =
        unfold is_reviewable new_request in
        ground (arith, same_bytes_refl d.user_code_hash, early) in
      let found : find_first (is_reviewable now user d.user_code_hash)
            (others ++ (new_request d scopes expires_at ∷ []))
          ≡ some (new_request d scopes expires_at) =
        find_first_last (is_reviewable now user d.user_code_hash) others
          (new_request d scopes expires_at)
          (any_of-reviewable now user d.user_code_hash others unused) mine in
      rw
        (
          found,
          approve,
          map_last (approve_row now user token d.user_code_hash) others
              (new_request d scopes expires_at),
          mine,
        )
        refl

  poll-approved :
      (now clock id : ℕ) (m : Minted) (user before : ℕ) (token : Bytes) (others : List LinkRequest)
      (store : Store)
      → any_of (has_device d.device_code_hash) others ≡ false
      → ltb now expires_at ≡ true
      → ltb expires_at clock ≡ false
      → (poll now clock id m (some d.device_code_hash) (record {
        requests = others ++ (approved_request d scopes expires_at before user token ∷ []);
        store = store;
      })).0
        ≡ ok (some (record { instance_id = id; user_id = user; scopes = scopes }))
  unfolding poll answer_poll redeem is_too_soon new_request
  poll-approved now clock id m user before token others store unused early live =
      let h = d.device_code_hash in
      let q : LinkRequest = approved_request d scopes expires_at before user token in
      let here : has_device h q ≡ true = unfold has_device new_request in same_bytes_refl h in
      let polled : is_pollable now h q ≡ true =
        unfold is_pollable new_request in ground (arith, here, early) in
      let found : find_first (has_device h) (others ++ (q ∷ [])) ≡ some q =
        find_first_last (has_device h) others q unused here in
      let some_one : any_of (is_pollable now h) (others ++ (q ∷ [])) ≡ true =
        any_of_last (is_pollable now h) others q polled in
      let apart : any_of (has_device h) (map (poll_row now false h) others) ≡ false =
        any_of-Keeps (poll_row-Keeps now false h) h others ∙ unused in
      let redeemed : is_redeemable now h (poll_row now false h q) ≡ true =
        unfold is_redeemable poll_row slowed new_request in
        ground (arith, here, polled, early, has_device-Keeps (poll_row-Keeps now false h) h q) in
      let one : length
            (keep (is_redeemable now h) (map (poll_row now false h) (others ++ (q ∷ []))))
          ≡ 1 =
        rw (map_last (poll_row now false h) others q) (
          keep_last (is_redeemable now h) (map (poll_row now false h) others)
            (poll_row now false h q)
            (has_device-redeemable now h (map (poll_row now false h) others) apart) redeemed) in
      let (kept, issued) = issue_grant_stored now clock id m user scopes store in
      rw (found, live, some_one, issued, one, poll, answer_poll, redeem) refl

-- A request that `Start` opened can be approved by its user code, which shows its scopes, and the
-- first `Poll` by its device code after that grants an instance of the approving user with exactly
-- those scopes, where neither comes later than the lifetime of the request.
pub poll-approve-start :
    (now clock : ℕ) (codes : ℕ → Drawn) (scopes : List String) (s : Links) {d : Drawn}
    → (start now clock codes scopes s).0 ≡ some d
    → (approved_at user : ℕ) (token : Bytes) → ltb approved_at (clock + request_lifetime) ≡ true
    → (polled_at poll_clock id : ℕ) (m : Minted) → ltb polled_at (clock + request_lifetime) ≡ true
    → ltb (clock + request_lifetime) poll_clock ≡ false
    → ((approve approved_at user
          (some d.user_code_hash)
          (some token)
          (start now clock codes scopes s).1).0
        ≡ ok scopes)
      × ((poll polled_at poll_clock id m
            (some d.device_code_hash)
            (approve approved_at user
              (some d.user_code_hash)
              (some token)
              (start now clock codes scopes s).1).1).0
          ≡ ok (some (record { instance_id = id; user_id = user; scopes = scopes })))
poll-approve-start now clock codes scopes s {d} began approved_at user token early polled_at
      poll_clock id m soon live =
    let how = start-IsOpened now clock codes scopes s began in
    let t : Links = (start now clock codes scopes s).1 in
    let step =
      ap
        (λ rs.
          approve approved_at user (some d.user_code_hash) (some token)
            (record t { requests = rs }))
        how.opened
      ∙ approve-opened d scopes (clock + request_lifetime) approved_at user token how.others t.store
          how.no_user early in
    let apart =
      any_of-Keeps (approve_row-Keeps approved_at user token d.user_code_hash) d.device_code_hash
        how.others
      ∙ how.no_device in
    (
      ap (λ a. a.0) step,
      ap (λ a. (poll polled_at poll_clock id m (some d.device_code_hash) a.1).0) step
          ∙ poll-approved d scopes (clock + request_lifetime) polled_at poll_clock id m user
              approved_at token
              (map (approve_row approved_at user token d.user_code_hash) how.others) t.store apart
              soon live,
    )
