-- ===== src/Linking/Examples.antt =====
-- A code that is shown and typed back, and a refresh token that is used twice.
use lumi_hub.Base.{
  List, Option, String, [], all_of, ap, arith, contains, drop, err, false, if◌then◌else◌, inl, inr,
  keep, length, map, nat_eq, none, not, ok, refl, some, string_eq, sym, true, ℕ, ◌++◌, ◌+◌, ◌-◌,
  ◌==◌, ◌∙◌, ◌∷◌, ◌≡◌, ◌≢◌,
}
use lumi_hub.Delivery.Service.{Instance, grants}
use lumi_hub.Linking.Codes.{
  Bytes, access_token_kind, code_alphabet, code_char, credential_hash, credential_parts, draw,
  format_user_code, new_code, new_token, normalize_user_code, read_code, refresh_token_kind,
  same_bytes, split_dots, to_upper,
}
use lumi_hub.Linking.Codes.Draws.{bytes_giving, bytes_giving_fair, new_code_sound}
use lumi_hub.Linking.Codes.Texts.{
  IsCode, IsEncoder, credential_hash-new_token, normalize_user_code-format_user_code,
}
use lumi_hub.Linking.Credentials.{
  Linked, Minted, Store, access_token_lifetime, authenticate, handle_refresh_reuse, has_hash,
  holds_refresh, insert_access, instance_of_access, is_current, is_detectable, is_revoked, refresh,
  refresh_expired, refresh_hash_of, refresh_reuse, revoke_by_id, revoke_row, rotate,
  rotate_refresh_grant, rotate_row, touch_row,
}
use lumi_hub.Linking.Credentials.Later.{Requests, and_one, links, no_more, refreshes, revokes}
use lumi_hub.Linking.Credentials.Replay.{
  authenticate-revoke_by_id, refresh-revoke_by_id, refresh_replayed,
}
use lumi_hub.Linking.Credentials.Rotation.{IsUnique}
use lumi_hub.Linking.Device.{insert_instance, issue_grant}
use lumi_hub.Linking.Scopes.{
  canonical_scopes, count_scope, grant_known, invalid_scopes, scope_order, scope_receive_assets,
  scope_sync_library,
}
use lumi_hub.Linking.Scopes.Exact.{canonical_scopes_lem, is_request}
use lumi_hub.Linking.Scopes.Granted.{grants-canonical_scopes}

-- What the examples compute with.
all_code : Unit {0}
unfolding code_char draw new_code format_user_code to_upper read_code normalize_user_code split_dots
    same_bytes credential_parts credential_hash new_token is_revoked has_hash holds_refresh
    is_detectable revoke_row revoke_by_id refresh_expired rotate_row rotate insert_access
    count_scope grant_known canonical_scopes handle_refresh_reuse rotate_refresh_grant
    refresh_hash_of is_current instance_of_access touch_row refresh authenticate issue_grant
    insert_instance
all_code = tt

abbrev code : Bytes
code = b'B' ∷ b'C' ∷ b'D' ∷ b'F' ∷ b'2' ∷ b'3' ∷ b'4' ∷ b'5' ∷ []

code-IsCode : IsCode code
code-IsCode = (refl, refl)

normalize_user_code-format_user_code_example :
    normalize_user_code (format_user_code code) ≡ some code
normalize_user_code-format_user_code_example = normalize_user_code-format_user_code code code-IsCode

-- Two bytes of the first buffer are rejected, so a second one is read.
drawn : new_code 3 ((255 ∷ 0 ∷ 252 ∷ []) ∷ (29 ∷ 2 ∷ 3 ∷ []) ∷ []) ≡ some (b'B' ∷ b'C' ∷ b'D' ∷ [])
unfolding all_code
drawn = refl

new_code_sound_example :
    (all_of (contains code_alphabet) (b'B' ∷ b'C' ∷ b'D' ∷ []) ≡ true)
    × (length {A = ℕ} (b'B' ∷ b'C' ∷ b'D' ∷ []) ≡ 3)
new_code_sound_example = new_code_sound 3 ((255 ∷ 0 ∷ 252 ∷ []) ∷ (29 ∷ 2 ∷ 3 ∷ []) ∷ []) drawn

bytes_giving_fair_example : bytes_giving 256 b'B' ≡ 9
bytes_giving_fair_example = bytes_giving_fair b'B' refl

-- A codec without dots that widens 32 bytes to 43.
shift : Bytes → Bytes
shift [] = []
shift (c ∷ cs) = (c + 47) ∷ shift cs

unshift : Bytes → Bytes
unshift [] = []
unshift (c ∷ cs) = (c - 47) ∷ unshift cs

abbrev padding : Bytes
padding = 65 ∷ 65 ∷ 65 ∷ 65 ∷ 65 ∷ 65 ∷ 65 ∷ 65 ∷ 65 ∷ 65 ∷ 65 ∷ []

abbrev encode : Bytes → Bytes
encode raw = padding ++ shift raw

abbrev decode : Bytes → Option Bytes
decode text = some (unshift (drop 11 text))

length-shift : (raw : Bytes) → length (shift raw) ≡ length raw
unfolding shift
length-shift [] = refl
length-shift (c ∷ cs) = omega (arith, length-shift cs)

shift-dotless : (raw : Bytes) → all_of (λ c. not (c == b'.')) (shift raw) ≡ true
unfolding shift
shift-dotless [] = refl
shift-dotless (c ∷ cs) = ground (arith, shift-dotless cs)

unshift-shift : (raw : Bytes) → unshift (shift raw) ≡ raw
unfolding shift unshift
unshift-shift [] = refl
unshift-shift (c ∷ cs) = ground (arith, unshift-shift cs)

encode-IsEncoder : IsEncoder encode decode
encode-IsEncoder = record {
  width = λ raw size. omega (arith, length-shift raw, size);
  dotless = λ raw. shift-dotless raw;
  inverse = λ raw. ap some (unshift-shift raw);
}

abbrev secret : Bytes
secret =
    1 ∷ 2 ∷ 3 ∷ 4 ∷ 5 ∷ 6 ∷ 7 ∷ 8 ∷ 1 ∷ 2 ∷ 3 ∷ 4 ∷ 5 ∷ 6 ∷ 7 ∷ 8 ∷ 1 ∷ 2 ∷ 3 ∷ 4 ∷ 5 ∷ 6 ∷ 7 ∷ 8
    ∷ 1 ∷ 2 ∷ 3 ∷ 4 ∷ 5 ∷ 6 ∷ 7 ∷ 8 ∷ []

abbrev hash : Bytes → Bytes
hash text = text

abbrev token : Bytes
token = new_token decode hash encode refresh_token_kind code secret

credential_hash-new_token_example :
    credential_hash decode hash token refresh_token_kind ≡ some (hash token)
credential_hash-new_token_example =
    credential_hash-new_token encode decode hash refresh_token_kind code secret encode-IsEncoder
      refl refl code-IsCode refl

abbrev laptop : Linked
laptop = record {
  id = 7;
  user_id = 1;
  refresh_token_hash = some token;
  scopes = "asset:receive" ∷ [];
  linked_at = 0;
  last_seen_at = none;
  revoked_at = none;
}

abbrev before : Store
before = record { instances = laptop ∷ []; history = []; access = [] }

abbrev next_token : Bytes
next_token = new_token decode hash encode refresh_token_kind code (map (λ b. b + 1) secret)

abbrev minted : Minted
minted = record { refresh_hash = next_token; access_hash = 2 ∷ [] }

abbrev after : Store
after = (refresh decode hash 10 10 minted token before).1

refreshed : refresh decode hash 10 10 minted token before ≡ (ok 7, after)
unfolding all_code shift unshift
refreshed = refl

token_read : credential_hash decode hash token refresh_token_kind ≡ some token
unfolding all_code shift unshift
token_read = refl

before-IsUnique : IsUnique token before.instances
before-IsUnique l k (inl a) (inl b) x y = ap (λ (l : Linked). l.id) (sym a ∙ b)
before-IsUnique l k (inl a) (inr none_left) x y = absurd none_left
before-IsUnique l k (inr none_left) there x y = absurd none_left

token_new : same_bytes minted.refresh_hash token ≡ false
unfolding all_code shift
token_new = refl

-- In between, the new token is exchanged in its turn, and another instance is granted and revoked.
abbrev third_minted : Minted
third_minted = record { refresh_hash = 3 ∷ []; access_hash = 4 ∷ [] }

abbrev tablet_minted : Minted
tablet_minted = record { refresh_hash = 5 ∷ []; access_hash = 6 ∷ [] }

abbrev exchanged : Store
exchanged = (refresh decode hash 12 12 third_minted next_token after).1

abbrev tablet : Store
tablet = record exchanged {
  instances =
      record {
        id = 9;
        user_id = 1;
        refresh_token_hash = some (5 ∷ []);
        scopes = "asset:receive" ∷ [];
        linked_at = 14;
        last_seen_at = none;
        revoked_at = none;
      }
      ∷ exchanged.instances;
  access =
      record { token_hash = 6 ∷ []; instance_id = 9; expires_at = 14 + access_token_lifetime }
      ∷ exchanged.access;
}

exchanged_too : (refresh decode hash 12 12 third_minted next_token after).0 ≡ ok 7
unfolding all_code shift unshift
exchanged_too = refl

tablet_granted :
    issue_grant 14 14 9 tablet_minted 1 ("asset:receive" ∷ []) exchanged
    ≡ some (record { instance_id = 9; user_id = 1; scopes = "asset:receive" ∷ [] }, tablet)
unfolding all_code shift unshift
tablet_granted = refl

fresh_third : same_bytes third_minted.refresh_hash token ≡ false
unfolding all_code shift
fresh_third = refl

fresh_tablet : same_bytes tablet_minted.refresh_hash token ≡ false
unfolding all_code shift
fresh_tablet = refl

abbrev later : Store
later = revoke_by_id 16 9 tablet

between : Requests decode hash token after later
between =
    and_one
      (and_one (and_one no_more (refreshes 12 12 third_minted next_token fresh_third))
        (links 14 14 9 tablet_minted 1 ("asset:receive" ∷ []) fresh_tablet tablet_granted))
      (revokes 16 9)

refresh_replayed_example :
    refresh decode hash 20 20 minted token later ≡ (err refresh_reuse, revoke_by_id 20 7 later)
refresh_replayed_example =
    refresh_replayed decode hash 10 10 20 20 minted minted token token before token_read
      before-IsUnique token_new refreshed between (ground arith)

-- A second instance goes on when the first is revoked.
abbrev phone : Linked
phone = record laptop { id = 8; refresh_token_hash = some token }

abbrev access_token : Bytes
access_token = new_token decode hash encode access_token_kind code secret

abbrev both : Store
both = record {
  instances = record laptop { refresh_token_hash = none } ∷ phone ∷ [];
  history = [];
  access = record { token_hash = access_token; instance_id = 8; expires_at = 1000 } ∷ [];
}

abbrev left : Store
left = revoke_by_id 5 7 both

phone_refreshed :
    refresh decode hash 10 10 minted token left
    ≡ (ok 8, (refresh decode hash 10 10 minted token left).1)
unfolding all_code shift unshift
phone_refreshed = refl

refresh-revoke_by_id_example : phone.id ≢ laptop.id
refresh-revoke_by_id_example =
    refresh-revoke_by_id decode hash 10 10 5 7 minted token both phone_refreshed

phone_known :
    authenticate decode hash 10 access_token "" left
    ≡ (ok 8, (authenticate decode hash 10 access_token "" left).1)
unfolding all_code shift unshift
phone_known = refl

authenticate-revoke_by_id_example : phone.id ≢ laptop.id
authenticate-revoke_by_id_example =
    authenticate-revoke_by_id decode hash 10 5 7 access_token "" both phone_known

abbrev asked_scopes : List String
asked_scopes = scope_sync_library ∷ scope_receive_assets ∷ []

canonical_scopes_lem_example : canonical_scopes asked_scopes ≡ (
    if is_request asked_scopes
    then ok (keep (contains asked_scopes) scope_order)
    else err invalid_scopes)
canonical_scopes_lem_example = canonical_scopes_lem asked_scopes

abbrev desktop : Instance
desktop = record { id = 7; user_id = 1; scopes = scope_order; accepted_targets = [] }

scopes_answered : canonical_scopes asked_scopes ≡ ok desktop.scopes
unfolding all_code
scopes_answered = refl

grants-canonical_scopes_example :
    grants desktop scope_sync_library ≡ contains asked_scopes scope_sync_library
grants-canonical_scopes_example =
    grants-canonical_scopes desktop asked_scopes scopes_answered scope_sync_library
