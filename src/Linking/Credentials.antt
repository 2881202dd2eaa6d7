-- ===== src/Linking/Credentials.antt =====
-- api/internal/linking/credentials.go: the rotation of refresh tokens and the check of access
-- tokens, on the tables `linked_instances`, `instance_refresh_history` and
-- `instance_access_tokens`. A hash is its text of bytes. `now` is the database's clock, `clock` the
-- process's. The clean-up of expired rows after a rotation changes no answer and is left out.
pub mod Rotation
pub mod Later
pub mod Replay
use lumi_hub.Base.{
  Bool, List, Option, Result, String, any_of, err, false, find_first, if◌then◌else◌, keep, ltb, map,
  nat_eq, none, not, ok, some, string_eq, ℕ, ◌&&◌, ◌*◌, ◌+◌, ◌==◌, ◌∷◌,
}
use lumi_hub.Block.Content.{is_none}
use lumi_hub.Linking.Codes.{
  Bytes, access_token_kind, credential_hash, refresh_token_kind, same_bytes,
}

-- `refreshIdleLifetime`, `refreshReuseWindow` and `accessTokenLifetime`, in microseconds
abbrev pub refresh_idle_lifetime : ℕ
refresh_idle_lifetime = 90 * 24 * 3600 * 1000000

abbrev pub refresh_reuse_window : ℕ
refresh_reuse_window = 90 * 24 * 3600 * 1000000

abbrev pub access_token_lifetime : ℕ
access_token_lifetime = 15 * 60 * 1000000

-- The columns of `linked_instances` that the statements read or write.
pub record Linked : Type 0 where
  pub id : ℕ
  pub user_id : ℕ
  pub refresh_token_hash : Option Bytes
  pub scopes : List String
  pub linked_at : ℕ
  pub last_seen_at : Option ℕ
  pub revoked_at : Option ℕ

pub record Used : Type 0 where
  pub token_hash : Bytes
  pub instance_id : ℕ
  pub detectable_until : ℕ

pub record Access : Type 0 where
  pub token_hash : Bytes
  pub instance_id : ℕ
  pub expires_at : ℕ

pub record Store : Type 0 where
  pub instances : List Linked
  pub history : List Used
  pub access : List Access

pub data CredentialError : Type 0 where
  instance_credential refresh_reuse missing_scope : CredentialError
  rotation_failed : CredentialError

unfoldable pub is_revoked : Linked → Bool
is_revoked l = not (is_none l.revoked_at)

unfoldable pub has_hash : Bytes → Linked → Bool
has_hash h l = elim l.refresh_token_hash [ none ↦ false | some g ↦ same_bytes g h ]

-- `LockLinkedInstanceByRefreshToken`
unfoldable pub holds_refresh : Bytes → Linked → Bool
holds_refresh h l = has_hash h l && not (is_revoked l)

-- `InstanceForUsedRefreshToken`
unfoldable pub is_detectable : ℕ → Bytes → Used → Bool
is_detectable now h u = same_bytes u.token_hash h && ltb now u.detectable_until

-- `RevokeLinkedInstanceByID` on one row
unfoldable pub revoke_row : ℕ → ℕ → Linked → Linked
revoke_row now id l =
    if l.id == id && not (is_revoked l)
    then record l { refresh_token_hash = none; revoked_at = some now }
    else l

-- `RevokeLinkedInstanceByID`: the row is revoked and its access tokens go, where it was not yet
unfoldable pub revoke_by_id : ℕ → ℕ → Store → Store
revoke_by_id now id s =
    if any_of (λ (l : Linked). l.id == id && not (is_revoked l)) s.instances
    then record s {
      instances = map (revoke_row now id) s.instances;
      access = keep (λ (a : Access). not (a.instance_id == id)) s.access;
    }
    else s

-- `refreshExpired`
unfoldable pub refresh_expired : ℕ → Linked → Bool
refresh_expired clock l =
    let last : ℕ = elim l.last_seen_at [
      | none ↦ l.linked_at
      | some seen ↦ if ltb l.linked_at seen then seen else l.linked_at
    ] in
    ltb (last + refresh_idle_lifetime) clock

unfoldable pub rotate_row : ℕ → ℕ → Bytes → Bytes → Linked → Linked
rotate_row now id old new l =
    if l.id == id && holds_refresh old l
    then record l { refresh_token_hash = some new; last_seen_at = some now }
    else l

-- `RotateInstanceRefreshToken`; `none` where no row was rotated
unfoldable pub rotate : ℕ → ℕ → ℕ → Bytes → Bytes → Store → Option Store
rotate now until id old new s =
    if any_of (λ (l : Linked). l.id == id && holds_refresh old l) s.instances
    then some (record s {
      instances = map (rotate_row now id old new) s.instances;
      history = record { token_hash = old; instance_id = id; detectable_until = until } ∷ s.history;
    })
    else none

-- `InsertInstanceAccessToken`; `none` where the instance is not live
unfoldable pub insert_access : ℕ → Bytes → ℕ → Store → Option Store
insert_access id h expires_at s =
    if any_of (λ (l : Linked). l.id == id && not (is_revoked l)) s.instances
    then some (record s {
      access = record { token_hash = h; instance_id = id; expires_at = expires_at } ∷ s.access;
    })
    else none

-- The hashes of the two tokens that a rotation makes.
pub record Minted : Type 0 where
  pub refresh_hash : Bytes
  pub access_hash : Bytes

-- `handleRefreshReuse`
unfoldable pub handle_refresh_reuse : ℕ → Bytes → Store → Result CredentialError ℕ × Store
handle_refresh_reuse now h s = elim (find_first (is_detectable now h) s.history) [
  | none ↦ (err instance_credential, s)
  | some u ↦ (err refresh_reuse, revoke_by_id now u.instance_id s)
]

-- `rotateRefreshGrant`: on an error the transaction is rolled back
unfoldable pub rotate_refresh_grant :
    ℕ → ℕ → Minted → ℕ → Bytes → Store → Result CredentialError ℕ × Store
rotate_refresh_grant now clock m id old s =
    elim (rotate now (clock + refresh_reuse_window) id old m.refresh_hash s) [
      | none ↦ (err rotation_failed, s)
      | some rotated ↦
          elim (insert_access id m.access_hash (clock + access_token_lifetime) rotated) [
            | none ↦ (err rotation_failed, s)
            | some granted ↦ (ok id, granted)
          ]
    ]

-- `Refresh` once the token has a hash: the instance that it grants for
unfoldable pub refresh_hash_of : ℕ → ℕ → Minted → Bytes → Store → Result CredentialError ℕ × Store
refresh_hash_of now clock m h s = elim (find_first (holds_refresh h) s.instances) [
  | none ↦ handle_refresh_reuse now h s
  | some l ↦
      if refresh_expired clock l
      then (err instance_credential, revoke_by_id now l.id s)
      else rotate_refresh_grant now clock m l.id h s
]

-- `TouchLinkedInstanceByAccessToken`: the live instance of a token that has not expired
unfoldable pub is_current : ℕ → Bytes → Access → Bool
is_current now h a = same_bytes a.token_hash h && ltb now a.expires_at

unfoldable pub instance_of_access : ℕ → Bytes → Store → Option Linked
instance_of_access now h s = elim (find_first (is_current now h) s.access) [
  | none ↦ none
  | some a ↦ find_first (λ (l : Linked). l.id == a.instance_id && not (is_revoked l)) s.instances
]

unfoldable pub touch_row : ℕ → ℕ → Linked → Linked
touch_row now id l =
    if l.id == id && not (is_revoked l) then record l { last_seen_at = some now } else l

module _ (decode : Bytes → Option Bytes) (hash : Bytes → Bytes) where
  -- `Refresh`, after the rate limit
  unfoldable pub refresh : ℕ → ℕ → Minted → Bytes → Store → Result CredentialError ℕ × Store
  refresh now clock m token s = elim (credential_hash decode hash token refresh_token_kind) [
    | none ↦ (err instance_credential, s)
    | some h ↦ refresh_hash_of now clock m h s
  ]

  -- `Authenticate`; no scope is asked for by the empty text
  unfoldable pub authenticate : ℕ → Bytes → String → Store → Result CredentialError ℕ × Store
  authenticate now token needs s = elim (credential_hash decode hash token access_token_kind) [
    | none ↦ (err instance_credential, s)
    | some h ↦ elim (instance_of_access now h s) [
      | none ↦ (err instance_credential, s)
      | some l ↦ (
        (if not (needs == "") && not (any_of (λ granted. granted == needs) l.scopes)
            then err missing_scope
            else ok l.id),
        record s { instances = map (touch_row now l.id) s.instances },
      )
    ]
  ]
