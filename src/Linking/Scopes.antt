-- ===== src/Linking/Scopes.antt =====
-- api/internal/linking/linking.go: the scopes of an instance, `canonicalScopes`. A Go `Scope` is a
-- string, so a request may hold scopes that the server does not know.
pub mod Exact
pub mod Granted
use lumi_hub.Base.{
  List, Result, String, [], if◌then◌else◌, length, ltb, nat_eq, not, ok, refuse_if, string_eq, ℕ,
  ◌++◌, ◌+◌, ◌==◌, ◌>>=◌, ◌>>◌, ◌∷◌,
}

pub data ScopeError : Type 0 where
  invalid_scopes : ScopeError

abbrev pub scope_receive_assets : String
scope_receive_assets = "asset:receive"

abbrev pub scope_sync_library : String
scope_sync_library = "library:sync"

abbrev pub scope_order : List String
scope_order = scope_receive_assets ∷ scope_sync_library ∷ []

-- How often the request asks for the scope: the inner loop.
unfoldable pub count_scope : String → List String → ℕ
count_scope known [] = 0
count_scope known (asked ∷ requested) =
    if asked == known then count_scope known requested + 1 else count_scope known requested

-- The outer loop: `granted` is what it has collected from the known scopes so far.
unfoldable pub grant_known :
    List String → List String → List String → Result ScopeError (List String)
grant_known requested [] granted = ok granted
grant_known requested (known ∷ rest) granted =
    let count = count_scope known requested in
    refuse_if (ltb 1 count) invalid_scopes
    >> grant_known requested rest (if count == 1 then granted ++ (known ∷ []) else granted)

-- `canonicalScopes`
unfoldable pub canonical_scopes : List String → Result ScopeError (List String)
canonical_scopes requested =
    refuse_if (length requested == 0) invalid_scopes
    >> (grant_known requested scope_order [] >>= λ (granted : List String).
        refuse_if (not (length granted == length requested)) invalid_scopes >> ok granted)
