-- ===== src/Linking/Scopes/Exact.antt =====
-- What `canonicalScopes` accepts, and what an instance with its answer grants.
use mathlib.Core.Path.{subst}
use lumi_hub.Base.{
  ==-cases, Bool, Bool-cases, List, String, [], all_of, and_true, any_of, ap, arith, contains,
  distinct, err, false, if◌then◌else◌, inl, inr, keep, leb, length, ltb, nat_eq, not, ok, refl,
  string_eq, sym, true, ◌&&◌, ◌+◌, ◌==◌, ◌∙◌, ◌∷◌, ◌≡◌,
}
use lumi_hub.Linking.Scopes.{
  canonical_scopes, count_scope, grant_known, invalid_scopes, scope_order, scope_receive_assets,
  scope_sync_library,
}

abbrev pub is_known : String → Bool
is_known scope = any_of (λ known. scope == known) scope_order

-- A request of known scopes, without repetition, for one scope at least.
abbrev pub is_request : List String → Bool
is_request requested =
    not (length requested == 0) && (distinct requested && all_of is_known requested)

pub contains-count_scope :
    (known : String) (requested : List String)
    → contains requested known ≡ ltb 0 (count_scope known requested)
unfolding count_scope
contains-count_scope known [] = refl
contains-count_scope known (asked ∷ requested) =
    ground (arith, contains-count_scope known requested)

-- Which of the known scopes a scope is.
pub data Kind (scope : String) : Type 0 where
  receive :
      scope ≡ scope_receive_assets
      → scope == scope_receive_assets ≡ true
      → scope == scope_sync_library ≡ false
      → Kind scope
  sync :
      scope ≡ scope_sync_library
      → scope == scope_receive_assets ≡ false
      → scope == scope_sync_library ≡ true
      → Kind scope
  unknown : scope == scope_receive_assets ≡ false → scope == scope_sync_library ≡ false → Kind scope

pub classify : (scope : String) → Kind scope
classify scope = elim (==-cases scope scope_receive_assets) [
  | inl same ↦
      receive same (subst (λ s. s == scope_receive_assets ≡ true) (sym same) refl)
        (subst (λ s. s == scope_sync_library ≡ false) (sym same) refl)
  | inr differs ↦ elim (==-cases scope scope_sync_library) [
    | inl same ↦ sync same differs (subst (λ s. s == scope_sync_library ≡ true) (sym same) refl)
    | inr differs_too ↦ unknown differs differs_too
  ]
]

known_counts :
    (requested : List String)
    → all_of is_known requested ≡ true
    → (count_scope scope_receive_assets requested + count_scope scope_sync_library requested
        ≡ length requested)
      × (distinct requested ≡ (
          leb (count_scope scope_receive_assets requested) 1
          && leb (count_scope scope_sync_library requested) 1))
unfolding count_scope
known_counts [] h = (refl, refl)
known_counts (asked ∷ requested) h =
    let (first, rest) = and_true (is_known asked) (all_of is_known requested) h in
    let (sum, apart) = known_counts requested rest in
    elim (classify asked) [
      | receive same a b ↦
          let twice : contains requested asked
              ≡ ltb 0 (count_scope scope_receive_assets requested) =
            ap (contains requested) same ∙ contains-count_scope scope_receive_assets requested in
          (ground (arith, a, b, sum), ground (arith, a, b, apart, twice))
      | sync same a b ↦
          let twice : contains requested asked ≡ ltb 0 (count_scope scope_sync_library requested) =
            ap (contains requested) same ∙ contains-count_scope scope_sync_library requested in
          (ground (arith, a, b, sum), ground (arith, a, b, apart, twice))
      | unknown a b ↦ absurd (ground (arith, a, b, first))
    ]

count_scope_bound :
    (requested : List String)
    → leb
        (count_scope scope_receive_assets requested + count_scope scope_sync_library requested)
        (length requested)
      ≡ true
unfolding count_scope
count_scope_bound [] = refl
count_scope_bound (asked ∷ requested) = elim (classify asked) [
  | receive same a b ↦ ground (arith, a, b, count_scope_bound requested)
  | sync same a b ↦ ground (arith, a, b, count_scope_bound requested)
  | unknown a b ↦ ground (arith, a, b, count_scope_bound requested)
]

unknown_counts :
    (requested : List String)
    → all_of is_known requested ≡ false
    → ltb
        (count_scope scope_receive_assets requested + count_scope scope_sync_library requested)
        (length requested)
      ≡ true
unfolding count_scope
unknown_counts [] h = absurd (cc h)
unknown_counts (asked ∷ requested) h = elim (classify asked) [
  | receive same a b ↦ ground (arith, a, b, unknown_counts requested (ground (arith, h, a)))
  | sync same a b ↦ ground (arith, a, b, unknown_counts requested (ground (arith, h, a, b)))
  | unknown a b ↦ ground (arith, a, b, count_scope_bound requested)
]

-- `canonicalScopes` accepts exactly the requests for one scope at least that name known scopes
-- only and none twice; it answers with the scopes asked for, in the server's order.
pub canonical_scopes_lem :
    (requested : List String)
    → canonical_scopes requested ≡ (
        if is_request requested
        then ok (keep (contains requested) scope_order)
        else err invalid_scopes)
unfolding canonical_scopes grant_known
canonical_scopes_lem requested = elim (Bool-cases (all_of is_known requested)) [
  | inl known ↦
      let (sum, apart) = known_counts requested known in
      ground (
        arith,
        known,
        sum,
        apart,
        contains-count_scope scope_receive_assets requested,
        contains-count_scope scope_sync_library requested,
      )
  | inr strange ↦ ground (arith, strange, unknown_counts requested strange)
]
