-- ===== src/Linking/Scopes/Granted.antt =====
-- What an instance that holds the answer of `canonicalScopes` may do: `Instance.Grants`.
use mathlib.Core.Path.{subst}
use lumi_hub.Base.{
  Bool-cases, List, String, all_of, all_of-Has, any_of, ap, arith, beq→neq, contains, contains-Has,
  false, inl, inr, keep, nat_eq, neq→beq, ok, ok_eq, string_eq, sym, true, ◌==◌, ◌∙◌, ◌≡◌,
}
use lumi_hub.Delivery.Service.{Instance, grants}
use lumi_hub.Linking.Scopes.{
  ScopeError, canonical_scopes, scope_order, scope_receive_assets, scope_sync_library,
}
use lumi_hub.Linking.Scopes.Exact.{
  Kind, canonical_scopes_lem, is_known, is_request, classify, receive, sync, unknown,
}

known-contains :
    (requested : List String)
    → all_of is_known requested ≡ true
    → (scope : String) → contains requested scope ≡ true
    → is_known scope ≡ true
known-contains requested known scope h =
    all_of-Has is_known requested known (contains-Has requested scope h)

-- An instance whose scopes `canonicalScopes` answered grants exactly the scopes of the request.
pub grants-canonical_scopes :
    (i : Instance) (requested : List String)
    → canonical_scopes requested ≡ ok i.scopes
    → (scope : String) → grants i scope ≡ contains requested scope
unfolding grants
grants-canonical_scopes i requested answered scope = elim (Bool-cases (is_request requested)) [
  | inr strange ↦ absurd (ground (arith, canonical_scopes_lem requested, answered, strange))
  | inl accepted ↦
      let known : all_of is_known requested ≡ true = ground (arith, accepted) in
      let listed : keep (contains requested) scope_order ≡ i.scopes =
        ok_eq {E = ScopeError}
          (ground (arith, canonical_scopes_lem requested, answered, accepted)) in
      ap (any_of (λ s. s == scope)) (sym listed) ∙ each known (classify scope)
]
  where
    each :
        all_of is_known requested ≡ true
        → Kind scope
        → any_of (λ s. s == scope) (keep (contains requested) scope_order)
          ≡ contains requested scope
    each known (receive same a b) =
        subst
          (λ t. any_of (λ s. s == t) (keep (contains requested) scope_order) ≡ contains requested t)
          (sym same) (ground arith)
    each known (sync same a b) =
        subst
          (λ t. any_of (λ s. s == t) (keep (contains requested) scope_order) ≡ contains requested t)
          (sym same) (ground arith)
    each known (unknown a b) =
        let never : contains requested scope ≡ false =
          ground (arith, a, b, known-contains requested known scope) in
        let c : scope_receive_assets == scope ≡ false =
          neq→beq scope_receive_assets scope (λ e. beq→neq scope scope_receive_assets a (sym e)) in
        let d : scope_sync_library == scope ≡ false =
          neq→beq scope_sync_library scope (λ e. beq→neq scope scope_sync_library b (sym e)) in
        ground (arith, never, c, d)
