-- ===== src/Block/Builder/Members.antt =====
-- What the loop over the elements accepts, and the loop over what was pinned.
use lumi_hub.Base.{
  All, Bool, IsFresh, List, [], arith, contains, contains-eq-false, false, if◌then◌else◌, keys_of,
  lookup-eq-none, nat_eq, ok, refl, string_eq, true, ℕ, ◌==◌, ◌↔◌, ◌∷◌, ◌≡◌, ◌≢◌,
}
use lumi_hub.Block.Builder.{Counted, check_member, check_members, check_role, count_element}
use lumi_hub.Block.Builder.Rules.{IsFreshUnless}
use lumi_hub.Block.Content.{Element, Uuid}
use lumi_hub.Block.Structure.Exact.{element_ids}
use lumi_hub.Block.Vocab.{Role, allows, cardinality, repeatable, singular}

-- What is asked of an element by itself: it stood on the page before, and its role allows its type.
abbrev pub FitsRole : List Uuid → Element → Type 0
FitsRole existing e =
    (contains existing e.id ≡ true) × (e.role ≢ "" → allows e.role e.element_type ≡ true)

-- A role that may be carried more than once.
unfoldable pub may_repeat : Role → Bool
may_repeat r = elim (cardinality r) [ singular ↦ false | repeatable ↦ true ]

-- The roles of the elements that have one.
unfoldable pub named_roles : List Element → List Role
named_roles [] = []
named_roles (e ∷ es) = let rest = named_roles es in if e.role == "" then rest else e.role ∷ rest

check_role_iff :
    (at : ℕ) (roles : List Role) (e : Element)
    → (check_role at roles e ≡ ok tt) ↔ (
        (allows e.role e.element_type ≡ true)
        × (may_repeat e.role ≡ false → contains roles e.role ≡ false))
unfolding check_role may_repeat
check_role_iff at roles e = ground arith

check_member_iff :
    (existing : List Uuid) (seen : Counted) (at : ℕ) (e : Element)
    → (check_member existing seen at e ≡ ok tt) ↔ (
        (contains (keys_of seen.ids) e.id ≡ false)
        × FitsRole existing e
        × (e.role ≢ "" → may_repeat e.role ≡ false → contains seen.roles e.role ≡ false))
unfolding check_member
check_member_iff existing seen at e = ground (
  arith,
  lookup-eq-none e.id seen.ids,
  contains-eq-false e.id seen.ids,
  string_eq.equal_iff e.role "",
  check_role_iff at seen.roles e,
)

abbrev pub members : List (ℕ × Element) → List Element
members [] = []
members ((at, e) ∷ es) = e ∷ members es

pub check_members_iff :
    (existing : List Uuid) (seen : Counted) (es : List (ℕ × Element))
    → (check_members existing seen es ≡ ok tt) ↔ (
        All (FitsRole existing) (members es)
        × IsFresh (keys_of seen.ids) (element_ids (members es))
        × IsFreshUnless may_repeat seen.roles (named_roles (members es)))
unfolding check_members named_roles
check_members_iff existing seen [] = ((λ h. (tt, tt, tt)), λ h. refl)
check_members_iff existing seen ((at, e) ∷ es) = ground (
  arith,
  check_member_iff existing seen at e,
  string_eq.equal_iff e.role "",
  check_members_iff existing (count_element at e seen) es,
)
