-- ===== src/Delivery/Target.antt =====
-- api/internal/delivery/delivery.go: which format an instance is handed.
use lumi_hub.Base.{
  ==-cases, ==-refl, ==→eq, All, Bool, Bool-cases, Has, List, Option, Option-cases, String, [],
  and_true, ap, arith, beq→neq, false, if◌then◌else◌, inl, inr, nat_eq, none, refl, some, some_eq,
  string_eq, sym, true, ◌&&◌, ◌++◌, ◌==◌, ◌∙◌, ◌∷◌, ◌≡◌,
}

pub record Target : Type 0 where
  pub format : String
  pub label : String

abbrev pub raw_target : String
raw_target = "raw"

abbrev pub raw_label : String
raw_label = "The creator's own file"

-- `byID[wanted]`: the last target of the format, as a later one overwrites an earlier one.
unfoldable pub offered_as : String → List Target → Option Target
offered_as wanted [] = none
offered_as wanted (t ∷ ts) = elim (offered_as wanted ts) [
  | some later ↦ some later
  | none ↦ if t.format == wanted then some t else none
]

abbrev pub raw_choice : Option (String × String)
raw_choice = some (raw_target, raw_label)

-- `chooseTarget`: the format and its label, or `none`
unfoldable pub choose_target : List String → List Target → Bool → Option (String × String)
choose_target [] offered has_original = if has_original then raw_choice else none
choose_target (wanted ∷ accepted) offered has_original = elim (offered_as wanted offered) [
  | some t ↦ some (t.format, t.label)
  | none ↦
      let rest = choose_target accepted offered has_original in
      if wanted == raw_target && has_original then raw_choice else rest
]

-- No target is offered in the format.
abbrev pub IsUnoffered : List Target → String → Type 0
IsUnoffered offered wanted = (t : Target) → Has t offered → t.format ≡ wanted → ⊥

-- The original is not what the instance asks for here.
abbrev pub IsOther : Bool → String → Type 0
IsOther has_original wanted = has_original ≡ true → wanted ≡ raw_target → ⊥

-- A choice that serves the instance's wishes in their order: the first accepted format that is
-- offered, or the original, where it is wished for or where no accepted format is offered.
pub data IsFair (offered : List Target) (has_original : Bool) (accepted : List String)
    : Option (String × String) → Type 0 where
  written_as :
      (before after : List String) (t : Target)
      → accepted ≡ before ++ t.format ∷ after
      → All (IsUnoffered offered) before
      → All (IsOther has_original) before
      → Has t offered
      → IsFair offered has_original accepted (some (t.format, t.label))
  wished :
      (before after : List String)
      → accepted ≡ before ++ raw_target ∷ after
      → All (IsUnoffered offered) (before ++ raw_target ∷ [])
      → has_original ≡ true
      → IsFair offered has_original accepted raw_choice
  fallen_back :
      All (IsUnoffered offered) accepted
      → has_original ≡ true
      → IsFair offered has_original accepted raw_choice
  refused :
      All (IsUnoffered offered) accepted
      → has_original ≡ false
      → IsFair offered has_original accepted none

offered_as-found :
    (wanted : String) (offered : List Target) {t : Target}
    → offered_as wanted offered ≡ some t
    → (t.format ≡ wanted) × Has t offered
unfolding offered_as
offered_as-found wanted [] h = absurd (cc h)
offered_as-found wanted (u ∷ us) {t} h = elim (Option-cases (offered_as wanted us)) [
  | inl missing ↦ elim (==-cases u.format wanted) [
    | inl same ↦
        let e : u ≡ t = ground (arith, missing, same, ==-refl wanted) in
        (ap (λ x. x.format) (sym e) ∙ same, inl e)
    | inr differ ↦ absurd (cc (rw (differ, offered_as) at (rw (missing, offered_as) at h)))
  ]
  | inr (later, found) ↦
      let e : later ≡ t = some_eq (rw (found, offered_as) at h) in
      let (same, stands) = offered_as-found wanted us (found ∙ ap some e) in (same, inr stands)
]

offered_as-eq-none :
    (wanted : String) (offered : List Target)
    → offered_as wanted offered ≡ none
    → IsUnoffered offered wanted
unfolding offered_as
offered_as-eq-none wanted [] h t stands same = stands
offered_as-eq-none wanted (u ∷ us) h t stands same = elim (Option-cases (offered_as wanted us)) [
  | inr (later, found) ↦ absurd (cc (rw (found, offered_as) at h))
  | inl missing ↦ elim (==-cases u.format wanted) [
    | inl here ↦
        let passed : (u.format == wanted) ≡ true = rw here (==-refl wanted) in
        absurd (cc (rw (passed, offered_as) at (rw (missing, offered_as) at h)))
    | inr differ ↦ elim stands [
      | inl e ↦ beq→neq u.format wanted differ (ap (λ (x : Target). x.format) e ∙ same)
      | inr later ↦ offered_as-eq-none wanted us missing t later same
    ]
  ]
]

-- A format that serves nothing stands before a fair choice.
passes :
    {offered : List Target} {has_original : Bool} {accepted : List String} (wanted : String)
    {choice : Option (String × String)}
    → IsUnoffered offered wanted
    → IsOther has_original wanted
    → IsFair offered has_original accepted choice
    → IsFair offered has_original (wanted ∷ accepted) choice
passes wanted unoffered other (written_as before after t at u o stands) =
    written_as (wanted ∷ before) after t (ap (λ l. wanted ∷ l) at) (unoffered, u) (other, o) stands
passes wanted unoffered other (wished before after at u has) =
    wished (wanted ∷ before) after (ap (λ l. wanted ∷ l) at) (unoffered, u) has
passes wanted unoffered other (fallen_back u has) = fallen_back (unoffered, u) has
passes wanted unoffered other (refused u has) = refused (unoffered, u) has

-- `chooseTarget` is fair: it takes the first accepted format that is offered, or the original,
-- where it is wished for before or where no accepted format is offered; else nothing.
pub choose_target-IsFair :
    (accepted : List String) (offered : List Target) (has_original : Bool)
    → IsFair offered has_original accepted (choose_target accepted offered has_original)
unfolding choose_target
choose_target-IsFair [] offered has_original = elim (Bool-cases has_original) [
  | inl has ↦ rw (has, choose_target) (fallen_back tt refl)
  | inr lacks ↦ rw (lacks, choose_target) (refused tt refl)
]
choose_target-IsFair (wanted ∷ accepted) offered has_original =
    elim (Option-cases (offered_as wanted offered)) [
      | inr (t, found) ↦
          let (same, stands) = offered_as-found wanted offered found in
          rw (found, choose_target)
            (written_as [] accepted t (ap (λ f. f ∷ accepted) (sym same)) tt tt stands)
      | inl missing ↦
          let unoffered = offered_as-eq-none wanted offered missing in
          elim (Bool-cases (wanted == raw_target && has_original)) [
            | inl raw ↦
                let (same, has) = and_true (wanted == raw_target) has_original raw in
                rw (missing, choose_target)
                  (rw (raw, choose_target)
                    (wished [] accepted (ap (λ f. f ∷ accepted) (==→eq wanted raw_target same))
                      ((rw (==→eq wanted raw_target same) at unoffered), tt) has))
            | inr other ↦
                rw (missing, choose_target)
                  (rw (other, choose_target)
                    (passes wanted unoffered (λ has same. absurd (cc (rw (has, same) at other)))
                      (choose_target-IsFair accepted offered has_original)))
          ]
    ]
