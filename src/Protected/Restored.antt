-- ===== src/Protected/Restored.antt =====
-- What `SyncPromptFragments` seals, `RestorePromptFragments` gives back.
use mathlib.Core.Path.{subst}
use lumi_hub.Base.{
  ==→eq, >>=-eq-ok, All, Bool, Bool-cases, List, Option, String, [], all_of, all_of-keep, and_true,
  any_of, ap, arith, contains, distinct, false, if◌then◌else◌, inl, inr, keep, lookup, map, nat_eq,
  none, not, ok, ok_eq, refl, some, some_eq, string_eq, sym, true, ◌==◌, ◌||◌, ◌∙◌, ◌∷◌, ◌≡◌,
}
use lumi_hub.Block.Content.{Block, PromptFragment, Uuid, is_nil}
use lumi_hub.Protected.{PromptValue, ProtectedError, Sealed, Vault, policy, put}
use lumi_hub.Protected.Sealing.{
  Knows, is_marked_page, is_redacted_page, protected_in_blocks, put_all, redact_block,
  redact_block-is_redacted, restore_blocks_lem, seal_blocks_lem, value_of,
}
use lumi_hub.Protected.Tables.{
  add_apps, drop_apps, is_payload_of, is_prompt_of, is_unsealed, prompt_ids, read_texts,
  replace_prompt_payloads, restore_prompt_fragments, store_sealed, sync_prompt_fragments, upsert,
  upsert_all,
}
use lumi_hub.Protected.Upserts.{
  Agrees, has_text, ids_of, is_map, is_map-put_all, lookup-put, lookup-put_all_self, only_says,
  upsert-Agrees, upsert-Agrees_other,
}

upsert_all-other :
    (asset other : Uuid) (text : String) (m : List (Uuid × PromptValue)) (rows : List Sealed)
    → contains (prompt_ids m) other ≡ false
    → Agrees asset other text rows
    → Agrees asset other text (upsert_all asset m rows)
unfolding upsert_all
upsert_all-other asset other text [] rows h a = a
upsert_all-other asset other text ((id, v) ∷ m) rows h a =
    upsert_all-other asset other text m (upsert asset id v rows) (ground (arith, h))
      (upsert-Agrees_other asset id other text v rows (ground (arith, h)) a)

upsert_all-Agrees :
    (asset id : Uuid) (m : List (Uuid × PromptValue)) (rows : List Sealed) {v : PromptValue}
    → is_map m ≡ true
    → lookup id m ≡ some v
    → Agrees asset id v.text (upsert_all asset m rows)
unfolding upsert_all
upsert_all-Agrees asset id [] rows keyed found = absurd (cc found)
upsert_all-Agrees asset id ((j, w) ∷ m) rows {v} keyed found = elim (Bool-cases (j == id)) [
  | inl here ↦
      let same : w ≡ v = some_eq (rw here at found) in
      let at_id : j ≡ id = ==→eq j id here in
      let alone : contains (prompt_ids m) id ≡ false =
        ap (contains (prompt_ids m)) (sym at_id) ∙ ground (arith, keyed) in
      upsert_all-other asset id v.text m (upsert asset j w rows) alone (
        subst (λ k. Agrees asset k v.text (upsert asset j w rows)) at_id
          (subst (λ x. Agrees asset j x.text (upsert asset j w rows)) same
            (upsert-Agrees asset j w rows)))
  | inr apart ↦
      upsert_all-Agrees asset id m (upsert asset j w rows) (ground (arith, keyed))
        (rw apart at found)
]

-- A filter that no row of the fragment fails.
keep-Agrees :
    (p : Sealed → Bool) (asset id : Uuid) (text : String) (rows : List Sealed)
    → ((r : Sealed) → is_payload_of asset id r ≡ true → has_text text r ≡ true → p r ≡ true)
    → Agrees asset id text rows
    → Agrees asset id text (keep p rows)
keep-Agrees p asset id text rows passes a = record {
  there = there_still rows a.there a.all_say;
  all_say = all_of-keep (λ r. not (is_payload_of asset id r) || has_text text r) p rows a.all_say;
}
  where
    there_still :
        (qs : List Sealed)
        → any_of (is_payload_of asset id) qs ≡ true
        → only_says asset id text qs ≡ true
        → any_of (is_payload_of asset id) (keep p qs) ≡ true
    there_still [] here say = here
    there_still (q ∷ qs) here say =
        let (first, rest) =
          and_true (not (is_payload_of asset id q) || has_text text q) (only_says asset id text qs)
            say in
        elim (Bool-cases (is_payload_of asset id q)) [
          | inl mine ↦ rw (passes q mine (rw mine at first), mine) refl
          | inr other ↦ elim (Bool-cases (p q)) [
            | inl kept ↦ rw (kept, other) (there_still qs (rw other at here) rest)
            | inr left_out ↦ rw left_out (there_still qs (rw other at here) rest)
          ]
        ]

replace-Agrees :
    (asset id : Uuid) (m : List (Uuid × PromptValue)) (v : Vault) {value : PromptValue}
    → is_map m ≡ true
    → lookup id m ≡ some value
    → Agrees asset id value.text (replace_prompt_payloads asset m v).sealed
unfolding replace_prompt_payloads
replace-Agrees asset id m v {value} keyed found =
    keep-Agrees (λ r. not (is_unsealed asset (prompt_ids m) r)) asset id value.text
      (upsert_all asset m v.sealed) (λ r mine said. stays r mine)
      (upsert_all-Agrees asset id m v.sealed keyed found)
  where
    has_key :
        (n : List (Uuid × PromptValue))
        → lookup id n ≡ some value
        → contains (prompt_ids n) id ≡ true
    has_key [] h = absurd (cc h)
    has_key ((j, w) ∷ n) h = ground (arith, h, has_key n)

    stays :
        (r : Sealed)
        → is_payload_of asset id r ≡ true
        → not (is_unsealed asset (prompt_ids m) r) ≡ true
    stays r mine =
        let owner : r.owner_id ≡ id =
          ==→eq r.owner_id id (unfold is_payload_of in ground (arith, mine)) in
        let listed : contains (prompt_ids m) r.owner_id ≡ true =
          ap (contains (prompt_ids m)) owner ∙ has_key m found in
        unfold is_unsealed in rw listed (ground arith)

row_text :
    (asset id : Uuid) (text : String) (r : Sealed)
    → is_prompt_of asset r ≡ true
    → (not (is_payload_of asset id r) || has_text text r) ≡ true
    → r.owner_id == id ≡ true
    → r.text ≡ text
unfolding is_prompt_of is_payload_of
row_text asset id text r prompt say mine = ==→eq r.text text (ground (arith, prompt, say, mine))

put_known :
    (asset id : Uuid) (text : String) (r : Sealed) (texts : List (Uuid × String))
    → is_prompt_of asset r ≡ true
    → (not (is_payload_of asset id r) || has_text text r) ≡ true
    → (r.owner_id == id ≡ false → lookup id texts ≡ some text)
    → lookup id (put r.owner_id r.text texts) ≡ some text
put_known asset id text r texts prompt say known = lookup-put r.owner_id id r.text texts ∙ which
  where
    which : (if r.owner_id == id then some r.text else lookup id texts) ≡ some text
    which = elim (Bool-cases (r.owner_id == id)) [
      | inl mine ↦ rw mine (ap some (row_text asset id text r prompt say mine))
      | inr other ↦ rw other (known other)
    ]

-- The loop over the rows keeps a text that is known, and comes to know one that stands there.
read_known :
    (asset id : Uuid) (text : String) (rows : List Sealed) (texts : List (Uuid × String))
    → all_of (is_prompt_of asset) rows ≡ true
    → only_says asset id text rows ≡ true
    → lookup id texts ≡ some text
    → lookup id (read_texts rows texts) ≡ some text
unfolding read_texts
read_known asset id text [] texts prompts say known = known
read_known asset id text (r ∷ rows) texts prompts say known =
    read_known asset id text rows (put r.owner_id r.text texts) (ground (arith, prompts))
      (ground (arith, say))
      (put_known asset id text r texts (ground (arith, prompts)) (ground (arith, say))
        (λ other. known))

read_found :
    (asset id : Uuid) (text : String) (rows : List Sealed) (texts : List (Uuid × String))
    → all_of (is_prompt_of asset) rows ≡ true
    → Agrees asset id text rows
    → lookup id (read_texts rows texts) ≡ some text
unfolding read_texts
read_found asset id text [] texts prompts a = absurd (cc a.there)
read_found asset id text (r ∷ rows) texts prompts a = elim (Bool-cases (is_payload_of asset id r)) [
  | inr other ↦
      read_found asset id text rows (put r.owner_id r.text texts) (ground (arith, prompts))
        (record { there = ground (arith, other, a.there); all_say = ground (arith, a.all_say) })
  | inl mine ↦
      let owner : r.owner_id == id ≡ true = unfold is_payload_of in ground (arith, mine) in
      read_known asset id text rows (put r.owner_id r.text texts) (ground (arith, prompts))
        (ground (arith, a.all_say))
        (put_known asset id text r texts (ground (arith, prompts)) (ground (arith, a.all_say))
          (λ other. cc (owner, other)))
]

all_of-keep_self : (p : Sealed → Bool) (rows : List Sealed) → all_of p (keep p rows) ≡ true
all_of-keep_self p [] = refl
all_of-keep_self p (r ∷ rows) = elim (Bool-cases (p r)) [
  | inl here ↦ rw (here, here) (all_of-keep_self p rows)
  | inr out ↦ rw out (all_of-keep_self p rows)
]

-- The text that a restore reads after the payloads were replaced.
pub replace-read :
    (asset id : Uuid) (m : List (Uuid × PromptValue)) (v : Vault) {value : PromptValue}
    → is_map m ≡ true
    → lookup id m ≡ some value
    → lookup id
        (read_texts (keep (is_prompt_of asset) (replace_prompt_payloads asset m v).sealed) [])
      ≡ some value.text
unfolding is_prompt_of is_payload_of
replace-read asset id m v {value} keyed stored =
    let rows = (replace_prompt_payloads asset m v).sealed in
    read_found asset id value.text (keep (is_prompt_of asset) rows) []
      (all_of-keep_self (is_prompt_of asset) rows)
      (keep-Agrees (is_prompt_of asset) asset id value.text rows
        (λ r mine said. ground (arith, mine, said)) (replace-Agrees asset id m v keyed stored))

-- The texts of the sealed fragments, then.
replaced_texts :
    (asset : Uuid) (fs : List PromptFragment) (v : Vault)
    → distinct (ids_of fs) ≡ true
    → Knows
        (read_texts
          (keep (is_prompt_of asset) (replace_prompt_payloads asset (put_all fs []) v).sealed)
          [])
        fs
replaced_texts asset fs v apart = each fs (lookup-put_all_self fs [] apart)
  where
    texts : List (Uuid × String)
    texts =
        read_texts
          (keep (is_prompt_of asset) (replace_prompt_payloads asset (put_all fs []) v).sealed) []

    one :
        (f : PromptFragment)
        → lookup f.id (put_all fs []) ≡ some (value_of f)
        → lookup f.id texts ≡ some f.text
    one f stored = replace-read asset f.id (put_all fs []) v (is_map-put_all fs [] refl) stored

    each :
        (gs : List PromptFragment)
        → All (λ (f : PromptFragment). lookup f.id (put_all fs []) ≡ some (value_of f)) gs
        → Knows texts gs
    each [] h = tt
    each (g ∷ gs) h = (one g h.0, each gs h.1)

is_nil-lookup : {V : Type 0} (m : List (Uuid × V)) (j : Uuid) → is_nil m ≡ true → lookup j m ≡ none
is_nil-lookup [] j bare = refl
is_nil-lookup (entry ∷ m) j bare = absurd (cc bare)

nothing_sealed :
    (fs : List PromptFragment) (texts : List (Uuid × String))
    → distinct (ids_of fs) ≡ true
    → is_nil (put_all fs []) ≡ true
    → Knows texts fs
nothing_sealed [] texts apart bare = tt
nothing_sealed (f ∷ fs) texts apart bare =
    absurd (
      cc ((lookup-put_all_self (f ∷ fs) [] apart).0, is_nil-lookup (put_all (f ∷ fs) []) f.id bare))

-- What a save stores is what a restore of the asset reads.
store_sealed-Knows :
    (asset : Uuid) (allowed_apps : Option (List String)) (fs : List PromptFragment) (v : Vault)
    {kept : Vault}
    → distinct (ids_of fs) ≡ true
    → store_sealed asset allowed_apps (put_all fs []) v ≡ ok kept
    → Knows (read_texts (keep (is_prompt_of asset) kept.sealed) []) fs
unfolding store_sealed
store_sealed-Knows asset allowed_apps fs v {kept} apart stored =
    elim (Bool-cases (is_nil (put_all fs []))) [
      | inl bare ↦
          nothing_sealed fs (read_texts (keep (is_prompt_of asset) kept.sealed) []) apart bare
      | inr some_sealed ↦
          let (apps, agreeing, rest) =
            >>=-eq-ok (policy asset allowed_apps v) _ (rw (some_sealed, store_sealed) at stored) in
          elim (Bool-cases (is_nil apps)) [
            | inl no_app ↦ absurd (cc (rw no_app at rest))
            | inr some_app ↦
                let v' : Vault = elim allowed_apps [
                  | none ↦ v
                  | some supplied ↦ add_apps asset apps (drop_apps asset v)
                ] in
                let same : replace_prompt_payloads asset (put_all fs []) v' ≡ kept =
                  ok_eq {E = ProtectedError} (rw some_app at rest) in
                subst (λ (w : Vault). Knows (read_texts (keep (is_prompt_of asset) w.sealed) []) fs)
                  same (replaced_texts asset fs v' apart)
          ]
    ]

-- A page that `SyncPromptFragments` saved shows no reader a sealed text, and
-- `RestorePromptFragments` gives the owner the page that was saved, where no two sealed fragments
-- share an id.
pub restore_prompt_fragments-sync_prompt_fragments :
    (asset : Uuid) (blocks : List Block) (allowed_apps : Option (List String)) (v : Vault)
    {page : List Block} {kept : Vault}
    → distinct (ids_of (protected_in_blocks blocks)) ≡ true
    → sync_prompt_fragments asset blocks allowed_apps v ≡ ok (page, kept)
    → (is_redacted_page page ≡ true) × (restore_prompt_fragments asset kept page ≡ ok blocks)
unfolding sync_prompt_fragments restore_prompt_fragments
restore_prompt_fragments-sync_prompt_fragments asset blocks allowed_apps v {page} {kept} apart
      saved =
    elim (Bool-cases (is_marked_page blocks)) [
      | inl marked ↦ absurd (cc (rw (seal_blocks_lem blocks [], marked) at saved))
      | inr bare ↦
          let (kept', stored, last) =
            >>=-eq-ok (store_sealed asset allowed_apps (put_all (protected_in_blocks blocks) []) v)
              _ (rw (seal_blocks_lem blocks [], bare) at saved) in
          let same : (map redact_block blocks, kept') ≡ (page, kept) =
            ok_eq {E = ProtectedError} last in
          subst
            (λ (w : List Block × Vault).
              (is_redacted_page w.0 ≡ true) × (restore_prompt_fragments asset w.1 w.0 ≡ ok blocks))
            same
            (
              redact_block-is_redacted blocks,
              restore_blocks_lem (read_texts (keep (is_prompt_of asset) kept'.sealed) []) blocks (
                  store_sealed-Knows asset allowed_apps (protected_in_blocks blocks) v apart
                    stored),
            )
    ]
