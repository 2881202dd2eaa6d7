-- ===== src/Linking/Codes/Draws.antt =====
-- The codes that `newCode` draws: whole, and fair to every character.
use lumi_hub.Base.{
  Bool-cases, List, Option-cases, [], all_of, all_of-Has, all_of-append, ap, arith, contains,
  contains-Has, contains-get_elem?, if◌then◌else◌, inl, inr, length, length-append, ltb, nat_beq,
  nat_beq_iff, nat_eq, none, refl, some, some_eq, string_eq, suc, sym, true, zero, ℕ, ◌%◌, ◌++◌,
  ◌+◌, ◌==◌, ◌∙◌, ◌∷◌, ◌≡◌,
}
use lumi_hub.Linking.Codes.{Bytes, code_alphabet, code_char, code_limit, draw, new_code}

-- How many bytes below `n` give the character.
unfoldable pub bytes_giving : ℕ → ℕ → ℕ
bytes_giving zero c = 0
bytes_giving (suc n) c =
    let rest = bytes_giving n c in
    elim (code_char n) [ none ↦ rest | some d ↦ if d == c then 1 + rest else rest ]

all_fair : all_of (λ c. nat_beq (bytes_giving 256 c) 9) code_alphabet ≡ true
unfolding bytes_giving code_char
all_fair = refl

-- Each character of the alphabet is given by nine of the 256 bytes, so none is likelier than
-- another.
pub bytes_giving_fair : (c : ℕ) → contains code_alphabet c ≡ true → bytes_giving 256 c ≡ 9
bytes_giving_fair c there = (nat_beq_iff (bytes_giving 256 c) 9).0 (
    all_of-Has (λ c. nat_beq (bytes_giving 256 c) 9) code_alphabet all_fair
      (contains-Has code_alphabet c there))

code_char-contains :
    (value : ℕ) {c : ℕ} → code_char value ≡ some c → contains code_alphabet c ≡ true
unfolding code_char
code_char-contains value {c} h = elim (Bool-cases (ltb value code_limit)) [
  | inl low ↦ contains-get_elem? code_alphabet (value % 28) c (rw (low, code_char) at h)
  | inr high ↦ absurd (cc (rw (high, code_char) at h))
]

draw_sound :
    (missing : ℕ) (buffer : Bytes)
    → ((draw missing buffer).0 + length (draw missing buffer).1 ≡ missing)
      × (all_of (contains code_alphabet) (draw missing buffer).1 ≡ true)
unfolding draw
draw_sound missing [] = (omega arith, refl)
draw_sound zero (value ∷ buffer) = (refl, refl)
draw_sound (suc missing) (value ∷ buffer) = elim (Option-cases (code_char value)) [
  | inl skipped ↦ rw (skipped, draw) (draw_sound (suc missing) buffer)
  | inr (c, found) ↦
      let (counted, chars) = draw_sound missing buffer in
      rw (found, draw)
        (omega (arith, counted), ground (arith, code_char-contains value found, chars))
]

-- A code that `newCode` returns has the length asked for, and characters of the alphabet only.
pub new_code_sound :
    (missing : ℕ) (buffers : List Bytes) {code : Bytes}
    → new_code missing buffers ≡ some code
    → (all_of (contains code_alphabet) code ≡ true) × (length code ≡ missing)
unfolding new_code
new_code_sound zero buffers {code} h =
    let e : [] ≡ code = some_eq h in (rw (← e) refl, rw (← e) refl)
new_code_sound (suc missing) [] h = absurd (cc h)
new_code_sound (suc missing) (buffer ∷ buffers) {code} h =
    let left = (draw (suc missing) buffer).0 in
    let drawn = (draw (suc missing) buffer).1 in
    let (counted, chars) = draw_sound (suc missing) buffer in
    elim (Option-cases (new_code left buffers)) [
      | inl short ↦ absurd (cc (rw (short, new_code) at h))
      | inr (rest, found) ↦
          let e : drawn ++ rest ≡ code = some_eq (rw (found, new_code) at h) in
          let (more, sized) = new_code_sound left buffers found in
          (
            ap (λ l. all_of (contains code_alphabet) l) (sym e)
                ∙ all_of-append (contains code_alphabet) drawn rest chars more,
            ap length (sym e) ∙ length-append drawn rest ∙ omega (arith, sized, counted),
          )
    ]
