-- ===== src/Linking/Codes.antt =====
-- api/internal/linking/linking.go: codes and credentials as texts. A text is the list of its bytes.
-- `base64.RawURLEncoding.DecodeString` and `sha256.Sum256` are parameters.
pub mod Texts
pub mod Draws
use mathlib.Core.Option
use lumi_hub.Base.{
  Bool, List, Option, [], all_of, contains, drop, false, get_elem?, if◌then◌else◌, leb, length, ltb,
  nat_beq, nat_eq, none, some, string_eq, suc, take, true, zero, ℕ, ◌%◌, ◌&&◌, ◌*◌, ◌++◌, ◌+◌, ◌-◌,
  ◌/◌, ◌==◌, ◌||◌, ◌∷◌,
}

abbrev pub Bytes : Type 0
Bytes = List ℕ

-- `codeAlphabet`: "BCDFGHJKLMNPQRSTVWXZ23456789"
abbrev pub code_alphabet : Bytes
code_alphabet =
    b'B' ∷ b'C' ∷ b'D' ∷ b'F' ∷ b'G' ∷ b'H' ∷ b'J' ∷ b'K' ∷ b'L' ∷ b'M' ∷ b'N' ∷ b'P' ∷ b'Q' ∷ b'R'
    ∷ b'S' ∷ b'T' ∷ b'V' ∷ b'W' ∷ b'X' ∷ b'Z' ∷ b'2' ∷ b'3' ∷ b'4' ∷ b'5' ∷ b'6' ∷ b'7' ∷ b'8'
    ∷ b'9' ∷ []

abbrev pub code_length : ℕ
code_length = 8

abbrev pub code_group_size : ℕ
code_group_size = 4

abbrev pub secret_bytes : ℕ
secret_bytes = 32

abbrev pub opaque_code_length : ℕ
opaque_code_length = 43

abbrev pub credential_length : ℕ
credential_length = 3 + 1 + code_length + 1 + opaque_code_length

abbrev pub access_token_kind : Bytes
access_token_kind = b'i' ∷ b'a' ∷ b'1' ∷ []

abbrev pub refresh_token_kind : Bytes
refresh_token_kind = b'i' ∷ b'r' ∷ b'1' ∷ []

-- `256 / len(codeAlphabet) * len(codeAlphabet)`
abbrev pub code_limit : ℕ
code_limit = 256 / 28 * 28

-- What one random byte gives: a character, or nothing where the byte would favour some of them.
unfoldable pub code_char : ℕ → Option ℕ
code_char value = if ltb value code_limit then get_elem? code_alphabet (value % 28) else none

-- The inner loop of `newCode`, with `missing` characters to go.
unfoldable pub draw : ℕ → Bytes → ℕ × Bytes
draw missing [] = (missing, [])
draw zero (value ∷ buffer) = (0, [])
draw (suc missing) (value ∷ buffer) = elim (code_char value) [
  | none ↦ draw (suc missing) buffer
  | some c ↦ let (left, code) = draw missing buffer in (left, c ∷ code)
]

-- `newCode`, on the buffers that `rand.Read` fills; `none` where they run out first
unfoldable pub new_code : ℕ → List Bytes → Option Bytes
new_code zero buffers = some []
new_code (suc missing) [] = none
new_code (suc missing) (buffer ∷ buffers) =
    let (left, code) = draw (suc missing) buffer in
    Option.map (λ rest. code ++ rest) (new_code left buffers)

-- `FormatUserCode`
unfoldable pub format_user_code : Bytes → Bytes
format_user_code code = take code_group_size code ++ b'-' ∷ drop code_group_size code

-- `strings.ToUpper` on the letters of ASCII
unfoldable pub to_upper : ℕ → ℕ
to_upper c = if leb b'a' c && leb c b'z' then c - 32 else c

-- The loop of `normalizeUserCode`.
unfoldable pub read_code : Bytes → Option Bytes
read_code [] = some []
read_code (c ∷ raw) =
    let rest = read_code raw in
    if contains code_alphabet (to_upper c)
    then Option.map (λ code. to_upper c ∷ code) rest
    else if to_upper c == b'-' || to_upper c == b' '
    then rest
    else none

-- `normalizeUserCode`, on an ASCII text
unfoldable pub normalize_user_code : Bytes → Option Bytes
normalize_user_code raw = if ltb 16 (length raw) then none else elim (read_code raw) [
  | none ↦ none
  | some code ↦ if nat_beq (length code) code_length then some code else none
]

-- `strings.Split(token, ".")`
unfoldable pub split_dots : Bytes → List Bytes
split_dots [] = [] ∷ []
split_dots (c ∷ token) = elim (split_dots token) [
  | [] ↦ (c ∷ []) ∷ []
  | part ∷ parts ↦ if c == b'.' then [] ∷ part ∷ parts else (c ∷ part) ∷ parts
]

-- `==` on strings
unfoldable pub same_bytes : Bytes → Bytes → Bool
same_bytes [] [] = true
same_bytes [] (b ∷ bs) = false
same_bytes (a ∷ front) [] = false
same_bytes (a ∷ front) (b ∷ bs) = let rest = same_bytes front bs in a == b && rest

module _ (decode : Bytes → Option Bytes) (hash : Bytes → Bytes) where
  unfoldable pub credential_parts : Bytes → Bytes → List Bytes → Option Bytes
  credential_parts token kind (k ∷ prefix ∷ secret ∷ []) =
      if same_bytes k kind
        && nat_beq (length prefix) code_length
        && all_of (contains code_alphabet) prefix
      then elim (decode secret) [
        | none ↦ none
        | some raw ↦ if nat_beq (length raw) secret_bytes then some (hash token) else none
      ]
      else none
  credential_parts token kind parts = none

  -- `newCredential`, from the prefix and the secret that it draws: the token
  unfoldable pub new_token : (Bytes → Bytes) → Bytes → Bytes → Bytes → Bytes
  new_token encode kind prefix secret = kind ++ (b'.' ∷ (prefix ++ (b'.' ∷ encode secret)))

  -- `credentialHash`
  unfoldable pub credential_hash : Bytes → Bytes → Option Bytes
  credential_hash token kind =
      if nat_beq (length token) credential_length
      then credential_parts token kind (split_dots token)
      else none
