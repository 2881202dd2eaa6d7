-- ===== src/Linking/Codes/Texts.antt =====
-- Codes and credentials that the service wrote are read back.
use lumi_hub.Base.{
  ==-refl, ==→eq, Bool, List, Option, [], all_of, all_of-Has, all_of-weaken, and_true, ap,
  append-nil, arith, contains, contains-Has, drop, false, length, length-append, nat_beq,
  nat_beq_iff, nat_eq, not, refl, some, string_eq, suc, sym, take, true, zero, ℕ, ◌&&◌, ◌++◌, ◌+◌,
  ◌==◌, ◌∙◌, ◌∷◌, ◌≡◌,
}
use lumi_hub.Linking.Codes.{
  Bytes, code_alphabet, code_group_size, code_length, credential_hash, credential_length,
  credential_parts, format_user_code, new_token, normalize_user_code, opaque_code_length, read_code,
  same_bytes, secret_bytes, split_dots, to_upper,
}

-- A code: characters of the alphabet, eight of them.
abbrev pub IsCode : Bytes → Type 0
IsCode code = (all_of (contains code_alphabet) code ≡ true) × (length code ≡ code_length)

-- A character of the alphabet is its own upper case, and no dot.
alphabet_upper :
    (cs : Bytes)
    → all_of (λ c. nat_beq (to_upper c) c && not (c == b'.')) cs ≡ true
    → (c : ℕ) → contains cs c ≡ true
    → (to_upper c ≡ c) × (c == b'.' ≡ false)
alphabet_upper cs h c there =
    let both =
      all_of-Has (λ c. nat_beq (to_upper c) c && not (c == b'.')) cs h (contains-Has cs c there) in
    let (same, other) = and_true (nat_beq (to_upper c) c) (not (c == b'.')) both in
    ((nat_beq_iff (to_upper c) c).0 same, ground (arith, other))

alphabet_plain : all_of (λ c. nat_beq (to_upper c) c && not (c == b'.')) code_alphabet ≡ true
unfolding to_upper
alphabet_plain = refl

-- Characters of the alphabet stand for themselves before any text that is read.
read_code-append :
    (front back code : Bytes)
    → all_of (contains code_alphabet) front ≡ true
    → read_code back ≡ some code
    → read_code (front ++ back) ≡ some (front ++ code)
unfolding read_code
read_code-append [] back code h read = read
read_code-append (c ∷ front) back code h read =
    let (first, more) =
      and_true (contains code_alphabet c) (all_of (contains code_alphabet) front) h in
    let (same, other) = alphabet_upper code_alphabet alphabet_plain c first in
    let known : contains code_alphabet (to_upper c) ≡ true = rw same first in
    rw (known, read_code) (rw (read_code-append front back code more read) (rw same refl))

all_of-split :
    (p : ℕ → Bool) (n : ℕ) (xs : Bytes)
    → all_of p xs ≡ true
    → (all_of p (take n xs) ≡ true) × (all_of p (drop n xs) ≡ true)
all_of-split p zero xs h = (refl, h)
all_of-split p (suc n) [] h = (refl, refl)
all_of-split p (suc n) (x ∷ xs) h =
    let (first, more) = and_true (p x) (all_of p xs) h in
    let (front, back) = all_of-split p n xs more in (ground (arith, first, front), back)

append-take-drop : (n : ℕ) (xs : Bytes) → take n xs ++ drop n xs ≡ xs
append-take-drop zero xs = refl
append-take-drop (suc n) [] = refl
append-take-drop (suc n) (x ∷ xs) = ap (λ l. x ∷ l) (append-take-drop n xs)

read_nothing : read_code [] ≡ some []
unfolding read_code
read_nothing = refl

read_dash : (rest code : Bytes) → read_code rest ≡ some code → read_code (b'-' ∷ rest) ≡ some code
unfolding read_code to_upper
read_dash rest code h = h

-- `normalizeUserCode` reads the code back from what `FormatUserCode` shows.
pub normalize_user_code-format_user_code :
    (code : Bytes) → IsCode code → normalize_user_code (format_user_code code) ≡ some code
unfolding normalize_user_code format_user_code
normalize_user_code-format_user_code code (chars, eight) =
    let front = take code_group_size code in
    let back = drop code_group_size code in
    let (front_chars, back_chars) =
      all_of-split (contains code_alphabet) code_group_size code chars in
    let read_back : read_code back ≡ some back =
      ap read_code (sym (append-nil back))
      ∙ read_code-append back [] [] back_chars read_nothing
      ∙ ap some (append-nil back) in
    let read : read_code (front ++ b'-' ∷ back) ≡ some code =
      read_code-append front (b'-' ∷ back) back front_chars (read_dash back back read_back)
      ∙ ap some (append-take-drop code_group_size code) in
    let halves : length front + length back ≡ length code =
      sym (length-append front back) ∙ ap length (append-take-drop code_group_size code) in
    let whole : length (front ++ b'-' ∷ back) ≡ 9 =
      omega (arith, length-append front (b'-' ∷ back), halves, eight) in
    rw whole (rw (read, normalize_user_code) (rw eight refl))

-- Splitting a text without dots, followed by a dot.
split_dots-part :
    (part rest : Bytes) (p : Bytes) (ps : List Bytes)
    → split_dots rest ≡ p ∷ ps
    → all_of (λ c. not (c == b'.')) part ≡ true
    → split_dots (part ++ b'.' ∷ rest) ≡ part ∷ p ∷ ps
unfolding split_dots
split_dots-part [] rest p ps more h = ground (arith, more)
split_dots-part (c ∷ part) rest p ps more h = ground (arith, split_dots-part part rest p ps more, h)

split_dots-whole :
    (part : Bytes) → all_of (λ c. not (c == b'.')) part ≡ true → split_dots part ≡ part ∷ []
unfolding split_dots
split_dots-whole [] h = refl
split_dots-whole (c ∷ part) h = ground (arith, split_dots-whole part, h)

no_dots :
    (code : Bytes)
    → all_of (contains code_alphabet) code ≡ true
    → all_of (λ c. not (c == b'.')) code ≡ true
no_dots code h =
    all_of-weaken (contains code_alphabet) (λ c. not (c == b'.')) code
      (λ c there. ground (arith, (alphabet_upper code_alphabet alphabet_plain c there).1)) h

pub same_bytes_refl : (bs : Bytes) → same_bytes bs bs ≡ true
unfolding same_bytes
same_bytes_refl [] = refl
same_bytes_refl (b ∷ bs) = ground (arith, same_bytes_refl bs, ==-refl b)

pub same_bytes_sound : (bs cs : Bytes) → same_bytes bs cs ≡ true → bs ≡ cs
unfolding same_bytes
same_bytes_sound [] [] same = refl
same_bytes_sound [] (c ∷ cs) same = absurd (cc same)
same_bytes_sound (b ∷ bs) [] same = absurd (cc same)
same_bytes_sound (b ∷ bs) (c ∷ cs) same =
    let (first, rest) = and_true (b == c) (same_bytes bs cs) same in
    cc (==→eq b c first, same_bytes_sound bs cs rest)

-- What is asked of the encoder of 32 random bytes: 43 characters, no dot among them, and the
-- decoder reads the bytes back.
pub record IsEncoder (encode : Bytes → Bytes) (decode : Bytes → Option Bytes) : Type 0 where
  pub width : (raw : Bytes) → length raw ≡ secret_bytes → length (encode raw) ≡ opaque_code_length
  pub dotless : (raw : Bytes) → all_of (λ c. not (c == b'.')) (encode raw) ≡ true
  pub inverse : (raw : Bytes) → decode (encode raw) ≡ some raw

module _ (encode : Bytes → Bytes) (decode : Bytes → Option Bytes) (hash : Bytes → Bytes) where
  new_token-split :
      (kind prefix secret : Bytes)
      → IsEncoder encode decode
      → all_of (λ c. not (c == b'.')) kind ≡ true
      → all_of (contains code_alphabet) prefix ≡ true
      → split_dots (new_token decode hash encode kind prefix secret)
        ≡ kind ∷ prefix ∷ encode secret ∷ []
  unfolding new_token
  new_token-split kind prefix secret encoder dotless chars =
      split_dots-part kind (prefix ++ (b'.' ∷ encode secret)) prefix (encode secret ∷ [])
        (split_dots-part prefix (encode secret) (encode secret) []
          (split_dots-whole (encode secret) (encoder.dotless secret)) (no_dots prefix chars))
        dotless

  -- A credential that the service makes is accepted as one of its kind, under the hash of its text.
  pub credential_hash-new_token :
      (kind prefix secret : Bytes)
      → IsEncoder encode decode
      → all_of (λ c. not (c == b'.')) kind ≡ true
      → length kind ≡ 3
      → IsCode prefix
      → length secret ≡ secret_bytes
      → credential_hash decode hash (new_token decode hash encode kind prefix secret) kind
        ≡ some (hash (new_token decode hash encode kind prefix secret))
  unfolding credential_hash credential_parts
  credential_hash-new_token kind prefix secret encoder dotless three (chars, eight) size =
      let token = new_token decode hash encode kind prefix secret in
      let whole : length token ≡ credential_length =
        unfold new_token in
        omega (
          arith,
          length-append kind (b'.' ∷ (prefix ++ (b'.' ∷ encode secret))),
          length-append prefix (b'.' ∷ encode secret),
          encoder.width secret size,
          three,
          eight,
        ) in
      rw whole (
        rw (new_token-split kind prefix secret encoder dotless chars) (
          rw (same_bytes_refl kind)
            (rw eight (rw chars (rw (encoder.inverse secret) (rw size refl))))))
