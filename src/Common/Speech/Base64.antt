-- ===== src/Common/Speech/Base64.antt =====
-- `base64_decode` of tts.rs. A text is its UTF-8, and the shifted parts that the code joins with `|`
-- have no bit in common, so that their sum is meant.
use b.Prelude.{
  ℕ, ◌+◌, ◌-◌, ◌*◌, ◌/◌, ◌%◌, ◌&&◌, ◌||◌, [], ◌∷◌, ◌++◌, is_empty, ltb, leb, ◌==◌, if◌then◌else◌,
  Bytes, Result, ok, err, and_then,
}

-- "invalid" and "invalid base64 character"
pub data Error : Type 0 where
  invalid invalid_character : Error

-- `TABLE`
abbrev pub table : ℕ → ℕ
table c =
    if leb 65 c && leb c 90
    then c - 65
    else if leb 97 c && leb c 122
    then c - 97 + 26
    else if leb 48 c && leb c 57
    then c - 48 + 52
    else if c == 43
    then 62
    else if c == 47
    then 63
    else 255

-- `TABLE.get(c).ok_or("invalid")`
abbrev pub lookup : ℕ → Result ℕ Error
lookup c = if ltb c 128 then ok (table c) else err invalid

-- `trim_end_matches('=')`
unfoldable pub trim_end : Bytes → Bytes
trim_end [] = []
trim_end (c ∷ r) = let t = trim_end r in if is_empty t && c == 61 then [] else c ∷ t

-- The body of the loop, for the four values that it looked up.
unfoldable pub four : (a b c d : ℕ) → Result Bytes Error
four a b c d =
    if (a == 255 || b == 255) || (c == 255 || d == 255)
    then err invalid_character
    else (let n = a * 262144 + b * 4096 + c * 64 + d in
        ok ((n / 65536 % 256) ∷ (n / 256 % 256) ∷ (n % 256) ∷ []))

unfoldable pub two : (a b : ℕ) → Result Bytes Error
two a b = if a == 255 || b == 255 then err invalid_character else ok (((a * 4 + b / 16) % 256) ∷ [])

unfoldable pub three : (a b c : ℕ) → Result Bytes Error
three a b c =
    if (a == 255 || b == 255) || c == 255
    then err invalid_character
    else ok (((a * 4 + b / 16) % 256) ∷ ((b * 16 + c / 4) % 256) ∷ [])

-- The loop over four characters at a time, and what it leaves; one character more is ignored.
unfoldable pub decode_chars : Bytes → Result Bytes Error
decode_chars [] = ok []
decode_chars (p ∷ []) = ok []
decode_chars (p ∷ q ∷ []) = and_then (lookup p) (λ a. and_then (lookup q) (λ b. two a b))
decode_chars (p ∷ q ∷ r ∷ []) =
    and_then (lookup p) (λ a. and_then (lookup q) (λ b. and_then (lookup r) (λ c. three a b c)))
decode_chars (p ∷ q ∷ r ∷ s ∷ rest) =
    let later = decode_chars rest in
    and_then (lookup p) (λ a. and_then (lookup q) (λ b. and_then (lookup r) (λ c.
      and_then (lookup s)
        (λ d. and_then (four a b c d) (λ out. and_then later (λ more. ok (out ++ more)))))))

unfoldable pub base64_decode : Bytes → Result Bytes Error
base64_decode input = decode_chars (trim_end input)
