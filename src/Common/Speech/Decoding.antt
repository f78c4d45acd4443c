-- ===== src/Common/Speech/Decoding.antt =====
-- `base64_decode` of tts.rs against the encoding of RFC 4648.
use b.Prelude.{
  ℕ, ◌+◌, ◌-◌, ◌*◌, ◌/◌, ◌%◌, ◌<◌, ◌≡◌, refl, ◌∙◌, ap, false, List, [], ◌∷◌, ◌++◌, map, is_empty,
  ltb, ◌==◌, if◌then◌else◌, Bytes, ok, All, arith, Bool-cases, inl, inr,
}
use b.Common.Speech.Base64.{lookup, trim_end, four, two, three, decode_chars, base64_decode}

-- the character of a value below 64
abbrev pub char : ℕ → ℕ
char k =
    if ltb k 26
    then k + 65
    else if ltb k 52
    then k + 71
    else if ltb k 62
    then k - 4
    else if k == 62
    then 43
    else 47

-- The encoding of RFC 4648, with padding.
unfoldable pub encode : Bytes → Bytes
encode [] = []
encode (x ∷ []) = char (x / 4) ∷ char (x % 4 * 16) ∷ 61 ∷ 61 ∷ []
encode (x ∷ y ∷ []) = char (x / 4) ∷ char (x % 4 * 16 + y / 16) ∷ char (y % 16 * 4) ∷ 61 ∷ []
encode (x ∷ y ∷ z ∷ rest) =
    char (x / 4)
    ∷ char (x % 4 * 16 + y / 16)
    ∷ char (y % 16 * 4 + z / 64)
    ∷ char (z % 64)
    ∷ encode rest

lookup-char : (k : ℕ) → k < 64 → lookup (char k) ≡ ok k
lookup-char k h = ground arith

char-pad : (k : ℕ) → (char k == 61) ≡ false
char-pad k = ground arith

trim_end-char : (k : ℕ) (r : Bytes) → trim_end (char k ∷ r) ≡ char k ∷ trim_end r
unfolding trim_end
trim_end-char k r = elim (Bool-cases (is_empty (trim_end r))) [
  | inl nothing ↦ rw (nothing, char-pad k, trim_end) refl
  | inr more ↦ rw (more, trim_end) refl
]

trim_end-map : (ks : List ℕ) (r : Bytes) → trim_end (map char ks ++ r) ≡ map char ks ++ trim_end r
trim_end-map [] r = refl
trim_end-map (k ∷ ks) r =
    trim_end-char k (map char ks ++ r) ∙ ap (λ t. char k ∷ t) (trim_end-map ks r)

four-split :
    (x y z : ℕ)
    → x < 256
    → y < 256
    → z < 256
    → four (x / 4) (x % 4 * 16 + y / 16) (y % 16 * 4 + z / 64) (z % 64) ≡ ok (x ∷ y ∷ z ∷ [])
unfolding four
four-split x y z hx hy hz =
    let a = x / 4 in
    let b_ = x % 4 * 16 + y / 16 in
    let c = y % 16 * 4 + z / 64 in
    let d = z % 64 in
    let pa : (a == 255) ≡ false = ground arith in
    let pb : (b_ == 255) ≡ false = ground arith in
    let pc : (c == 255) ≡ false = ground arith in
    let pd : (d == 255) ≡ false = ground arith in
    let n = a * 262144 + b_ * 4096 + c * 64 + d in
    let ex : n / 65536 % 256 ≡ x = omega arith in
    let ey : n / 256 % 256 ≡ y = omega arith in
    let ez : n % 256 ≡ z = omega arith in rw (pa, pb, pc, pd, four, ex, ey, ez) refl

two-split : (x : ℕ) → x < 256 → two (x / 4) (x % 4 * 16) ≡ ok (x ∷ [])
unfolding two
two-split x hx =
    let pa : (x / 4 == 255) ≡ false = ground arith in
    let pb : (x % 4 * 16 == 255) ≡ false = ground arith in
    let ex : (x / 4 * 4 + x % 4 * 16 / 16) % 256 ≡ x = omega arith in rw (pa, pb, two, ex) refl

three-split :
    (x y : ℕ)
    → x < 256
    → y < 256
    → three (x / 4) (x % 4 * 16 + y / 16) (y % 16 * 4) ≡ ok (x ∷ y ∷ [])
unfolding three
three-split x y hx hy =
    let a = x / 4 in
    let b_ = x % 4 * 16 + y / 16 in
    let c = y % 16 * 4 in
    let pa : (a == 255) ≡ false = ground arith in
    let pb : (b_ == 255) ≡ false = ground arith in
    let pc : (c == 255) ≡ false = ground arith in
    let ex : (a * 4 + b_ / 16) % 256 ≡ x = omega arith in
    let ey : (b_ * 16 + c / 4) % 256 ≡ y = omega arith in rw (pa, pb, pc, three, ex, ey) refl

-- A byte string that was encoded as RFC 4648 says, padding included, is decoded to itself.
pub base64_decode-encode :
    (bytes : Bytes) → All (λ x. x < 256) bytes → base64_decode (encode bytes) ≡ ok bytes
unfolding base64_decode encode decode_chars trim_end
base64_decode-encode [] h = refl
base64_decode-encode (x ∷ []) h =
    let a = x / 4 in
    let b_ = x % 4 * 16 in
    let t : trim_end (char a ∷ char b_ ∷ 61 ∷ 61 ∷ []) ≡ char a ∷ char b_ ∷ [] =
      trim_end-map (a ∷ b_ ∷ []) (61 ∷ 61 ∷ []) in
    ap decode_chars t
    ∙ rw (lookup-char a (omega (arith, h.0)), lookup-char b_ (omega arith)) (two-split x h.0)
base64_decode-encode (x ∷ y ∷ []) h =
    let a = x / 4 in
    let b_ = x % 4 * 16 + y / 16 in
    let c = y % 16 * 4 in
    let t : trim_end (char a ∷ char b_ ∷ char c ∷ 61 ∷ []) ≡ char a ∷ char b_ ∷ char c ∷ [] =
      trim_end-map (a ∷ b_ ∷ c ∷ []) (61 ∷ []) in
    ap decode_chars t
    ∙ rw
        (
          lookup-char a (omega (arith, h.0)),
          lookup-char b_ (omega (arith, h.1.0)),
          lookup-char c (omega arith),
        )
        (three-split x y h.0 h.1.0)
base64_decode-encode (x ∷ y ∷ z ∷ rest) h =
    let a = x / 4 in
    let b_ = x % 4 * 16 + y / 16 in
    let c = y % 16 * 4 + z / 64 in
    let d = z % 64 in
    let t : trim_end (char a ∷ char b_ ∷ char c ∷ char d ∷ encode rest)
        ≡ char a ∷ char b_ ∷ char c ∷ char d ∷ trim_end (encode rest) =
      trim_end-map (a ∷ b_ ∷ c ∷ d ∷ []) (encode rest) in
    ap decode_chars t
    ∙ rw
        (
          lookup-char a (omega (arith, h.0)),
          lookup-char b_ (omega (arith, h.1.0)),
          lookup-char c (omega (arith, h.1.1.0)),
          lookup-char d (omega arith),
          four-split x y z h.0 h.1.0 h.1.1.0,
          base64_decode-encode rest h.1.1.1,
        )
        refl
