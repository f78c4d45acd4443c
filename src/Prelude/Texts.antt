-- ===== src/Prelude/Texts.antt =====
-- `str`: a text is the list of its characters, by their numbers.
use Prim.Native.Nat.{ℕ, zero, suc, ◌+◌, ◌-◌, ◌*◌, ◌/◌, ◌%◌, ◌<◌}
use Prim.Native.Char.{code}
use Prim.Native.String.{String, [] as empty, ◌∷◌ as cons}
use mathlib.Core.Path.{◌≡◌, refl, sym, ◌∙◌, ap, ap₂}
use mathlib.Core.Logic.{inl, inr}
use mathlib.Core.List.{List, [], ◌∷◌, ◌++◌}
use mathlib.Core.Option.{Option, none, some}
use mathlib.Core.Bool.{Bool, true, false, not, ◌&&◌, ◌||◌}
use native.Mathlib.Omega.{arith}
use b.Prelude.Tests.{ltb, leb, ◌==◌, if◌then◌else◌, Bool-cases}
use b.Prelude.Lists.{length, is_empty, All}
use b.Prelude.Chains.{true-false, ◌>>=◌}
use b.Prelude.Utf8.{utf8_char}

abbrev pub Text : Type 0
Text = List ℕ

-- the characters of a literal
abbrev pub chars : String → Text
chars empty = []
chars (cons c s) = code c ∷ chars s

-- `==` on texts and on arrays
unfoldable pub same : Text → Text → Bool
same [] [] = true
same [] (b ∷ bs) = false
same (a ∷ xs) [] = false
same (a ∷ xs) (b ∷ bs) = let rest = same xs bs in if a == b then rest else false

-- `char::is_whitespace`
unfoldable pub is_whitespace : ℕ → Bool
is_whitespace c =
    (leb 9 c && leb c 13)
    || (c == 32
        || (c == 0x85
            || (c == 0xA0
                || (c == 0x1680
                    || ((leb 0x2000 c && leb c 0x200A)
                        || (c == 0x2028
                            || (c == 0x2029 || (c == 0x202F || (c == 0x205F || c == 0x3000)))))))))

unfoldable pub trim_start : Text → Text
trim_start [] = []
trim_start (c ∷ t) = let rest = trim_start t in if is_whitespace c then rest else c ∷ t

unfoldable pub trim_end : Text → Text
trim_end [] = []
trim_end (c ∷ t) =
    let rest = trim_end t in if is_empty rest && is_whitespace c then [] else c ∷ rest

unfoldable pub trim : Text → Text
trim t = trim_end (trim_start t)

unfoldable pub starts_with : (t prefix : Text) → Bool
starts_with t [] = true
starts_with [] (p ∷ ps) = false
starts_with (c ∷ t) (p ∷ ps) = let rest = starts_with t ps in if c == p then rest else false

unfoldable pub contains : (t part : Text) → Bool
contains [] part = is_empty part
contains (c ∷ t) part =
    let rest = contains t part in if starts_with (c ∷ t) part then true else rest

-- `split_whitespace`, with what was read of a word
unfoldable pub words_from : Text → Text → List Text
words_from begun [] = if is_empty begun then [] else begun ∷ []
words_from begun (c ∷ t) =
    let next : Text = if is_whitespace c then [] else begun ++ (c ∷ []) in
    let out : List Text = if is_whitespace c && not (is_empty begun) then begun ∷ [] else [] in
    out ++ words_from next t

unfoldable pub split_whitespace : Text → List Text
split_whitespace t = words_from [] t

unfoldable pub join : List Text → Text → Text
join [] by = []
join (t ∷ []) by = t
join (t ∷ u ∷ ts) by = t ++ (by ++ join (u ∷ ts) by)

-- `len`, in bytes
unfoldable pub text_len : Text → ℕ
text_len [] = 0
text_len (c ∷ t) = length (utf8_char c) + text_len t

-- `&t[..n]`; `none` is the panic at an `n` that is past the end or inside a character
unfoldable pub slice_to : Text → ℕ → Option Text
slice_to [] n = if n == 0 then some [] else none
slice_to (c ∷ t) n =
    let rest = slice_to t (n - length (utf8_char c)) in
    if n == 0
    then some []
    else if ltb n (length (utf8_char c))
    then none
    else (rest >>= (λ r. some (c ∷ r)))

-- The decimal digits of a number below 10 ^ `f`.
unfoldable pub digits : (f n : ℕ) → Text
digits zero n = []
digits (suc f) n =
    let rest = digits f (n / 10) in if ltb n 10 then (48 + n) ∷ [] else rest ++ ((48 + n % 10) ∷ [])

-- `to_string` of a number: it has no more digits than `n + 1`
unfoldable pub to_string : ℕ → Text
to_string n = digits (suc n) n

-- the number that digits stand for
abbrev pub value_of : ℕ → Text → ℕ
value_of acc [] = acc
value_of acc (d ∷ ds) = value_of (10 * acc + (d - 48)) ds

value_of-append :
    (acc : ℕ) (s : Text) (d : ℕ) → value_of acc (s ++ (d ∷ [])) ≡ 10 * value_of acc s + (d - 48)
value_of-append acc [] d = refl
value_of-append acc (c ∷ s) d = value_of-append (10 * acc + (c - 48)) s d

value_of-digits : (f n : ℕ) → n < f → value_of 0 (digits f n) ≡ n
unfolding digits
value_of-digits zero n h = absurd (omega arith)
value_of-digits (suc f) n h = elim (Bool-cases (ltb n 10)) [
  | inl one ↦ rw (one, digits) (omega arith)
  | inr more ↦
      let less : n / 10 < f = ground arith in
      rw
        (
          more,
          digits,
          value_of-append 0 (digits f (n / 10)) (48 + n % 10),
          value_of-digits f (n / 10) less,
        )
        (omega arith)
]

-- The digits stand for the number.
pub value_of-to_string : (n : ℕ) → value_of 0 (to_string n) ≡ n
unfolding to_string
value_of-to_string n = value_of-digits (suc n) n (omega arith)

pub same_refl : (a : Text) → same a a ≡ true
unfolding same
same_refl [] = refl
same_refl (a ∷ xs) = let e : (a == a) ≡ true = ground arith in rw (e, same_refl xs) refl

pub same→≡ : (a b : Text) → same a b ≡ true → a ≡ b
unfolding same
same→≡ [] [] h = refl
same→≡ [] (b ∷ bs) h = absurd (true-false (sym h))
same→≡ (a ∷ xs) [] h = absurd (true-false (sym h))
same→≡ (a ∷ xs) (b ∷ bs) h = elim (Bool-cases (a == b)) [
  | inl e ↦ ap₂ (λ c cs. c ∷ cs) (ground arith) (same→≡ xs bs (sym (rw (e, same) refl) ∙ h))
  | inr n ↦ absurd (true-false (sym h ∙ rw (n, same) refl))
]

trim_start_text : (t : Text) → All (λ c. is_whitespace c ≡ false) t → trim_start t ≡ t
unfolding trim_start
trim_start_text [] h = refl
trim_start_text (c ∷ t) h = rw (h.0, trim_start) refl

and_false : (b : Bool) → b && false ≡ false
and_false true = refl
and_false false = refl

trim_end_text : (t : Text) → All (λ c. is_whitespace c ≡ false) t → trim_end t ≡ t
unfolding trim_end
trim_end_text [] h = refl
trim_end_text (c ∷ t) h =
    let e : (is_empty t && is_whitespace c) ≡ false =
      ap (λ w. is_empty t && w) h.0 ∙ and_false (is_empty t) in
    rw (trim_end_text t h.1, e, trim_end) refl

pub trim_text : (t : Text) → All (λ c. is_whitespace c ≡ false) t → trim t ≡ t
unfolding trim
trim_text t h = ap trim_end (trim_start_text t h) ∙ trim_end_text t h

pub starts_with-append : (p t : Text) → starts_with (p ++ t) p ≡ true
unfolding starts_with
starts_with-append [] [] = refl
starts_with-append [] (c ∷ t) = refl
starts_with-append (p ∷ ps) t =
    let e : (p == p) ≡ true = ground arith in rw (e, starts_with-append ps t) refl
