-- ===== src/Prelude/Utf8.antt =====
-- `str::as_bytes`: the UTF-8 of a text.
use Prim.Native.Nat.{ℕ, zero, suc, ◌+◌, ◌*◌, ◌/◌, ◌%◌}
use Prim.Native.Char.{code}
use Prim.Native.String.{String, [] as empty, ◌∷◌ as cons}
use mathlib.Core.List.{[], ◌∷◌, ◌++◌}
use mathlib.Core.Option.{Option, none, some}
use mathlib.Core.Bool.{Bool, true, false, ◌&&◌}
use b.Prelude.Tests.{ltb, leb, ◌==◌, if◌then◌else◌}
use b.Prelude.Words.{Bytes}

-- the UTF-8 of a character
abbrev pub utf8_char : ℕ → Bytes
utf8_char n =
    if ltb n 0x80
    then n ∷ []
    else if ltb n 0x800
    then (0xC0 + n / 64) ∷ (0x80 + n % 64) ∷ []
    else if ltb n 0x10000
    then (0xE0 + n / 4096) ∷ (0x80 + n / 64 % 64) ∷ (0x80 + n % 64) ∷ []
    else (0xF0 + n / 262144) ∷ (0x80 + n / 4096 % 64) ∷ (0x80 + n / 64 % 64) ∷ (0x80 + n % 64) ∷ []

abbrev pub as_bytes : String → Bytes
as_bytes empty = []
as_bytes (cons c s) = utf8_char (code c) ++ as_bytes s

-- What follows the first byte of a character: how many bytes, and the bounds of the first of them.
abbrev pub utf8_lead : ℕ → Option (ℕ × ℕ × ℕ)
utf8_lead a =
    if ltb a 0x80
    then some (0, 0x80, 0xBF)
    else if leb 0xC2 a && leb a 0xDF
    then some (1, 0x80, 0xBF)
    else if a == 0xE0
    then some (2, 0xA0, 0xBF)
    else if a == 0xED
    then some (2, 0x80, 0x9F)
    else if leb 0xE1 a && leb a 0xEF
    then some (2, 0x80, 0xBF)
    else if a == 0xF0
    then some (3, 0x90, 0xBF)
    else if leb 0xF1 a && leb a 0xF3
    then some (3, 0x80, 0xBF)
    else if a == 0xF4
    then some (3, 0x80, 0x8F)
    else none

-- whether the bytes are UTF-8, when `n` bytes of a character are still to come
abbrev pub utf8_from : (n lo hi : ℕ) → Bytes → Bool
utf8_from zero lo hi [] = true
utf8_from zero lo hi (a ∷ r) = elim (utf8_lead a) [
  | none ↦ false
  | some (n, l, h) ↦ utf8_from n l h r
]
utf8_from (suc n) lo hi [] = false
utf8_from (suc n) lo hi (a ∷ r) =
    let rest = utf8_from n 0x80 0xBF r in leb lo a && (leb a hi && rest)

-- `String::from_utf8` succeeds
unfoldable pub is_utf8 : Bytes → Bool
is_utf8 d = utf8_from 0 0 0 d

-- the characters behind a first byte: how many bytes of one are still to come, and its bits so far
abbrev pub text_from : (n bits : ℕ) → Bytes → Bytes
text_from n bits [] = []
text_from zero bits (a ∷ r) =
    let more : ℕ =
      if ltb a 0x80 then 0 else if ltb a 0xE0 then 1 else if ltb a 0xF0 then 2 else 3 in
    let lead : ℕ = if ltb a 0xE0 then a % 64 else if ltb a 0xF0 then a % 16 else a % 8 in
    (if ltb a 0x80 then a ∷ [] else []) ++ text_from more lead r
text_from (suc n) bits (a ∷ r) =
    let whole : ℕ = bits * 64 + a % 64 in (if n == 0 then whole ∷ [] else []) ++ text_from n whole r

-- the characters of bytes that are UTF-8
unfoldable pub from_utf8 : Bytes → Bytes
from_utf8 d = text_from 0 0 d
