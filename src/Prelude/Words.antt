-- ===== src/Prelude/Words.antt =====
-- Rust's little-endian conversions of `u16` and `u32`, and the wrapping successor of a `u32`.
-- A byte is a number; a byte string is a list of them.
use Prim.Native.Nat.{ℕ, ◌+◌, ◌*◌, ◌/◌, ◌%◌, ◌^◌, ◌<◌}
use mathlib.Core.Path.{◌≡◌}
use mathlib.Core.List.{List, [], ◌∷◌}
use native.Mathlib.Omega.{arith}
use b.Prelude.Lists.{get_or}

abbrev pub Bytes : Type 0
Bytes = List ℕ

abbrev pub u16_mod : ℕ
u16_mod = 2 ^ 16

abbrev pub u32_mod : ℕ
u32_mod = 2 ^ 32

abbrev pub u64_mod : ℕ
u64_mod = 2 ^ 64

-- `n + 1` on a `u32`, as a release build computes it.
abbrev pub succ32 : ℕ → ℕ
succ32 n = (n + 1) % u32_mod

-- `u32::to_le_bytes`
abbrev pub u32_to_le_bytes : ℕ → Bytes
u32_to_le_bytes n = (n % 256) ∷ (n / 256 % 256) ∷ (n / 65536 % 256) ∷ (n / 16777216 % 256) ∷ []

-- `u16::to_le_bytes`
abbrev pub u16_to_le_bytes : ℕ → Bytes
u16_to_le_bytes n = (n % 256) ∷ (n / 256 % 256) ∷ []

-- `u32::from_le_bytes`
abbrev pub u32_from_le_bytes : ℕ → ℕ → ℕ → ℕ → ℕ
u32_from_le_bytes a b c d = a + 256 * b + 65536 * c + 16777216 * d

-- `u16::from_le_bytes`
abbrev pub u16_from_le_bytes : ℕ → ℕ → ℕ
u16_from_le_bytes a b = a + 256 * b

-- the `u32` that stands at index `i` of a byte string that is long enough
abbrev pub read_u32 : Bytes → ℕ → ℕ
read_u32 d i =
    u32_from_le_bytes (get_or d i 0) (get_or d (i + 1) 0) (get_or d (i + 2) 0) (get_or d (i + 3) 0)

abbrev pub read_u16 : Bytes → ℕ → ℕ
read_u16 d i = u16_from_le_bytes (get_or d i 0) (get_or d (i + 1) 0)

pub u32_le_round_trip :
    (n : ℕ)
    → n < u32_mod
    → u32_from_le_bytes (n % 256) (n / 256 % 256) (n / 65536 % 256) (n / 16777216 % 256) ≡ n
u32_le_round_trip n h = omega arith

pub u16_le_round_trip : (n : ℕ) → n < u16_mod → u16_from_le_bytes (n % 256) (n / 256 % 256) ≡ n
u16_le_round_trip n h = omega arith
