-- ===== src/Daemon/Cursor.antt =====
-- `clamp_cursor_up` of crates/b3-cli/src/daemon/server.rs: no run of cursor movements goes up by more
-- than 100 rows. The loop runs on the bytes that are left; each round takes at least one of them, so as
-- many rounds as there are bytes are enough.
pub mod Rows
mod Tests
use b.Prelude.{
  ℕ, zero, suc, ◌+◌, ◌-◌, ◌*◌, ◌/◌, ◌%◌, Bool, true, false, not, ◌&&◌, ◌||◌, List, [], ◌∷◌, ◌++◌,
  length, is_empty, ltb, leb, ◌==◌, if◌then◌else◌, Bytes, u64_mod,
}

abbrev pub max_cursor_up_rows : ℕ
max_cursor_up_rows = 100

abbrev pub esc : ℕ
esc = 0x1b

abbrev pub is_digit : ℕ → Bool
is_digit c = leb 48 c && leb c 57

unfoldable pub contains : Bytes → ℕ → Bool
contains [] v = false
contains (c ∷ d) v = let rest = contains d v in if c == v then true else rest

-- `while i < len && data[i].is_ascii_digit() { i += 1 }`: the digits, and what follows them
unfoldable pub span_digits : Bytes → Bytes × Bytes
span_digits [] = ([], [])
span_digits (c ∷ d) =
    let (ds, rest) = span_digits d in if is_digit c then (c ∷ ds, rest) else ([], c ∷ d)

unfoldable pub value_from : ℕ → Bytes → ℕ
value_from n [] = n
value_from n (c ∷ ds) = value_from (n * 10 + (c - 48)) ds

-- `parse().ok().unwrap_or(1)` to a `usize`, and 1 without digits
unfoldable pub amount : Bytes → ℕ
amount ds = if is_empty ds then 1 else if ltb (value_from 0 ds) u64_mod then value_from 0 ds else 1

-- the digits of a number below 1000
abbrev pub decimal : ℕ → Bytes
decimal n =
    if ltb n 10
    then (48 + n) ∷ []
    else if ltb n 100
    then (48 + n / 10) ∷ (48 + n % 10) ∷ []
    else (48 + n / 100) ∷ (48 + n / 10 % 10) ∷ (48 + n % 10) ∷ []

-- the sequence `ESC [ <digits> A`
abbrev pub up : Bytes → Bytes
up ds = esc ∷ 91 ∷ (ds ++ (65 ∷ []))

-- What is emitted for a movement by `n`, when the counter is `cumulative_up` with it.
unfoldable pub emitted : (ds : Bytes) (n cumulative_up : ℕ) → Bytes
emitted ds n cumulative_up =
    let before = (cumulative_up + u64_mod - n) % u64_mod in
    if leb cumulative_up max_cursor_up_rows
    then up ds
    else if ltb before max_cursor_up_rows
    then up (decimal (max_cursor_up_rows - before))
    else []

-- Behind `ESC [`: the counter, what is emitted, and what is left.
unfoldable pub sequence : ℕ → Bytes → Bytes → ℕ × Bytes × Bytes
sequence cumulative_up ds [] = (0, esc ∷ 91 ∷ ds, [])
sequence cumulative_up ds (c ∷ rest) =
    let total = (cumulative_up + amount ds) % u64_mod in
    if c == 65
    then (total, emitted ds (amount ds) total, rest)
    else (0, esc ∷ 91 ∷ (ds ++ (c ∷ [])), rest)

-- A byte that begins no such sequence.
unfoldable pub other : ℕ → ℕ → Bytes → ℕ × Bytes × Bytes
other cumulative_up c rest =
    if not (c == esc) && (leb 0x20 c && not (c == 0x7f))
    then (0, c ∷ [], rest)
    else (cumulative_up, c ∷ [], rest)

-- A round of the loop, at the byte `c`.
unfoldable pub round : ℕ → ℕ → Bytes → ℕ × Bytes × Bytes
round cumulative_up c [] = other cumulative_up c []
round cumulative_up c (d ∷ rest) =
    if c == esc && d == 91
    then sequence cumulative_up (span_digits rest).0 (span_digits rest).1
    else other cumulative_up c (d ∷ rest)

unfoldable pub clamp_loop : (fuel cumulative_up : ℕ) → Bytes → Bytes
clamp_loop zero cumulative_up bytes = []
clamp_loop (suc fuel) cumulative_up [] = []
clamp_loop (suc fuel) cumulative_up (c ∷ bytes) =
    let (total, out, rest) = round cumulative_up c bytes in out ++ clamp_loop fuel total rest

unfoldable pub clamp_cursor_up : Bytes → Bytes
clamp_cursor_up bytes =
    if not (contains bytes esc) then bytes else clamp_loop (length bytes) 0 bytes
