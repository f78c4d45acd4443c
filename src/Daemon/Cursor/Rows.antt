-- ===== src/Daemon/Cursor/Rows.antt =====
-- How many rows the output of `clamp_cursor_up` goes up.
use b.Prelude.{
  ℕ, ◌+◌, ◌≡◌, refl, sym, ap, true, false, not, ◌&&◌, List, [], ◌∷◌, ◌++◌, length, leb, ◌==◌, Bytes,
  value_of, All, arith, Bool-cases, inl, inr,
}
use b.Daemon.Cursor.{esc, is_digit, contains, up, other, round, clamp_loop, clamp_cursor_up}

abbrev pub IsDigits : Bytes → Type 0
IsDigits ds = All (λ c. is_digit c ≡ true) ds

-- The rows that a terminal goes up at a movement: as many as its decimal number says, or 1 where it has none.
abbrev pub rows_of : Bytes → ℕ
rows_of [] = 1
rows_of (d ∷ ds) = value_of 0 (d ∷ ds)

-- sequences that follow each other, and the rows that they go up
abbrev pub ups : List Bytes → Bytes
ups [] = []
ups (ds ∷ dss) = up ds ++ ups dss

abbrev pub rows : List Bytes → ℕ
rows [] = 0
rows (ds ∷ dss) = rows_of ds + rows dss

other-plain : (cum c : ℕ) (rest : Bytes) → (next : ℕ) × (other cum c rest ≡ (next, c ∷ [], rest))
unfolding other
other-plain cum c rest = elim (Bool-cases (not (c == esc) && (leb 0x20 c && not (c == 0x7f)))) [
  | inl visible ↦ (0, rw (visible, other) refl)
  | inr control ↦ (cum, rw (control, other) refl)
]

-- A round at a byte that is not ESC.
round-plain :
    (cum c : ℕ) (rest : Bytes)
    → (c == esc) ≡ false
    → (next : ℕ) × (round cum c rest ≡ (next, c ∷ [], rest))
unfolding round
round-plain cum c [] plain = other-plain cum c []
round-plain cum c (d ∷ rest) plain = rw (plain, round) (other-plain cum c (d ∷ rest))

clamp_loop-plain :
    (cum : ℕ) (bytes : Bytes)
    → contains bytes esc ≡ false
    → clamp_loop (length bytes) cum bytes ≡ bytes
unfolding clamp_loop contains
clamp_loop-plain cum [] h = refl
clamp_loop-plain cum (c ∷ bytes) h =
    let (next, e) = round-plain cum c bytes (ground arith) in
    rw e (ap (λ r. c ∷ r) (clamp_loop-plain next bytes (ground arith)))

-- The test for a byte ESC does not change the result: the loop leaves bytes without one as they are.
pub clamp_cursor_up-clamp_loop :
    (bytes : Bytes) → clamp_cursor_up bytes ≡ clamp_loop (length bytes) 0 bytes
unfolding clamp_cursor_up
clamp_cursor_up-clamp_loop bytes = elim (Bool-cases (contains bytes esc)) [
  | inl some_ ↦ rw (some_, clamp_cursor_up) refl
  | inr nothing ↦ rw (nothing, clamp_cursor_up) (sym (clamp_loop-plain 0 bytes nothing))
]
