-- ===== src/Daemon/Cursor/Tests.antt =====
-- Tests of `clamp_cursor_up`.
use b.Prelude.{List, [], ◌∷◌, Bytes, replicate}

-- 70 rows, one row without a number, and 90 rows
abbrev moves : List Bytes
moves = (55 ∷ 48 ∷ []) ∷ [] ∷ (57 ∷ 48 ∷ []) ∷ []

-- twenty digits nine
abbrev nines : Bytes
nines = replicate 20 57
