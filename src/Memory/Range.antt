-- ===== src/Memory/Range.antt =====
-- Which lines `read_line_range` returns.
use b.Prelude.{
  ℕ, suc, ◌+◌, ◌-◌, ◌≤◌, ◌≡◌, refl, sym, ◌∙◌, ap, true, false, List, [], ◌∷◌, none, some, take,
  drop, ltb, Bytes, is_utf8, All, arith, Bool-cases, inl, inr, take-all, drop-all,
}
use b.Memory.Lines.{
  LineRangeResult, safety_margin, lines_of, skip_line, seek_to, collect, scan, read_line_range,
}

-- a complete result
abbrev pub found : List Bytes → LineRangeResult
found ls = record { lines = ls; truncated = false; truncated_at_line = none }

-- Inside the range.
collect-take :
    (n s e : ℕ) (ls : List Bytes)
    → s ≤ n
    → All (λ l. is_utf8 l ≡ true) ls
    → collect n s e ls ≡ found (take (suc e - n) ls)
unfolding collect
collect-take n s e [] h text = ap found (sym (take-all (suc e - n) [] (omega arith)))
collect-take n s e (l ∷ ls) h text =
    let reached : ltb n s ≡ false = ground arith in
    elim (Bool-cases (ltb e n)) [
      | inl behind ↦
          let none_left : suc e - n ≡ 0 = ground arith in
          rw (reached, behind, none_left, collect) refl
      | inr inside ↦
          let one_less : suc e - n ≡ suc (suc e - (n + 1)) = ground arith in
          rw
            (
              reached,
              inside,
              text.0,
              collect-take (n + 1) s e ls (omega arith) text.1,
              one_less,
              collect,
            )
            refl
    ]

collect-drop :
    (n s e : ℕ) (ls : List Bytes)
    → n ≤ s
    → All (λ l. is_utf8 l ≡ true) ls
    → collect n s e ls ≡ found (take (suc e - s) (drop (s - n) ls))
unfolding collect
collect-drop n s e [] h text = ap found (
    sym (
      ap (take (suc e - s)) (drop-all (s - n) [] (omega arith))
      ∙ take-all (suc e - s) [] (omega arith)))
collect-drop n s e (l ∷ ls) h text = elim (Bool-cases (ltb n s)) [
  | inl before ↦
      let one_less : s - n ≡ suc (s - (n + 1)) = ground arith in
      rw (before, collect-drop (n + 1) s e ls (ground arith) text.1, one_less, collect) refl
  | inr at ↦
      let same : s ≡ n = ground arith in
      let here : s - n ≡ 0 = omega arith in
      rw here (
        collect-take n s e (l ∷ ls) (omega arith) text
        ∙ ap (λ k. found (take (suc e - k) (l ∷ ls))) (sym same))
]

-- Without a seek, if the range begins at 1 or later and all lines of the file are UTF-8, the result is
-- complete and has the lines s..=e of the file, as far as the file has them; the first line has the
-- number 1.
pub read_line_range-take :
    (file : Bytes) (s e total_lines file_len : ℕ)
    → seek_to s total_lines file_len ≡ none
    → 1 ≤ s
    → All (λ l. is_utf8 l ≡ true) (lines_of file)
    → read_line_range file s e total_lines file_len
      ≡ found (take (suc e - s) (drop (s - 1) (lines_of file)))
unfolding read_line_range scan
read_line_range-take file s e total_lines file_len direct one text =
    ap (λ o. scan o file s e) direct ∙ collect-drop 1 s e (lines_of file) one text

-- With a seek to a byte offset, if the range begins at 500 or later and all lines behind the next
-- line break are UTF-8, the result is complete and has the lines that begin 500 lines behind that line
-- break, as many as the range has, whatever their numbers in the file are.
pub read_line_range-skip_line :
    (file : Bytes) (s e total_lines file_len offset : ℕ)
    → seek_to s total_lines file_len ≡ some offset
    → safety_margin ≤ s
    → All (λ l. is_utf8 l ≡ true) (lines_of (skip_line (drop offset file)))
    → read_line_range file s e total_lines file_len
      ≡ found (take (suc e - s) (drop safety_margin (lines_of (skip_line (drop offset file)))))
unfolding read_line_range scan
read_line_range-skip_line file s e total_lines file_len offset sought far text =
    let ls = lines_of (skip_line (drop offset file)) in
    let behind : s - (s - safety_margin) ≡ safety_margin = omega arith in
    ap (λ o. scan o file s e) sought
    ∙ collect-drop (s - safety_margin) s e ls (omega arith) text
    ∙ ap (λ n. found (take (suc e - s) (drop n ls))) behind
