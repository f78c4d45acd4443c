-- ===== src/Memory/Resurface.antt =====
-- `handle_resurface` of session_memory.rs, from the resolved file on, with the file's bytes.
use b.Prelude.{
  ℕ, suc, ◌+◌, ◌-◌, List, [], ◌∷◌, ◌++◌, Option, none, some, ◌>>=◌, map, take, length, ltb, ◌==◌,
  if◌then◌else◌, Bytes, Text, chars, join, split_whitespace, to_string, from_utf8,
}
use b.Memory.Lines.{LineRangeResult, read_line_range}
use b.Memory.Filters.{Json, filter_lines, unwrap_or}
use b.Memory.Sampling.{sample}
use b.Memory.Render.{Request, entries}

-- an `i64`
pub data ℤ : Type 0 where
  pos : ℕ → ℤ
  negsuc : ℕ → ℤ

-- the line breaks of a file
unfoldable pub count_lines_in_file : Bytes → ℕ
count_lines_in_file [] = 0
count_lines_in_file (b ∷ file) =
    let rest = count_lines_in_file file in if b == 10 then suc rest else rest

abbrev pub at_least_1 : ℕ → ℕ
at_least_1 n = if n == 0 then 1 else n

unfoldable pub abs_start : (total_lines : ℕ) → ℤ → ℕ
abs_start total_lines (pos n) = if ltb 0 n then n else total_lines + 1
abs_start total_lines (negsuc k) = at_least_1 (total_lines - k)

unfoldable pub abs_end : (total_lines : ℕ) → ℤ → ℕ
abs_end total_lines (pos n) = if ltb 0 n then n else at_least_1 total_lines
abs_end total_lines (negsuc k) = if k == 0 then total_lines else at_least_1 (total_lines - suc k)

-- A line of the output, cut to a number of words.
unfoldable pub cut_words : Option ℕ → Text → Text
cut_words none line = line
cut_words (some max_words) line =
    if ltb max_words (length (split_whitespace line))
    then join (take max_words (split_whitespace line)) (chars " ") ++ chars "..."
    else line

-- The first line of the output, up to the two breaks behind it.
unfoldable pub header : (total_lines start end : ℕ) → LineRangeResult → Text
header total_lines start end range =
    chars "[Session: "
    ++ (to_string total_lines
        ++ (chars " total lines | Showing L"
            ++ (to_string start
                ++ (chars "-L"
                    ++ (to_string end
                        ++ ((if range.truncated
                              then chars " | TRUNCATED at line "
                                ++ (to_string (unwrap_or range.truncated_at_line 0)
                                    ++ chars " (I/O error — partial result)")
                              else [])
                            ++ (93 ∷ 10 ∷ 10 ∷ [])))))))

module _ {V : Type 0} (x : Json V) (q : Request) where
  -- The lines of the output, before the words are counted.
  unfoldable pub shown :
      Option (ℕ → ℕ) → (ℕ → ℕ) → (start : ℕ) → LineRangeResult → Option (List Text)
  shown frac_sample draws start range =
      sample frac_sample draws (filter_lines q.record_type 0 (map from_utf8 range.lines))
      >>= entries x q start

  unfoldable pub handle_resurface :
      Bytes
      → (start_line end_line : ℤ) → (frac_sample : Option (ℕ → ℕ)) → (draws : ℕ → ℕ)
      → (max_word_length : Option ℕ) → Option Text
  handle_resurface file start_line end_line frac_sample draws max_word_length =
      let total_lines = count_lines_in_file file in
      let start = abs_start total_lines start_line in
      let end = abs_end total_lines end_line in
      let range = read_line_range file start end total_lines (length file) in
      shown frac_sample draws start range >>= (λ result. some (
        header total_lines start end range
        ++ join (map (cut_words max_word_length) result) (10 ∷ [])))
