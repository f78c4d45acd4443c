-- ===== src/Memory/Lines.antt =====
-- `read_line_range` of session_memory.rs.
use b.Prelude.{
  ℕ, ◌+◌, ◌-◌, ◌*◌, ◌/◌, min, Bool, true, false, ◌&&◌, List, [], ◌∷◌, ◌++◌, Option, none, some,
  drop, is_empty, ltb, ◌==◌, if◌then◌else◌, Bytes, u64_mod, is_utf8,
}

abbrev pub seek_threshold : ℕ
seek_threshold = 5000

abbrev pub safety_margin : ℕ
safety_margin = 500

pub record LineRangeResult : Type 0 where
  pub lines : List Bytes
  pub truncated : Bool
  pub truncated_at_line : Option ℕ

-- The carriage return that stands before a line break.
unfoldable pub strip_cr : Bytes → Bytes
strip_cr [] = []
strip_cr (c ∷ d) = if is_empty d && c == 13 then [] else c ∷ strip_cr d

-- `BufRead::lines`, with the bytes of the line that was begun
unfoldable pub lines_from : Bytes → Bytes → List Bytes
lines_from begun [] = if is_empty begun then [] else begun ∷ []
lines_from begun (c ∷ d) =
    let next : Bytes = if c == 10 then [] else begun ++ (c ∷ []) in
    let out : List Bytes = if c == 10 then strip_cr begun ∷ [] else [] in out ++ lines_from next d

abbrev pub lines_of : Bytes → List Bytes
lines_of file = lines_from [] file

-- The loop that discards a partial line.
unfoldable pub skip_line : Bytes → Bytes
skip_line [] = []
skip_line (c ∷ d) = if c == 10 then d else skip_line d

-- The offset to which the file is sought, if it is.
unfoldable pub seek_to : (abs_start total_lines file_len : ℕ) → Option ℕ
seek_to abs_start total_lines file_len =
    if ltb (seek_threshold + safety_margin) abs_start
      && (ltb safety_margin total_lines && ltb 1024 file_len)
    then (let offset =
          min (min ((abs_start - safety_margin) * (file_len / total_lines)) (u64_mod - 1))
            (file_len - 1024) in
        if ltb 0 offset then some offset else none)
    else none

abbrev pub finished : LineRangeResult
finished = record { lines = []; truncated = false; truncated_at_line = none }

abbrev pub with_line : Bytes → LineRangeResult → LineRangeResult
with_line l r = record r { lines = l ∷ r.lines }

-- The loop over the lines, of which the first has the number `line_num`.
unfoldable pub collect : (line_num abs_start abs_end : ℕ) → List Bytes → LineRangeResult
collect line_num abs_start abs_end [] = finished
collect line_num abs_start abs_end (l ∷ ls) =
    let rest = collect (line_num + 1) abs_start abs_end ls in
    if ltb line_num abs_start
    then rest
    else if ltb abs_end line_num
    then finished
    else if is_utf8 l
    then with_line l rest
    else record { lines = []; truncated = true; truncated_at_line = some line_num }

-- The scan from the start of the file, or from the line behind the offset.
unfoldable pub scan : Option ℕ → Bytes → (abs_start abs_end : ℕ) → LineRangeResult
scan none file abs_start abs_end = collect 1 abs_start abs_end (lines_of file)
scan (some offset) file abs_start abs_end =
    collect (abs_start - safety_margin) abs_start abs_end (lines_of (skip_line (drop offset file)))

unfoldable pub read_line_range :
    Bytes → (abs_start abs_end total_lines file_len : ℕ) → LineRangeResult
read_line_range file abs_start abs_end total_lines file_len =
    scan (seek_to abs_start total_lines file_len) file abs_start abs_end
