-- ===== src/Memory/Metadata.antt =====
-- `extract_session_data`, `read_first_timestamp` and `read_last_timestamp` of session_memory.rs. chrono
-- gives the seconds of a date as a u64. Computing hours from seconds, with two digits, is left to the floats.
use b.Prelude.{
  ℕ, ◌+◌, ◌-◌, ◌%◌, Bool, true, false, ◌&&◌, List, [], ◌∷◌, ◌++◌, Option, none, some, ◌>>=◌,
  is_empty, ltb, drop, length, ◌==◌, if◌then◌else◌, Bytes, is_utf8, from_utf8, Text, chars, same,
  trim, u64_mod,
}
use b.Memory.Filters.{Json, get_str, has_str}
use b.Memory.Lines.{lines_of}

pub record Dates (F : Type 0) : Type 0 where
  pub parse_from_rfc3339 : Text → Option ℕ
  pub hours : ℕ → F

pub record SessionData (F : Type 0) : Type 0 where
  pub first_timestamp : Option Text
  pub last_timestamp : Option Text
  pub line_count : ℕ
  pub size_bytes : ℕ
  pub files_written : List Text
  pub duration_hours : Option F

-- What the loop over the lines keeps; the set of files is a list without repetitions.
pub record Progress : Type 0 where
  pub first_ts : Option Text
  pub last_ts : Option Text
  pub line_count : ℕ
  pub files_written : List Text

abbrev pub begin : Progress
begin = record { first_ts = none; last_ts = none; line_count = 0; files_written = [] }

abbrev pub or_else {ℓ} : {A : Type ℓ} → Option A → Option A → Option A
or_else none o = o
or_else (some a) o = some a

-- `Ord` on `String`
unfoldable pub text_ltb : Text → Text → Bool
text_ltb t [] = false
text_ltb [] (b ∷ bs) = true
text_ltb (a ∷ t) (b ∷ bs) = let rest = text_ltb t bs in if a == b then rest else ltb a b

abbrev pub has_text : Text → List Text → Bool
has_text t [] = false
has_text t (u ∷ us) = let rest = has_text t us in if same t u then true else rest

abbrev pub insert_text : Text → List Text → List Text
insert_text t ts = if has_text t ts then ts else t ∷ ts

abbrev pub insert_sorted : Text → List Text → List Text
insert_sorted t [] = t ∷ []
insert_sorted t (u ∷ us) =
    let rest = insert_sorted t us in if text_ltb u t then u ∷ rest else t ∷ (u ∷ us)

unfoldable pub sort_texts : List Text → List Text
sort_texts [] = []
sort_texts (t ∷ ts) = insert_sorted t (sort_texts ts)

-- `replace('Z', "+00:00")`
unfoldable pub normalized : Text → Text
normalized [] = []
normalized (c ∷ t) = let rest = normalized t in if c == 90 then chars "+00:00" ++ rest else c ∷ rest

-- The order of an i64 that was cast to a u64.
abbrev pub signed : ℕ → ℕ
signed n = (n + 9223372036854775808) % u64_mod

module _ {F : Type 0} (dates : Dates F) where
  unfoldable pub parse_iso_seconds : Text → Option ℕ
  parse_iso_seconds s =
      or_else (dates.parse_from_rfc3339 s) (dates.parse_from_rfc3339 (normalized s))

  -- The difference of two i64, or 0 where it is negative.
  unfoldable pub duration_hours : (first last : Option Text) → Option F
  duration_hours none last = none
  duration_hours (some f) none = none
  duration_hours (some f) (some l) =
      if same f l
      then none
      else parse_iso_seconds f
        >>= (λ s. parse_iso_seconds l >>= (λ e. some (dates.hours (signed e - signed s))))

module _ {V : Type 0} (x : Json V) where
  unfoldable pub timestamp : V → Option Text
  timestamp v = or_else (x.get v (chars "timestamp")) (x.get v (chars "createdAt")) >>= x.as_str

  -- The file of a Write tool call.
  unfoldable pub written : V → Option Text
  written item =
      if has_str x item (chars "type") (chars "tool_use")
        && has_str x item (chars "name") (chars "Write")
      then (x.get item (chars "input") >>= (λ i. get_str x i (chars "file_path")))
      else none

  abbrev pub add_written : List Text → List V → List Text
  add_written files [] = files
  add_written files (i ∷ is) =
      add_written (elim (written i) [ none ↦ files | some fp ↦ insert_text fp files ]) is

  unfoldable pub content_items : V → List V
  content_items v =
      elim (x.get v (chars "message") >>= (λ msg. x.get msg (chars "content") >>= x.as_array)) [
        | none ↦ []
        | some items ↦ items
      ]

  -- A line that is JSON.
  abbrev pub collected : Progress → V → Progress
  collected p v = record p {
    first_ts = or_else p.first_ts (timestamp v);
    last_ts = or_else (timestamp v) p.last_ts;
    files_written = add_written p.files_written (content_items v);
  }

  abbrev pub counted : Progress → Progress
  counted p = record p { line_count = p.line_count + 1 }

  abbrev pub read_json : Progress → Option V → Progress
  read_json p none = p
  read_json p (some v) = collected p v

  unfoldable pub read_line : Progress → Bytes → Progress
  read_line p line = if is_utf8 line then read_json (counted p) (x.from_str (from_utf8 line)) else p

  unfoldable pub read_lines : Progress → List Bytes → Progress
  read_lines p [] = p
  read_lines p (l ∷ ls) = read_lines (read_line p l) ls

  unfoldable pub extract_session_data : {F : Type 0} → Dates F → Bytes → SessionData F
  extract_session_data dates file =
      let p = read_lines begin (lines_of file) in
      record {
        first_timestamp = p.first_ts;
        last_timestamp = p.last_ts;
        line_count = p.line_count;
        size_bytes = length file;
        files_written = sort_texts p.files_written;
        duration_hours = duration_hours dates p.first_ts p.last_ts;
      }

  -- `read_line`: the bytes up to the first line break, with it
  abbrev pub first_line : Bytes → Bytes
  first_line [] = []
  first_line (c ∷ d) = let rest = first_line d in if c == 10 then c ∷ [] else c ∷ rest

  unfoldable pub read_first_timestamp : Bytes → Option Text
  read_first_timestamp file =
      if is_utf8 (first_line file)
      then (x.from_str (trim (from_utf8 (first_line file))) >>= timestamp)
      else none

  abbrev pub tail_size : ℕ
  tail_size = 8192

  -- The time that a line of the end of the file has.
  unfoldable pub line_timestamp : Bytes → Option Text
  line_timestamp line =
      if is_utf8 line
      then (if is_empty (trim (from_utf8 line))
          then none
          else x.from_str (from_utf8 line) >>= timestamp)
      else none

  unfoldable pub last_of : Option Text → List Bytes → Option Text
  last_of last_ts [] = last_ts
  last_of last_ts (l ∷ ls) = last_of (or_else (line_timestamp l) last_ts) ls

  abbrev pub tail_of : Bytes → Bytes
  tail_of file = if ltb tail_size (length file) then drop (length file - tail_size) file else file

  unfoldable pub read_last_timestamp : Bytes → Option Text
  read_last_timestamp file = last_of none (lines_of (tail_of file))
