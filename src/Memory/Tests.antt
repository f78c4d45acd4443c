-- ===== src/Memory/Tests.antt =====
-- Tests of session_memory.rs.
use Prim.Native.Nat.{max}
use b.Prelude.{
  map, ◌≤◌, ◌⊎◌, length, is_empty, trim, trim_start, trim_end, is_whitespace, from_utf8, List, none,
  some, Text, chars, same, starts_with, contains, filterb, false, ◌/◌, ◌%◌, ◌==◌, ◌&&◌,
  if◌then◌else◌, min, ℕ, zero, suc, ◌≡◌, refl, true, [], ◌∷◌, ◌++◌, take, drop, replicate, Bytes,
  All, arith, is_utf8, as_bytes,
}
use b.Memory.Filters.{keeps, Json, is_compaction}
use b.Memory.Sampling.{reservoir_sample, compaction_idxs, sample}
use b.Memory.Reservoir.{IsSample, reservoir_sample-IsSample}
use b.Memory.Positions.{Lines}
use b.Memory.Sampled.{Sublist, sample-Sublist}
use b.Memory.Render.{str_or, speaker, flat, entry, Request, text_item}
use b.Memory.Labels.{Every}
use b.Memory.Numbers.{IsAbout, IsLine, shown-IsAbout, shown-printed}
use b.Memory.Chosen.{Increasing, enough, Prints}
use b.Memory.Output.{printed, is_compaction_silent}
use b.Memory.Resurface.{shown}
use b.Memory.Lines.{
  lines_of, lines_from, strip_cr, skip_line, seek_to, safety_margin, read_line_range,
}
use b.Memory.Metadata.{
  Dates, timestamp, line_timestamp, last_of, read_last_timestamp, extract_session_data,
}
use b.Memory.Times.{read_last_timestamp-extract_session_data}
use b.Memory.Range.{found, read_line_range-skip_line}

abbrev file : Bytes
file = as_bytes "ab" ++ (13 ∷ 10 ∷ as_bytes "c" ++ (10 ∷ as_bytes "de"))

-- A file of line breaks.
unfoldable breaks : ℕ → Bytes
breaks n = replicate n 10

breaks-is_utf8 : (n : ℕ) → All (λ l. is_utf8 l ≡ true) (lines_from [] (replicate n 10))
unfolding lines_from strip_cr is_utf8
breaks-is_utf8 zero = tt
breaks-is_utf8 (suc n) = (refl, breaks-is_utf8 n)

breaks-skip_line :
    (n : ℕ)
    → All
        (λ l. is_utf8 l ≡ true)
        (lines_of (skip_line (drop 6 (breaks (suc (suc (suc (suc (suc (suc (suc n)))))))))))
unfolding breaks skip_line
breaks-skip_line n = breaks-is_utf8 n

-- A file of 1030 bytes, of which 600 lines were counted, is sought to the offset 6.
read_line_range-skip_line_example :
    read_line_range (breaks 1030) 5501 5502 600 1030
    ≡ found (take 2 (drop safety_margin (lines_of (skip_line (drop 6 (breaks 1030))))))
unfolding seek_to
read_line_range-skip_line_example =
    read_line_range-skip_line (breaks 1030) 5501 5502 600 1030 6 refl (omega arith)
      (breaks-skip_line 1023)

-- Half of the lines, and a generator.
abbrev half : ℕ → ℕ
half n = n / 2

abbrev draws : ℕ → ℕ
draws i = i % 3

abbrev items : List ℕ
items = 1 ∷ 4 ∷ 6 ∷ 7 ∷ 9 ∷ []

reservoir_sample-IsSample_example : IsSample items 3 (reservoir_sample items 3 draws)
reservoir_sample-IsSample_example = reservoir_sample-IsSample items 3 draws (omega arith)

abbrev marker : Text
marker = chars "Compacted ctrl+o"

abbrev filtered : Lines
filtered = (0, chars "a") ∷ (1, marker) ∷ (3, chars "b") ∷ (4, chars "c") ∷ []

sample-Sublist_example :
    (out : Lines) × (sample (some half) draws filtered ≡ some out)
    × Sublist out filtered
    × (filterb (λ l. is_compaction l.1) out ≡ filterb (λ l. is_compaction l.1) filtered)
    × (length out
        ≡ min
            (max (half (length filtered)) (suc (length (compaction_idxs filtered))))
            (length filtered))
sample-Sublist_example = sample-Sublist half draws filtered

-- A message of the user, whose text is `said`.
abbrev toy : Text → Json ℕ
toy said = record {
  from_str = λ t. some 0;
  get = λ v k.
      if v == 0 && same k (chars "message")
      then some 1
      else if v == 1 && same k (chars "role")
      then some 2
      else if v == 1 && same k (chars "content")
      then some 3
      else if v == 4 && same k (chars "text")
      then some 3
      else none;
  as_str = λ v. if v == 2 then some (chars "user") else if v == 3 then some said else none;
  as_array = λ v. none;
  is_null = λ v. false;
  print = λ v. [];
  empty_object = 5;
}

abbrev request : Request
request = record {
  include_timestamps = true;
  record_type = chars "conversation";
  tool_result_limit = 100;
  agent_name = chars "Agent";
}

shown-IsAbout_example :
    let x = toy (chars "hi") in
    (out : List Text) × (chosen : Lines) × (shown x request
        (some half)
        draws
        1
        (read_line_range file 1 3 2 7)
      ≡ some out)
    × All (IsLine x request (some half) draws file 1 3 (omega arith)) chosen
    × Increasing chosen
    × (enough
          (some half)
          (length (filterb (keeps request.record_type) (map from_utf8 (take 3 (lines_of file)))))
        ≤ length chosen)
    × Prints x request 1 chosen out
    × Every (IsAbout x request file 1 3) out
unfolding seek_to lines_from strip_cr is_utf8 same
shown-IsAbout_example =
    shown-IsAbout (toy (chars "hi")) request (some half) draws file 1 3 (omega arith) 2 7 refl
      (refl, (refl, (refl, tt))) refl

shown-printed_example :
    shown (toy (chars "hi")) request none draws 2 (read_line_range file 2 3 2 7)
    ≡ printed (toy (chars "hi")) request 2 (map from_utf8 (take 2 (drop 1 (lines_of file))))
unfolding seek_to lines_from strip_cr is_utf8
shown-printed_example =
    shown-printed (toy (chars "hi")) request (some half) draws file 2 3 (omega arith) 2 7 refl
      (refl, (refl, (refl, tt)))

is_compaction_silent_example :
    let said = str_or (toy marker) request 4 (chars "text") [] in
    (keeps (chars "conversation") marker ≡ true)
    × ((text_item (toy marker) request 7 [] (chars "user") 4 ≡ [])
        ⊎ ((is_compaction said ≡ false)
            × (text_item (toy marker) request 7 [] (chars "user") 4
                ≡ entry 7 []
                    (speaker (toy marker) request (chars "user") ++ (chars ": " ++ flat said))
                  ∷ [])))
unfolding is_compaction contains starts_with
is_compaction_silent_example =
    is_compaction_silent (toy marker) request (chars "conversation") marker 7 [] (chars "user") 4
      refl

-- A reader whose values are texts that are not blank; each is its own time.
abbrev stamped : Json Text
stamped = record {
  from_str = λ t. if is_empty (trim t) then none else some t;
  get = λ v key. some v;
  as_str = λ v. some v;
  as_array = λ v. none;
  is_null = λ v. false;
  print = λ v. v;
  empty_object = [];
}

stamped-BlankFails : (t : Text) → is_empty (trim t) ≡ true → stamped.from_str t ≡ none
stamped-BlankFails t blank = rw (blank) refl

abbrev no_dates : Dates ℕ
no_dates = record { parse_from_rfc3339 = λ t. none; hours = λ n. n }

read_last_timestamp-extract_session_data_example :
    (read_last_timestamp stamped (as_bytes "a" ++ (10 ∷ as_bytes "b")) ≡ some (chars "b"))
    × ((extract_session_data stamped no_dates (as_bytes "a" ++ (10 ∷ as_bytes "b"))).last_timestamp
        ≡ some (chars "b"))
unfolding read_last_timestamp last_of line_timestamp lines_from strip_cr is_utf8 from_utf8 trim
    timestamp is_whitespace trim_start trim_end
read_last_timestamp-extract_session_data_example =
    read_last_timestamp-extract_session_data stamped no_dates (as_bytes "a") (as_bytes "b")
      (chars "b") stamped-BlankFails (omega arith) refl
