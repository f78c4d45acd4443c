-- ===== src/Memory/Numbers.antt =====
-- Which lines of the file the output of `handle_resurface` is about.
use b.Prelude.{
  ℕ, suc, ◌+◌, ◌-◌, ◌≤◌, ◌≡◌, sym, ◌∙◌, ap, subst, true, false, List, [], ◌∷◌, Option, none, some,
  ◌>>=◌, map, length, filterb, take, drop, get_elem?, get_elem?-map, get_elem?-take, get_elem?-drop,
  All, arith, Bool-cases, inl, inr, true-false, Bytes, Text, chars, same, is_utf8, from_utf8,
}
use b.Memory.Lines.{lines_of, seek_to, read_line_range}
use b.Memory.Range.{read_line_range-take}
use b.Memory.Filters.{Json, keeps, filter_lines}
use b.Memory.Sampling.{sample}
use b.Memory.Ascending.{All-imp}
use b.Memory.Positions.{Lines}
use b.Memory.Sampled.{All-Sublist}
use b.Memory.Chosen.{
  Increasing, Increasing-Sublist, filter_lines-Increasing, length-filter_lines, enough,
  sample-enough, Prints, entries-Prints,
}
use b.Memory.Render.{Request, line_entries, entries}
use b.Memory.Labels.{
  Every, nil, cons, OnSome, result, OnSome-returns, OnSome-append, HasLabel, IsOf, OnSome-IsOf,
  IsAll, line_entries-HasLabel,
}
use b.Memory.Output.{printed, entries-filter_lines}
use b.Memory.Resurface.{shown}

Every-imp :
    {P Q : Text → Type 0} {es : List Text} → ((e : Text) → P e → Q e) → Every P es → Every Q es
Every-imp f nil = nil
Every-imp f (cons p h) = cons (f _ p) (Every-imp f h)

OnSome-imp :
    {F : Type 0} {P Q : Text → Type 0} {o : Option (List Text)}
    → ((e : Text) → P e → Q e)
    → OnSome F P o
    → OnSome F Q o
OnSome-imp f (OnSome.failed r) = OnSome.failed r
OnSome-imp f (result h) = result (Every-imp f h)

-- The line that stands at an index is kept by the filter.
abbrev IsKept : Text → List Text → ℕ × Text → Type 0
IsKept record_type whole p = (get_elem? whole p.0 ≡ some p.1) × (keeps record_type p.1 ≡ true)

filter_lines-IsKept :
    (record_type : Text) (whole : List Text) (i : ℕ) (ls : List Text)
    → ((n : ℕ) → get_elem? whole (i + n) ≡ get_elem? ls n)
    → All (IsKept record_type whole) (filter_lines record_type i ls)
unfolding filter_lines
filter_lines-IsKept record_type whole i [] at = tt
filter_lines-IsKept record_type whole i (l ∷ ls) at =
    let next : (n : ℕ) → get_elem? whole (i + 1 + n) ≡ get_elem? ls n =
      λ n. ap (get_elem? whole) (omega arith) ∙ at (suc n) in
    let rest = filter_lines-IsKept record_type whole (i + 1) ls next in
    elim (Bool-cases (keeps record_type l)) [
      | inl t ↦ rw (t, filter_lines) ((ap (get_elem? whole) (omega arith) ∙ at 0, t), rest)
      | inr f ↦ rw (f, filter_lines) rest
    ]

-- A line at an index of a range.
get_elem?-range :
    (s e i : ℕ) (ls : List Bytes) (t : Text)
    → 1 ≤ s
    → get_elem? (map from_utf8 (take (suc e - s) (drop (s - 1) ls))) i ≡ some t
    → (line : Bytes) × (s + i ≤ e) × (get_elem? ls (s + i - 1) ≡ some line) × (from_utf8 line ≡ t)
get_elem?-range s e i ls t one h =
    let (line, at, same) = get_elem?-map from_utf8 (take (suc e - s) (drop (s - 1) ls)) i h in
    let r = get_elem?-take (suc e - s) i (drop (s - 1) ls) at in
    (
      line,
      omega (arith, r.0),
      ap (get_elem? ls) (omega arith) ∙ sym (get_elem?-drop (s - 1) i ls) ∙ r.1,
      same,
    )

module _ {V : Type 0} (x : Json V) (q : Request) where
  -- An entry is one of those of a line of the file, from `s` to `e`, that the filter keeps, and is labelled
  -- with the number of this line.
  abbrev pub IsAbout : Bytes → (s e : ℕ) → Text → Type 0
  IsAbout file s e t =
      (n : ℕ) × (line : Bytes) × (s ≤ n)
      × (n ≤ e)
      × (get_elem? (lines_of file) (n - 1) ≡ some line)
      × (keeps q.record_type (from_utf8 line) ≡ true)
      × HasLabel n t
      × IsOf (line_entries x q n (from_utf8 line)) t

  entries-OnSome :
      (F : Type 0) (P : Text → Type 0) (s : ℕ) (ls : Lines)
      → All (λ p. OnSome F P (line_entries x q (s + p.0) p.1)) ls
      → OnSome F P (entries x q s ls)
  unfolding entries
  entries-OnSome F P s [] h = result nil
  entries-OnSome F P s ((i, l) ∷ ls) h = OnSome-append h.0 (entries-OnSome F P s ls h.1)

  module _ (frac : Option (ℕ → ℕ)) (draws : ℕ → ℕ) (file : Bytes) (s e : ℕ) (one : 1 ≤ s) where
    range_lines : List Text
    range_lines = map from_utf8 (take (suc e - s) (drop (s - 1) (lines_of file)))

    line-IsAbout :
        (p : ℕ × Text)
        → IsKept q.record_type range_lines p
        → OnSome (IsAll x q 0) (IsAbout file s e) (line_entries x q (s + p.0) p.1)
    unfolding range_lines
    line-IsAbout p kept =
        let (line, within, at, same) = get_elem?-range s e p.0 (lines_of file) p.1 one kept.0 in
        OnSome-imp
          (λ t label. (
            s + p.0,
            line,
            omega arith,
            within,
            at,
            ap (keeps q.record_type) same ∙ kept.1,
            label.0,
            subst (λ l. IsOf (line_entries x q (s + p.0) l) t) (sym same) label.1,
          ))
          (OnSome-IsOf (line_entries-HasLabel x q (s + p.0) p.1))

    -- A line of the range that the filter keeps, with its index in the range.
    abbrev pub IsLine : ℕ × Text → Type 0
    IsLine p =
        (line : Bytes) × (s + p.0 ≤ e)
        × (get_elem? (lines_of file) (s + p.0 - 1) ≡ some line)
        × (from_utf8 line ≡ p.1)
        × (keeps q.record_type p.1 ≡ true)

    kept-IsLine : (p : ℕ × Text) → IsKept q.record_type range_lines p → IsLine p
    unfolding range_lines
    kept-IsLine p kept =
        let (line, within, at, same) = get_elem?-range s e p.0 (lines_of file) p.1 one kept.0 in
        (line, within, at, same, kept.1)

    -- Of a range without a seek, which begins at 1 or later, in a file whose lines are all UTF-8, and for a
    -- type other than `all`, the output is produced, sampled or not. It has the entries of some lines of the
    -- range that the filter keeps, in their order and none twice: of all of them without a fraction, else of
    -- at least as many as the fraction says, as far as there are so many. Each entry begins with the number
    -- that its line has in the file.
    pub shown-IsAbout :
        (total_lines file_len : ℕ)
        → seek_to s total_lines file_len ≡ none
        → All (λ l. is_utf8 l ≡ true) (lines_of file)
        → same q.record_type (chars "all") ≡ false
        → (out : List Text) × (chosen : Lines) × (shown x q frac draws s
              (read_line_range file s e total_lines file_len)
            ≡ some out)
          × All IsLine chosen
          × Increasing chosen
          × (enough frac (
                length (
                  filterb
                    (keeps q.record_type)
                    (map from_utf8 (take (suc e - s) (drop (s - 1) (lines_of file))))))
              ≤ length chosen)
          × Prints x q s chosen out
          × Every (IsAbout file s e) out
    unfolding shown range_lines
    shown-IsAbout total_lines file_len direct text other =
        let range = read_line_range-take file s e total_lines file_len direct one text in
        let filtered = filter_lines q.record_type 0 range_lines in
        let (kept, sampled, sub, many) = sample-enough frac draws filtered in
        let all = All-Sublist (IsKept q.record_type range_lines) sub (
          filter_lines-IsKept q.record_type range_lines 0 range_lines
            (λ n. ap (get_elem? range_lines) (omega arith))) in
        let (out, e1, about) =
          OnSome-returns (λ h. true-false (sym h ∙ other))
            (entries-OnSome (IsAll x q 0) (IsAbout file s e) s kept
              (All-imp kept line-IsAbout all)) in
        (
          out,
          kept,
          rw range (ap (λ o. o >>= entries x q s) sampled ∙ e1),
          All-imp kept kept-IsLine all,
          Increasing-Sublist sub (filter_lines-Increasing q.record_type 0 range_lines),
          subst (λ n. enough frac n ≤ length kept) (length-filter_lines q.record_type 0 range_lines)
              many,
          entries-Prints x q s kept out e1,
          about,
        )

    -- Of a range without a seek, which begins at 1 or later, in a file whose lines are all UTF-8, and without
    -- a fraction, the output has the entries of all its lines that the filter keeps, in their order, each made
    -- with the number that its line has in the file; where the entries of one are a panic, it is a panic.
    pub shown-printed :
        (total_lines file_len : ℕ)
        → seek_to s total_lines file_len ≡ none
        → All (λ l. is_utf8 l ≡ true) (lines_of file)
        → shown x q none draws s (read_line_range file s e total_lines file_len)
          ≡ printed x q s (map from_utf8 (take (suc e - s) (drop (s - 1) (lines_of file))))
    unfolding shown sample
    shown-printed total_lines file_len direct text =
        ap (shown x q none draws s)
          (read_line_range-take file s e total_lines file_len direct one text)
        ∙ entries-filter_lines x q s 0
            (map from_utf8 (take (suc e - s) (drop (s - 1) (lines_of file))))
        ∙ ap (λ n. printed x q n (map from_utf8 (take (suc e - s) (drop (s - 1) (lines_of file)))))
            (omega arith)
