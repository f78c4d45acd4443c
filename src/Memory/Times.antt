-- ===== src/Memory/Times.antt =====
-- The time of the last line that has one, read from the whole file and from its end.
use b.Prelude.{
  ◌+◌, ◌-◌, ◌<◌, ◌≡◌, refl, sym, ◌∙◌, ap, true, false, List, [], ◌∷◌, ◌++◌, Option, none, some,
  ◌>>=◌, is_empty, ltb, drop, length, ◌==◌, if◌then◌else◌, Bytes, is_utf8, from_utf8, Text, trim,
  Bool-cases, inl, inr, arith, length-append, drop-append,
}
use b.Memory.Filters.{Json}
use b.Memory.Lines.{lines_of, lines_from, strip_cr}
use b.Memory.Metadata.{
  Dates, Progress, begin, or_else, timestamp, read_json, read_line, read_lines,
  extract_session_data, line_timestamp, last_of, tail_of, tail_size, read_last_timestamp,
}

-- A line break ends a line whatever follows it.
lines_from-append :
    (begun p q : Bytes)
    → lines_from begun (p ++ (10 ∷ q)) ≡ lines_from begun (p ++ (10 ∷ [])) ++ lines_of q
unfolding lines_from
lines_from-append begun [] q = refl
lines_from-append begun (c ∷ p) q = elim (Bool-cases (c == 10)) [
  | inl t ↦ rw (t, lines_from) (ap (λ r. strip_cr begun ∷ r) (lines_from-append [] p q))
  | inr f ↦ rw (f, lines_from) (lines_from-append (begun ++ (c ∷ [])) p q)
]

module _ {V : Type 0} (x : Json V) where
  -- serde_json reads no value from a text of whitespace.
  abbrev pub BlankFails : Type 0
  BlankFails = (t : Text) → is_empty (trim t) ≡ true → x.from_str t ≡ none

  read_json-last :
      (p : Progress) (o : Option V)
      → (read_json x p o).last_ts ≡ or_else (o >>= timestamp x) p.last_ts
  read_json-last p none = refl
  read_json-last p (some v) = refl

  json_timestamp :
      (t : Text)
      → BlankFails
      → (if is_empty (trim t) then none else (x.from_str t >>= timestamp x))
        ≡ (x.from_str t >>= timestamp x)
  json_timestamp t blank = elim (Bool-cases (is_empty (trim t))) [
    | inl e ↦ rw (e, blank t e) refl
    | inr f ↦ rw (f) refl
  ]

  read_line-last :
      (p : Progress) (l : Bytes)
      → BlankFails
      → (read_line x p l).last_ts ≡ or_else (line_timestamp x l) p.last_ts
  unfolding read_line line_timestamp
  read_line-last p l blank = elim (Bool-cases (is_utf8 l)) [
    | inl text ↦
        rw (text, read_line, line_timestamp, json_timestamp (from_utf8 l) blank)
          (read_json-last (record p { line_count = p.line_count + 1 }) (x.from_str (from_utf8 l)))
    | inr other ↦ rw (other, read_line, line_timestamp) refl
  ]

  read_lines-last :
      (p : Progress) (ls : List Bytes)
      → BlankFails
      → (read_lines x p ls).last_ts ≡ last_of x p.last_ts ls
  unfolding read_lines last_of
  read_lines-last p [] blank = refl
  read_lines-last p (l ∷ ls) blank =
      read_lines-last (read_line x p l) ls blank
      ∙ ap (λ o. last_of x o ls) (read_line-last p l blank)

  last_of-append :
      (o : Option Text) (xs ys : List Bytes)
      → last_of x o (xs ++ ys) ≡ last_of x (last_of x o xs) ys
  unfolding last_of
  last_of-append o [] ys = refl
  last_of-append o (l ∷ xs) ys = last_of-append (or_else (line_timestamp x l) o) xs ys

  or_else_assoc : (a b c : Option Text) → or_else a (or_else b c) ≡ or_else (or_else a b) c
  or_else_assoc none b c = refl
  or_else_assoc (some t) b c = refl

  or_else-none : (a : Option Text) → a ≡ or_else a none
  or_else-none none = refl
  or_else-none (some t) = refl

  last_of-or_else :
      (o : Option Text) (ls : List Bytes) → last_of x o ls ≡ or_else (last_of x none ls) o
  unfolding last_of
  last_of-or_else o [] = refl
  last_of-or_else o (l ∷ ls) =
      last_of-or_else (or_else (line_timestamp x l) o) ls
      ∙ or_else_assoc (last_of x none ls) (line_timestamp x l) o
      ∙ ap (λ r. or_else r o)
          (sym (last_of-or_else (line_timestamp x l) ls)
            ∙ ap (λ o. last_of x o ls) (or_else-none (line_timestamp x l)))

  -- Behind a line break the times that stand before it do not matter, if there is one behind it.
  last_of-behind :
      (o : Option Text) (p q : Bytes) (t : Text)
      → last_of x none (lines_of q) ≡ some t
      → last_of x o (lines_of (p ++ (10 ∷ q))) ≡ some t
  last_of-behind o p q t found =
      ap (last_of x o) (lines_from-append [] p q)
      ∙ last_of-append o (lines_of (p ++ (10 ∷ []))) (lines_of q)
      ∙ last_of-or_else (last_of x o (lines_of (p ++ (10 ∷ [])))) (lines_of q)
      ∙ ap (λ r. or_else r (last_of x o (lines_of (p ++ (10 ∷ []))))) found

  tail_of-behind :
      (p q : Bytes)
      → length q < tail_size x
      → (d : Bytes) × (tail_of x (p ++ (10 ∷ q)) ≡ d ++ (10 ∷ q))
  tail_of-behind p q short = elim (Bool-cases (ltb 8192 (length (p ++ (10 ∷ q))))) [
    | inl long ↦ (
      drop (length (p ++ (10 ∷ q)) - 8192) p,
      rw (long) (
          drop-append (length (p ++ (10 ∷ q)) - 8192) p (10 ∷ q)
            (omega (arith, length-append p (10 ∷ q)))),
    )
    | inr all ↦ (p, rw (all) refl)
  ]

  -- If the lines behind a line break in the last 8192 bytes of a file have a time, `read_last_timestamp`,
  -- which reads no more than these bytes, gives the last of them, and `extract_session_data`, which reads
  -- the whole file, gives the same.
  pub read_last_timestamp-extract_session_data :
      {F : Type 0} (dates : Dates F) (p q : Bytes) (t : Text)
      → BlankFails
      → length q < tail_size x
      → read_last_timestamp x q ≡ some t
      → (read_last_timestamp x (p ++ (10 ∷ q)) ≡ some t)
        × ((extract_session_data x dates (p ++ (10 ∷ q))).last_timestamp ≡ some t)
  unfolding read_last_timestamp extract_session_data
  read_last_timestamp-extract_session_data dates p q t blank short found =
      let (d, e) = tail_of-behind p q short in
      let fits : ltb 8192 (length q) ≡ false = ground arith in
      let whole : tail_of x q ≡ q = rw (fits) refl in
      let last = ap (λ f. last_of x none (lines_of f)) (sym whole) ∙ found in
      (
        ap (λ f. last_of x none (lines_of f)) e ∙ last_of-behind none d q t last,
        read_lines-last begin (lines_of (p ++ (10 ∷ q))) blank ∙ last_of-behind none p q t last,
      )
