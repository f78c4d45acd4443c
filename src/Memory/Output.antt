-- ===== src/Memory/Output.antt =====
-- What `handle_resurface` prints of a range, and what it does not.
use b.Prelude.{
  ℕ, suc, ◌+◌, ◌-◌, ◌≤◌, ◌<◌, ◌≡◌, refl, ◌∙◌, ap, Bool, true, false, not, ◌||◌, List, [], ◌∷◌, ◌++◌,
  Option, none, some, ◌>>=◌, length, ltb, ◌==◌, arith, Bool-cases, inl, inr, ◌⊎◌, sym, true-false,
  Text, chars, if◌then◌else◌, text_len, slice_to, is_empty, trim, contains, utf8_char,
}
use b.Memory.Filters.{Json, keeps, filter_lines, is_compaction, should_skip_content}
use b.Memory.Render.{
  Request, line_entries, entries, str_or, text_item, limited_content, talks, entry, speaker, flat,
}
use b.Memory.Resurface.{negsuc, abs_start, abs_end}

if_same : (b : Bool) {xs ys : List Text} → ys ≡ xs → (if b then xs else ys) ≡ xs
if_same true h = refl
if_same false h = h

or_true : (b : Bool) → b || true ≡ true
or_true true = refl
or_true false = refl

is_compaction-should_skip_content :
    (t : Text) → is_compaction t ≡ true → should_skip_content t ≡ true
unfolding should_skip_content
is_compaction-should_skip_content t h =
    let part = contains t (chars "<task-notification>") in ap (λ b. part || b) h ∙ or_true part

should_skip_content-is_compaction :
    (t : Text) → should_skip_content t ≡ false → is_compaction t ≡ false
should_skip_content-is_compaction t h = elim (Bool-cases (is_compaction t)) [
  | inl e ↦ absurd (true-false (sym (is_compaction-should_skip_content t e) ∙ h))
  | inr n ↦ n
]

module _ {V : Type 0} (x : Json V) (q : Request) where
  -- The entries of the lines that the filter keeps, where the first line has the number `n`.
  unfoldable pub printed : (n : ℕ) → List Text → Option (List Text)
  printed n [] = some []
  printed n (l ∷ ls) =
      (if keeps q.record_type l then line_entries x q n l else some [])
      >>= (λ out. printed (n + 1) ls >>= (λ rest. some (out ++ rest)))

  bind-some : (o : Option (List Text)) → o ≡ (o >>= (λ rest. some rest))
  bind-some none = refl
  bind-some (some rest) = refl

  -- Without a fraction, the output has the entries of all lines of the range that the filter keeps, in
  -- their order, each made with the line's own number, counted from the number of the first line.
  pub entries-filter_lines :
      (s i : ℕ) (ls : List Text)
      → entries x q s (filter_lines q.record_type i ls) ≡ printed (s + i) ls
  unfolding entries filter_lines printed
  entries-filter_lines s i [] = refl
  entries-filter_lines s i (l ∷ ls) =
      let rest = entries-filter_lines s (i + 1) ls in
      let next : s + (i + 1) ≡ s + i + 1 = omega arith in
      elim (Bool-cases (keeps q.record_type l)) [
        | inl t ↦ rw (t, filter_lines, entries, printed, rest, next) refl
        | inr f ↦ rw (f, filter_lines, printed, rest, next) (bind-some (printed (s + i + 1) ls))
      ]

  -- The filter keeps every line that has a compaction marker, for every type. But no text item is printed as
  -- a marker: whatever its text, it has no entry, or the one entry that says its text, which has no marker.
  pub is_compaction_silent :
      (record_type line : Text) (n : ℕ) (ts role : Text) (item : V)
      → is_compaction line ≡ true
      → (keeps record_type line ≡ true)
        × ((text_item x q n ts role item ≡ [])
            ⊎ ((is_compaction (str_or x q item (chars "text") []) ≡ false)
                × (text_item x q n ts role item
                    ≡ entry n ts (
                        speaker x q role
                        ++ (chars ": " ++ flat (str_or x q item (chars "text") [])))
                      ∷ [])))
  unfolding text_item keeps
  is_compaction_silent record_type line n ts role item marker =
      let t = str_or x q item (chars "text") [] in
      (
        rw (marker, keeps) refl,
        elim (Bool-cases (not (talks x q))) [
          | inl quiet ↦ inl (rw (quiet, text_item) refl)
          | inr loud ↦ elim (Bool-cases (is_empty t || is_empty (trim t))) [
            | inl blank ↦ inl (rw (loud, blank, text_item) refl)
            | inr said ↦ elim (Bool-cases (should_skip_content t)) [
              | inl skipped ↦ inl (rw (loud, said, skipped, text_item) refl)
              | inr shown ↦
                  let plain = should_skip_content-is_compaction t shown in
                  inr (plain, rw (loud, said, shown, plain, text_item) refl)
            ]
          ]
        ],
      )

utf8_char_long : (c : ℕ) → 1 ≤ length (utf8_char c)
utf8_char_long c = ground arith

slice_to-append : (p r : Text) → slice_to (p ++ r) (text_len p) ≡ some p
unfolding slice_to text_len
slice_to-append [] [] = refl
slice_to-append [] (c ∷ r) = refl
slice_to-append (d ∷ p) r =
    let w = length (utf8_char d) in
    let some_bytes : 1 ≤ w = utf8_char_long d in
    let n = w + text_len p in
    let long : (n == 0) ≡ false = ground (arith, some_bytes) in
    let fits : ltb n w ≡ false = ground arith in
    let left : n - w ≡ text_len p = omega arith in rw (long, fits, left, slice_to-append p r) refl

slice_to_inside :
    (p r : Text) (c n : ℕ)
    → text_len p < n
    → n < text_len p + length (utf8_char c)
    → slice_to (p ++ (c ∷ r)) n ≡ none
unfolding slice_to text_len
slice_to_inside [] r c n lo hi =
    let long : (n == 0) ≡ false = ground (arith, lo) in
    let inside : ltb n (length (utf8_char c)) ≡ true = ground (arith, hi) in rw (long, inside) refl
slice_to_inside (d ∷ p) r c n lo hi =
    let w = length (utf8_char d) in
    let long : (n == 0) ≡ false = ground (arith, lo) in
    let fits : ltb n w ≡ false = ground (arith, lo) in
    let rest = slice_to_inside p r c (n - w) (omega (arith, lo)) (omega (arith, lo, hi)) in
    rw (long, fits, rest) refl

text_len-append : (p r : Text) → text_len (p ++ r) ≡ text_len p + text_len r
unfolding text_len
text_len-append [] r = omega arith
text_len-append (c ∷ p) r = omega (arith, text_len-append p r)

longer :
    (p r : Text) (c limit : ℕ)
    → limit < text_len p + length (utf8_char c)
    → ltb limit (text_len (p ++ (c ∷ r))) ≡ true
unfolding text_len
longer p r c limit hi = ground (arith, text_len-append p (c ∷ r), hi)

-- A limit between two characters cuts the content there.
pub limited_content-cut :
    (p r : Text) (c : ℕ)
    → 0 < text_len p
    → limited_content (text_len p) (p ++ (c ∷ r)) ≡ some (p ++ chars "...")
unfolding limited_content
limited_content-cut p r c positive =
    let set : ltb 0 (text_len p) ≡ true = ground (arith, positive) in
    let over = longer p r c (text_len p) (omega (arith, utf8_char_long c)) in
    rw (set, over, slice_to-append p (c ∷ r), limited_content) refl

-- A limit above 0 that falls inside a character `c` of the content, behind the text `p`, is a panic.
limited_content-inside :
    (p r : Text) (c limit : ℕ)
    → text_len p < limit
    → limit < text_len p + length (utf8_char c)
    → limited_content limit (p ++ (c ∷ r)) ≡ none
unfolding limited_content
limited_content-inside p r c limit lo hi =
    let set : ltb 0 limit ≡ true = ground (arith, lo) in
    rw (set, longer p r c limit hi, slice_to_inside p r c limit lo hi, limited_content) refl

-- A negative number of the first line counts from the end: `-n` asks for the last `n` lines. As the number
-- of the last line, `-n` for `n` above 1 stands one line before that.
pub abs_start-abs_end :
    (total_lines k : ℕ)
    → k < total_lines
    → (suc total_lines - abs_start total_lines (negsuc k) ≡ suc k)
      × ((1 ≤ k)
          → (suc k < total_lines)
          → suc (abs_end total_lines (negsuc k)) ≡ abs_start total_lines (negsuc k))
unfolding abs_start abs_end
abs_start-abs_end total_lines k h = (ground arith, λ one more. ground arith)
