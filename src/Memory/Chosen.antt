-- ===== src/Memory/Chosen.antt =====
-- The lines of a range that `handle_resurface` chooses, and the output that they make.
use b.Prelude.{
  ℕ, ◌+◌, ◌≤◌, ◌<◌, ◌≡◌, refl, sym, ◌∙◌, ap, min, List, [], ◌∷◌, ◌++◌, Option, none, some, ◌>>=◌,
  length, filterb, All, arith, Bool-cases, Option-cases, inl, inr, some_inj, none-some, Text,
}
use b.Memory.Ascending.{All-imp}
use b.Memory.Filters.{Json, keeps, filter_lines}
use b.Memory.Sampling.{sample}
use b.Memory.Positions.{Lines}
use b.Memory.Sampled.{Sublist, done, keep, skip, Sublist_refl, All-Sublist, sample-Sublist}
use b.Memory.Render.{Request, line_entries, entries}

-- No line comes before one with a smaller index, and none twice.
abbrev pub Increasing : Lines → Type 0
Increasing [] = Unit
Increasing (p ∷ ps) = All (λ r. p.0 < r.0) ps × Increasing ps

pub Increasing-Sublist : {out ls : Lines} → Sublist out ls → Increasing ls → Increasing out
Increasing-Sublist done h = tt
Increasing-Sublist (keep s) h = (All-Sublist _ s h.0, Increasing-Sublist s h.1)
Increasing-Sublist (skip s) h = Increasing-Sublist s h.1

filter_lines-All :
    (record_type : Text) (i : ℕ) (ls : List Text)
    → All (λ p. i ≤ p.0) (filter_lines record_type i ls)
unfolding filter_lines
filter_lines-All record_type i [] = tt
filter_lines-All record_type i (l ∷ ls) =
    let rest : All (λ p. i ≤ p.0) (filter_lines record_type (i + 1) ls) =
      All-imp (filter_lines record_type (i + 1) ls) (λ p h. omega (arith, h))
        (filter_lines-All record_type (i + 1) ls) in
    elim (Bool-cases (keeps record_type l)) [
      | inl t ↦ rw (t, filter_lines) (omega arith, rest)
      | inr f ↦ rw (f, filter_lines) rest
    ]

pub filter_lines-Increasing :
    (record_type : Text) (i : ℕ) (ls : List Text) → Increasing (filter_lines record_type i ls)
unfolding filter_lines
filter_lines-Increasing record_type i [] = tt
filter_lines-Increasing record_type i (l ∷ ls) =
    let rest = filter_lines-Increasing record_type (i + 1) ls in
    elim (Bool-cases (keeps record_type l)) [
      | inl t ↦
          rw (t, filter_lines)
            (
              All-imp (filter_lines record_type (i + 1) ls) (λ p h. omega (arith, h))
                  (filter_lines-All record_type (i + 1) ls),
              rest,
            )
      | inr f ↦ rw (f, filter_lines) rest
    ]

pub length-filter_lines :
    (record_type : Text) (i : ℕ) (ls : List Text)
    → length (filter_lines record_type i ls) ≡ length (filterb (keeps record_type) ls)
unfolding filter_lines
length-filter_lines record_type i [] = refl
length-filter_lines record_type i (l ∷ ls) = elim (Bool-cases (keeps record_type l)) [
  | inl t ↦ rw (t, filter_lines) (omega (arith, length-filter_lines record_type (i + 1) ls))
  | inr f ↦ rw (f, filter_lines) (length-filter_lines record_type (i + 1) ls)
]

-- How many of the lines that the filter keeps are chosen at least: all, or as many as the fraction says.
abbrev pub enough : Option (ℕ → ℕ) → ℕ → ℕ
enough none n = n
enough (some scaled) n = min (scaled n) n

-- A sample of the lines.
pub sample-enough :
    (frac : Option (ℕ → ℕ)) (draws : ℕ → ℕ) (ls : Lines)
    → (out : Lines) × (sample frac draws ls ≡ some out)
      × Sublist out ls
      × (enough frac (length ls) ≤ length out)
unfolding sample
sample-enough none draws ls = (ls, refl, Sublist_refl ls, omega arith)
sample-enough (some scaled) draws ls =
    let (out, e, sub, marks, size) = sample-Sublist scaled draws ls in
    (out, e, sub, omega (arith, size))

module _ {V : Type 0} (x : Json V) (q : Request) where
  -- The output has the entries of the lines, in their order, where the line `i` has the number `s + i`.
  abbrev pub Prints : (s : ℕ) → Lines → List Text → Type 0
  Prints s [] out = out ≡ []
  Prints s ((i, t) ∷ ls) out =
      (es : List Text) × (rest : List Text) × (line_entries x q (s + i) t ≡ some es)
      × Prints s ls rest
      × (out ≡ es ++ rest)

  pub entries-Prints :
      (s : ℕ) (ls : Lines) (out : List Text) → entries x q s ls ≡ some out → Prints s ls out
  unfolding entries
  entries-Prints s [] out h = sym (some_inj h)
  entries-Prints s ((i, t) ∷ ls) out h =
      let more : List Text → Option (List Text) =
        λ es. entries x q s ls >>= (λ rest. some (es ++ rest)) in
      elim (Option-cases (line_entries x q (s + i) t)) [
        | inl panic ↦ absurd (none-some (sym (ap (λ o. o >>= more) panic) ∙ h))
        | inr (es, one) ↦
            let then_ = sym (ap (λ o. o >>= more) one) ∙ h in
            elim (Option-cases (entries x q s ls)) [
              | inl panic ↦
                  absurd
                    (none-some (sym (ap (λ o. o >>= (λ rest. some (es ++ rest))) panic) ∙ then_))
              | inr (rest, others) ↦ (
                es,
                rest,
                one,
                entries-Prints s ls rest others,
                sym (some_inj (sym (ap (λ o. o >>= (λ rest. some (es ++ rest))) others) ∙ then_)),
              )
            ]
      ]
