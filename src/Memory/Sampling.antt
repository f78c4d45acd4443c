-- ===== src/Memory/Sampling.antt =====
-- The sampling of session_memory.rs. `draws i` is what the generator draws in the round of index `i`, and
-- `scaled n` is `(n as f64 * frac) as usize`, for a fraction between 0 and 1.
use b.Prelude.{
  ℕ, ◌+◌, ◌-◌, Bool, true, false, List, [], ◌∷◌, ◌++◌, Option, none, some, ◌>>=◌, length, take,
  drop, set, filterb, get_elem?, ltb, leb, ◌==◌, not, if◌then◌else◌, Text,
}
use b.Memory.Filters.{is_compaction}

-- `sort_unstable`
unfoldable pub insert : ℕ → List ℕ → List ℕ
insert a [] = a ∷ []
insert a (b ∷ l) = let rest = insert a l in if leb a b then a ∷ b ∷ l else b ∷ rest

unfoldable pub sort : List ℕ → List ℕ
sort [] = []
sort (a ∷ l) = insert a (sort l)

-- `Vec::contains`
unfoldable pub has : List ℕ → ℕ → Bool
has [] a = false
has (b ∷ l) a = let rest = has l a in if b == a then true else rest

-- `dedup`
unfoldable pub dedup : List ℕ → List ℕ
dedup [] = []
dedup (a ∷ []) = a ∷ []
dedup (a ∷ b ∷ l) = let rest = dedup (b ∷ l) in if a == b then rest else a ∷ rest

-- The rounds from the index `i` on.
unfoldable pub replace_from : (draws : ℕ → ℕ) (k i : ℕ) → List ℕ → List ℕ → List ℕ
replace_from draws k i reservoir [] = reservoir
replace_from draws k i reservoir (a ∷ items) =
    replace_from draws k (i + 1) (if ltb (draws i) k then set reservoir (draws i) a else reservoir)
      items

unfoldable pub reservoir_sample : List ℕ → ℕ → (ℕ → ℕ) → List ℕ
reservoir_sample items k draws =
    if leb (length items) k
    then items
    else sort (replace_from draws k k (take k items) (drop k items))

-- The numbers from `i` on, as many as there are lines, at which a test holds.
unfoldable pub indices : (Text → Bool) → ℕ → List (ℕ × Text) → List ℕ
indices test i [] = []
indices test i ((n, l) ∷ ls) =
    let rest = indices test (i + 1) ls in if test l then i ∷ rest else rest

unfoldable pub compaction_idxs : List (ℕ × Text) → List ℕ
compaction_idxs ls = indices is_compaction 0 ls

-- `(0..total_count)` without the compaction lines
unfoldable pub available : List (ℕ × Text) → List ℕ
available ls = filterb (λ i. not (has (compaction_idxs ls) i)) (indices (λ l. true) 0 ls)

unfoldable pub num_to_keep : (ℕ → ℕ) → List (ℕ × Text) → ℕ
num_to_keep scaled ls =
    let n = scaled (length ls) - length (compaction_idxs ls) in if ltb n 1 then 1 else n

unfoldable pub sampled : (scaled draws : ℕ → ℕ) → List (ℕ × Text) → List ℕ
sampled scaled draws ls =
    if ltb (num_to_keep scaled ls) (length (available ls))
    then reservoir_sample (available ls) (num_to_keep scaled ls) draws
    else available ls

unfoldable pub keep_indices : (scaled draws : ℕ → ℕ) → List (ℕ × Text) → List ℕ
keep_indices scaled draws ls = dedup (sort (compaction_idxs ls ++ sampled scaled draws ls))

-- The lines at the indices; `none` is the panic of an index that is out of range.
unfoldable pub pick : List (ℕ × Text) → List ℕ → Option (List (ℕ × Text))
pick ls [] = some []
pick ls (i ∷ is) = get_elem? ls i >>= (λ l. pick ls is >>= (λ rest. some (l ∷ rest)))

-- With a fraction between 0 and 1, the sample; else all lines.
unfoldable pub sample : Option (ℕ → ℕ) → (ℕ → ℕ) → List (ℕ × Text) → Option (List (ℕ × Text))
sample none draws ls = some ls
sample (some scaled) draws ls = pick ls (keep_indices scaled draws ls)
