-- ===== src/Memory/Sampled.antt =====
-- What the sample of `handle_resurface` keeps.
use b.Prelude.{
  ℕ, suc, ◌+◌, ◌≤◌, ◌<◌, ◌≡◌, refl, sym, ◌∙◌, ap, subst, Bool, true, false, not, List, [], ◌∷◌,
  ◌++◌, some, length, length-append, filterb, ltb, All, All-append, arith, Bool-cases, inl, inr,
  min, Text, get_elem?,
}
use Prim.Native.Nat.{max}
use b.Memory.Filters.{is_compaction}
use b.Memory.Sampling.{
  has, sort, indices, compaction_idxs, available, num_to_keep, sampled, keep_indices, pick, sample,
}
use b.Memory.Ascending.{
  Ascending, Distinct, All-imp, All-sort, has-all_ne, has-sort, sort-Ascending, length-sort,
  dedup-Ascending, Ascending-Distinct,
}
use b.Memory.Reservoir.{All-reservoir_sample, reservoir_sample-Ascending, length-reservoir_sample}
use b.Memory.Positions.{
  Lines, indices_bounds, indices-Ascending, length-indices, indices-Agrees, filterb-indices, select,
  pick-select, length-pick,
}

-- `out` is what is left of a list when some of its elements are left out.
pub data Sublist : Lines → Lines → Type 0 where
  done : Sublist [] []
  keep : {l : ℕ × Text} {out ls : Lines} → Sublist out ls → Sublist (l ∷ out) (l ∷ ls)
  skip : {l : ℕ × Text} {out ls : Lines} → Sublist out ls → Sublist out (l ∷ ls)

pub All-Sublist : (P : ℕ × Text → Type 0) {out ls : Lines} → Sublist out ls → All P ls → All P out
All-Sublist P done h = tt
All-Sublist P (keep s) h = (h.0, All-Sublist P s h.1)
All-Sublist P (skip s) h = All-Sublist P s h.1

pub Sublist_refl : (ls : Lines) → Sublist ls ls
Sublist_refl [] = done
Sublist_refl (l ∷ ls) = keep (Sublist_refl ls)

select-Sublist : (p : ℕ → Bool) (i : ℕ) (ls : Lines) → Sublist (select p i ls) ls
unfolding select
select-Sublist p i [] = done
select-Sublist p i (l ∷ ls) = elim (Bool-cases (p i)) [
  | inl t ↦ rw (t, select) (keep (select-Sublist p (i + 1) ls))
  | inr f ↦ rw (f, select) (skip (select-Sublist p (i + 1) ls))
]

-- What a test holds of is all selected, if `p` tells its positions.
filterb-select :
    (p : ℕ → Bool) (test : Text → Bool) (i : ℕ) (ls : Lines)
    → All (λ j. p j ≡ true) (indices test i ls)
    → filterb (λ l. test l.1) (select p i ls) ≡ filterb (λ l. test l.1) ls
unfolding select indices
filterb-select p test i [] h = refl
filterb-select p test i ((n, l) ∷ ls) h = elim (Bool-cases (test l)) [
  | inl t ↦
      let all : All (λ j. p j ≡ true) (i ∷ indices test (i + 1) ls) =
        subst (λ r. All (λ j. p j ≡ true) r) {y = i ∷ indices test (i + 1) ls}
          (rw (t, indices) refl) h in
      rw (all.0, select, t) (ap (λ r. (n, l) ∷ r) (filterb-select p test (i + 1) ls all.1))
  | inr f ↦
      let all : All (λ j. p j ≡ true) (indices test (i + 1) ls) =
        subst (λ r. All (λ j. p j ≡ true) r) {y = indices test (i + 1) ls} (rw (f, indices) refl)
          h in
      let rest = filterb-select p test (i + 1) ls all in
      elim (Bool-cases (p i)) [ inl t ↦ rw (t, select, f) rest | inr u ↦ rw (u, select, f) rest ]
]

has-append_left : (xs ys : List ℕ) → All (λ j. has (xs ++ ys) j ≡ true) xs
unfolding has
has-append_left [] ys = tt
has-append_left (x ∷ xs) ys =
    (ground arith, All-imp xs (λ j h. ground (arith, h)) (has-append_left xs ys))

has-append_false :
    (xs ys : List ℕ) (j : ℕ) → has xs j ≡ false → has ys j ≡ false → has (xs ++ ys) j ≡ false
unfolding has
has-append_false [] ys j hx hy = hy
has-append_false (x ∷ xs) ys j hx hy = ground (arith, hx, has-append_false xs ys j)

Distinct-append :
    (xs ys : List ℕ)
    → Distinct xs
    → Distinct ys
    → All (λ j. has xs j ≡ false) ys
    → Distinct (xs ++ ys)
unfolding has
Distinct-append [] ys dx dy h = dy
Distinct-append (x ∷ xs) ys dx dy h =
    let apart = has-all_ne x ys (All-imp ys (λ j e same. ground (arith, e, same)) h) in
    (
      has-append_false xs ys x dx.0 apart,
      Distinct-append xs ys dx.1 dy (All-imp ys (λ j e. ground (arith, e)) h),
    )

All-filterb :
    (P : ℕ → Type 0) (f : ℕ → Bool) (l : List ℕ)
    → All P l
    → All (λ j. (f j ≡ true) × P j) (filterb f l)
All-filterb P f [] h = tt
All-filterb P f (a ∷ l) h = elim (Bool-cases (f a)) [
  | inl t ↦ rw (t) ((t, h.0), All-filterb P f l h.1)
  | inr u ↦ rw (u) (All-filterb P f l h.1)
]

not-true : (b : Bool) → not b ≡ true → b ≡ false
not-true true h = sym h
not-true false h = refl

module _ (scaled draws : ℕ → ℕ) (ls : Lines) where
  IsFree : ℕ → Type 0
  IsFree j = (has (compaction_idxs ls) j ≡ false) × (j < length ls)

  available-IsFree : All IsFree (available ls)
  unfolding available IsFree
  available-IsFree =
      let free = λ (j : ℕ). not (has (compaction_idxs ls) j) in
      let all = indices (λ l. true) 0 ls in
      All-imp (filterb free all) (λ j h. (not-true _ h.0, omega (arith, h.1.1)))
        (All-filterb (λ j. (0 ≤ j) × (j < 0 + length ls)) free all
          (indices_bounds (λ l. true) 0 ls))

  available-Ascending : Ascending (available ls)
  unfolding available compaction_idxs
  available-Ascending =
      rw
        (filterb-indices (has (indices is_compaction 0 ls)) is_compaction 0 ls
          (indices-Agrees is_compaction 0 ls))
        (indices-Ascending (λ l. not (is_compaction l)) 0 ls)

  length-available : length (compaction_idxs ls) + length (available ls) ≡ length ls
  unfolding available compaction_idxs
  length-available =
      rw
        (filterb-indices (has (indices is_compaction 0 ls)) is_compaction 0 ls
          (indices-Agrees is_compaction 0 ls))
        (length-indices is_compaction 0 ls)

  sampled-IsFree : All IsFree (sampled scaled draws ls)
  unfolding sampled
  sampled-IsFree = elim (Bool-cases (ltb (num_to_keep scaled ls) (length (available ls)))) [
    | inl t ↦
        rw (t, sampled)
          (All-reservoir_sample IsFree (available ls) (num_to_keep scaled ls) draws
            available-IsFree)
    | inr f ↦ rw (f, sampled) available-IsFree
  ]

  sampled-Ascending : Ascending (sampled scaled draws ls)
  unfolding sampled
  sampled-Ascending = elim (Bool-cases (ltb (num_to_keep scaled ls) (length (available ls)))) [
    | inl t ↦
        rw (t, sampled)
          (reservoir_sample-Ascending (available ls) (num_to_keep scaled ls) draws
            available-Ascending)
    | inr f ↦ rw (f, sampled) available-Ascending
  ]

  length-sampled :
      length (sampled scaled draws ls) ≡ min (num_to_keep scaled ls) (length (available ls))
  unfolding sampled
  length-sampled = elim (Bool-cases (ltb (num_to_keep scaled ls) (length (available ls)))) [
    | inl t ↦ rw (t, sampled) (length-reservoir_sample (available ls) (num_to_keep scaled ls) draws)
    | inr f ↦ rw (f, sampled) (ground (arith, f))
  ]

  kept : List ℕ
  kept = compaction_idxs ls ++ sampled scaled draws ls

  kept-Distinct : Distinct kept
  unfolding kept IsFree compaction_idxs
  kept-Distinct =
      Distinct-append (compaction_idxs ls) (sampled scaled draws ls)
        (Ascending-Distinct (indices is_compaction 0 ls) (indices-Ascending is_compaction 0 ls))
        (Ascending-Distinct (sampled scaled draws ls) sampled-Ascending)
        (All-imp (sampled scaled draws ls) (λ j h. h.0) sampled-IsFree)

  keep_indices-sort : keep_indices scaled draws ls ≡ sort kept
  unfolding keep_indices kept
  keep_indices-sort = dedup-Ascending (sort kept) (sort-Ascending kept kept-Distinct)

  kept_bounds : All (λ j. (0 ≤ j) × (j < 0 + length ls)) kept
  unfolding kept IsFree compaction_idxs
  kept_bounds =
      All-append (λ j. (0 ≤ j) × (j < 0 + length ls)) (indices is_compaction 0 ls)
        (sampled scaled draws ls) (indices_bounds is_compaction 0 ls)
        (All-imp (sampled scaled draws ls) (λ j h. (omega arith, omega (arith, h.1)))
          sampled-IsFree)

  sample-select : sample (some scaled) draws ls ≡ some (select (has (sort kept)) 0 ls)
  unfolding sample
  sample-select =
      ap (pick ls) keep_indices-sort
      ∙ pick-select ls 0 ls (sort kept) (λ n. ap (get_elem? ls) (omega arith))
          (sort-Ascending kept kept-Distinct) (All-sort _ kept kept_bounds)

  length-sample :
      length (select (has (sort kept)) 0 ls)
      ≡ min (max (scaled (length ls)) (suc (length (compaction_idxs ls)))) (length ls)
  unfolding kept sample num_to_keep
  length-sample =
      let picked = sym (ap (pick ls) keep_indices-sort) ∙ sample-select in
      let n =
        length-pick ls (sort kept) (select (has (sort kept)) 0 ls) picked
        ∙ length-sort kept
        ∙ length-append (compaction_idxs ls) (sampled scaled draws ls) in
      let wanted : length (compaction_idxs ls) + num_to_keep scaled ls
          ≡ max (scaled (length ls)) (suc (length (compaction_idxs ls))) =
        ground arith in
      n ∙ omega (arith, length-sampled, length-available, wanted)

  -- A sample of a fraction of the lines does not fail. Whatever is drawn, it has lines of the input in
  -- their order, among them every compaction marker. It has as many lines as the fraction asks for, but
  -- one more than there are markers where it asks for fewer, and all lines where there are fewer.
  pub sample-Sublist :
      (out : Lines) × (sample (some scaled) draws ls ≡ some out)
      × Sublist out ls
      × (filterb (λ l. is_compaction l.1) out ≡ filterb (λ l. is_compaction l.1) ls)
      × (length out
          ≡ min (max (scaled (length ls)) (suc (length (compaction_idxs ls)))) (length ls))
  unfolding compaction_idxs
  sample-Sublist =
      let all_in : All (λ j. has (sort kept) j ≡ true) (compaction_idxs ls) =
        All-imp (compaction_idxs ls) (λ j h. has-sort j kept ∙ h)
          (unfold kept in has-append_left (compaction_idxs ls) (sampled scaled draws ls)) in
      (
        select (has (sort kept)) 0 ls,
        sample-select,
        select-Sublist (has (sort kept)) 0 ls,
        filterb-select (has (sort kept)) is_compaction 0 ls all_in,
        length-sample,
      )
