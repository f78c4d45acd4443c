-- ===== src/Memory/Reservoir.antt =====
-- `reservoir_sample` of session_memory.rs.
use b.Prelude.{
  ℕ, ◌+◌, ◌<◌, ◌≡◌, refl, ◌∙◌, true, List, [], ◌∷◌, length, take, drop, set, leb, ltb, All, arith,
  Bool-cases, inl, inr, min, length-take,
}
use b.Memory.Sampling.{has, replace_from, reservoir_sample}
use b.Memory.Ascending.{
  Ascending, Distinct, All-imp, All-zip, All-sort, All-set, sort-Ascending, length-sort,
  Ascending-Distinct, set-Distinct, length-set, All-take, All-drop, take-Ascending, drop-Ascending,
  drop-above-take,
}

module _ (draws : ℕ → ℕ) (k : ℕ) where
  All-replace_from :
      (P : ℕ → Type 0) (i : ℕ) (reservoir items : List ℕ)
      → All P reservoir
      → All P items
      → All P (replace_from draws k i reservoir items)
  unfolding replace_from
  All-replace_from P i reservoir [] h g = h
  All-replace_from P i reservoir (a ∷ items) h g = elim (Bool-cases (ltb (draws i) k)) [
    | inl hit ↦
        rw (hit, replace_from)
          (All-replace_from P (i + 1) (set reservoir (draws i) a) items
            (All-set P (draws i) a reservoir g.0 h) g.1)
    | inr miss ↦ rw (miss, replace_from) (All-replace_from P (i + 1) reservoir items h g.1)
  ]

  length-replace_from :
      (i : ℕ) (reservoir items : List ℕ)
      → length (replace_from draws k i reservoir items) ≡ length reservoir
  unfolding replace_from
  length-replace_from i reservoir [] = refl
  length-replace_from i reservoir (a ∷ items) = elim (Bool-cases (ltb (draws i) k)) [
    | inl hit ↦
        rw (hit, replace_from)
          (length-replace_from (i + 1) (set reservoir (draws i) a) items
            ∙ length-set (draws i) a reservoir)
    | inr miss ↦ rw (miss, replace_from) (length-replace_from (i + 1) reservoir items)
  ]

  -- What comes later in an ascending list is not in the reservoir.
  replace_from-Distinct :
      (i : ℕ) (reservoir items : List ℕ)
      → Distinct reservoir
      → All (λ a. All (λ b. b < a) reservoir) items
      → Ascending items
      → Distinct (replace_from draws k i reservoir items)
  unfolding replace_from
  replace_from-Distinct i reservoir [] d h s = d
  replace_from-Distinct i reservoir (a ∷ items) d h s = elim (Bool-cases (ltb (draws i) k)) [
    | inl hit ↦
        let above : All (λ c. All (λ b. b < c) (set reservoir (draws i) a)) items =
          All-zip (λ c. All (λ b. b < c) reservoir) (λ c. a < c) _ items
            (λ c below lt. All-set (λ b. b < c) (draws i) a reservoir lt below) h.1 s.0 in
        rw (hit, replace_from)
          (replace_from-Distinct (i + 1) (set reservoir (draws i) a) items
            (set-Distinct (draws i) a reservoir h.0 d) above s.1)
    | inr miss ↦ rw (miss, replace_from) (replace_from-Distinct (i + 1) reservoir items d h.1 s.1)
  ]

pub All-reservoir_sample :
    (P : ℕ → Type 0) (items : List ℕ) (k : ℕ) (draws : ℕ → ℕ)
    → All P items
    → All P (reservoir_sample items k draws)
unfolding reservoir_sample
All-reservoir_sample P items k draws h = elim (Bool-cases (leb (length items) k)) [
  | inl whole ↦ rw (whole, reservoir_sample) h
  | inr part ↦
      rw (part, reservoir_sample)
        (All-sort P (replace_from draws k k (take k items) (drop k items)) (
          All-replace_from draws k P k (take k items) (drop k items) (All-take P k items h)
            (All-drop P k items h)))
]

pub reservoir_sample-Ascending :
    (items : List ℕ) (k : ℕ) (draws : ℕ → ℕ)
    → Ascending items
    → Ascending (reservoir_sample items k draws)
unfolding reservoir_sample
reservoir_sample-Ascending items k draws s = elim (Bool-cases (leb (length items) k)) [
  | inl whole ↦ rw (whole, reservoir_sample) s
  | inr part ↦
      rw (part, reservoir_sample)
        (sort-Ascending (replace_from draws k k (take k items) (drop k items)) (
          replace_from-Distinct draws k k (take k items) (drop k items)
            (Ascending-Distinct (take k items) (take-Ascending k items s))
            (drop-above-take k items s) (drop-Ascending k items s)))
]

pub length-reservoir_sample :
    (items : List ℕ) (k : ℕ) (draws : ℕ → ℕ)
    → length (reservoir_sample items k draws) ≡ min k (length items)
unfolding reservoir_sample
length-reservoir_sample items k draws = elim (Bool-cases (leb (length items) k)) [
  | inl whole ↦ rw (whole, reservoir_sample) (ground (arith, whole))
  | inr part ↦
      rw (part, reservoir_sample)
        (length-sort (replace_from draws k k (take k items) (drop k items))
          ∙ length-replace_from draws k k (take k items) (drop k items)
          ∙ length-take k items)
]

abbrev pub IsSample : List ℕ → ℕ → List ℕ → Type 0
IsSample items k out =
    Ascending out × (length out ≡ min k (length items)) × All (λ i. has items i ≡ true) out

has_self : (items : List ℕ) → All (λ i. has items i ≡ true) items
unfolding has
has_self [] = tt
has_self (a ∷ items) = (ground arith, All-imp items (λ i h. ground (arith, h)) (has_self items))

-- Of ascending items, whatever is drawn, `reservoir_sample` returns items in ascending order, none twice,
-- as many as are asked for or all where there are fewer.
pub reservoir_sample-IsSample :
    (items : List ℕ) (k : ℕ) (draws : ℕ → ℕ)
    → Ascending items
    → IsSample items k (reservoir_sample items k draws)
reservoir_sample-IsSample items k draws s = (
  reservoir_sample-Ascending items k draws s,
  length-reservoir_sample items k draws,
  All-reservoir_sample (λ i. has items i ≡ true) items k draws (has_self items),
)
