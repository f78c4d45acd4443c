-- ===== src/Memory/Positions.antt =====
-- Positions in a list of lines: those at which a test holds, and the lines at given ones.
use b.Prelude.{
  ℕ, suc, ◌+◌, ◌≤◌, ◌<◌, ◌≡◌, refl, sym, ◌∙◌, ap, Bool, true, false, not, List, [], ◌∷◌, some,
  length, filterb, get_elem?, ◌==◌, if◌then◌else◌, All, arith, Bool-cases, Option-cases, none-some,
  some_inj, subst, inl, inr, Text,
}
use b.Memory.Sampling.{has, indices, pick}
use b.Memory.Ascending.{Ascending, All-imp, All-zip, has-all_ne}

abbrev pub Lines : Type 0
Lines = List (ℕ × Text)

pub indices_bounds :
    (test : Text → Bool) (i : ℕ) (ls : Lines)
    → All (λ j. (i ≤ j) × (j < i + length ls)) (indices test i ls)
unfolding indices
indices_bounds test i [] = tt
indices_bounds test i ((n, l) ∷ ls) =
    let rest : All (λ j. (i ≤ j) × (j < i + suc (length ls))) (indices test (i + 1) ls) =
      All-imp (indices test (i + 1) ls) (λ j b. (omega (arith, b.0), omega (arith, b.1)))
        (indices_bounds test (i + 1) ls) in
    elim (Bool-cases (test l)) [
      | inl t ↦ rw (t, indices) ((omega arith, omega arith), rest)
      | inr f ↦ rw (f, indices) rest
    ]

pub indices-Ascending : (test : Text → Bool) (i : ℕ) (ls : Lines) → Ascending (indices test i ls)
unfolding indices
indices-Ascending test i [] = tt
indices-Ascending test i ((n, l) ∷ ls) = elim (Bool-cases (test l)) [
  | inl t ↦
      rw (t, indices)
        (
          All-imp (indices test (i + 1) ls) (λ j b. omega (arith, b.0))
              (indices_bounds test (i + 1) ls),
          indices-Ascending test (i + 1) ls,
        )
  | inr f ↦ rw (f, indices) (indices-Ascending test (i + 1) ls)
]

pub length-indices :
    (test : Text → Bool) (i : ℕ) (ls : Lines)
    → length (indices test i ls) + length (indices (λ l. not (test l)) i ls) ≡ length ls
unfolding indices
length-indices test i [] = omega arith
length-indices test i ((n, l) ∷ ls) = elim (Bool-cases (test l)) [
  | inl t ↦ rw (t, indices) (omega (arith, length-indices test (i + 1) ls))
  | inr f ↦ rw (f, indices) (omega (arith, length-indices test (i + 1) ls))
]

-- `p` tells at each position from `i` on what the test tells of the line.
abbrev pub Agrees : (ℕ → Bool) → (Text → Bool) → ℕ → Lines → Type 0
Agrees p test i [] = Unit
Agrees p test i ((n, l) ∷ ls) = (p i ≡ test l) × Agrees p test (i + 1) ls

Agrees-ext :
    (p q : ℕ → Bool) (test : Text → Bool) (i : ℕ) (ls : Lines)
    → ((j : ℕ) → i ≤ j → q j ≡ p j)
    → Agrees p test i ls
    → Agrees q test i ls
Agrees-ext p q test i [] e a = tt
Agrees-ext p q test i ((n, l) ∷ ls) e a =
    (e i (omega arith) ∙ a.0, Agrees-ext p q test (i + 1) ls (λ j h. e j (omega (arith, h))) a.1)

has-cons_self : (i : ℕ) (is : List ℕ) → has (i ∷ is) i ≡ true
unfolding has
has-cons_self i is = ground arith

has-cons_later : (i j : ℕ) (is : List ℕ) → i < j → has (i ∷ is) j ≡ has is j
unfolding has
has-cons_later i j is h = ground (arith, h)

pub indices-Agrees :
    (test : Text → Bool) (i : ℕ) (ls : Lines) → Agrees (has (indices test i ls)) test i ls
unfolding indices
indices-Agrees test i [] = tt
indices-Agrees test i ((n, l) ∷ ls) =
    let rest = indices test (i + 1) ls in
    let later = indices-Agrees test (i + 1) ls in
    let whole = λ (r : List ℕ). Agrees (has r) test i ((n, l) ∷ ls) in
    elim (Bool-cases (test l)) [
      | inl t ↦
          let e : indices test i ((n, l) ∷ ls) ≡ i ∷ rest = rw (t, indices) refl in
          subst whole (sym e) (
            has-cons_self i rest ∙ sym t,
            Agrees-ext (has rest) (has (i ∷ rest)) test (i + 1) ls
                (λ j h. has-cons_later i j rest (omega (arith, h))) later,
          )
      | inr f ↦
          let e : indices test i ((n, l) ∷ ls) ≡ rest = rw (f, indices) refl in
          let below =
            All-imp rest (λ j b e. omega (arith, b.0, e)) (indices_bounds test (i + 1) ls) in
          subst whole (sym e) (has-all_ne i rest below ∙ sym f, later)
    ]

pub filterb-indices :
    (p : ℕ → Bool) (test : Text → Bool) (i : ℕ) (ls : Lines)
    → Agrees p test i ls
    → filterb (λ j. not (p j)) (indices (λ l. true) i ls) ≡ indices (λ l. not (test l)) i ls
unfolding indices
filterb-indices p test i [] a = refl
filterb-indices p test i ((n, l) ∷ ls) a =
    let rest = filterb-indices p test (i + 1) ls a.1 in
    elim (Bool-cases (test l)) [
      | inl t ↦ rw (a.0, t, indices) rest
      | inr f ↦ rw (a.0, f, indices) (ap (λ r. i ∷ r) rest)
    ]

-- The lines at the positions that `p` tells.
unfoldable pub select : (ℕ → Bool) → ℕ → Lines → Lines
select p i [] = []
select p i (l ∷ ls) = let rest = select p (i + 1) ls in if p i then l ∷ rest else rest

select-ext :
    (p q : ℕ → Bool) (i : ℕ) (ls : Lines)
    → ((j : ℕ) → i ≤ j → p j ≡ q j)
    → select p i ls ≡ select q i ls
unfolding select
select-ext p q i [] e = refl
select-ext p q i (l ∷ ls) e =
    rw (e i (omega arith), select-ext p q (i + 1) ls (λ j h. e j (omega (arith, h)))) refl

-- What is picked at ascending positions is selected by them.
pub pick-select :
    (whole : Lines) (i : ℕ) (ls : Lines) (is : List ℕ)
    → ((n : ℕ) → get_elem? whole (i + n) ≡ get_elem? ls n)
    → Ascending is
    → All (λ j. (i ≤ j) × (j < i + length ls)) is
    → pick whole is ≡ some (select (has is) i ls)
unfolding pick select
pick-select whole i [] [] at s b = refl
pick-select whole i [] (j ∷ is) at s b = absurd (omega (arith, b.0.0, b.0.1))
pick-select whole i (l ∷ ls) [] at s b =
    let none_here : has [] i ≡ false = has-all_ne i [] tt in
    pick-select whole (i + 1) ls [] (λ n. ap (get_elem? whole) (omega arith) ∙ at (suc n)) tt tt
    ∙ ap some (sym (rw (none_here, select) refl))
pick-select whole i (l ∷ ls) (j ∷ is) at s b =
    let next : (n : ℕ) → get_elem? whole (i + 1 + n) ≡ get_elem? ls n =
      λ n. ap (get_elem? whole) (omega arith) ∙ at (suc n) in
    elim (Bool-cases (i == j)) [
      | inl e ↦
          let same : j ≡ i = ground (arith, e) in
          let found : get_elem? whole j ≡ some l =
            ap (get_elem? whole) (omega (arith, same)) ∙ at 0 in
          let bounds : All (λ k. (i + 1 ≤ k) × (k < i + 1 + length ls)) is =
            All-zip (λ k. j < k) (λ k. (i ≤ k) × (k < i + suc (length ls))) _ is
              (λ k lt b. (omega (arith, lt, same), omega (arith, b.1))) s.0 b.1 in
          let rest = pick-select whole (i + 1) ls is next s.1 bounds in
          let mine : has (j ∷ is) i ≡ true = ap (has (j ∷ is)) (sym same) ∙ has-cons_self j is in
          let others =
            select-ext (has (j ∷ is)) (has is) (i + 1) ls
              (λ k h. has-cons_later j k is (omega (arith, h, same))) in
          rw (found, rest, mine, others, pick, select) refl
      | inr n ↦
          let later : i < j = ground (arith, n, b.0.0) in
          let bounds : All (λ k. (i + 1 ≤ k) × (k < i + 1 + length ls)) (j ∷ is) = (
            (omega (arith, later), omega (arith, b.0.1)),
            All-zip (λ k. j < k) (λ k. (i ≤ k) × (k < i + suc (length ls))) _ is
                (λ k lt b. (omega (arith, lt, later), omega (arith, b.1))) s.0 b.1,
          ) in
          let rest = pick-select whole (i + 1) ls (j ∷ is) next s bounds in
          let mine : has (j ∷ is) i ≡ false = has-all_ne i (j ∷ is) (
            (λ e. omega (arith, e, later)),
            All-imp is (λ k lt e. omega (arith, e, lt, later)) s.0,
          ) in
          rest ∙ ap some (sym (rw (mine, select) refl))
    ]

pub length-pick :
    (ls : Lines) (is : List ℕ) (out : Lines) → pick ls is ≡ some out → length out ≡ length is
unfolding pick
length-pick ls [] out h = ap length (sym (some_inj h))
length-pick ls (i ∷ is) out h = elim (Option-cases (get_elem? ls i)) [
  | inl n ↦ absurd (none-some (sym (rw (n, pick) refl) ∙ h))
  | inr (l, e) ↦ elim (Option-cases (pick ls is)) [
    | inl n ↦ absurd (none-some (sym (rw (e, n, pick) refl) ∙ h))
    | inr (rest, r) ↦
        let same : some (l ∷ rest) ≡ some out = sym (rw (e, r, pick) refl) ∙ h in
        ap length (sym (some_inj same)) ∙ ap suc (length-pick ls is rest r)
  ]
]
