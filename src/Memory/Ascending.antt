-- ===== src/Memory/Ascending.antt =====
-- Lists of indices: sorting, and sampling from an ascending list.
use b.Prelude.{
  ℕ, zero, suc, ◌<◌, ◌≡◌, ◌≢◌, refl, ◌∙◌, ap, true, false, List, [], ◌∷◌, length, take, drop, set,
  leb, ◌==◌, if◌then◌else◌, All, arith, Bool-cases, inl, inr,
}
use b.Memory.Sampling.{insert, sort, has, dedup}

abbrev pub Ascending : List ℕ → Type 0
Ascending [] = Unit
Ascending (a ∷ l) = All (λ b. a < b) l × Ascending l

abbrev pub Distinct : List ℕ → Type 0
Distinct [] = Unit
Distinct (a ∷ l) = (has l a ≡ false) × Distinct l

pub All-imp {ℓ κ ι} :
    {A : Type ℓ} {P : A → Type κ} {Q : A → Type ι} (l : List A)
    → ((a : A) → P a → Q a)
    → All P l
    → All Q l
All-imp [] f h = tt
All-imp (a ∷ l) f h = (f a h.0, All-imp l f h.1)

All-insert : (P : ℕ → Type 0) (a : ℕ) (l : List ℕ) → P a → All P l → All P (insert a l)
unfolding insert
All-insert P a [] p h = (p, tt)
All-insert P a (b ∷ l) p h = elim (Bool-cases (leb a b)) [
  | inl le ↦ rw (le, insert) (p, h)
  | inr gt ↦ rw (gt, insert) (h.0, All-insert P a l p h.1)
]

pub All-sort : (P : ℕ → Type 0) (l : List ℕ) → All P l → All P (sort l)
unfolding sort
All-sort P [] h = tt
All-sort P (a ∷ l) h = All-insert P a (sort l) h.0 (All-sort P l h.1)

has-insert : (a b : ℕ) (l : List ℕ) → has (insert a l) b ≡ (if a == b then true else has l b)
unfolding insert has
has-insert a b [] = refl
has-insert a b (c ∷ l) = ground (arith, has-insert a b l)

pub has-sort : (b : ℕ) (l : List ℕ) → has (sort l) b ≡ has l b
unfolding sort has
has-sort b [] = refl
has-sort b (a ∷ l) = ground (arith, has-insert a b (sort l), has-sort b l)

insert-Ascending : (a : ℕ) (l : List ℕ) → has l a ≡ false → Ascending l → Ascending (insert a l)
unfolding insert has
insert-Ascending a [] h s = (tt, tt)
insert-Ascending a (b ∷ l) h s = elim (Bool-cases (leb a b)) [
  | inl le ↦
      let lt : a < b = ground (arith, h, le) in
      rw (le, insert) ((lt, All-imp l (λ c bc. omega (arith, bc, lt)) s.0), s)
  | inr gt ↦
      let lt : b < a = ground (arith, gt) in
      let other : has l a ≡ false = ground (arith, h, lt) in
      rw (gt, insert) (All-insert (λ c. b < c) a l lt s.0, insert-Ascending a l other s.1)
]

pub sort-Ascending : (l : List ℕ) → Distinct l → Ascending (sort l)
unfolding sort
sort-Ascending [] d = tt
sort-Ascending (a ∷ l) d = insert-Ascending a (sort l) (has-sort a l ∙ d.0) (sort-Ascending l d.1)

length-insert : (a : ℕ) (l : List ℕ) → length (insert a l) ≡ suc (length l)
unfolding insert
length-insert a [] = refl
length-insert a (b ∷ l) = ground (arith, length-insert a l)

pub length-sort : (l : List ℕ) → length (sort l) ≡ length l
unfolding sort
length-sort [] = refl
length-sort (a ∷ l) = length-insert a (sort l) ∙ ap suc (length-sort l)

pub dedup-Ascending : (l : List ℕ) → Ascending l → dedup l ≡ l
unfolding dedup
dedup-Ascending [] s = refl
dedup-Ascending (a ∷ []) s = refl
dedup-Ascending (a ∷ b ∷ l) s =
    let n : (a == b) ≡ false = ground (arith, s.0.0) in
    rw (n, dedup) (ap (λ r. a ∷ r) (dedup-Ascending (b ∷ l) s.1))

-- A number above or below all of a list is not in it.
pub has-all_ne : (a : ℕ) (l : List ℕ) → All (λ b. b ≢ a) l → has l a ≡ false
unfolding has
has-all_ne a [] h = refl
has-all_ne a (b ∷ l) h =
    let n : (b == a) ≡ false = ground (arith, h.0) in rw (n, has-all_ne a l h.1) refl

pub Ascending-Distinct : (l : List ℕ) → Ascending l → Distinct l
Ascending-Distinct [] s = tt
Ascending-Distinct (a ∷ l) s =
    (has-all_ne a l (All-imp l (λ b lt e. omega (arith, lt, e)) s.0), Ascending-Distinct l s.1)

-- A write into a list.
pub All-set : (P : ℕ → Type 0) (j a : ℕ) (l : List ℕ) → P a → All P l → All P (set l j a)
All-set P j a [] p h = tt
All-set P zero a (b ∷ l) p h = (p, h.1)
All-set P (suc j) a (b ∷ l) p h = (h.0, All-set P j a l p h.1)

has-set : (j a b : ℕ) (l : List ℕ) → a ≢ b → has l b ≡ false → has (set l j a) b ≡ false
unfolding has
has-set j a b [] n h = refl
has-set zero a b (c ∷ l) n h = ground (arith, n, h)
has-set (suc j) a b (c ∷ l) n h = ground (arith, has-set j a b l n, h)

pub set-Distinct : (j a : ℕ) (l : List ℕ) → All (λ b. b < a) l → Distinct l → Distinct (set l j a)
set-Distinct j a [] h d = tt
set-Distinct zero a (b ∷ l) h d =
    (has-all_ne a l (All-imp l (λ c lt e. omega (arith, lt, e)) h.1), d.1)
set-Distinct (suc j) a (b ∷ l) h d =
    (has-set j a b l (λ e. omega (arith, e, h.0)) d.0, set-Distinct j a l h.1 d.1)

pub length-set : (j a : ℕ) (l : List ℕ) → length (set l j a) ≡ length l
length-set j a [] = refl
length-set zero a (b ∷ l) = refl
length-set (suc j) a (b ∷ l) = ap suc (length-set j a l)

pub All-of {ℓ κ} : {A : Type ℓ} {P : A → Type κ} (l : List A) → ((a : A) → P a) → All P l
All-of [] f = tt
All-of (a ∷ l) f = (f a, All-of l f)

pub All-zip :
    (P Q R : ℕ → Type 0) (l : List ℕ) → ((a : ℕ) → P a → Q a → R a) → All P l → All Q l → All R l
All-zip P Q R [] f h g = tt
All-zip P Q R (a ∷ l) f h g = (f a h.0 g.0, All-zip P Q R l f h.1 g.1)

pub All-take : (P : ℕ → Type 0) (n : ℕ) (l : List ℕ) → All P l → All P (take n l)
All-take P zero l h = tt
All-take P (suc n) [] h = tt
All-take P (suc n) (a ∷ l) h = (h.0, All-take P n l h.1)

pub All-drop : (P : ℕ → Type 0) (n : ℕ) (l : List ℕ) → All P l → All P (drop n l)
All-drop P zero l h = h
All-drop P (suc n) [] h = tt
All-drop P (suc n) (a ∷ l) h = All-drop P n l h.1

pub take-Ascending : (n : ℕ) (l : List ℕ) → Ascending l → Ascending (take n l)
take-Ascending zero l s = tt
take-Ascending (suc n) [] s = tt
take-Ascending (suc n) (a ∷ l) s = (All-take (λ b. a < b) n l s.0, take-Ascending n l s.1)

pub drop-Ascending : (n : ℕ) (l : List ℕ) → Ascending l → Ascending (drop n l)
drop-Ascending zero l s = s
drop-Ascending (suc n) [] s = tt
drop-Ascending (suc n) (a ∷ l) s = drop-Ascending n l s.1

-- The first elements of an ascending list stand below the others.
pub drop-above-take :
    (n : ℕ) (l : List ℕ) → Ascending l → All (λ a. All (λ b. b < a) (take n l)) (drop n l)
drop-above-take zero l s = All-of l (λ a. tt)
drop-above-take (suc n) [] s = tt
drop-above-take (suc n) (a ∷ l) s =
    All-zip (λ c. a < c) (λ c. All (λ b. b < c) (take n l)) _ (drop n l)
      (λ c first others. (first, others)) (All-drop (λ b. a < b) n l s.0) (drop-above-take n l s.1)
