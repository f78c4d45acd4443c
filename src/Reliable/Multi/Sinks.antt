-- ===== src/Reliable/Multi/Sinks.antt =====
-- The list of sinks in multi.rs: sorted by priority, and of unique names.
use Prim.Native.String.{String}
use text.Mathlib.Text.{◌==◌ as str_eq}
use text.Mathlib.TextEquality.{eq_iff}
use b.Prelude.{
  ℕ, ◌≤◌, ◌≡◌, refl, ap, ◌∙◌, Bool, false, ◌||◌, List, [], ◌∷◌, ◌++◌, filterb, leb, All, arith,
  Bool-cases, inl, inr,
}
use b.Reliable.Multi.State.{Sink, insert_by_priority, sort_by_priority, without, any_named}

-- No sink before another has a larger priority number.
abbrev pub IsSorted : List Sink → Type 0
IsSorted [] = Unit
IsSorted (s ∷ ss) = All (λ t. s.priority ≤ t.priority) ss × IsSorted ss

-- No two sinks have one name.
abbrev pub HasUniqueNames : List Sink → Type 0
HasUniqueNames [] = Unit
HasUniqueNames (s ∷ ss) = (any_named s.name ss ≡ false) × HasUniqueNames ss

All-filterb {ℓ κ} :
    {A : Type ℓ} (P : A → Type κ) (p : A → Bool) (xs : List A) → All P xs → All P (filterb p xs)
All-filterb P p [] h = tt
All-filterb P p (x ∷ xs) h = elim (Bool-cases (p x)) [
  | inl t ↦ rw (t) (h.0, All-filterb P p xs h.1)
  | inr t ↦ rw (t) (All-filterb P p xs h.1)
]

IsSorted-filterb : (p : Sink → Bool) (ss : List Sink) → IsSorted ss → IsSorted (filterb p ss)
IsSorted-filterb p [] h = tt
IsSorted-filterb p (s ∷ ss) h = elim (Bool-cases (p s)) [
  | inl t ↦ rw t (All-filterb (λ u. s.priority ≤ u.priority) p ss h.0, IsSorted-filterb p ss h.1)
  | inr t ↦ rw t (IsSorted-filterb p ss h.1)
]

All-le_trans :
    (a b : ℕ) (ss : List Sink) → a ≤ b → All (λ t. b ≤ t.priority) ss → All (λ t. a ≤ t.priority) ss
All-le_trans a b [] le h = tt
All-le_trans a b (s ∷ ss) le h = (omega (arith, h.0), All-le_trans a b ss le h.1)

All-insert {κ} :
    (P : Sink → Type κ) (s : Sink) (ss : List Sink)
    → P s
    → All P ss
    → All P (insert_by_priority s ss)
unfolding insert_by_priority
All-insert P s [] p h = (p, tt)
All-insert P s (t ∷ ts) p h = elim (Bool-cases (leb s.priority t.priority)) [
  | inl le ↦ rw (le, insert_by_priority) (p, h)
  | inr gt ↦ rw (gt, insert_by_priority) (h.0, All-insert P s ts p h.1)
]

insert-IsSorted : (s : Sink) (ss : List Sink) → IsSorted ss → IsSorted (insert_by_priority s ss)
unfolding insert_by_priority
insert-IsSorted s [] h = (tt, tt)
insert-IsSorted s (t ∷ ts) h = elim (Bool-cases (leb s.priority t.priority)) [
  | inl le ↦
      rw (le, insert_by_priority)
        ((ground arith, All-le_trans s.priority t.priority ts (ground arith) h.0), h)
  | inr gt ↦
      rw (gt, insert_by_priority)
        (
          All-insert (λ u. t.priority ≤ u.priority) s ts (ground arith) h.0,
          insert-IsSorted s ts h.1,
        )
]

pub sort-IsSorted : (ss : List Sink) → IsSorted (sort_by_priority ss)
unfolding sort_by_priority
sort-IsSorted [] = tt
sort-IsSorted (s ∷ ss) = insert-IsSorted s (sort_by_priority ss) (sort-IsSorted ss)

any_named-insert :
    (n : String) (s : Sink) (ss : List Sink)
    → any_named n (insert_by_priority s ss) ≡ str_eq s.name n || any_named n ss
unfolding insert_by_priority
any_named-insert n s [] = refl
any_named-insert n s (t ∷ ts) = ground (arith, any_named-insert n s ts)

any_named-sort : (n : String) (ss : List Sink) → any_named n (sort_by_priority ss) ≡ any_named n ss
unfolding sort_by_priority
any_named-sort n [] = refl
any_named-sort n (s ∷ ss) =
    any_named-insert n s (sort_by_priority ss)
    ∙ ap (λ r. str_eq s.name n || r) (any_named-sort n ss)

str_eq-sym : (a b : String) → str_eq a b ≡ str_eq b a
str_eq-sym a b = ground (arith, eq_iff a b, eq_iff b a)

insert-HasUniqueNames :
    (s : Sink) (ss : List Sink)
    → any_named s.name ss ≡ false
    → HasUniqueNames ss
    → HasUniqueNames (insert_by_priority s ss)
unfolding insert_by_priority
insert-HasUniqueNames s [] a h = (refl, tt)
insert-HasUniqueNames s (t ∷ ts) a h = elim (Bool-cases (leb s.priority t.priority)) [
  | inl le ↦ rw (le, insert_by_priority) (a, h)
  | inr gt ↦
      rw (gt, insert_by_priority)
        (
          ground (arith, any_named-insert t.name s ts, str_eq-sym s.name t.name),
          insert-HasUniqueNames s ts (ground arith) h.1,
        )
]

sort-HasUniqueNames : (ss : List Sink) → HasUniqueNames ss → HasUniqueNames (sort_by_priority ss)
unfolding sort_by_priority
sort-HasUniqueNames [] h = tt
sort-HasUniqueNames (s ∷ ss) h =
    insert-HasUniqueNames s (sort_by_priority ss) (any_named-sort s.name ss ∙ h.0)
      (sort-HasUniqueNames ss h.1)

any_named-filterb :
    (n : String) (p : Sink → Bool) (ss : List Sink)
    → any_named n ss ≡ false
    → any_named n (filterb p ss) ≡ false
any_named-filterb n p [] h = refl
any_named-filterb n p (s ∷ ss) h = ground (arith, any_named-filterb n p ss)

filterb-HasUniqueNames :
    (p : Sink → Bool) (ss : List Sink) → HasUniqueNames ss → HasUniqueNames (filterb p ss)
filterb-HasUniqueNames p [] h = tt
filterb-HasUniqueNames p (s ∷ ss) h = elim (Bool-cases (p s)) [
  | inl t ↦ rw t (any_named-filterb s.name p ss h.0, filterb-HasUniqueNames p ss h.1)
  | inr t ↦ rw t (filterb-HasUniqueNames p ss h.1)
]

-- No sink of the name is left.
pub any_named-without : (name : String) (ss : List Sink) → any_named name (without name ss) ≡ false
unfolding without
any_named-without name [] = refl
any_named-without name (s ∷ ss) = ground (arith, any_named-without name ss)

any_named-snoc :
    (n : String) (s : Sink) (ss : List Sink)
    → any_named n (ss ++ (s ∷ [])) ≡ str_eq s.name n || any_named n ss
any_named-snoc n s [] = refl
any_named-snoc n s (t ∷ ts) = ground (arith, any_named-snoc n s ts)

snoc-HasUniqueNames :
    (s : Sink) (ss : List Sink)
    → any_named s.name ss ≡ false
    → HasUniqueNames ss
    → HasUniqueNames (ss ++ (s ∷ []))
snoc-HasUniqueNames s [] a h = (refl, tt)
snoc-HasUniqueNames s (t ∷ ts) a h = (
  ground (arith, any_named-snoc t.name s ts, str_eq-sym s.name t.name),
  snoc-HasUniqueNames s ts (ground arith) h.1,
)

pub without-IsSorted : (name : String) (ss : List Sink) → IsSorted ss → IsSorted (without name ss)
unfolding without
without-IsSorted name ss h = IsSorted-filterb _ ss h

pub without-HasUniqueNames :
    (name : String) (ss : List Sink) → HasUniqueNames ss → HasUniqueNames (without name ss)
unfolding without
without-HasUniqueNames name ss h = filterb-HasUniqueNames _ ss h

pub added-HasUniqueNames :
    (s : Sink) (ss : List Sink)
    → HasUniqueNames ss
    → HasUniqueNames (sort_by_priority (without s.name ss ++ (s ∷ [])))
added-HasUniqueNames s ss h = sort-HasUniqueNames (without s.name ss ++ (s ∷ [])) (
    snoc-HasUniqueNames s (without s.name ss) (any_named-without s.name ss)
      (without-HasUniqueNames s.name ss h))

pub any_named-added :
    (n : String) (s : Sink) (ss : List Sink)
    → any_named n (sort_by_priority (without s.name ss ++ (s ∷ [])))
      ≡ str_eq s.name n || any_named n (without s.name ss)
any_named-added n s ss = any_named-sort n _ ∙ any_named-snoc n s (without s.name ss)

pub any_named-without_ne :
    (n name : String) (ss : List Sink)
    → str_eq name n ≡ false
    → any_named n (without name ss) ≡ any_named n ss
unfolding without
any_named-without_ne n name [] h = refl
any_named-without_ne n name (s ∷ ss) h =
    ground
      (arith, any_named-without_ne n name ss, eq_iff s.name name, eq_iff s.name n, eq_iff name n)
