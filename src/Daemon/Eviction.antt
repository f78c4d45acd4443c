-- ===== src/Daemon/Eviction.antt =====
-- The loop that both archives of crates/b3-cli/src/daemon share: `pop_front` while the index is
-- full.
use b.Prelude.{
  ℕ, suc, ◌+◌, ◌-◌, ◌≤◌, ◌≡◌, refl, sym, ap, ◌∙◌, List, [], ◌∷◌, ◌++◌, length, drop, leb,
  if◌then◌else◌, length-append, length-drop, Bool-cases, inl, inr, arith, leb→le, drop-all,
  drop-drop, drop-append,
}

-- `while index.len() >= max { index.pop_front() }`; `max` is not 0.
abbrev pub evict : {A : Type 0} → ℕ → List A → List A
evict max [] = []
evict max (x ∷ xs) = let rest = evict max xs in if leb max (length (x ∷ xs)) then rest else x ∷ xs

-- the entries that the loop pops
abbrev pub evicted : {A : Type 0} → ℕ → List A → List A
evicted max [] = []
evicted max (x ∷ xs) =
    let rest = evicted max xs in if leb max (length (x ∷ xs)) then x ∷ rest else []

-- the last so many
abbrev pub newest : {A : Type 0} → ℕ → List A → List A
newest max xs = drop (length xs - max) xs

evict-drop : {A : Type 0} (max : ℕ) (xs : List A) → evict (suc max) xs ≡ drop (length xs - max) xs
evict-drop max [] = sym (drop-all (0 - max) [] (omega arith))
evict-drop max (x ∷ xs) = elim (Bool-cases (leb (suc max) (suc (length xs)))) [
  | inl full ↦
      (let e : suc (length xs) - max ≡ suc (length xs - max) =
          omega (arith, leb→le (suc max) (suc (length xs)) full) in
        rw (full, e) (evict-drop max xs))
  | inr room ↦ (let e : suc (length xs) - max ≡ 0 = ground arith in rw (room, e) refl)
]

-- Popped and kept entries are all of them.
pub evicted-append-evict :
    {A : Type 0} (max : ℕ) (xs : List A) → evicted max xs ++ evict max xs ≡ xs
evicted-append-evict max [] = refl
evicted-append-evict max (x ∷ xs) = elim (Bool-cases (leb max (suc (length xs)))) [
  | inl full ↦ rw (full) (ap (λ l. x ∷ l) (evicted-append-evict max xs))
  | inr room ↦ rw (room) refl
]

-- Making room and adding one keeps the newest.
pub evict-newest :
    {A : Type 0} (max : ℕ) (all : List A) (x : A)
    → evict (suc max) (newest (suc max) all) ++ (x ∷ []) ≡ newest (suc max) (all ++ (x ∷ []))
evict-newest max all x =
    let k = length all - suc max in
    let more = length (drop k all) - max in
    let size : length (all ++ (x ∷ [])) ≡ length all + 1 = length-append all (x ∷ []) in
    let e : length (all ++ (x ∷ [])) - suc max ≡ k + more =
      omega (arith, length-drop k all, size) in
    let small : k + more ≤ length all = omega (arith, length-drop k all) in
    ap (λ l. l ++ (x ∷ [])) (evict-drop max (drop k all) ∙ drop-drop more k all)
    ∙ sym (drop-append (k + more) all (x ∷ []) small)
    ∙ ap (λ n. drop n (all ++ (x ∷ []))) (sym e)
