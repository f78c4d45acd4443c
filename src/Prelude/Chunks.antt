-- ===== src/Prelude/Chunks.antt =====
-- `[T]::chunks` of the Rust standard library on byte strings.
use Prim.Native.Nat.{ℕ, zero, suc, ◌+◌, ◌-◌, ◌≤◌, ◌<◌}
use mathlib.Core.Path.{◌≡◌, refl, ap, ◌∙◌}
use mathlib.Core.List.{List, [], ◌∷◌, ◌++◌, append_assoc}
use native.Mathlib.Omega.{arith}
use b.Prelude.Lists.{length, All, length-append}
use b.Prelude.Words.{Bytes}

-- `[T]::chunks(k)` of the standard library for `k > 0`, with `room` left in the current chunk.
unfoldable pub chunks_from : (k room : ℕ) → Bytes → Bytes → List Bytes
chunks_from k room cur [] = cur ∷ []
chunks_from k zero cur (x ∷ xs) = cur ∷ chunks_from k (k - 1) (x ∷ []) xs
chunks_from k (suc room) cur (x ∷ xs) = chunks_from k room (cur ++ (x ∷ [])) xs

unfoldable pub chunks : ℕ → Bytes → List Bytes
chunks k [] = []
chunks k (x ∷ xs) = chunks_from k (k - 1) (x ∷ []) xs

-- the chunks one after the other
abbrev pub joined : List Bytes → Bytes
joined [] = []
joined (c ∷ cs) = c ++ joined cs

-- `chunks` loses nothing and changes no order.
joined-chunks_from : (k room : ℕ) (cur xs : Bytes) → joined (chunks_from k room cur xs) ≡ cur ++ xs
unfolding chunks_from
joined-chunks_from k room cur [] = refl
joined-chunks_from k zero cur (x ∷ xs) =
    ap (λ r. cur ++ r) (joined-chunks_from k (k - 1) (x ∷ []) xs)
joined-chunks_from k (suc room) cur (x ∷ xs) =
    joined-chunks_from k room (cur ++ (x ∷ [])) xs ∙ append_assoc cur (x ∷ []) xs

pub joined-chunks : (k : ℕ) (xs : Bytes) → joined (chunks k xs) ≡ xs
unfolding chunks
joined-chunks k [] = refl
joined-chunks k (x ∷ xs) = joined-chunks_from k (k - 1) (x ∷ []) xs

-- Each chunk has at most `k` bytes.
chunks_from_bounded :
    (k room : ℕ) (cur xs : Bytes)
    → 0 < k
    → length cur + room ≤ k
    → All (λ c. length c ≤ k) (chunks_from k room cur xs)
unfolding chunks_from
chunks_from_bounded k room cur [] pos h = (omega arith, tt)
chunks_from_bounded k zero cur (x ∷ xs) pos h =
    (omega arith, chunks_from_bounded k (k - 1) (x ∷ []) xs pos (omega arith))
chunks_from_bounded k (suc room) cur (x ∷ xs) pos h =
    chunks_from_bounded k room (cur ++ (x ∷ [])) xs pos (omega (arith, length-append cur (x ∷ [])))

pub chunks_bounded : (k : ℕ) (xs : Bytes) → 0 < k → All (λ c. length c ≤ k) (chunks k xs)
unfolding chunks
chunks_bounded k [] pos = tt
chunks_bounded k (x ∷ xs) pos = chunks_from_bounded k (k - 1) (x ∷ []) xs pos (omega arith)
