-- ===== src/Common/Speech/Header.antt =====
-- Numbers that are written into a byte string, as in the header of a WAV file.
use b.Prelude.{
  ℕ, zero, suc, ◌+◌, ◌/◌, ◌%◌, ◌<◌, ◌≡◌, ◌≢◌, refl, ◌∙◌, ap, [], ◌∷◌, ◌++◌, length, set, get_or,
  Bytes, u32_mod, read_u32, u32_le_round_trip, arith, ◌⊎◌, inl, inr,
}
use b.Common.Speech.Wav.{write_u32}

length-set : (xs : Bytes) (i v : ℕ) → length (set xs i v) ≡ length xs
length-set [] i v = refl
length-set (x ∷ xs) zero v = refl
length-set (x ∷ xs) (suc i) v = ap suc (length-set xs i v)

get_or-set : (xs : Bytes) (i v : ℕ) → i < length xs → get_or (set xs i v) i 0 ≡ v
get_or-set [] i v h = absurd (omega arith)
get_or-set (x ∷ xs) zero v h = refl
get_or-set (x ∷ xs) (suc i) v h = get_or-set xs i v (omega arith)

get_or-set_other : (xs : Bytes) (i j v : ℕ) → i ≢ j → get_or (set xs i v) j 0 ≡ get_or xs j 0
get_or-set_other [] i j v h = refl
get_or-set_other (x ∷ xs) zero zero v h = absurd (h refl)
get_or-set_other (x ∷ xs) zero (suc j) v h = refl
get_or-set_other (x ∷ xs) (suc i) zero v h = refl
get_or-set_other (x ∷ xs) (suc i) (suc j) v h = get_or-set_other xs i j v (λ e. h (ap suc e))

pub length-write_u32 : (w : Bytes) (i n : ℕ) → length (write_u32 w i n) ≡ length w
unfolding write_u32
length-write_u32 w i n =
    length-set (set (set (set w i _) (i + 1) _) (i + 2) _) (i + 3) _
    ∙ length-set (set (set w i _) (i + 1) _) (i + 2) _
    ∙ length-set (set w i _) (i + 1) _
    ∙ length-set w i _

-- A byte outside of the four that are written.
get_or-write_u32_other :
    (w : Bytes) (i n j : ℕ)
    → i ≢ j
    → i + 1 ≢ j
    → i + 2 ≢ j
    → i + 3 ≢ j
    → get_or (write_u32 w i n) j 0 ≡ get_or w j 0
unfolding write_u32
get_or-write_u32_other w i n j h0 h1 h2 h3 =
    get_or-set_other _ (i + 3) j _ h3
    ∙ get_or-set_other _ (i + 2) j _ h2
    ∙ get_or-set_other _ (i + 1) j _ h1
    ∙ get_or-set_other w i j _ h0

pub read_u32-write_u32 :
    (w : Bytes) (i n : ℕ) → i + 3 < length w → n < u32_mod → read_u32 (write_u32 w i n) i ≡ n
unfolding write_u32
read_u32-write_u32 w i n inside small =
    let b0 = n % 256 in
    let b1 = n / 256 % 256 in
    let b2 = n / 65536 % 256 in
    let b3 = n / 16777216 % 256 in
    let w0 = set w i b0 in
    let w1 = set w0 (i + 1) b1 in
    let w2 = set w1 (i + 2) b2 in
    let w3 = set w2 (i + 3) b3 in
    let l0 : length w0 ≡ length w = length-set w i b0 in
    let l1 : length w1 ≡ length w0 = length-set w0 (i + 1) b1 in
    let l2 : length w2 ≡ length w1 = length-set w1 (i + 2) b2 in
    let e0 : get_or w3 i 0 ≡ b0 =
      get_or-set_other w2 (i + 3) i b3 (omega arith)
      ∙ get_or-set_other w1 (i + 2) i b2 (omega arith)
      ∙ get_or-set_other w0 (i + 1) i b1 (omega arith)
      ∙ get_or-set w i b0 (omega arith) in
    let e1 : get_or w3 (i + 1) 0 ≡ b1 =
      get_or-set_other w2 (i + 3) (i + 1) b3 (omega arith)
      ∙ get_or-set_other w1 (i + 2) (i + 1) b2 (omega arith)
      ∙ get_or-set w0 (i + 1) b1 (omega arith) in
    let e2 : get_or w3 (i + 2) 0 ≡ b2 =
      get_or-set_other w2 (i + 3) (i + 2) b3 (omega arith)
      ∙ get_or-set w1 (i + 2) b2 (omega arith) in
    let e3 : get_or w3 (i + 3) 0 ≡ b3 = get_or-set w2 (i + 3) b3 (omega arith) in
    rw (e0, e1, e2, e3) (u32_le_round_trip n small)

pub read_u32-write_u32_other :
    (w : Bytes) (i n j : ℕ)
    → (i + 3 < j) ⊎ (j + 3 < i)
    → read_u32 (write_u32 w i n) j ≡ read_u32 w j
read_u32-write_u32_other w i n j (inl later) =
    rw
      (
        get_or-write_u32_other w i n j (omega arith) (omega arith) (omega arith) (omega arith),
        get_or-write_u32_other w i n (j + 1) (omega arith) (omega arith) (omega arith)
            (omega arith),
        get_or-write_u32_other w i n (j + 2) (omega arith) (omega arith) (omega arith)
            (omega arith),
        get_or-write_u32_other w i n (j + 3) (omega arith) (omega arith) (omega arith)
            (omega arith),
      )
      refl
read_u32-write_u32_other w i n j (inr before) =
    rw
      (
        get_or-write_u32_other w i n j (omega arith) (omega arith) (omega arith) (omega arith),
        get_or-write_u32_other w i n (j + 1) (omega arith) (omega arith) (omega arith)
            (omega arith),
        get_or-write_u32_other w i n (j + 2) (omega arith) (omega arith) (omega arith)
            (omega arith),
        get_or-write_u32_other w i n (j + 3) (omega arith) (omega arith) (omega arith)
            (omega arith),
      )
      refl

-- What stands before an appended part.
pub read_u32-append : (w p : Bytes) (j : ℕ) → j + 3 < length w → read_u32 (w ++ p) j ≡ read_u32 w j
read_u32-append w p j h =
    rw
      (
        get_or-append w p j (omega arith),
        get_or-append w p (j + 1) (omega arith),
        get_or-append w p (j + 2) (omega arith),
        get_or-append w p (j + 3) (omega arith),
      )
      refl
  where
    get_or-append : (w p : Bytes) (j : ℕ) → j < length w → get_or (w ++ p) j 0 ≡ get_or w j 0
    get_or-append [] p j h = absurd (omega arith)
    get_or-append (x ∷ xs) p zero h = refl
    get_or-append (x ∷ xs) p (suc j) h = get_or-append xs p j (omega arith)
