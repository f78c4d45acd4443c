-- ===== src/Hive/Trust.antt =====
-- What `pin_public_key` answers over the calls that a program makes.
use b.Prelude.{
  ℕ, ◌≡◌, refl, sym, ◌∙◌, ap, Bool, true, false, List, [], ◌∷◌, ◌++◌, Option, none, some, ◌>>=◌,
  length, ◌==◌, if◌then◌else◌, Bytes, as_bytes, Result, ok, err, All, arith, Bool-cases,
  Option-cases, same, is_whitespace, same_refl, same→≡, trim_text, inl, inr, true-false,
}
use mathlib.Core.List.{append_cancel_right}
use b.Hive.Envelope.{Crates}
use b.Hive.Pins.{KeysDir, key_file, read_to_string, write, parsed, cached, complete, pin_public_key}

-- A suffix changes nothing.
same-append : (a b c : List ℕ) → same (a ++ c) (b ++ c) ≡ same a b
same-append a b c = elim (Bool-cases (same a b)) [
  | inl e ↦ rw (same→≡ a b e, same_refl b) (same_refl (b ++ c))
  | inr n ↦ elim (Bool-cases (same (a ++ c) (b ++ c))) [
    | inl e ↦
        let equal : a ≡ b = append_cancel_right a b c (same→≡ (a ++ c) (b ++ c) e) in
        absurd (true-false (sym (same_refl b) ∙ sym (ap (λ d. same d b) equal) ∙ n))
    | inr m ↦ m ∙ sym n
  ]
]

-- Two tests on one side, of which the one fails and the other does not.
same_apart : (a b c : List ℕ) → same a b ≡ false → same a c ≡ true → same b c ≡ false
same_apart a b c n e = elim (Bool-cases (same b c)) [
  | inl t ↦ absurd (true-false (sym e ∙ ap (same a) (sym (same→≡ b c t)) ∙ n))
  | inr f ↦ f
]

-- A test that is made again.
again :
    (b : Bool) (x y z : Option (List ℕ))
    → (if b then x else y) ≡ (if b then x else if b then z else y)
again true x y z = refl
again false x y z = refl

-- What `read_to_string` reads after a write.
read_to_string-write :
    (d : KeysDir) (f g : Bytes) (t : List ℕ)
    → read_to_string (write d f t) g ≡ (if same f g then some t else read_to_string d g)
unfolding read_to_string write
read_to_string-write [] f g t = refl
read_to_string-write ((h, text) ∷ d) f g t = elim (Bool-cases (same h f)) [
  | inl e ↦
      let equal : h ≡ f = same→≡ h f e in
      rw (e, write, read_to_string, equal) (again (same f g) (some t) (read_to_string d g) text)
  | inr n ↦ elim (Bool-cases (same h g)) [
    | inl here ↦ rw (n, write, read_to_string, here, same_apart h f g n here) refl
    | inr there ↦ rw (n, write, read_to_string, there, read_to_string-write d f g t) refl
  ]
]

abbrev or_else : Option Bytes → Option Bytes → Option Bytes
or_else none o = o
or_else (some c) o = some c

or_else-none : (o : Option Bytes) → or_else o none ≡ o
or_else-none none = refl
or_else-none (some c) = refl

-- The first key of a name among the calls.
unfoldable pub trusted : List (Bytes × Bytes) → Bytes → Option Bytes
trusted [] n = none
trusted ((m, k) ∷ cs) n = let rest = trusted cs n in if same m n then some k else rest

trusted-append :
    (cs : List (Bytes × Bytes)) (m k n : Bytes)
    → trusted (cs ++ ((m, k) ∷ [])) n ≡ or_else (trusted cs n) (if same m n then some k else none)
unfolding trusted
trusted-append [] m k n = refl
trusted-append ((m', k') ∷ cs) m k n = elim (Bool-cases (same m' n)) [
  | inl e ↦ rw (e, trusted) refl
  | inr e ↦ rw (e, trusted) (trusted-append cs m k n)
]

module _ (x : Crates) where
  -- the answers to consecutive calls, of which every write is complete
  unfoldable pub answers : KeysDir → List (Bytes × Bytes) → List (Result Bool Bytes)
  answers dir [] = []
  answers dir ((m, k) ∷ cs) =
      let (answer, next) = pin_public_key x dir m k complete in answer ∷ answers next cs

-- What is answered about a key, when another one, or none, was the name's first.
abbrev verdict : Option Bytes → Bytes → Result Bool Bytes
verdict none k = ok true
verdict (some c) k = if same c k then ok false else err c

-- The answers by the first key of each name; `seen` are the calls before.
unfoldable pub expected : (seen calls : List (Bytes × Bytes)) → List (Result Bool Bytes)
expected seen [] = []
expected seen ((m, k) ∷ cs) = verdict (trusted seen m) k ∷ expected (seen ++ ((m, k) ∷ [])) cs

module _ (x : Crates) (base64 : (b : Bytes) → x.base64_decode (x.base64_encode b) ≡ some b)
    (no_space : (b : Bytes) → All (λ c. is_whitespace c ≡ false) (x.base64_encode b)) where
  parsed-base64_encode : (k : Bytes) → length k ≡ 32 → parsed x (x.base64_encode k) ≡ some k
  unfolding parsed
  parsed-base64_encode k h =
      let t : (length k == 32) ≡ true = ground (arith, h) in
      rw (trim_text (x.base64_encode k) (no_space k), base64 k, t, parsed) refl

  cached-write :
      (dir : KeysDir) (m n k : Bytes)
      → length k ≡ 32
      → cached x (write dir (key_file m) (x.base64_encode k)) n
        ≡ (if same m n then some k else cached x dir n)
  unfolding cached key_file
  cached-write dir m n k h =
      let old = read_to_string dir (key_file n) in
      let new : Option (List ℕ) = some (x.base64_encode k) in
      let read =
        read_to_string-write dir (key_file m) (key_file n) (x.base64_encode k)
        ∙ ap (λ b. if b then new else old) (same-append m n (as_bytes ".pub")) in
      ap (λ o. o >>= parsed x) read
      ∙ elim (Bool-cases (same m n)) [ inl e ↦ rw e (parsed-base64_encode k h) | inr e ↦ rw e refl ]

  -- A name that has a key keeps it, whatever is called.
  trusted_keeps :
      (cs : List (Bytes × Bytes)) (m k n c : Bytes)
      → trusted cs m ≡ some c
      → trusted (cs ++ ((m, k) ∷ [])) n ≡ trusted cs n
  trusted_keeps cs m k n c h = elim (Bool-cases (same m n)) [
    | inl e ↦
        let first : trusted cs n ≡ some c = ap (trusted cs) (sym (same→≡ m n e)) ∙ h in
        trusted-append cs m k n ∙ rw (first) refl
    | inr e ↦ trusted-append cs m k n ∙ rw e (or_else-none (trusted cs n))
  ]

  -- The first key of a name, and those of the others.
  trusted_first :
      (cs : List (Bytes × Bytes)) (m k n : Bytes) {known : Option Bytes}
      → trusted cs m ≡ none
      → known ≡ trusted cs n
      → (if same m n then some k else known) ≡ trusted (cs ++ ((m, k) ∷ [])) n
  trusted_first cs m k n h agree = elim (Bool-cases (same m n)) [
    | inl e ↦
        let first : trusted cs n ≡ none = ap (trusted cs) (sym (same→≡ m n e)) ∙ h in
        rw (trusted-append cs m k n, first, e) refl
    | inr e ↦ rw (trusted-append cs m k n, e, or_else-none (trusted cs n)) agree
  ]

  answers_from :
      (dir : KeysDir) (seen calls : List (Bytes × Bytes))
      → ((n : Bytes) → cached x dir n ≡ trusted seen n)
      → All (λ c. length c.1 ≡ 32) calls
      → answers x dir calls ≡ expected seen calls
  unfolding answers expected pin_public_key
  answers_from dir seen [] agree sizes = refl
  answers_from dir seen ((m, k) ∷ cs) agree sizes = elim (Option-cases (trusted seen m)) [
    | inl new ↦
        let agree_next : (n : Bytes)
            → cached x (write dir (key_file m) (x.base64_encode k)) n
              ≡ trusted (seen ++ ((m, k) ∷ [])) n =
          λ n. cached-write dir m n k sizes.0 ∙ trusted_first seen m k n new (agree n) in
        rw (agree m, new, pin_public_key, answers, expected)
          (ap (λ r. ok true ∷ r)
            (answers_from (write dir (key_file m) (x.base64_encode k)) (seen ++ ((m, k) ∷ [])) cs
              agree_next sizes.1))
    | inr (c, old) ↦
        let agree_next : (n : Bytes) → cached x dir n ≡ trusted (seen ++ ((m, k) ∷ [])) n =
          λ n. agree n ∙ sym (trusted_keeps seen m k n c old) in
        let rest = answers_from dir (seen ++ ((m, k) ∷ [])) cs agree_next sizes.1 in
        elim (Bool-cases (same c k)) [
          | inl e ↦
              rw (agree m, old, e, pin_public_key, answers, expected) (ap (λ r. ok false ∷ r) rest)
          | inr e ↦
              rw (agree m, old, e, pin_public_key, answers, expected) (ap (λ r. err c ∷ r) rest)
        ]
  ]

  -- From a directory without files, over any calls with keys of 32 bytes and names that have no slash, if
  -- every write of a key file succeeds, the first call for a name is answered `ok true`, and every later one
  -- by the first key: `ok false` for that key, and for any other one an error with that key. Names that
  -- differ stand for different files. Base64 is decoded to what was encoded and has no white space.
  pub answers-trusted :
      (calls : List (Bytes × Bytes))
      → All (λ c. length c.1 ≡ 32) calls
      → All (λ c. All (λ b. (b == 47) ≡ false) c.0) calls
      → answers x [] calls ≡ expected [] calls
  unfolding cached read_to_string trusted
  answers-trusted calls sizes plain = answers_from [] [] calls (λ n. refl) sizes
