-- ===== src/Relay/Extract.antt =====
-- What `extract_msg_id` finds.
use b.Prelude.{
  ℕ, ◌≡◌, refl, sym, ◌∙◌, Bool, true, false, List, [], ◌∷◌, ◌++◌, none, some, length, drop, ◌==◌,
  All, if◌then◌else◌, arith, Bool-cases, inl, inr, Text, starts_with, starts_with-append,
  trim_start, is_whitespace, true-false,
}
use b.Relay.Messages.{after_key, strip, before, string_value, extract_from}

abbrev pub IsSpace : Text → Type 0
IsSpace t = All (λ c. is_whitespace c ≡ true) t

trim_start-append :
    (sp : Text) (c : ℕ) (t : Text)
    → IsSpace sp
    → is_whitespace c ≡ false
    → trim_start (sp ++ (c ∷ t)) ≡ c ∷ t
unfolding trim_start
trim_start-append [] c t h n = rw (n) refl
trim_start-append (d ∷ sp) c t h n = rw (h.0, trim_start-append sp c t h.1 n) refl

before-append :
    (c : ℕ) (id rest : Text)
    → All (λ d. (d == c) ≡ false) id
    → before c (id ++ (c ∷ rest)) ≡ some id
unfolding before
before-append c [] rest h = let e : (c == c) ≡ true = ground arith in rw (e, before) refl
before-append c (d ∷ id) rest h = rw (h.0, before, before-append c id rest h.1) refl

-- A value behind its key: spaces, a colon, spaces, and a string in quotes.
abbrev pub field_value : (sp tp id rest : Text) → Text
field_value sp tp id rest = sp ++ (58 ∷ (tp ++ (34 ∷ (id ++ (34 ∷ rest)))))

abbrev pub NoQuote : Text → Type 0
NoQuote id = All (λ d. (d == 34) ≡ false) id

string_value-field_value :
    (sp tp id rest : Text)
    → IsSpace sp
    → IsSpace tp
    → NoQuote id
    → string_value (field_value sp tp id rest) ≡ some id
unfolding string_value strip is_whitespace
string_value-field_value sp tp id rest hs ht hq =
    rw
      (
        trim_start-append sp 58 (tp ++ (34 ∷ (id ++ (34 ∷ rest)))) hs refl,
        string_value,
        strip,
        trim_start-append tp 34 (id ++ (34 ∷ rest)) ht refl,
      )
      (before-append 34 id rest hq)

drop-append_length : (p t : Text) → drop (length p) (p ++ t) ≡ t
drop-append_length [] t = refl
drop-append_length (c ∷ p) t = drop-append_length p t

-- A key that does not begin at any character of what stands before it.
unfoldable pub absent_in : (key pre rest : Text) → Bool
absent_in key [] rest = true
absent_in key (c ∷ pre) rest =
    let later = absent_in key pre rest in
    if starts_with (c ∷ (pre ++ rest)) key then false else later

after_key-append :
    (k : ℕ) (key pre rest : Text)
    → absent_in (k ∷ key) pre ((k ∷ key) ++ rest) ≡ true
    → after_key (k ∷ key) (pre ++ ((k ∷ key) ++ rest)) ≡ some rest
unfolding after_key absent_in
after_key-append k key [] rest h =
    rw (starts_with-append (k ∷ key) rest, after_key, drop-append_length key rest) refl
after_key-append k key (c ∷ pre) rest h =
    elim (Bool-cases (starts_with (c ∷ (pre ++ ((k ∷ key) ++ rest))) (k ∷ key))) [
      | inl t ↦ absurd (true-false (sym h ∙ rw (t, absent_in) refl))
      | inr f ↦
          let later : absent_in (k ∷ key) pre ((k ∷ key) ++ rest) ≡ true =
            sym (rw (f, absent_in) refl) ∙ h in
          rw (f, after_key) (after_key-append k key pre rest later)
    ]

-- A value that is no string: spaces, a colon, spaces, and a character other than a quote.
abbrev pub other_value : (sp tp : Text) (c : ℕ) (rest : Text) → Text
other_value sp tp c rest = sp ++ (58 ∷ (tp ++ (c ∷ rest)))

string_value-other_value :
    (sp tp : Text) (c : ℕ) (rest : Text)
    → IsSpace sp
    → IsSpace tp
    → is_whitespace c ≡ false
    → (c == 34) ≡ false
    → string_value (other_value sp tp c rest) ≡ none
unfolding string_value strip is_whitespace
string_value-other_value sp tp c rest hs ht nc nq =
    rw
      (
        trim_start-append sp 58 (tp ++ (c ∷ rest)) hs refl,
        string_value,
        strip,
        trim_start-append tp c rest ht nc,
        nq,
      )
      refl

extract_from-first :
    (earlier more : List Text) (key text after : Text)
    → All (λ k. after_key k text ≡ none) earlier
    → after_key key text ≡ some after
    → extract_from (earlier ++ (key ∷ more)) text ≡ string_value after
unfolding extract_from
extract_from-first [] more key text after h e = rw (e, extract_from) refl
extract_from-first (k ∷ earlier) more key text after h e =
    rw (h.0, extract_from) (extract_from-first earlier more key text after h.1 e)

module _ (earlier more : List Text) (k : ℕ) (key pre sp tp : Text) (hs : IsSpace sp)
    (ht : IsSpace tp) where
  -- Of the keys in their order, the first that occurs in a text gives the id, whatever later keys have: it
  -- is the string in quotes behind the key's first occurrence, with spaces around the colon or without.
  pub extract_from-string :
      (id rest : Text)
      → (absent_in (k ∷ key) pre ((k ∷ key) ++ field_value sp tp id rest) ≡ true)
      → All (λ e. after_key e (pre ++ ((k ∷ key) ++ field_value sp tp id rest)) ≡ none) earlier
      → NoQuote id
      → extract_from
          (earlier ++ ((k ∷ key) ∷ more))
          (pre ++ ((k ∷ key) ++ field_value sp tp id rest))
        ≡ some id
  extract_from-string id rest absent none_earlier quotes =
      let value = field_value sp tp id rest in
      extract_from-first earlier more (k ∷ key) (pre ++ ((k ∷ key) ++ value)) value none_earlier
        (after_key-append k key pre value absent)
      ∙ string_value-field_value sp tp id rest hs ht quotes

  -- If the first key that occurs has a value that is no string, there is no id, whatever later keys have.
  extract_from-other :
      (c : ℕ) (rest : Text)
      → (absent_in (k ∷ key) pre ((k ∷ key) ++ other_value sp tp c rest) ≡ true)
      → All (λ e. after_key e (pre ++ ((k ∷ key) ++ other_value sp tp c rest)) ≡ none) earlier
      → is_whitespace c ≡ false
      → (c == 34) ≡ false
      → extract_from
          (earlier ++ ((k ∷ key) ∷ more))
          (pre ++ ((k ∷ key) ++ other_value sp tp c rest))
        ≡ none
  extract_from-other c rest absent none_earlier space quote =
      let value = other_value sp tp c rest in
      extract_from-first earlier more (k ∷ key) (pre ++ ((k ∷ key) ++ value)) value none_earlier
        (after_key-append k key pre value absent)
      ∙ string_value-other_value sp tp c rest hs ht space quote
