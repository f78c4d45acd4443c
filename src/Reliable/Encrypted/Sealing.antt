-- ===== src/Reliable/Encrypted/Sealing.antt =====
-- The frames of the transport closure of crypto.rs: their nonces, and what the peer makes of them.
use b.Prelude.{
  ℕ, suc, ◌+◌, ◌*◌, ◌/◌, ◌%◌, ◌^◌, ◌≤◌, ◌<◌, ◌≡◌, ◌≢◌, refl, sym, ◌∙◌, ap, ap₂, subst, false, List,
  [], ◌∷◌, ◌++◌, Option, none, some, length, take, drop, ltb, Bytes, u32_mod, u64_mod, read_u32,
  u32_le_round_trip, All, arith, Option-cases, inl, inr, append_assoc,
}
use b.Reliable.Encrypted.Channel.{
  Crates, SendState, nonce_len, tag_len, counter_nonce, wire, transmit, transmit_all, decrypt_frame,
}

-- the counter that stands in a nonce
abbrev pub nonce_counter : Bytes → ℕ
nonce_counter n = read_u32 n 4 + u32_mod * read_u32 n 8

pub nonce_counter-counter_nonce : (n : ℕ) → n < u64_mod → nonce_counter (counter_nonce n) ≡ n
unfolding counter_nonce
nonce_counter-counter_nonce n h =
    ap₂ (λ a b. a + u32_mod * b) (u32_le_round_trip (n % u32_mod) (omega arith))
      (u32_le_round_trip (n / u32_mod) (omega arith))
    ∙ omega arith

pub take-counter_nonce :
    (n : ℕ) (c : Bytes) → take nonce_len (counter_nonce n ++ c) ≡ counter_nonce n
unfolding counter_nonce
take-counter_nonce n c = refl

pub drop-counter_nonce : (n : ℕ) (c : Bytes) → drop nonce_len (counter_nonce n ++ c) ≡ c
unfolding counter_nonce
drop-counter_nonce n c = refl

length-counter_nonce : (n : ℕ) (c : Bytes) → length (counter_nonce n ++ c) ≡ nonce_len + length c
unfolding counter_nonce
length-counter_nonce n c = omega arith

-- The wire frames carry growing counters above `lo`, up to `hi`.
abbrev pub Grows : (lo hi : ℕ) → List Bytes → Type 0
Grows lo hi [] = lo ≤ hi
Grows lo hi (w ∷ ws) =
    (n : ℕ) × (lo < n) × (n ≤ hi) × (take nonce_len w ≡ counter_nonce n) × Grows n hi ws

-- No two wire frames have the same nonce.
abbrev pub Distinct : List Bytes → Type 0
Distinct [] = Unit
Distinct (w ∷ ws) = All (λ v. take nonce_len v ≢ take nonce_len w) ws × Distinct ws

Grows-below : (lo lo' hi : ℕ) (ws : List Bytes) → lo' ≤ lo → Grows lo hi ws → Grows lo' hi ws
Grows-below lo lo' hi [] h g = omega arith
Grows-below lo lo' hi (w ∷ ws) h (n, a, b, e, g) = (n, omega arith, b, e, g)

Grows-other :
    (m lo hi : ℕ) (w : Bytes) (ws : List Bytes)
    → take nonce_len w ≡ counter_nonce m
    → m ≤ lo
    → hi < u64_mod
    → Grows lo hi ws
    → All (λ v. take nonce_len v ≢ take nonce_len w) ws
Grows-other m lo hi w [] e le small g = tt
Grows-other m lo hi w (v ∷ vs) e le small (n, a, b, q, g) = (
  λ same.
      let r : n ≡ m =
        sym (nonce_counter-counter_nonce n (omega arith))
        ∙ ap nonce_counter (sym q ∙ same ∙ e)
        ∙ nonce_counter-counter_nonce m (omega arith) in
      absurd (omega arith),
  Grows-other m n hi w vs e (omega arith) small g,
)

pub Grows-Distinct : (lo hi : ℕ) (ws : List Bytes) → hi < u64_mod → Grows lo hi ws → Distinct ws
Grows-Distinct lo hi [] small g = tt
Grows-Distinct lo hi (w ∷ ws) small (n, a, b, e, g) =
    (Grows-other n n hi w ws e (omega arith) small g, Grows-Distinct n hi ws small g)

module _ {Value : Type 0} (x : Crates Value) where
  Grows-wire :
      (n m hi : ℕ) (c : Option Bytes) (ws : List Bytes)
      → m < n
      → Grows n hi ws
      → n ≤ hi
      → Grows m hi (wire x n c ++ ws)
  unfolding wire
  Grows-wire n m hi none ws h g top = Grows-below n m hi ws (omega arith) g
  Grows-wire n m hi (some c) ws h g top = (n, h, top, take-counter_nonce n c, g)

  -- The frames that follow each other through the closure carry growing counters.
  pub transmit_all-Grows :
      (st : SendState) (key : Bytes) (fs : List Bytes)
      → st.cipher ≡ some key
      → st.counter + length fs < u64_mod
      → Grows st.counter (st.counter + length fs) (transmit_all x st fs).1
  unfolding transmit_all transmit
  transmit_all-Grows st key [] e small = omega arith
  transmit_all-Grows st key (f ∷ fs) e small =
      let n = (st.counter + 1) % u64_mod in
      let top : n + length fs ≡ st.counter + suc (length fs) = omega arith in
      rw (e, transmit, transmit_all)
        (Grows-wire n st.counter (st.counter + suc (length fs)) (x.encrypt key (counter_nonce n) f)
          _ (omega arith)
          (subst (λ hi. Grows n hi (transmit_all x (record st { counter = n }) fs).1) top
            (transmit_all-Grows (record st { counter = n }) key fs e (omega arith)))
          (omega arith))

  pub transmit_all-cipher :
      (st : SendState) (fs : List Bytes) → (transmit_all x st fs).0.cipher ≡ st.cipher
  unfolding transmit_all transmit
  transmit_all-cipher st [] = refl
  transmit_all-cipher st (f ∷ fs) = elim (Option-cases st.cipher) [
    | inl gone ↦ rw (gone, transmit_all, transmit) (transmit_all-cipher st fs ∙ gone)
    | inr (key, has) ↦
        rw (has, transmit_all, transmit)
          (transmit_all-cipher (record st { counter = (st.counter + 1) % u64_mod }) fs ∙ has)
  ]

  -- The closure runs on the frames of two calls as on those of one.
  pub transmit_all-append :
      (st : SendState) (fs gs : List Bytes)
      → transmit_all x st (fs ++ gs)
        ≡ (let r = transmit_all x st fs in let t = transmit_all x r.0 gs in (t.0, r.1 ++ t.1))
  unfolding transmit_all
  transmit_all-append st [] gs = refl
  transmit_all-append st (f ∷ fs) gs =
      let r = transmit x st f in
      let m = transmit_all x r.0 fs in
      rw
        (
          transmit_all-append r.0 fs gs,
          transmit_all,
          append_assoc r.1 m.1 (transmit_all x m.0 gs).1,
        )
        refl

-- What the development relies on of AES-GCM: decryption inverts encryption under the same key and
-- nonce, a ciphertext is longer by its tag, and every plaintext of at most 2^36 bytes is encrypted.
pub record AeadLaws {Value : Type 0} (x : Crates Value) : Type 0 where
  pub decrypts :
      (key nonce p c : Bytes) → x.encrypt key nonce p ≡ some c → x.decrypt key nonce c ≡ some p
  pub tagged :
      (key nonce p c : Bytes) → x.encrypt key nonce p ≡ some c → length c ≡ length p + tag_len
  pub encrypts :
      (key nonce p : Bytes) → length p ≤ 2 ^ 36 → (c : Bytes) × (x.encrypt key nonce p ≡ some c)

module _ {Value : Type 0} (x : Crates Value) (key : Bytes) where
  -- Each wire frame is opened to the frame of its place.
  abbrev pub Opens : List Bytes → List Bytes → Type 0
  Opens [] [] = Unit
  Opens [] (f ∷ fs) = ⊥
  Opens (w ∷ ws) [] = ⊥
  Opens (w ∷ ws) (f ∷ fs) = (decrypt_frame x (some key) w ≡ some f) × Opens ws fs

module _ {Value : Type 0} (x : Crates Value) (laws : AeadLaws x) where
  decrypt_frame-wire :
      (key f c : Bytes) (n : ℕ)
      → x.encrypt key (counter_nonce n) f ≡ some c
      → decrypt_frame x (some key) (counter_nonce n ++ c) ≡ some f
  unfolding decrypt_frame
  decrypt_frame-wire key f c n e =
      let long : ltb (length (counter_nonce n ++ c)) (nonce_len + tag_len) ≡ false =
        ground (arith, length-counter_nonce n c, laws.tagged key (counter_nonce n) f c e) in
      rw (long, decrypt_frame, take-counter_nonce n c, drop-counter_nonce n c)
        (laws.decrypts key (counter_nonce n) f c e)

  -- The peer opens each frame that the closure sealed to the frame that it was given.
  pub transmit_all-Opens :
      (st : SendState) (key : Bytes) (fs : List Bytes)
      → st.cipher ≡ some key
      → All (λ f. length f ≤ 2 ^ 36) fs
      → Opens x key (transmit_all x st fs).1 fs
  unfolding transmit_all transmit wire
  transmit_all-Opens st key [] e h = tt
  transmit_all-Opens st key (f ∷ fs) e h =
      let n = (st.counter + 1) % u64_mod in
      let (c, q) = laws.encrypts key (counter_nonce n) f h.0 in
      rw (e, transmit, transmit_all, q, wire)
        (
          decrypt_frame-wire key f c n q,
          transmit_all-Opens (record st { counter = n }) key fs e h.1,
        )
