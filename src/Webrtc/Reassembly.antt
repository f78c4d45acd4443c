-- ===== src/Webrtc/Reassembly.antt =====
-- The assembler of crates/b3-webrtc/src/channel.rs gives the message back, in whatever order and
-- however often its chunks come.
use Prim.Native.String.{String}
use b.Prelude.{
  ℕ, zero, suc, ◌+◌, ◌≤◌, ◌<◌, ◌≡◌, refl, sym, true, false, List, [], ◌∷◌, ◌++◌, ◌⊎◌, inl, inr,
  Option, none, some, length, get_or, set, replicate, ltb, leb, if◌then◌else◌, Bytes, min, joined,
  arith, ap, ap₂, subst, Bool-cases, some_inj,
}
use b.Webrtc.Message.{Message, max_chunks}
use b.Webrtc.Assembler.{Assembler, new, is_none, reassembled, store, assembled, feed}

-- Each slot is empty or holds the chunk of its index.
abbrev pub Slots : List (Option Bytes) → List Bytes → Type 0
Slots [] [] = Unit
Slots [] (c ∷ cs) = ⊥
Slots (o ∷ os) [] = ⊥
Slots (o ∷ os) (c ∷ cs) = ((o ≡ none) ⊎ (o ≡ some c)) × Slots os cs

-- the number of slots that hold a chunk
abbrev pub count_some : List (Option Bytes) → ℕ
count_some [] = 0
count_some (none ∷ os) = count_some os
count_some (some d ∷ os) = suc (count_some os)

-- The assembler holds chunks of these, and counts them.
pub record Building (a : Assembler) (cs : List Bytes) : Type 0 where
  pub size : a.total ≡ length cs
  pub slots : Slots a.chunks cs
  pub counted : a.received ≡ count_some a.chunks

pub Slots-length :
    (os : List (Option Bytes)) (cs : List Bytes) → Slots os cs → length os ≡ length cs
Slots-length [] [] h = refl
Slots-length [] (c ∷ cs) h = absurd h
Slots-length (o ∷ os) [] h = absurd h
Slots-length (o ∷ os) (c ∷ cs) h = ap suc (Slots-length os cs h.1)

Slots-set :
    (os : List (Option Bytes)) (cs : List Bytes) (i : ℕ)
    → i < length cs
    → Slots os cs
    → Slots (set os i (some (get_or cs i []))) cs
Slots-set [] [] i h s = absurd (omega arith)
Slots-set [] (c ∷ cs) i h s = absurd s
Slots-set (o ∷ os) [] i h s = absurd s
Slots-set (o ∷ os) (c ∷ cs) zero h s = (inr refl, s.1)
Slots-set (o ∷ os) (c ∷ cs) (suc i) h s = (s.0, Slots-set os cs i (omega arith) s.1)

count_some-set :
    (os : List (Option Bytes)) (i : ℕ) (d : Bytes)
    → i < length os
    → count_some (set os i (some d))
      ≡ (if is_none (get_or os i none) then count_some os + 1 else count_some os)
count_some-set [] i d h = absurd (omega arith)
count_some-set (none ∷ os) zero d h = omega arith
count_some-set (some e ∷ os) zero d h = refl
count_some-set (none ∷ os) (suc i) d h = count_some-set os i d (omega arith)
count_some-set (some e ∷ os) (suc i) d h = ground (arith, count_some-set os i d (omega arith))

count_some-le : (os : List (Option Bytes)) → count_some os ≤ length os
count_some-le [] = omega arith
count_some-le (none ∷ os) = omega (arith, count_some-le os)
count_some-le (some d ∷ os) = omega (arith, count_some-le os)

-- With every slot filled the reassembled bytes are the chunks in their order.
reassembled_full :
    (os : List (Option Bytes)) (cs : List Bytes)
    → Slots os cs
    → count_some os ≡ length os
    → reassembled os ≡ joined cs
unfolding reassembled
reassembled_full [] [] s full = refl
reassembled_full [] (c ∷ cs) s full = absurd s
reassembled_full (o ∷ os) [] s full = absurd s
reassembled_full (none ∷ os) (c ∷ cs) s full = absurd (omega (arith, count_some-le os))
reassembled_full (some d ∷ os) (c ∷ cs) (inl e, s) full = absurd (cc)
reassembled_full (some d ∷ os) (c ∷ cs) (inr e, s) full =
    ap₂ ◌++◌ (some_inj e) (reassembled_full os cs s (omega arith))

Slots-replicate : (cs : List Bytes) → Slots (replicate (length cs) none) cs
Slots-replicate [] = tt
Slots-replicate (c ∷ cs) = (inl refl, Slots-replicate cs)

count_some-replicate : (n : ℕ) → count_some (replicate n none) ≡ 0
count_some-replicate zero = refl
count_some-replicate (suc n) = count_some-replicate n

-- A new assembler for at most 256 chunks has room for each and holds none.
pub new-Building :
    (cs : List Bytes) (original_type : ℕ)
    → length cs ≤ max_chunks
    → Building (new (length cs) original_type) cs
unfolding new
new-Building cs original_type h =
    let e : length cs ≡ min (length cs) max_chunks = omega arith in
    record {
      size = omega arith;
      slots = subst (λ n. Slots (replicate n none) cs) e (Slots-replicate cs);
      counted = sym (count_some-replicate (min (length cs) max_chunks));
    }

store-Building :
    (a : Assembler) (cs : List Bytes) (i : ℕ)
    → i < length cs
    → Building a cs
    → Building (store a i (get_or cs i [])) cs
unfolding store
store-Building a cs i h v = record {
  size = v.size;
  slots = Slots-set a.chunks cs i h v.slots;
  counted = ground (
    arith,
    v.counted,
    count_some-set a.chunks i (get_or cs i []),
    Slots-length a.chunks cs v.slots,
  );
}

module _ {Value : Type 0} (from_slice : Bytes → Value ⊎ String) where
  -- What `feed` gives when its assembler is then `b`.
  abbrev outcome : Assembler → List Bytes → Option (Message Value)
  outcome b cs =
      if ltb (count_some b.chunks) (length cs)
      then none
      else assembled from_slice b.original_type (joined cs)

  feed-waits :
      (a : Assembler) (i : ℕ) (d : Bytes)
      → leb a.total i ≡ false
      → ltb (store a i d).received (store a i d).total ≡ true
      → feed from_slice a i d ≡ (store a i d, none)
  unfolding feed
  feed-waits a i d inside waits = rw (inside, waits)

  feed-full :
      (a : Assembler) (i : ℕ) (d : Bytes)
      → leb a.total i ≡ false
      → ltb (store a i d).received (store a i d).total ≡ false
      → feed from_slice a i d ≡ (
        store a i d,
        assembled from_slice (store a i d).original_type (reassembled (store a i d).chunks),
      )
  unfolding feed
  feed-full a i d inside full = rw (inside, full)

  -- Feeding a chunk of the message keeps the assembler's account of it. It gives the message, made
  -- of all chunks in their order, if every slot is filled then, and nothing before.
  pub feed-Building :
      (a : Assembler) (cs : List Bytes) (i : ℕ)
      → i < length cs
      → Building a cs
      → let r = feed from_slice a i (get_or cs i []) in
        Building r.0 cs
        × (r.1 ≡ (
            if ltb (count_some r.0.chunks) (length cs)
            then none
            else assembled from_slice r.0.original_type (joined cs)))
  feed-Building a cs i h v =
      let b = store a i (get_or cs i []) in
      let w = store-Building a cs i h v in
      let inside : leb a.total i ≡ false = ground (arith, v.size, h) in
      let same : ltb (count_some b.chunks) (length cs) ≡ ltb b.received b.total =
        ground (arith, w.counted, w.size) in
      elim (Bool-cases (ltb b.received b.total)) [
        | inl waits ↦
            subst (λ r. Building r.0 cs × (r.1 ≡ outcome r.0 cs))
              (sym (feed-waits a i (get_or cs i []) inside waits)) (w, rw (same, waits))
        | inr full ↦
            subst (λ r. Building r.0 cs × (r.1 ≡ outcome r.0 cs))
              (sym (feed-full a i (get_or cs i []) inside full))
              (
                w,
                rw (
                  same,
                  full,
                  reassembled_full b.chunks cs w.slots (
                      ground (
                        arith,
                        count_some-le b.chunks,
                        w.counted,
                        w.size,
                        Slots-length b.chunks cs w.slots,
                        full,
                      )),
                ),
              )
      ]
