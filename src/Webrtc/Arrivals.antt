-- ===== src/Webrtc/Arrivals.antt =====
-- All chunks of one message arriving at the assembler of crates/b3-webrtc/src/channel.rs.
use Prim.Native.String.{String}
use b.Prelude.{
  ℕ, zero, suc, ◌≤◌, ◌<◌, ◌≡◌, ◌≢◌, refl, sym, ap, ap₂, replicate, min, ◌∙◌, Bool, true, false,
  ◌||◌, List, [], ◌∷◌, ◌++◌, ◌⊎◌, inl, inr, Option, none, some, length, get_or, set, ltb, leb, ◌==◌,
  if◌then◌else◌, Bytes, joined, All, arith, Bool-cases, append-nil, append_assoc,
}
use b.Webrtc.Message.{Message, max_chunks}
use b.Webrtc.Assembler.{Assembler, new, is_none, store, assembled, feed}
use b.Webrtc.Reassembly.{Building, count_some, new-Building, feed-Building, Slots-length}

-- a chunk of this number has not come
abbrev pub empty : ℕ → Assembler → Bool
empty k a = is_none (get_or a.chunks k none)

abbrev pub contains : ℕ → List ℕ → Bool
contains k [] = false
contains k (i ∷ is) = (i == k) || contains k is

empty-set :
    (os : List (Option Bytes)) (i k : ℕ) (d : Bytes)
    → i < length os
    → is_none (get_or (set os i (some d)) k none)
      ≡ (if i == k then false else is_none (get_or os k none))
empty-set [] i k d h = absurd (omega arith)
empty-set (o ∷ os) zero zero d h = refl
empty-set (o ∷ os) zero (suc k) d h = grind arith
empty-set (o ∷ os) (suc i) zero d h = grind arith
empty-set (o ∷ os) (suc i) (suc k) d h = grind (arith, empty-set os i k d (omega arith))

count_some-le : (os : List (Option Bytes)) → count_some os ≤ length os
count_some-le [] = omega arith
count_some-le (none ∷ os) = omega (arith, count_some-le os)
count_some-le (some d ∷ os) = omega (arith, count_some-le os)

count_some-lt :
    (os : List (Option Bytes)) (k : ℕ)
    → k < length os
    → is_none (get_or os k none) ≡ true
    → count_some os < length os
count_some-lt [] k h e = absurd (omega arith)
count_some-lt (none ∷ os) zero h e = omega (arith, count_some-le os)
count_some-lt (some d ∷ os) zero h e = absurd cc
count_some-lt (none ∷ os) (suc k) h e = omega (arith, count_some-le os)
count_some-lt (some d ∷ os) (suc k) h e = omega (arith, count_some-lt os k (omega arith) e)

count_some-full :
    (os : List (Option Bytes))
    → ((k : ℕ) → k < length os → is_none (get_or os k none) ≡ false)
    → count_some os ≡ length os
count_some-full [] h = refl
count_some-full (none ∷ os) h = absurd (ground (arith, h 0 (omega arith)))
count_some-full (some d ∷ os) h = ap suc (count_some-full os (λ k le. h (suc k) (omega arith)))

differ : (i k : ℕ) → (i == k) ≡ false → k ≢ i
differ i k h e = ground arith

either :
    (c d e : Bool) → (if c then false else if d then false else e) ≡ (if d || c then false else e)
either true true e = refl
either true false e = refl
either false true e = refl
either false false e = refl

empty-replicate : (n k : ℕ) → is_none (get_or (replicate n none) k none) ≡ true
empty-replicate zero k = refl
empty-replicate (suc n) zero = refl
empty-replicate (suc n) (suc k) = empty-replicate n k

empty-new : (total original_type k : ℕ) → empty k (new total original_type) ≡ true
unfolding new
empty-new total original_type k = empty-replicate (min total max_chunks) k

type-new : (total original_type : ℕ) → (new total original_type).original_type ≡ original_type
unfolding new
type-new total original_type = refl

module _ {Value : Type 0} (from_slice : Bytes → Value ⊎ String) where
  feed-store :
      (a : Assembler) (i : ℕ) (d : Bytes) → i < a.total → (feed from_slice a i d).0 ≡ store a i d
  unfolding feed
  feed-store a i d h =
      let inside : leb a.total i ≡ false = ground arith in
      elim (Bool-cases (ltb (store a i d).received (store a i d).total)) [
        | inl waits ↦ rw (inside, waits) refl
        | inr full ↦ rw (inside, full) refl
      ]

  empty-feed :
      (a : Assembler) (cs : List Bytes) (i k : ℕ)
      → i < length cs
      → Building a cs
      → empty k (feed from_slice a i (get_or cs i [])).0 ≡ (if i == k then false else empty k a)
  unfolding store
  empty-feed a cs i k h v =
      ap (empty k) (feed-store a i (get_or cs i []) (omega (arith, v.size)))
      ∙ empty-set a.chunks i k (get_or cs i []) (omega (arith, Slots-length a.chunks cs v.slots))

  type-feed :
      (a : Assembler) (i : ℕ) (d : Bytes)
      → i < a.total
      → (feed from_slice a i d).0.original_type ≡ a.original_type
  unfolding store
  type-feed a i d h = ap (λ b. b.original_type) (feed-store a i d h)

  abbrev pub given : Option (Message Value) → List (Message Value)
  given none = []
  given (some m) = m ∷ []

  -- The chunks of these numbers fed in this order, and the messages that are returned.
  abbrev pub feed_all : Assembler → List Bytes → List ℕ → Assembler × List (Message Value)
  feed_all a cs [] = (a, [])
  feed_all a cs (i ∷ is) =
      let r = feed from_slice a i (get_or cs i []) in
      let rest = feed_all r.0 cs is in (rest.0, given r.1 ++ rest.1)

  -- While the chunk `last` has not come: nothing is returned, and what has come is there.
  feed_all-waits :
      (a : Assembler) (cs : List Bytes) (last : ℕ) (is : List ℕ)
      → Building a cs
      → last < length cs
      → empty last a ≡ true
      → All (λ i. i < length cs) is
      → contains last is ≡ false
      → Building (feed_all a cs is).0 cs
        × ((feed_all a cs is).1 ≡ [])
        × ((feed_all a cs is).0.original_type ≡ a.original_type)
        × ((k : ℕ) → empty k (feed_all a cs is).0 ≡ (if contains k is then false else empty k a))
  feed_all-waits a cs last [] v lt gap within absent = (v, refl, refl, λ k. refl)
  feed_all-waits a cs last (i ∷ is) v lt gap (h, within) absent =
      let r = feed from_slice a i (get_or cs i []) in
      let step = feed-Building from_slice a cs i h v in
      let still : empty last r.0 ≡ true =
        empty-feed a cs i last h v
        ∙ (let miss : (i == last) ≡ false = ground (arith, absent) in rw (miss) gap) in
      let fewer : ltb (count_some r.0.chunks) (length cs) ≡ true = ground (
        arith,
        count_some-lt r.0.chunks last (omega (arith, Slots-length r.0.chunks cs step.0.slots))
            still,
        Slots-length r.0.chunks cs step.0.slots,
      ) in
      let nothing : r.1 ≡ none = step.1 ∙ rw (fewer) refl in
      let rest = feed_all-waits r.0 cs last is step.0 lt still within (ground (arith, absent)) in
      (
        rest.0,
        ap₂ (λ o l. given o ++ l) nothing rest.1,
        rest.2 ∙ type-feed a i (get_or cs i []) (omega (arith, v.size)),
        λ k.
            rest.3 k
            ∙ ap (λ e. if contains k is then false else e) (empty-feed a cs i k h v)
            ∙ either (contains k is) (i == k) (empty k a),
      )

  feed_all-snoc :
      (a : Assembler) (cs : List Bytes) (is : List ℕ) (last : ℕ)
      → (feed_all a cs (is ++ (last ∷ []))).1
        ≡ (feed_all a cs is).1
          ++ given (feed from_slice (feed_all a cs is).0 last (get_or cs last [])).1
  feed_all-snoc a cs [] last = append-nil (given (feed from_slice a last (get_or cs last [])).1)
  feed_all-snoc a cs (i ∷ is) last =
      let r = feed from_slice a i (get_or cs i []) in
      ap (λ l. given r.1 ++ l) (feed_all-snoc r.0 cs is last)
      ∙ sym (
          append_assoc (given r.1) (feed_all r.0 cs is).1
            (given (feed from_slice (feed_all r.0 cs is).0 last (get_or cs last [])).1))

  -- The chunks of a message of at most 256 chunks reach a new assembler in any order and with any
  -- repetitions; the last of them comes for the first time when every other one has come. Then
  -- exactly one result is given, with the last of them: all chunks joined in the message's order,
  -- read as the message's type says, or none if they do not read as that.
  pub feed_all-message :
      (cs : List Bytes) (original_type : ℕ) (is : List ℕ) (last : ℕ)
      → length cs ≤ max_chunks
      → last < length cs
      → All (λ i. i < length cs) is
      → contains last is ≡ false
      → ((k : ℕ) → k < length cs → k ≢ last → contains k is ≡ true)
      → (feed_all (new (length cs) original_type) cs (is ++ (last ∷ []))).1
        ≡ given (assembled from_slice original_type (joined cs))
  feed_all-message cs original_type is last fits lt within absent others =
      let a = new (length cs) original_type in
      let w =
        feed_all-waits a cs last is (new-Building cs original_type fits) lt
          (empty-new (length cs) original_type last) within absent in
      let b = (feed_all a cs is).0 in
      let r = feed from_slice b last (get_or cs last []) in
      let step = feed-Building from_slice b cs last lt w.0 in
      let size = Slots-length r.0.chunks cs step.0.slots in
      let filled : (k : ℕ) → k < length r.0.chunks → empty k r.0 ≡ false = λ k le.
        empty-feed b cs last k lt w.0 ∙ elim (Bool-cases (last == k)) [
          | inl same ↦ rw (same) refl
          | inr other ↦
              rw (other) (w.3 k ∙ rw (others k (omega (arith, size)) (differ last k other)) refl)
        ] in
      let done : ltb (count_some r.0.chunks) (length cs) ≡ false =
        ground (arith, count_some-full r.0.chunks filled, size) in
      let kind : r.0.original_type ≡ original_type =
        type-feed b last (get_or cs last []) (omega (arith, w.0.size))
        ∙ w.2
        ∙ type-new (length cs) original_type in
      let outcome : r.1 ≡ assembled from_slice original_type (joined cs) =
        step.1 ∙ (rw (done, kind) refl) in
      feed_all-snoc a cs is last ∙ ap₂ (λ l o. l ++ given o) w.1 outcome
