-- ===== src/Hive/Order.antt =====
-- The order of two ids in hive.rs, and that both sides of a conversation compute the same text.
use b.Prelude.{
  ◌≡◌, refl, sym, ap, ap₂, true, false, [], ◌∷◌, Bool-cases, inl, inr, Bytes, arith, Bool,
  if◌then◌else◌, as_bytes, ◌++◌,
}
use b.Hive.Envelope.{text_le, ordered_ids, dm_info}

text_le-antisym : (s t : Bytes) → text_le s t ≡ true → text_le t s ≡ true → s ≡ t
unfolding text_le
text_le-antisym [] [] p q = refl
text_le-antisym [] (d ∷ t) p q = absurd (cc q)
text_le-antisym (c ∷ s) [] p q = absurd (cc p)
text_le-antisym (c ∷ s) (d ∷ t) p q =
    let e : c ≡ d = ground arith in
    let below : text_le s t ≡ true = ground arith in
    let above : text_le t s ≡ true = ground arith in ap₂ ◌∷◌ e (text_le-antisym s t below above)

text_le-total : (s t : Bytes) → text_le s t ≡ false → text_le t s ≡ true
unfolding text_le
text_le-total [] t p = absurd (cc p)
text_le-total (c ∷ s) [] p = refl
text_le-total (c ∷ s) (d ∷ t) p = ground (arith, text_le-total s t)

-- The order in which the ids are given does not matter.
pub ordered_ids_comm : (a b_ : Bytes) → ordered_ids a b_ ≡ ordered_ids b_ a
unfolding ordered_ids
ordered_ids_comm a b_ = elim (Bool-cases (text_le a b_)) [
  | inl le ↦ elim (Bool-cases (text_le b_ a)) [
    | inl ge ↦ ap₂ ordered_ids (text_le-antisym a b_ le ge) (sym (text_le-antisym a b_ le ge))
    | inr less ↦ rw (le, less, ordered_ids) refl
  ]
  | inr more ↦ rw (more, text_le-total a b_ more, ordered_ids) refl
]

pub dm_info_comm : (a b_ : Bytes) (e : Bool) → dm_info a b_ e ≡ dm_info b_ a e
unfolding dm_info
dm_info_comm a b_ e =
    ap (λ ids. (if e then as_bytes "dm-ephemeral:" else as_bytes "dm:") ++ ids)
      (ordered_ids_comm a b_)
