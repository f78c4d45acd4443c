-- ===== src/Relay/Requests.antt =====
-- The map of pending requests.
use b.Prelude.{
  ℕ, ◌≡◌, refl, sym, ◌∙◌, ap, true, false, [], ◌∷◌, none, some, All, Bool-cases, inl, inr,
  none-some, true-false, Bytes, Text, same, same_refl, same→≡, starts_with, starts_with-append,
  append-nil,
}
use b.Relay.Messages.{is_final_response}
use b.Relay.Routing.{Requests, lookup, prefix_match, insert, remove, settled}

pub lookup-insert_self : (ps : Requests) (id : Text) (s : ℕ) → lookup (insert ps id s) id ≡ some s
unfolding lookup insert
lookup-insert_self [] id s = rw (same_refl id, lookup) refl
lookup-insert_self ((k, t) ∷ ps) id s = elim (Bool-cases (same k id)) [
  | inl e ↦ rw (e, insert) (rw (e, lookup) refl)
  | inr n ↦ rw (n, insert) (rw (n, lookup) (lookup-insert_self ps id s))
]

pub lookup-insert_other :
    (ps : Requests) (k id : Text) (s : ℕ)
    → same k id ≡ false
    → lookup (insert ps k s) id ≡ lookup ps id
unfolding lookup insert
lookup-insert_other [] k id s n = rw (n, lookup) refl
lookup-insert_other ((j, t) ∷ ps) k id s n = elim (Bool-cases (same j k)) [
  | inl e ↦
      let out : same j id ≡ false = ap (λ i. same i id) (same→≡ j k e) ∙ n in
      rw (e, out, insert, lookup) refl
  | inr f ↦ rw (f, insert, lookup, lookup-insert_other ps k id s n) refl
]

pub lookup-remove_other :
    (ps : Requests) (k id : Text) → same k id ≡ false → lookup (remove ps k) id ≡ lookup ps id
unfolding lookup remove
lookup-remove_other [] k id n = refl
lookup-remove_other ((j, t) ∷ ps) k id n = elim (Bool-cases (same j k)) [
  | inl e ↦
      let out : same j id ≡ false = ap (λ i. same i id) (same→≡ j k e) ∙ n in
      rw (e, out, remove, lookup) refl
  | inr f ↦ rw (f, remove, lookup, lookup-remove_other ps k id n) refl
]

remove_absent : (ps : Requests) (id : Text) → lookup ps id ≡ none → remove ps id ≡ ps
unfolding lookup remove
remove_absent [] id h = refl
remove_absent ((k, t) ∷ ps) id h = elim (Bool-cases (same k id)) [
  | inl e ↦
      let found : lookup ((k, t) ∷ ps) id ≡ some t = rw (e, lookup) refl in
      absurd (none-some (sym h ∙ found))
  | inr n ↦
      let rest : lookup ps id ≡ none = sym (rw (n, lookup) refl) ∙ h in
      rw (n, remove, remove_absent ps id rest) refl
]

starts_with_refl : (t : Text) → starts_with t t ≡ true
starts_with_refl t = ap (λ u. starts_with u t) (sym (append-nil t)) ∙ starts_with-append t []

pub lookup-unknown :
    (ps : Requests) (id : Text) → All (λ p. starts_with id p.0 ≡ false) ps → lookup ps id ≡ none
unfolding lookup
lookup-unknown [] id h = refl
lookup-unknown ((k, s) ∷ ps) id h = elim (Bool-cases (same k id)) [
  | inl e ↦
      absurd
        (true-false (sym (starts_with_refl id) ∙ ap (starts_with id) (sym (same→≡ k id e)) ∙ h.0))
  | inr n ↦ rw (n, lookup) (lookup-unknown ps id h.1)
]

pub prefix_match-unknown :
    (ps : Requests) (id : Text)
    → All (λ p. starts_with id p.0 ≡ false) ps
    → prefix_match ps id ≡ none
unfolding prefix_match
prefix_match-unknown [] id h = refl
prefix_match-unknown ((k, s) ∷ ps) id h = rw (h.0, prefix_match) (prefix_match-unknown ps id h.1)

pub settled_absent :
    (ps : Requests) (id : Text) (d : Bytes) → lookup ps id ≡ none → settled ps (some id) d ≡ ps
unfolding settled
settled_absent ps id d h = elim (Bool-cases (is_final_response d)) [
  | inl f ↦ rw (f, settled) (remove_absent ps id h)
  | inr n ↦ rw (n, settled) refl
]
