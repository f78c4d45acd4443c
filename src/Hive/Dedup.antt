-- ===== src/Hive/Dedup.antt =====
-- `HiveDedup` of crates/b3-cli/src/bridge/puller.rs: messages that come twice, by the event stream and by
-- polling. A text is the list of its characters; `hash` is the standard hasher on a sender and a prefix.
use b.Prelude.{
  ℕ, ◌+◌, ◌-◌, ◌≤◌, ◌<◌, ◌≡◌, refl, sym, ◌∙◌, ap, Bool, true, false, List, [], ◌∷◌, ◌++◌, length,
  take, drop, ltb, ◌==◌, if◌then◌else◌, arith, Bool-cases, inl, inr, length-append, length-drop,
  drop-drop, drop-append,
}

abbrev pub window : ℕ
window = 200

-- `VecDeque::contains`
unfoldable pub contains : List ℕ → ℕ → Bool
contains [] fp = false
contains (x ∷ xs) fp = let rest = contains xs fp in if x == fp then true else rest

-- `push_back`, and `pop_front` when that made more than 200
unfoldable pub mark : List ℕ → ℕ → List ℕ
mark dedup fp =
    if ltb window (length (dedup ++ (fp ∷ [])))
    then drop 1 (dedup ++ (fp ∷ []))
    else dedup ++ (fp ∷ [])

unfoldable pub check : List ℕ → ℕ → Bool × List ℕ
check dedup fp = if contains dedup fp then (true, dedup) else (false, mark dedup fp)

module _ (hash : List ℕ → List ℕ → ℕ) where
  unfoldable pub fingerprint : (sender text : List ℕ) → ℕ
  fingerprint sender text = hash sender (take 200 text)

  unfoldable pub check_and_mark : List ℕ → (sender text : List ℕ) → Bool × List ℕ
  check_and_mark dedup sender text = check dedup (fingerprint sender text)

  -- the answers to consecutive calls
  unfoldable pub answers : List ℕ → List (List ℕ × List ℕ) → List Bool
  answers dedup [] = []
  answers dedup ((sender, text) ∷ ms) =
      let (seen, rest) = check_and_mark dedup sender text in seen ∷ answers rest ms

  -- A message is a duplicate if its fingerprint is among the last 200 of those that were new; `all` are
  -- the fingerprints that were new, from the first on.
  unfoldable pub expected : List ℕ → List (List ℕ × List ℕ) → List Bool
  expected all [] = []
  expected all ((sender, text) ∷ ms) =
      let fp = fingerprint sender text in
      let seen = contains (drop (length all - window) all) fp in
      seen ∷ expected (if seen then all else all ++ (fp ∷ [])) ms

mark-drop :
    (all : List ℕ) (fp : ℕ)
    → mark (drop (length all - window) all) fp
      ≡ drop (length (all ++ (fp ∷ [])) - window) (all ++ (fp ∷ []))
unfolding mark
mark-drop all fp =
    let k = length all - window in
    let more = all ++ (fp ∷ []) in
    let kept : drop k all ++ (fp ∷ []) ≡ drop k more =
      sym (drop-append k all (fp ∷ []) (omega arith)) in
    let l : length more ≡ length all + 1 = length-append all (fp ∷ []) in
    elim (Bool-cases (ltb window (length (drop k all ++ (fp ∷ []))))) [
      | inl full ↦
          let over : window < length all + 1 - k =
            ground (arith, length-append (drop k all) (fp ∷ []), length-drop k all) in
          rw (full, mark)
            (ap (drop 1) kept ∙ drop-drop 1 k more ∙ ap (λ n. drop n more) (omega (arith, l, over)))
      | inr room ↦
          let under : length all + 1 - k ≤ window =
            ground (arith, length-append (drop k all) (fp ∷ []), length-drop k all) in
          rw (room, mark) (kept ∙ ap (λ n. drop n more) (omega (arith, l, under)))
    ]

module _ (hash : List ℕ → List ℕ → ℕ) where
  answers_from :
      (all : List ℕ) (ms : List (List ℕ × List ℕ))
      → answers hash (drop (length all - window) all) ms ≡ expected hash all ms
  unfolding answers expected check_and_mark check
  answers_from all [] = refl
  answers_from all ((sender, text) ∷ ms) =
      let fp = fingerprint hash sender text in
      elim (Bool-cases (contains (drop (length all - window) all) fp)) [
        | inl seen ↦ rw (seen, check_and_mark, check) (ap (λ r. true ∷ r) (answers_from all ms))
        | inr new ↦
            rw (new, check_and_mark, check, mark-drop all fp)
              (ap (λ r. false ∷ r) (answers_from (all ++ (fp ∷ [])) ms))
      ]

  -- Over any messages, a message is answered to be a duplicate exactly if the fingerprint of its sender
  -- and its first 200 characters is among the last 200 fingerprints that were new.
  pub answers-expected : (ms : List (List ℕ × List ℕ)) → answers hash [] ms ≡ expected hash [] ms
  answers-expected ms = answers_from [] ms
