-- ===== src/Common/Health/Streak.antt =====
-- The state of a subsystem in health.rs and the failures since its last success.
use Prim.Native.String.{String}
use b.Prelude.{
  ℕ, zero, suc, ◌≤◌, ◌<◌, ◌≡◌, refl, subst, Bool-cases, inl, inr, Bool, true, false, List, [], ◌∷◌,
  Option, none, some, map, length, get_elem?, ltb, ◌==◌, if◌then◌else◌, succ32, u32_mod, arith,
}
use b.Common.Health.{
  State, Registry, registered, modify, succeeded, failed, record_success, record_failure,
  set_detail,
}

-- what a handle's owner reports
pub data Event : Type 0 where
  success : ℕ → Event
  failure : ℕ → String → Event
  note : String → Event

abbrev pub apply : Registry → ℕ → Event → Registry
apply subs i (Event.success now) = record_success subs i now
apply subs i (Event.failure now d) = record_failure subs i now d
apply subs i (Event.note d) = set_detail subs i d

-- The registry after the reports of several handles, the last one first.
abbrev pub run : List (ℕ × Event) → Registry → Registry
run [] subs = subs
run ((i, e) ∷ es) subs = apply (run es subs) i e

-- The failures of one handle since its last success, from the reports, the last one first.
abbrev pub streak : ℕ → List (ℕ × Event) → ℕ
streak i [] = 0
streak i ((j, Event.success now) ∷ es) = if i == j then 0 else streak i es
streak i ((j, Event.failure now d) ∷ es) = if i == j then suc (streak i es) else streak i es
streak i ((j, Event.note d) ∷ es) = streak i es

-- Nobody has reported yet.
abbrev pub fresh : List String → Registry
fresh names = map registered names

-- The state counts so many failures in a row, and is healthy if they are fewer than three.
pub record Tells (s : State) (n : ℕ) : Type 0 where
  pub count : s.consecutive_failures ≡ n
  pub flag : s.healthy ≡ ltb n 3

abbrev pub Knows : ℕ → Option State → Type 0
Knows n none = ⊥
Knows n (some s) = Tells s n

abbrev on_some : (State → State) → Option State → Option State
on_some f none = none
on_some f (some s) = some (f s)

get_elem?-modify :
    (f : State → State) (j : ℕ) (subs : Registry) (i : ℕ)
    → get_elem? (modify f j subs) i
      ≡ (if i == j then on_some f (get_elem? subs i) else get_elem? subs i)
get_elem?-modify f j [] i = grind arith
get_elem?-modify f zero (s ∷ ss) zero = refl
get_elem?-modify f zero (s ∷ ss) (suc i) = grind arith
get_elem?-modify f (suc j) (s ∷ ss) zero = grind arith
get_elem?-modify f (suc j) (s ∷ ss) (suc i) = grind (arith, get_elem?-modify f j ss i)

Knows-fresh : (names : List String) (i : ℕ) → i < length names → Knows 0 (get_elem? (fresh names) i)
unfolding registered
Knows-fresh [] i h = absurd (omega arith)
Knows-fresh (n ∷ names) zero h = record { count = refl; flag = refl }
Knows-fresh (n ∷ names) (suc i) h = Knows-fresh names i (omega arith)

Knows-succeeded : (n now : ℕ) (o : Option State) → Knows n o → Knows 0 (on_some (succeeded now) o)
unfolding succeeded
Knows-succeeded n now none k = absurd k
Knows-succeeded n now (some s) k = record { count = refl; flag = refl }

Knows-failed :
    (n now : ℕ) (d : String) (o : Option State)
    → suc n < u32_mod
    → Knows n o
    → Knows (suc n) (on_some (failed now d) o)
unfolding failed
Knows-failed n now d none h k = absurd k
Knows-failed n now d (some s) h k =
    let next : succ32 s.consecutive_failures ≡ suc n = ground (arith, k.count, h) in
    record { count = next; flag = ground (arith, next, k.flag) }

Knows-modify :
    (f : State → State) (j : ℕ) (subs : Registry) (i m n : ℕ)
    → Knows m (on_some f (get_elem? subs i))
    → Knows n (get_elem? subs i)
    → Knows (if i == j then m else n) (get_elem? (modify f j subs) i)
Knows-modify f j subs i m n changed same = elim (Bool-cases (i == j)) [
  | inl here ↦ rw (get_elem?-modify f j subs i, here) changed
  | inr other ↦ rw (get_elem?-modify f j subs i, other) same
]

Knows-detail :
    (n : ℕ) (d : String) (o : Option State)
    → Knows n o
    → Knows n (on_some (λ s. record s { detail = d }) o)
Knows-detail n d none k = k
Knows-detail n d (some s) k = record { count = k.count; flag = k.flag }

if-same : (b : Bool) (n : ℕ) → (if b then n else n) ≡ n
if-same true n = refl
if-same false n = refl

streak-le : (i : ℕ) (es : List (ℕ × Event)) → streak i es ≤ length es
streak-le i [] = omega arith
streak-le i ((j, Event.success now) ∷ es) = ground (arith, streak-le i es)
streak-le i ((j, Event.failure now d) ∷ es) = ground (arith, streak-le i es)
streak-le i ((j, Event.note d) ∷ es) = omega (arith, streak-le i es)

-- After any reports of any handles, fewer than 2^32, the state of each handle counts the failures
-- since the handle's last success, and is healthy exactly if they are fewer than three. Reports of
-- other handles and details count for nothing.
pub run-Tells :
    (names : List String) (es : List (ℕ × Event)) (i : ℕ)
    → i < length names
    → length es < u32_mod
    → Knows (streak i es) (get_elem? (run es (fresh names)) i)
unfolding record_success record_failure set_detail
run-Tells names [] i h small = Knows-fresh names i h
run-Tells names ((j, Event.success now) ∷ es) i h small =
    let rest = run-Tells names es i h (omega arith) in
    let o = get_elem? (run es (fresh names)) i in
    Knows-modify (succeeded now) j (run es (fresh names)) i 0 (streak i es)
      (Knows-succeeded (streak i es) now o rest) rest
run-Tells names ((j, Event.failure now d) ∷ es) i h small =
    let rest = run-Tells names es i h (omega arith) in
    let o = get_elem? (run es (fresh names)) i in
    let bound : suc (streak i es) < u32_mod = omega (arith, streak-le i es) in
    Knows-modify (failed now d) j (run es (fresh names)) i (suc (streak i es)) (streak i es)
      (Knows-failed (streak i es) now d o bound rest) rest
run-Tells names ((j, Event.note d) ∷ es) i h small =
    let rest = run-Tells names es i h (omega arith) in
    let o = get_elem? (run es (fresh names)) i in
    let n = streak i es in
    subst (λ m. Knows m (get_elem? (run ((j, Event.note d) ∷ es) (fresh names)) i))
      (if-same (i == j) n)
      (Knows-modify (λ s. record s { detail = d }) j (run es (fresh names)) i n n
        (Knows-detail n d o rest) rest)
