-- ===== src/Common/Backoff.antt =====
-- `Backoff` of crates/b3-common/src/backoff.rs; durations are in nanoseconds.
use b.Prelude.{
  ℕ, zero, suc, ◌+◌, ◌-◌, ◌*◌, ◌%◌, ◌≤◌, ◌<◌, min, ◌≡◌, ap, Bool, false, ◌&&◌, ◌||◌, List, [], ◌∷◌,
  ◌++◌, Option, none, some, ltb, ◌==◌, if◌then◌else◌, succ32, u32_mod, arith,
}
use b.Common.Limits.{failure_log_interval, nanoseconds}

pub record Backoff : Type 0 where
  pub base : ℕ
  pub max : ℕ
  pub current : ℕ
  pub consecutive_failures : ℕ

unfoldable pub new : ℕ → ℕ → Backoff
new base max = record { base = base; max = max; current = base; consecutive_failures = 0 }

-- `Duration::MAX` of the standard library; doubling past it panics.
abbrev pub duration_max : ℕ
duration_max = 18446744073709551616 * nanoseconds - 1

-- The new state and the delay; `none` is the panic of `self.current * 2`.
unfoldable pub next_delay : Backoff → Option (Backoff × ℕ)
next_delay b =
    let doubled = b.current * 2 in
    if ltb duration_max doubled
    then none
    else some (
      record b {
        current = min doubled b.max;
        consecutive_failures = succ32 b.consecutive_failures;
      },
      b.current,
    )

unfoldable pub next_delay_max : Backoff → Backoff × ℕ
next_delay_max b =
    (record b { current = b.max; consecutive_failures = succ32 b.consecutive_failures }, b.max)

unfoldable pub current_delay : Backoff → ℕ
current_delay b = b.current

unfoldable pub reset : Backoff → Backoff
reset b = record b { current = b.base; consecutive_failures = 0 }

unfoldable pub should_log : Backoff → Bool
should_log b =
    ltb 0 b.consecutive_failures
    && ((b.consecutive_failures == 1) || (b.consecutive_failures % failure_log_interval == 0))

-- a base delay doubled so many times
abbrev pub doubled : ℕ → ℕ → ℕ
doubled base zero = base
doubled base (suc n) = doubled base n * 2

-- So many failures in a row, with the delays between them.
abbrev pub fails : ℕ → Backoff → Option (Backoff × List ℕ)
fails zero b = some (b, [])
fails (suc n) b = elim (fails n b) [
  | none ↦ none
  | some (c, ds) ↦ elim (next_delay c) [ none ↦ none | some (e, d) ↦ some (e, ds ++ (d ∷ [])) ]
]

-- the delays that exponential backoff has between so many failures
abbrev pub delays : ℕ → ℕ → ℕ → List ℕ
delays base max zero = []
delays base max (suc n) = delays base max n ++ (min (doubled base n) max ∷ [])

-- From a reset backoff whose base is at most its maximum, and whose maximum can be doubled, any
-- number of failures below 2^32 is counted and gives the delays that double from the base up to
-- the maximum, and no call panics.
pub fails-reset :
    (b : Backoff) (n : ℕ)
    → b.base ≤ b.max
    → b.max * 2 ≤ duration_max
    → n < u32_mod
    → fails n (reset b)
      ≡ some (
        record b { current = min (doubled b.base n) b.max; consecutive_failures = n },
        delays b.base b.max n,
      )
unfolding reset next_delay
fails-reset b zero le room small =
    let e : b.base ≡ min b.base b.max = omega arith in
    ap (λ x. some (record b { current = x; consecutive_failures = 0 }, [])) e
fails-reset b (suc n) le room small =
    let rest = fails-reset b n le room (omega arith) in
    let fits : ltb duration_max (min (doubled b.base n) b.max * 2) ≡ false = ground arith in
    let next : min (min (doubled b.base n) b.max * 2) b.max ≡ min (doubled b.base n * 2) b.max =
      omega arith in
    let count : (n + 1) % u32_mod ≡ suc n = omega arith in rw (rest, fits, next, count)
