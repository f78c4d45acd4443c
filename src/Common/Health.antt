-- ===== src/Common/Health.antt =====
-- The health registry of crates/b3-common/src/health.rs. A handle is the index it holds; `now` is
-- the clock's value, in seconds.
use Prim.Native.String.{String}
use b.Prelude.{
  ℕ, zero, suc, ◌-◌, ◌≤◌, ◌<◌, ◌≡◌, refl, subst, Bool-cases, inl, inr, Bool, true, false, ◌&&◌,
  List, [], ◌∷◌, ◌++◌, Option, none, some, map, length, get_elem?, ltb, leb, ◌==◌, if◌then◌else◌,
  succ32, u32_mod, arith,
}
pub mod Streak

-- `SubsystemState`
pub record State : Type 0 where
  pub name : String
  pub healthy : Bool
  pub last_success : Option ℕ
  pub last_failure : Option ℕ
  pub consecutive_failures : ℕ
  pub detail : String

-- `SubsystemHealth`, with the seconds since the last success and failure.
pub record Health : Type 0 where
  pub name : String
  pub healthy : Bool
  pub last_success : Option ℕ
  pub last_failure : Option ℕ
  pub consecutive_failures : ℕ
  pub detail : String

abbrev pub ago : ℕ → Option ℕ → Option ℕ
ago now none = none
ago now (some t) = some (now - t)

unfoldable pub snapshot : ℕ → State → Health
snapshot now s = record {
  name = s.name;
  healthy = s.healthy;
  last_success = ago now s.last_success;
  last_failure = ago now s.last_failure;
  consecutive_failures = s.consecutive_failures;
  detail = s.detail;
}

abbrev pub Registry : Type 0
Registry = List State

unfoldable pub registered : String → State
registered name = record {
  name = name;
  healthy = true;
  last_success = none;
  last_failure = none;
  consecutive_failures = 0;
  detail = "registered, no activity yet";
}

-- The registry and the new handle's index.
unfoldable pub register : Registry → String → Registry × ℕ
register subs name = (subs ++ (registered name ∷ []), length subs)

unfoldable pub report : ℕ → Registry → List Health
report now subs = map (snapshot now) subs

unfoldable pub is_healthy : Registry → Bool
is_healthy [] = true
is_healthy (s ∷ ss) = s.healthy && is_healthy ss

-- `subs.get_mut(self.index)` and the change made through it.
abbrev pub modify : (State → State) → ℕ → Registry → Registry
modify f i [] = []
modify f zero (s ∷ ss) = f s ∷ ss
modify f (suc i) (s ∷ ss) = s ∷ modify f i ss

unfoldable pub succeeded : ℕ → State → State
succeeded now s = record s {
  healthy = true;
  last_success = some now;
  consecutive_failures = 0;
  detail = "ok";
}

unfoldable pub failed : ℕ → String → State → State
failed now detail s =
    let n = succ32 s.consecutive_failures in
    record s {
      last_failure = some now;
      consecutive_failures = n;
      detail = detail;
      healthy = if leb 3 n then false else s.healthy;
    }

unfoldable pub record_success : Registry → ℕ → ℕ → Registry
record_success subs index now = modify (succeeded now) index subs

unfoldable pub record_failure : Registry → ℕ → ℕ → String → Registry
record_failure subs index now detail = modify (failed now detail) index subs

unfoldable pub set_detail : Registry → ℕ → String → Registry
set_detail subs index detail = modify (λ s. record s { detail = detail }) index subs
