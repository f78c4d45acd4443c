-- ===== src/Reliable/Sessions/Tasks.antt =====
-- A session's tasks are all aborted in the end, each as often as it was started.
use b.Prelude.{ℕ, suc, ◌+◌, ◌≡◌, ap, List, [], ◌∷◌, ◌++◌, none, ◌==◌, if◌then◌else◌, arith}
use b.Reliable.Sessions.Session.{
  Session, aborted, start_bridge, restart_bridge, set_event_task, destroy,
}

-- What a session's owner does while the session lives: a reconnect, or a new event consumer.
pub data Step : Type 0 where
  restart : ℕ → ℕ → Step
  consume : ℕ → Step

-- The session after the steps, and the tasks they aborted.
abbrev pub run : List Step → Session → Session × List ℕ
run [] s = (s, [])
run (Step.restart channel task ∷ steps) s =
    let r = restart_bridge s channel task in let rest = run steps r.0 in (rest.0, r.1 ++ rest.1)
run (Step.consume task ∷ steps) s =
    let r = set_event_task s task in let rest = run steps r.0 in (rest.0, r.1 ++ rest.1)

-- the tasks that the steps start
abbrev pub started : List Step → List ℕ
started [] = []
started (Step.restart channel task ∷ steps) = task ∷ started steps
started (Step.consume task ∷ steps) = task ∷ started steps

abbrev pub occurrences : ℕ → List ℕ → ℕ
occurrences t [] = 0
occurrences t (u ∷ us) = if t == u then suc (occurrences t us) else occurrences t us

-- the tasks of a session
abbrev pub held : Session → List ℕ
held s = aborted s.bridge_task ++ aborted s.event_task

occurrences-append :
    (t : ℕ) (us vs : List ℕ) → occurrences t (us ++ vs) ≡ occurrences t us + occurrences t vs
occurrences-append t [] vs = omega arith
occurrences-append t (u ∷ us) vs = ground (arith, occurrences-append t us vs)

-- Aborted tasks and held tasks are the tasks held before and the tasks started.
run-held :
    (t : ℕ) (steps : List Step) (s : Session)
    → occurrences t (run steps s).1 + occurrences t (held (run steps s).0)
      ≡ occurrences t (held s) + occurrences t (started steps)
unfolding restart_bridge set_event_task
run-held t [] s = omega arith
run-held t (Step.restart channel task ∷ steps) s =
    let next = (restart_bridge s channel task).0 in
    ground (
      arith,
      run-held t steps next,
      occurrences-append t (aborted s.bridge_task) (run steps next).1,
      occurrences-append t (aborted s.bridge_task) (aborted s.event_task),
    )
run-held t (Step.consume task ∷ steps) s =
    let next = (set_event_task s task).0 in
    ground (
      arith,
      run-held t steps next,
      occurrences-append t (aborted s.event_task) (run steps next).1,
      occurrences-append t (aborted s.bridge_task) (aborted s.event_task),
      occurrences-append t (aborted s.bridge_task) (task ∷ []),
    )

-- A session without an event consumer starts its bridge, goes through any reconnects and event consumers,
-- and is destroyed. Then each task was aborted exactly as often as it was started.
pub run-destroy :
    (t first : ℕ) (steps : List Step) (s : Session)
    → s.event_task ≡ none
    → let r = run steps (start_bridge s first) in
      occurrences t (r.1 ++ (destroy r.0).1) ≡ occurrences t (first ∷ started steps)
unfolding start_bridge destroy
run-destroy t first steps s h =
    let begun = start_bridge s first in
    ground (
      arith,
      ap (λ o. occurrences t (aborted o)) h,
      run-held t steps begun,
      occurrences-append t (run steps begun).1 (held (run steps begun).0),
    )
