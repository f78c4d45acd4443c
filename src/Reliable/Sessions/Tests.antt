-- ===== src/Reliable/Sessions/Tests.antt =====
-- Tests of session.rs.
use b.Prelude.{◌≡◌, refl, [], ◌∷◌, ◌++◌, List}
use b.Reliable.Channel.State.{default_config}
use b.Reliable.Sessions.Session.{Session, start_bridge, destroy}
use b.Reliable.Sessions.Session
use b.Reliable.Sessions.Tasks.{Step, run, started, occurrences, run-destroy}
use b.Reliable.Sessions.Manager.{Manager}

-- a session of number 5 and its bridge
abbrev fifth : Session
fifth = start_bridge (Session.new 5 default_config 1).0 10

abbrev ninth : Session
ninth = (Session.new 9 default_config 2).0

abbrev two : Manager
two = record { sessions = (5, fifth) ∷ (9, ninth) ∷ []; next = 1 }

abbrev life : List Step
life = Step.consume 20 ∷ Step.restart 3 21 ∷ Step.consume 22 ∷ []

run-destroy_example :
    occurrences 20
      ((run life (start_bridge ninth 10)).1 ++ (destroy (run life (start_bridge ninth 10)).0).1)
    ≡ occurrences 20 (10 ∷ started life)
unfolding Session.new
run-destroy_example = run-destroy 20 10 life ninth refl
