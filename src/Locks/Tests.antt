-- ===== src/Locks/Tests.antt =====
-- Two threads: 5 holds the lock, and 7 waits for it.
use class_assignments.Prelude.{◌≡◌, refl, arith, some, [], ◌∷◌}
use class_assignments.Locks.{
  State, idle, testing, blocked, taken, holding, releasing, moved_to, lock_init, initial, Section,
  acquires, tests, takes, releases, Reachable, start, step, acquire_start, acquire_round,
  acquire_end, release_start, sema_down,
}
use class_assignments.Locks.Invariant.{IsSound}
use class_assignments.Locks.Safety.{Reachable-IsSound, Section-runs}

abbrev asked : State
asked = record { lock = lock_init; place = moved_to 5 testing (λ j. idle) }

abbrev given : State
given = record {
  lock = record { holder = 0; semaphore = record { value = 0; waiters = [] } };
  place = moved_to 5 taken asked.place;
}

abbrev owned : State
owned = record {
  lock = record { holder = 5; semaphore = record { value = 0; waiters = [] } };
  place = moved_to 5 holding given.place;
}

abbrev asked_again : State
asked_again = record { lock = owned.lock; place = moved_to 7 testing owned.place }

abbrev waited : State
waited = record {
  lock = record { holder = 5; semaphore = record { value = 0; waiters = 7 ∷ [] } };
  place = moved_to 7 blocked asked_again.place;
}

abbrev let_go : State
let_go = record {
  lock = record { holder = 0; semaphore = record { value = 0; waiters = 7 ∷ [] } };
  place = moved_to 5 releasing waited.place;
}

waited-Reachable : Reachable waited
unfolding acquire_start acquire_round acquire_end sema_down
waited-Reachable =
    step {s = asked_again} 7 (omega arith)
      (step {s = owned} 7 (omega arith)
        (step {s = given} 5 (omega arith)
          (step {s = asked} 5 (omega arith)
            (step {s = initial} 5 (omega arith) start (acquires refl refl)) (tests refl refl))
          (takes refl refl))
        (acquires refl refl))
      (tests refl refl)

lets_go : Section waited 5 (some let_go)
unfolding release_start
lets_go = releases refl refl

Reachable-IsSound_example : IsSound waited
Reachable-IsSound_example = Reachable-IsSound waited waited-Reachable

Section-runs_example : (s' : State) × (some let_go ≡ some s') × Reachable s'
Section-runs_example = Section-runs waited 5 (some let_go) waited-Reachable (omega arith) lets_go
