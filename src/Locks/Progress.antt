-- ===== src/Locks/Progress.antt =====
-- From a state in which a thread waits for the lock to one in which it holds the lock.
use class_assignments.Prelude.{ℕ, ◌≡◌, ◌≢◌, some, List}
use class_assignments.Locks.{testing, holding, State, Section}

-- `s'` is a state that sections of threads lead to from `s`.
pub data Leads (s : State) : State → Type 0 where
  stays : Leads s s
  goes :
      {s1 s2 : State} (thread : ℕ)
      → thread ≢ 0
      → Leads s s1
      → Section s1 thread (some s2)
      → Leads s s2

-- A thread that tests a free semaphore gets to hold the lock.
Enters : State → ℕ → Type 0
Enters s t =
    (s' : State) × Leads s s'
    × (s'.place t ≡ holding)
    × (s'.lock.holder ≡ t)
    × (s'.lock.semaphore.value ≡ 0)
    × (s'.lock.semaphore.waiters ≡ s.lock.semaphore.waiters)

-- The thread inside leaves, and wakes the first waiter.
Leaves : State → ℕ → List ℕ → Type 0
Leaves s t ts =
    (s' : State) × Leads s s'
    × (s'.place t ≡ testing)
    × (s'.lock.semaphore.value ≡ 1)
    × (s'.lock.semaphore.waiters ≡ ts)

-- One waiter after the other gets the lock.
Gets : State → ℕ → Type 0
Gets s thread = (s' : State) × Leads s s' × (s'.place thread ≡ holding) × (s'.lock.holder ≡ thread)
