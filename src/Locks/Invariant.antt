-- ===== src/Locks/Invariant.antt =====
-- The invariant of a lock and the threads that use it.
use class_assignments.Prelude.{ℕ, ◌≤◌, ◌<◌, ◌≡◌, ◌≢◌, ◌⊎◌, inl, refl, arith, Bool, true, false, []}
use class_assignments.Locks.{Place, testing, taken, holding, releasing, State, is_blocked, initial}
use class_assignments.KernelList.Chains.{count}

abbrev pub is_testing : Place → Bool
is_testing testing = true
is_testing p = false

abbrev pub is_holding : Place → Bool
is_holding holding = true
is_holding p = false

-- The thread has the semaphore.
abbrev pub is_inside : Place → Bool
is_inside taken = true
is_inside holding = true
is_inside releasing = true
is_inside p = false

pub record IsSound (s : State) : Type 0 where
  pub bound : s.lock.semaphore.value ≤ 1
  pub closed : (t : ℕ) → is_inside (s.place t) ≡ true → s.lock.semaphore.value ≡ 0
  pub one : (t u : ℕ) → is_inside (s.place t) ≡ true → is_inside (s.place u) ≡ true → t ≡ u
  pub owner : s.lock.semaphore.value ≡ 0 → (t : ℕ) × (is_inside (s.place t) ≡ true)
  pub holds : (t : ℕ) → is_holding (s.place t) ≡ true → s.lock.holder ≡ t
  pub held : s.lock.holder ≢ 0 → is_holding (s.place s.lock.holder) ≡ true
  pub waits : (t : ℕ) → is_blocked (s.place t) ≡ true → 0 < count t s.lock.semaphore.waiters
  pub asleep : (t : ℕ) → 0 < count t s.lock.semaphore.waiters → is_blocked (s.place t) ≡ true
  pub once : (t : ℕ) → count t s.lock.semaphore.waiters ≤ 1
  pub woken :
      (s.lock.semaphore.waiters ≡ [])
      ⊎ (s.lock.semaphore.value ≡ 0)
      ⊎ ((t : ℕ) × (is_testing (s.place t) ≡ true))

pub initial-IsSound : IsSound initial
initial-IsSound = record {
  bound = omega arith;
  closed = λ t e. absurd (ground (arith, e));
  one = λ t u e e'. absurd (ground (arith, e));
  owner = λ e. absurd (omega arith);
  holds = λ t e. absurd (ground (arith, e));
  held = λ e. absurd (ground arith);
  waits = λ t e. absurd (ground (arith, e));
  asleep = λ t e. absurd (omega arith);
  once = λ t. omega arith;
  woken = inl refl;
}
