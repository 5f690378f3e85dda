-- ===== src/Locks.antt =====
-- Semaphores and locks of cs439/proj4/threads/synch.c, shared by any number of threads.
-- A thread is its address, and NULL is 0. Code with interrupts disabled runs as one section; between
-- two sections of a thread any other threads may run. `none` is a failed ASSERT.
pub mod Invariant
pub mod Preserve
pub mod Leave
pub mod Release
pub mod Safety
pub mod Progress
mod Tests
use class_assignments.Prelude.{
  ℕ, ◌+◌, ◌-◌, ◌%◌, ◌^◌, ◌==◌, ◌≡◌, ◌≢◌, Bool, true, false, not, Option, none, some, List, [], ◌∷◌,
  ◌++◌, if◌then◌else◌, ltb, ◌>>=◌, ◌>>◌, assert,
}

-- Where a thread stands with the lock: outside; about to test `sema->value` in the loop of
-- sema_down; in thread_block; with the semaphore, before it is the holder; the holder; and in
-- lock_release before sema_up.
pub data Place : Type 0 where
  idle testing blocked taken holding releasing : Place

pub record Semaphore : Type 0 where
  pub value : ℕ
  pub waiters : List ℕ

pub record Lock : Type 0 where
  pub holder : ℕ
  pub semaphore : Semaphore

-- A lock, and where each thread stands with it.
pub record State : Type 0 where
  pub lock : Lock
  pub place : ℕ → Place

abbrev pub sema_init : (value : ℕ) → Semaphore
sema_init value = record { value = value; waiters = [] }

abbrev pub lock_init : Lock
lock_init = record { holder = 0; semaphore = sema_init 1 }

abbrev pub moved_to : (thread : ℕ) → Place → (ℕ → Place) → ℕ → Place
moved_to thread p place j = if thread == j then p else place j

abbrev pub is_blocked : Place → Bool
is_blocked blocked = true
is_blocked p = false

-- `thread_unblock`, with its ASSERT
unfoldable pub thread_unblock : (thread : ℕ) → (ℕ → Place) → Option (ℕ → Place)
thread_unblock thread place =
    assert (is_blocked (place thread)) >> some (moved_to thread testing place)

-- One round of the loop of sema_down: the thread has the semaphore, or waits.
unfoldable pub sema_down : (thread : ℕ) → Semaphore → Bool × Semaphore
sema_down thread sema =
    if sema.value == 0
    then (false, record sema { waiters = sema.waiters ++ thread ∷ [] })
    else (true, record sema { value = sema.value - 1 })

unfoldable pub sema_try_down : Semaphore → Bool × Semaphore
sema_try_down sema =
    if ltb 0 sema.value then (true, record sema { value = sema.value - 1 }) else (false, sema)

unfoldable pub sema_up : Semaphore → (ℕ → Place) → Option (Semaphore × (ℕ → Place))
sema_up sema place = elim sema.waiters [
  | [] ↦ some (record sema { value = (sema.value + 1) % 2 ^ 32 }, place)
  | thread ∷ waiters ↦ thread_unblock thread place >>= λ place'.
      some (record { value = (sema.value + 1) % 2 ^ 32; waiters = waiters }, place')
]

abbrev pub lock_held_by_current_thread : (thread : ℕ) → Lock → Bool
lock_held_by_current_thread thread lock = lock.holder == thread

-- lock_acquire up to sema_down
unfoldable pub acquire_start : (thread : ℕ) → State → Option State
acquire_start thread s =
    assert (not (lock_held_by_current_thread thread s.lock))
    >> some (record s { place = moved_to thread testing s.place })

-- A round of sema_down
unfoldable pub acquire_round : (thread : ℕ) → State → Option State
acquire_round thread s =
    let r = sema_down thread s.lock.semaphore in
    some (record {
      lock = record { holder = s.lock.holder; semaphore = r.1 };
      place = moved_to thread (if r.0 then taken else blocked) s.place;
    })

-- `lock->holder = thread_current ();`
unfoldable pub acquire_end : (thread : ℕ) → State → Option State
acquire_end thread s = some (record {
  lock = record { holder = thread; semaphore = s.lock.semaphore };
  place = moved_to thread holding s.place;
})

-- lock_try_acquire up to sema_try_down
unfoldable pub try_acquire : (thread : ℕ) → State → Option State
try_acquire thread s =
    assert (not (lock_held_by_current_thread thread s.lock))
    >> (let r = sema_try_down s.lock.semaphore in
        some (record {
          lock = record { holder = s.lock.holder; semaphore = r.1 };
          place = moved_to thread (if r.0 then taken else idle) s.place;
        }))

-- lock_release up to sema_up
unfoldable pub release_start : (thread : ℕ) → State → Option State
release_start thread s =
    assert (lock_held_by_current_thread thread s.lock)
    >> some (record {
      lock = record { holder = 0; semaphore = s.lock.semaphore };
      place = moved_to thread releasing s.place;
    })

-- sema_up of lock_release
unfoldable pub release_end : (thread : ℕ) → State → Option State
release_end thread s = sema_up s.lock.semaphore s.place >>= λ (semaphore, place). some (record {
  lock = record { holder = s.lock.holder; semaphore = semaphore };
  place = moved_to thread idle place;
})

-- The section that a thread runs next, by where it stands; where it chooses, by what it calls.
pub data Section (s : State) (thread : ℕ) (r : Option State) : Type 0 where
  acquires : s.place thread ≡ idle → acquire_start thread s ≡ r → Section s thread r
  tries : s.place thread ≡ idle → try_acquire thread s ≡ r → Section s thread r
  tests : s.place thread ≡ testing → acquire_round thread s ≡ r → Section s thread r
  takes : s.place thread ≡ taken → acquire_end thread s ≡ r → Section s thread r
  releases : s.place thread ≡ holding → release_start thread s ≡ r → Section s thread r
  ups : s.place thread ≡ releasing → release_end thread s ≡ r → Section s thread r

abbrev pub initial : State
initial = record { lock = lock_init; place = λ j. idle }

-- The states that sections of threads lead to.
pub data Reachable : State → Type 0 where
  start : Reachable initial
  step :
      {s s' : State} (thread : ℕ)
      → thread ≢ 0
      → Reachable s
      → Section s thread (some s')
      → Reachable s'
