-- ===== src/Locks/Safety.antt =====
-- The sections of lock_acquire, lock_try_acquire and lock_release, and the states they lead to.
use mathlib.Core.Path.{subst}
use class_assignments.Prelude.{
  ℕ, ◌==◌, ◌≡◌, ◌≢◌, inl, inr, refl, sym, ◌∙◌, ap, arith, true, false, Option, none, some, ltb,
  Bool-cases,
}
use class_assignments.Locks.{
  idle, testing, taken, holding, releasing, State, moved_to, is_blocked, Section, acquires, tries,
  tests, takes, releases, ups, Reachable, start, step, acquire_start, acquire_round, acquire_end,
  try_acquire, release_start, sema_down, sema_try_down,
}
use class_assignments.Locks.Invariant.{IsSound, initial-IsSound, is_testing, is_holding, is_inside}
use class_assignments.Locks.Preserve.{move-IsSound, enter-IsSound}
use class_assignments.Locks.Leave.{not_both, wait-IsSound, own-IsSound}
use class_assignments.Locks.Release.{release_end-IsSound}

module _ (s : State) (thread : ℕ) (real : thread ≢ 0) (w : IsSound s) where
  -- A thread that does not hold the lock passes the ASSERT.
  not_holder : is_holding (s.place thread) ≡ false → (s.lock.holder == thread) ≡ false
  not_holder e = elim (Bool-cases (s.lock.holder == thread)) [
    | inl owned ↦
        let same : s.lock.holder ≡ thread = ground arith in
        let own : s.lock.holder ≢ 0 = ground arith in
        absurd (
          not_both (is_holding (s.place thread))
            (subst (λ j. is_holding (s.place j) ≡ true) same (w.held own)) e)
    | inr other ↦ other
  ]

  acquires-IsSound :
      s.place thread ≡ idle → (s' : State) × (acquire_start thread s ≡ some s') × IsSound s'
  unfolding acquire_start
  acquires-IsSound at = (
    record s { place = moved_to thread testing s.place },
    rw (not_holder (ap is_holding at)) refl,
    move-IsSound s thread testing (ap is_inside at) (ap is_holding at) (ap is_blocked at)
        (ap is_testing at) w,
  )

  tries-IsSound :
      s.place thread ≡ idle → (s' : State) × (try_acquire thread s ≡ some s') × IsSound s'
  unfolding try_acquire sema_try_down
  tries-IsSound at = elim (Bool-cases (ltb 0 s.lock.semaphore.value)) [
    | inl free ↦ (
      _,
      rw (not_holder (ap is_holding at), free) refl,
      enter-IsSound s thread (ap is_holding at) (ap is_blocked at) (ground arith) w,
    )
    | inr full ↦ (
      _,
      rw (not_holder (ap is_holding at), full) refl,
      move-IsSound s thread idle (ap is_inside at) (ap is_holding at) (ap is_blocked at)
          (ap is_testing at) w,
    )
  ]

  tests-IsSound :
      s.place thread ≡ testing → (s' : State) × (acquire_round thread s ≡ some s') × IsSound s'
  unfolding acquire_round sema_down
  tests-IsSound at = elim (Bool-cases (s.lock.semaphore.value == 0)) [
    | inl full ↦ (_, rw full refl, wait-IsSound s thread at (ground arith) w)
    | inr free ↦ (
      _,
      rw free refl,
      enter-IsSound s thread (ap is_holding at) (ap is_blocked at) (ground arith) w,
    )
  ]

  takes-IsSound :
      s.place thread ≡ taken → (s' : State) × (acquire_end thread s ≡ some s') × IsSound s'
  unfolding acquire_end
  takes-IsSound at = (
    _,
    refl,
    own-IsSound s thread holding thread (ap is_inside at) refl refl refl (inl (refl, refl))
        (ap is_blocked at) (ap is_testing at) w,
  )

  releases-IsSound :
      s.place thread ≡ holding → (s' : State) × (release_start thread s ≡ some s') × IsSound s'
  unfolding release_start
  releases-IsSound at =
      let own = w.holds thread (ap is_holding at) in
      let held : (s.lock.holder == thread) ≡ true = ground arith in
      (
        _,
        rw held refl,
        own-IsSound s thread releasing 0 (ap is_inside at) refl refl refl (inr (refl, refl))
            (ap is_blocked at) (ap is_testing at) w,
      )

  pub Section-IsSound :
      (r : Option State) → Section s thread r → (s' : State) × (r ≡ some s') × IsSound s'
  Section-IsSound r (acquires at run) =
      let (s', e, w') = acquires-IsSound at in (s', sym run ∙ e, w')
  Section-IsSound r (tries at run) = let (s', e, w') = tries-IsSound at in (s', sym run ∙ e, w')
  Section-IsSound r (tests at run) = let (s', e, w') = tests-IsSound at in (s', sym run ∙ e, w')
  Section-IsSound r (takes at run) = let (s', e, w') = takes-IsSound at in (s', sym run ∙ e, w')
  Section-IsSound r (releases at run) =
      let (s', e, w') = releases-IsSound at in (s', sym run ∙ e, w')
  Section-IsSound r (ups at run) =
      let (s', e, w') = release_end-IsSound s thread at w in (s', sym run ∙ e, w')

some-injective : {s s' : State} → some s ≡ some s' → s ≡ s'
some-injective {s} {s'} e = ap (λ r. elim r as (λ x. State) [ none ↦ s | some k ↦ k ]) e

-- Whatever sections of lock_acquire, lock_try_acquire and lock_release any number of threads run
-- in any order, from a new lock on: the value of its semaphore is 0 or 1, and it is 0 just when
-- a thread has the semaphore, which is then a single one; the holder, where there is one, is the
-- thread between its acquisition and its release; the waiters are the blocked threads, each of
-- them once; and where there are waiters, the value is 0 or a thread is about to test it.
pub Reachable-IsSound : (s : State) → Reachable s → IsSound s
Reachable-IsSound s start = initial-IsSound
Reachable-IsSound s' (step {s} thread real before section) =
    let (s'', e, w) =
      Section-IsSound s thread real (Reachable-IsSound s before) (some s') section in
    subst IsSound (sym (some-injective e)) w

-- In every state that sections of threads lead to from a new lock on, each section that a thread
-- (not NULL) may run next, by where it stands in lock_acquire, lock_try_acquire or lock_release,
-- runs to its end: no ASSERT fails, not that of lock_acquire against a second acquisition, that
-- of lock_release, nor that of thread_unblock.
pub Section-runs :
    (s : State) (thread : ℕ) (r : Option State)
    → Reachable s
    → thread ≢ 0
    → Section s thread r
    → (s' : State) × (r ≡ some s') × Reachable s'
Section-runs s thread r before real section =
    let (s', e, w) = Section-IsSound s thread real (Reachable-IsSound s before) r section in
    (s', e, step thread real before (subst (λ k. Section s thread k) e section))
