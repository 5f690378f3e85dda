-- ===== src/Locks/Release.antt =====
-- The end of lock_release: a waiting thread, if there is one, is woken.
use mathlib.Core.Path.{subst}
use class_assignments.Prelude.{
  ℕ, ◌+◌, ◌%◌, ◌^◌, ◌≤◌, ◌<◌, ◌==◌, ◌≡◌, ◌≢◌, ◌⊎◌, inl, inr, refl, sym, ap, arith, true, false,
  some, List, [], ◌∷◌, Bool-cases,
}
use class_assignments.Locks.{
  Place, idle, testing, releasing, State, moved_to, is_blocked, release_end, sema_up,
  thread_unblock,
}
use class_assignments.Locks.Invariant.{IsSound, is_testing, is_holding, is_inside}
use class_assignments.Locks.Leave.{not_both, holding-inside}
use class_assignments.KernelList.Chains.{count}

-- The state after it, where `waiters` are left and the threads stand at `place`.
abbrev pub released : (s : State) (waiters : List ℕ) (place : ℕ → Place) → State
released s waiters place = record {
  lock = record {
    holder = s.lock.holder;
    semaphore = record { value = (s.lock.semaphore.value + 1) % 2 ^ 32; waiters = waiters };
  };
  place = place;
}

module _ (s : State) (thread : ℕ) (at : s.place thread ≡ releasing) (w : IsSound s) where
  -- The others are outside.
  alone : (t : ℕ) → is_inside (s.place t) ≡ true → thread ≡ t
  alone t e = w.one thread t (ap is_inside at) e

  full : s.lock.semaphore.value ≡ 0
  full = w.closed thread (ap is_inside at)

  unheld : s.lock.holder ≡ 0
  unheld = elim (Bool-cases (s.lock.holder == 0)) [
    | inl null ↦ ground arith
    | inr owned ↦
        let real : s.lock.holder ≢ 0 = ground arith in
        let same = alone s.lock.holder (holding-inside (s.place s.lock.holder) (w.held real)) in
        absurd (
          not_both (is_holding (s.place thread))
            (subst (λ j. is_holding (s.place j) ≡ true) (sym same) (w.held real))
            (ap is_holding at))
  ]

  -- The thread leaves, where `place` has no thread inside but those that were.
  leave-IsSound :
      (waiters : List ℕ) (place : ℕ → Place)
      → ((t : ℕ) → is_inside (place t) ≡ true → is_inside (s.place t) ≡ true)
      → ((t : ℕ) → (thread == t) ≡ false → is_blocked (place t) ≡ true → 0 < count t waiters)
      → ((t : ℕ) → 0 < count t waiters → is_blocked (place t) ≡ true)
      → is_blocked (place thread) ≡ false
      → ((t : ℕ) → count t waiters ≤ 1)
      → (waiters ≡ []) ⊎ ((t : ℕ) × ((thread == t) ≡ false) × (is_testing (place t) ≡ true))
      → IsSound (released s waiters (moved_to thread idle place))
  leave-IsSound waiters place outside waits asleep no_block once woken =
      let nobody : (t : ℕ) → is_inside (moved_to thread idle place t) ≡ false = λ t.
        elim (Bool-cases (thread == t)) [
          | inl here ↦ rw here refl
          | inr away ↦ rw away (elim (Bool-cases (is_inside (place t))) [
            | inl inside ↦ let same = alone t (outside t inside) in absurd (ground arith)
            | inr not_inside ↦ not_inside
          ])
        ] in
      let value : (s.lock.semaphore.value + 1) % 2 ^ 32 ≡ 1 = rw full refl in
      record {
        bound = omega arith;
        closed = λ t e. absurd (not_both (is_inside (moved_to thread idle place t)) e (nobody t));
        one = λ t u e e'. absurd (not_both (is_inside (moved_to thread idle place t)) e (nobody t));
        owner = λ e. absurd (omega arith);
        holds = λ t e. absurd (
            not_both (is_inside (moved_to thread idle place t))
              (holding-inside (moved_to thread idle place t) e) (nobody t));
        held = λ e. absurd (e unheld);
        waits = λ t e. elim (Bool-cases (thread == t)) [
          | inl here ↦ absurd (not_both false (rw here at e) refl)
          | inr away ↦ waits t away (rw away at e)
        ];
        asleep = λ t e. elim (Bool-cases (thread == t)) [
          | inl here ↦
              let same : thread ≡ t = ground arith in
              absurd (
                not_both (is_blocked (place t)) (asleep t e)
                  (subst (λ j. is_blocked (place j) ≡ false) same no_block))
          | inr away ↦ rw away (asleep t e)
        ];
        once = once;
        woken = elim woken [
          | inl nobody_waits ↦ inl nobody_waits
          | inr (t, away, e) ↦ inr (inr (t, rw away e))
        ];
      }

  release_none :
      s.lock.semaphore.waiters ≡ []
      → release_end thread s ≡ some (released s [] (moved_to thread idle s.place))
  unfolding release_end sema_up
  release_none e = rw e refl

  release_one :
      (t : ℕ) (ts : List ℕ)
      → s.lock.semaphore.waiters ≡ t ∷ ts
      → is_blocked (s.place t) ≡ true
      → release_end thread s
        ≡ some (released s ts (moved_to thread idle (moved_to t testing s.place)))
  unfolding release_end sema_up thread_unblock
  release_one t ts e block = rw (e, block) refl

  pub release_end-IsSound : (s' : State) × (release_end thread s ≡ some s') × IsSound s'
  release_end-IsSound = by_waiters s.lock.semaphore.waiters refl
    where
      by_waiters :
          (ts : List ℕ)
          → s.lock.semaphore.waiters ≡ ts
          → (s' : State) × (release_end thread s ≡ some s') × IsSound s'
      by_waiters [] e = (
        _,
        release_none e,
        leave-IsSound [] s.place (λ t i. i)
            (λ t away block. subst (λ ns. 0 < count t ns) e (w.waits t block))
            (λ t l. absurd (omega arith)) (ap is_blocked at) (λ t. omega arith) (inl refl),
      )
      by_waiters (t ∷ ts) e =
          let once : (j : ℕ) → count j (t ∷ ts) ≤ 1 =
            λ j. subst (λ ns. count j ns ≤ 1) e (w.once j) in
          let block : is_blocked (s.place t) ≡ true =
            w.asleep t (subst (λ ns. 0 < count t ns) (sym e) (ground arith)) in
          let other : (thread == t) ≡ false = elim (Bool-cases (thread == t)) [
            | inl here ↦
                let same : thread ≡ t = ground arith in
                absurd (
                  not_both (is_blocked (s.place t)) block
                    (subst (λ j. is_blocked (s.place j) ≡ false) same (ap is_blocked at)))
            | inr away ↦ away
          ] in
          let other' : (t == thread) ≡ false = ground arith in
          let place = moved_to t testing s.place in
          (
            _,
            release_one t ts e block,
            leave-IsSound ts place
                (λ j i. elim (Bool-cases (t == j)) [
                  | inl here ↦ absurd (not_both false (rw here at i) refl)
                  | inr away ↦ rw away at i
                ])
                (λ j away b. elim (Bool-cases (t == j)) [
                  | inl here ↦ absurd (not_both false (rw here at b) refl)
                  | inr away' ↦
                      let l = subst (λ ns. 0 < count j ns) e (w.waits j (rw away' at b)) in
                      ground arith
                ])
                (λ j l. elim (Bool-cases (t == j)) [
                  | inl here ↦ absurd (ground (arith, once j))
                  | inr away' ↦
                      rw away' (w.asleep j (subst (λ ns. 0 < count j ns) (sym e) (ground arith)))
                ])
                (rw other' (ap is_blocked at)) (λ j. ground (arith, once j))
                (inr (t, other, let here : (t == t) ≡ true = ground arith in rw here refl)),
          )
