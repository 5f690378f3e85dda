-- ===== src/Locks/Preserve.antt =====
-- The invariant of a lock where a thread moves on, and where it takes the semaphore.
use mathlib.Core.Bool.{true≢false}
use class_assignments.Prelude.{
  ℕ, ◌-◌, ◌<◌, ◌==◌, ◌≡◌, inl, inr, refl, sym, ◌∙◌, ap, arith, Bool, true, false, Bool-cases,
}
use class_assignments.Locks.{Place, taken, State, moved_to, is_blocked}
use class_assignments.Locks.Invariant.{IsSound, is_testing, is_holding, is_inside}

pub moved_to-same :
    (b : Place → Bool) (thread : ℕ) (p : Place) (place : ℕ → Place) (j : ℕ)
    → b (place thread) ≡ b p
    → b (moved_to thread p place j) ≡ b (place j)
moved_to-same b thread p place j e = elim (Bool-cases (thread == j)) [
  | inl here ↦ let same : thread ≡ j = ground arith in rw here (sym e ∙ ap (λ k. b (place k)) same)
  | inr away ↦ rw away refl
]

-- A thread moves, and the lock is the same.
pub move-IsSound :
    (s : State) (thread : ℕ) (p : Place)
    → is_inside (s.place thread) ≡ is_inside p
    → is_holding (s.place thread) ≡ is_holding p
    → is_blocked (s.place thread) ≡ is_blocked p
    → is_testing (s.place thread) ≡ false
    → IsSound s
    → IsSound (record s { place = moved_to thread p s.place })
move-IsSound s thread p inside hold block not_testing w =
    let i : (j : ℕ) → is_inside (moved_to thread p s.place j) ≡ is_inside (s.place j) =
      λ j. moved_to-same is_inside thread p s.place j inside in
    let o : (j : ℕ) → is_holding (moved_to thread p s.place j) ≡ is_holding (s.place j) =
      λ j. moved_to-same is_holding thread p s.place j hold in
    let k : (j : ℕ) → is_blocked (moved_to thread p s.place j) ≡ is_blocked (s.place j) =
      λ j. moved_to-same is_blocked thread p s.place j block in
    record {
      bound = w.bound;
      closed = λ t e. w.closed t (sym (i t) ∙ e);
      one = λ t u e e'. w.one t u (sym (i t) ∙ e) (sym (i u) ∙ e');
      owner = λ e. let (t, inside_t) = w.owner e in (t, i t ∙ inside_t);
      holds = λ t e. w.holds t (sym (o t) ∙ e);
      held = λ e. o s.lock.holder ∙ w.held e;
      waits = λ t e. w.waits t (sym (k t) ∙ e);
      asleep = λ t e. k t ∙ w.asleep t e;
      once = w.once;
      woken = elim w.woken [
        | inl nobody ↦ inl nobody
        | inr (inl full) ↦ inr (inl full)
        | inr (inr (t, e)) ↦ inr (inr (t, still_testing s.place thread p t not_testing e))
      ];
    }
  where
    still_testing :
        (place : ℕ → Place) (thread : ℕ) (p : Place) (t : ℕ)
        → is_testing (place thread) ≡ false
        → is_testing (place t) ≡ true
        → is_testing (moved_to thread p place t) ≡ true
    still_testing place thread p t unseen e = elim (Bool-cases (thread == t)) [
      | inl here ↦
          let same : thread ≡ t = ground arith in
          absurd (true≢false (sym e ∙ ap (λ j. is_testing (place j)) (sym same) ∙ unseen))
      | inr away ↦ rw away e
    ]

-- A thread takes the semaphore.
pub enter-IsSound :
    (s : State) (thread : ℕ)
    → is_holding (s.place thread) ≡ false
    → is_blocked (s.place thread) ≡ false
    → 0 < s.lock.semaphore.value
    → IsSound s
    → IsSound (record {
      lock = record {
        holder = s.lock.holder;
        semaphore = record {
          value = s.lock.semaphore.value - 1;
          waiters = s.lock.semaphore.waiters;
        };
      };
      place = moved_to thread taken s.place;
    })
enter-IsSound s thread hold block free w =
    let o : (j : ℕ) → is_holding (moved_to thread taken s.place j) ≡ is_holding (s.place j) =
      λ j. moved_to-same is_holding thread taken s.place j hold in
    let k : (j : ℕ) → is_blocked (moved_to thread taken s.place j) ≡ is_blocked (s.place j) =
      λ j. moved_to-same is_blocked thread taken s.place j block in
    let bound = w.bound in
    let only : (t : ℕ) → is_inside (moved_to thread taken s.place t) ≡ true → thread ≡ t = λ t e.
      elim (Bool-cases (thread == t)) [
        | inl here ↦ ground arith
        | inr away ↦ let full = w.closed t (rw away at e) in absurd (omega arith)
      ] in
    let here : (thread == thread) ≡ true = ground arith in
    record {
      bound = omega arith;
      closed = λ t e. omega arith;
      one = λ t u e e'. sym (only t e) ∙ only u e';
      owner = λ e. (thread, rw here refl);
      holds = λ t e. w.holds t (sym (o t) ∙ e);
      held = λ e. o s.lock.holder ∙ w.held e;
      waits = λ t e. w.waits t (sym (k t) ∙ e);
      asleep = λ t e. k t ∙ w.asleep t e;
      once = w.once;
      woken = inr (inl (omega arith));
    }
