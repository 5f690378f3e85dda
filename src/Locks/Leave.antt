-- ===== src/Locks/Leave.antt =====
-- The sections that make a thread wait, that make it the holder, and that release the lock.
use mathlib.Core.Path.{subst}
use mathlib.Core.Bool.{true≢false}
use class_assignments.Prelude.{
  ℕ, ◌+◌, ◌==◌, ◌≡◌, ◌⊎◌, inl, inr, refl, sym, ◌∙◌, ap, arith, Bool, true, false, [], ◌∷◌, ◌++◌,
  ltb, Bool-cases,
}
use class_assignments.Locks.{
  Place, idle, testing, blocked, taken, holding, releasing, State, moved_to, is_blocked,
}
use class_assignments.Locks.Invariant.{IsSound, is_testing, is_holding, is_inside}
use class_assignments.Locks.Preserve.{moved_to-same}
use class_assignments.KernelList.Chains.{count, count-++}

pub holding-inside : (p : Place) → is_holding p ≡ true → is_inside p ≡ true
holding-inside holding e = refl
holding-inside idle e = e
holding-inside testing e = e
holding-inside blocked e = e
holding-inside taken e = refl
holding-inside releasing e = refl

pub not_both : (b : Bool) → b ≡ true → b ≡ false → ⊥
not_both b e e' = true≢false (sym e ∙ e')

-- A thread finds the semaphore at 0 and waits.
pub wait-IsSound :
    (s : State) (thread : ℕ)
    → s.place thread ≡ testing
    → s.lock.semaphore.value ≡ 0
    → IsSound s
    → IsSound (record {
      lock = record {
        holder = s.lock.holder;
        semaphore = record {
          value = s.lock.semaphore.value;
          waiters = s.lock.semaphore.waiters ++ thread ∷ [];
        };
      };
      place = moved_to thread blocked s.place;
    })
wait-IsSound s thread at full w =
    let ws = s.lock.semaphore.waiters in
    let i : (j : ℕ) → is_inside (moved_to thread blocked s.place j) ≡ is_inside (s.place j) =
      λ j. moved_to-same is_inside thread blocked s.place j (ap is_inside at) in
    let o : (j : ℕ) → is_holding (moved_to thread blocked s.place j) ≡ is_holding (s.place j) =
      λ j. moved_to-same is_holding thread blocked s.place j (ap is_holding at) in
    let size : (j : ℕ) → count j (ws ++ thread ∷ []) ≡ count j ws + count j (thread ∷ []) =
      λ j. count-++ j ws (thread ∷ []) in
    let absent : count thread ws ≡ 0 = elim (Bool-cases (ltb 0 (count thread ws))) [
      | inl there ↦ absurd (
          not_both (is_blocked (s.place thread)) (w.asleep thread (ground arith))
            (ap is_blocked at))
      | inr missing ↦ ground arith
    ] in
    record {
      bound = w.bound;
      closed = λ t e. w.closed t (sym (i t) ∙ e);
      one = λ t u e e'. w.one t u (sym (i t) ∙ e) (sym (i u) ∙ e');
      owner = λ e. let (t, inside_t) = w.owner e in (t, i t ∙ inside_t);
      holds = λ t e. w.holds t (sym (o t) ∙ e);
      held = λ e. o s.lock.holder ∙ w.held e;
      waits = λ t e. elim (Bool-cases (thread == t)) [
        | inl here ↦ ground (arith, size t)
        | inr away ↦ let before = w.waits t (rw away at e) in ground (arith, size t)
      ];
      asleep = λ t e. elim (Bool-cases (thread == t)) [
        | inl here ↦ rw here refl
        | inr away ↦ rw away (w.asleep t (ground (arith, size t)))
      ];
      once = λ t. elim (Bool-cases (thread == t)) [
        | inl here ↦
            let same : thread ≡ t = ground arith in
            let gone : count t ws ≡ 0 = subst (λ j. count j ws ≡ 0) same absent in
            ground (arith, size t)
        | inr away ↦ ground (arith, size t, w.once t)
      ];
      woken = inr (inl full);
    }

-- The thread with the semaphore becomes the holder, or stops to be it.
pub own-IsSound :
    (s : State) (thread : ℕ) (p : Place) (holder : ℕ)
    → is_inside (s.place thread) ≡ true
    → is_inside p ≡ true
    → is_testing p ≡ false
    → is_blocked p ≡ false
    → ((is_holding p ≡ true) × (holder ≡ thread)) ⊎ ((is_holding p ≡ false) × (holder ≡ 0))
    → is_blocked (s.place thread) ≡ false
    → is_testing (s.place thread) ≡ false
    → IsSound s
    → IsSound (record {
      lock = record { holder = holder; semaphore = s.lock.semaphore };
      place = moved_to thread p s.place;
    })
own-IsSound s thread p holder inside inside' no_test no_block owned no_block' no_test' w =
    let i : (j : ℕ) → is_inside (moved_to thread p s.place j) ≡ is_inside (s.place j) =
      λ j. moved_to-same is_inside thread p s.place j (inside ∙ sym inside') in
    let k : (j : ℕ) → is_blocked (moved_to thread p s.place j) ≡ is_blocked (s.place j) =
      λ j. moved_to-same is_blocked thread p s.place j (no_block' ∙ sym no_block) in
    let g : (j : ℕ) → is_testing (moved_to thread p s.place j) ≡ is_testing (s.place j) =
      λ j. moved_to-same is_testing thread p s.place j (no_test' ∙ sym no_test) in
    let here : (thread == thread) ≡ true = ground arith in
    record {
      bound = w.bound;
      closed = λ t e. w.closed t (sym (i t) ∙ e);
      one = λ t u e e'. w.one t u (sym (i t) ∙ e) (sym (i u) ∙ e');
      owner = λ e. let (t, inside_t) = w.owner e in (t, i t ∙ inside_t);
      holds = λ t e.
          let same : thread ≡ t =
            w.one thread t inside (sym (i t) ∙ holding-inside (moved_to thread p s.place t) e) in
          elim owned [
            | inl (yes_hold, is_thread) ↦ is_thread ∙ same
            | inr (no_hold, is_null) ↦
                let e' : is_holding (moved_to thread p s.place thread) ≡ true =
                  subst (λ j. is_holding (moved_to thread p s.place j) ≡ true) (sym same) e in
                absurd (not_both (is_holding p) (rw here at e') no_hold)
          ];
      held = λ e. elim owned [
        | inl (yes_hold, is_thread) ↦
            subst (λ j. is_holding (moved_to thread p s.place j) ≡ true) (sym is_thread)
              (rw here yes_hold)
        | inr (no_hold, is_null) ↦ absurd (e is_null)
      ];
      waits = λ t e. w.waits t (sym (k t) ∙ e);
      asleep = λ t e. k t ∙ w.asleep t e;
      once = w.once;
      woken = elim w.woken [
        | inl nobody ↦ inl nobody
        | inr (inl full) ↦ inr (inl full)
        | inr (inr (t, e)) ↦ inr (inr (t, g t ∙ e))
      ];
    }
