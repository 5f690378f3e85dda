-- ===== src/KernelList/Sort/Sorted.antt =====
-- The passes of list_sort, and the call as a whole.
use class_assignments.Prelude.{
  ℕ, zero, suc, ◌+◌, ◌<◌, ◌≡◌, refl, ◌∙◌, ap, List, [], ◌∷◌, arith, ◌==◌, length, ltb, Bool, true,
  false, Bool-cases, inl, inr, some,
}
use class_assignments.KernelList.{Links, tail_of, list_begin, list_end}
use class_assignments.KernelList.Chains.{count}
use class_assignments.KernelList.Nodes.{IsList}
use class_assignments.KernelList.Insert.{Kept}
use class_assignments.KernelList.Walk.{list_begin_lem, list_end_lem, IsList-real}
use class_assignments.KernelList.Sort.{pass_loop, sort_loop, list_sort, is_sorted}
use class_assignments.KernelList.Sort.Steps.{IsList-Steps_end, is_sorted_lem}
use class_assignments.KernelList.Sort.Runs.{runs, runs-length, runs-IsSorted}
use class_assignments.KernelList.Sort.Pass.{Passed, pass_loop-Passed}
use class_assignments.KernelList.Ordered.{IsSorted}

left_zero : (n : ℕ) → 0 + n ≡ n
left_zero n = omega arith

module _ (less : ℕ → ℕ → Bool) (asymmetric : (a b : ℕ) → less a b ≡ true → less b a ≡ false) where
  -- The list at `list`, of the elements `xs` before, holds the same ones in order.
  pub record IsSort (h h' : Links) (list : ℕ) (xs ys : List ℕ) : Type 0 where
    pub made : IsList h' list ys
    pub sorted : IsSorted less ys
    pub same : (j : ℕ) → count j ys ≡ count j xs
    pub size : length ys ≡ length xs
    pub kept : Kept h h' (list ∷ tail_of list ∷ xs)

  sort_again :
      (h h' : Links) (inner fuel list b e cnt : ℕ)
      → list_begin list h ≡ some b
      → list_end list ≡ some e
      → pass_loop less inner inner b e 0 h ≡ some (cnt, h')
      → ltb 1 cnt ≡ true
      → sort_loop less inner (suc fuel) list h ≡ sort_loop less inner fuel list h'
  unfolding sort_loop
  sort_again h h' inner fuel list b e cnt begin end pass more = rw (begin, end, pass, more) refl

  sort_done :
      (h h' : Links) (inner fuel list b e cnt : ℕ)
      → list_begin list h ≡ some b
      → list_end list ≡ some e
      → pass_loop less inner inner b e 0 h ≡ some (cnt, h')
      → ltb 1 cnt ≡ false
      → sort_loop less inner (suc fuel) list h ≡ some h'
  unfolding sort_loop
  sort_done h h' inner fuel list b e cnt begin end pass less_two =
      rw (begin, end, pass, less_two) refl

  sort_loop-IsSort :
      (h : Links) (inner fuel list : ℕ) (xs : List ℕ)
      → IsList h list xs
      → length xs < inner
      → runs less xs < fuel
      → (h' : Links) × (ys : List ℕ) × (sort_loop less inner fuel list h ≡ some h')
        × IsSort h h' list xs ys
  sort_loop-IsSort h inner zero list xs w l l' = absurd (omega arith)
  sort_loop-IsSort h inner (suc fuel) list xs w l l' =
      let p : Passed less h inner inner list [] xs 0 =
        pass_loop-Passed less asymmetric h inner inner list [] xs 0 w l l in
      let pass = p.run ∙ ap (λ k. some (k, p.h')) (left_zero p.out) in
      let begin = list_begin_lem h list xs w in
      let end = list_end_lem h list xs w in
      elim (Bool-cases (ltb 1 p.out)) [
        | inl more ↦
            let (h', ys, run, s) =
              sort_loop-IsSort p.h' inner fuel list p.ys p.made (ground (arith, p.size))
                (ground (arith, p.halved, p.fewer)) in
            (
              h',
              ys,
              sort_again h p.h' inner fuel list _ _ p.out begin end pass more ∙ run,
              record {
                made = s.made;
                sorted = s.sorted;
                same = λ j. s.same j ∙ p.same j;
                size = s.size ∙ p.size;
                kept = λ j out.
                    let first = p.kept j out in
                    let second = s.kept j (ground (arith, p.same j)) in
                    (second.0 ∙ first.0, second.1 ∙ first.1);
              },
            )
        | inr done ↦ (
          p.h',
          p.ys,
          sort_done h p.h' inner fuel list _ _ p.out begin end pass done,
          record {
            made = p.made;
            sorted = runs-IsSorted less p.ys (ground (arith, p.halved, p.fewer));
            same = p.same;
            size = p.size;
            kept = p.kept;
          },
        )
      ]

  list_sort_run :
      (h h' : Links) (fuel list b e : ℕ)
      → (list == 0) ≡ false
      → sort_loop less fuel fuel list h ≡ some h'
      → list_begin list h' ≡ some b
      → list_end list ≡ some e
      → is_sorted less fuel b e h' ≡ some true
      → list_sort less fuel list h ≡ some h'
  unfolding list_sort
  list_sort_run h h' fuel list b e real loop begin end sorted =
      rw (real, loop, begin, end, sorted) refl

  -- list_sort, on a well-formed list, by an asymmetric comparison, ends: with more fuel than
  -- elements for each of its loops it returns, and no ASSERT fails. The list is well formed and
  -- sorted afterwards, holds every element as often as before and as many in all, and no link of
  -- any other element has changed.
  pub list_sort-IsSort :
      (h : Links) (fuel list : ℕ) (xs : List ℕ)
      → IsList h list xs
      → length xs < fuel
      → (h' : Links) × (ys : List ℕ) × (list_sort less fuel list h ≡ some h')
        × IsSort h h' list xs ys
  list_sort-IsSort h fuel list xs w l =
      let (h', ys, run, s) =
        sort_loop-IsSort h fuel fuel list xs w l (ground (arith, runs-length less xs)) in
      let nonnull = IsList-real h list xs w in
      (
        h',
        ys,
        list_sort_run h h' fuel list _ _ (ground arith) run (list_begin_lem h' list ys s.made)
            (list_end_lem h' list ys s.made)
            (is_sorted_lem less h' fuel ys (tail_of list) (IsList-Steps_end h' list [] ys s.made)
              s.sorted (ground (arith, s.size))),
        s,
      )
