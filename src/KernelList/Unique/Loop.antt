-- ===== src/KernelList/Unique/Loop.antt =====
-- list_unique: what its loop leaves in the list and in that of the duplicates.
use mathlib.Core.Path.{subst}
use class_assignments.Prelude.{
  ℕ, zero, suc, ◌+◌, ◌≤◌, ◌<◌, ◌≡◌, ◌≢◌, refl, sym, ◌∙◌, List, [], ◌∷◌, ◌++◌, arith, ◌==◌, length,
  Bool, true, false, Bool-cases, inl, inr, some,
}
use class_assignments.KernelList.{
  Links, tail_of, list_begin, list_end, list_next, list_empty, list_remove,
}
use class_assignments.KernelList.Chains.{count, count-++, append_assoc, ++-nil}
use class_assignments.KernelList.Nodes.{IsList}
use class_assignments.KernelList.Insert.{first_of, list_remove-IsList}
use class_assignments.KernelList.Move.{Nodes-Kept}
use class_assignments.KernelList.Walk.{list_begin_lem, list_end_lem, list_empty_lem, IsList-real}
use class_assignments.KernelList.Ends.{list_push_back-IsList}
use class_assignments.KernelList.Sort.Steps.{IsList-Steps_end}
use class_assignments.KernelList.Unique.{
  push_duplicate, equal, unique_loop, list_unique, firsts, others, all_firsts, all_others, IsTarget,
}

module _ (less : ℕ → ℕ → Bool) where
  -- A duplicate leaves the list and joins the others.
  move_duplicate :
      (h : Links) (list duplicates : ℕ) (us : List ℕ) (x : ℕ) (xs ds : List ℕ)
      → IsList h list (us ++ x ∷ xs)
      → IsTarget h duplicates ds (list ∷ tail_of list ∷ (us ++ x ∷ xs))
      → (h1 : Links) × (h2 : Links) × (list_remove x h ≡ some (first_of xs (tail_of list), h1))
        × (push_duplicate duplicates x h1 ≡ some h2)
        × IsList h2 list (us ++ xs)
        × IsTarget h2 duplicates (ds ++ x ∷ []) (list ∷ tail_of list ∷ (us ++ xs))
  unfolding push_duplicate
  move_duplicate h list duplicates us x xs ds w (inl null) =
      let (h1, run, left, kept) = list_remove-IsList h list x us xs w in
      let e : (duplicates == 0) ≡ true = ground arith in (h1, h1, run, rw e refl, left, inl null)
  move_duplicate h list duplicates us x xs ds w (inr (target, apart)) =
      let t = tail_of list in
      let dt = tail_of duplicates in
      let (h1, run, left, kept) = list_remove-IsList h list x us xs w in
      let sizes : (j : ℕ) → count j (us ++ x ∷ xs) ≡ count j us + count j (x ∷ xs) =
        λ j. count-++ j us (x ∷ xs) in
      let sizes' : (j : ℕ) → count j (us ++ xs) ≡ count j us + count j xs = λ j. count-++ j us xs in
      let real = IsList-real h duplicates ds target in
      let target1 : IsList h1 duplicates ds =
        Nodes-Kept h h1 (list ∷ t ∷ (us ++ xs)) duplicates (ds ++ dt ∷ []) kept
          (λ j. ground (arith, apart j, sizes j, sizes' j, count-++ j ds (dt ∷ []))) target in
      let x_real : x ≢ 0 = ground (arith, w.apart 0, sizes 0, count-++ 0 (us ++ x ∷ xs) (t ∷ [])) in
      let (h2, run', made, kept') =
        list_push_back-IsList h1 duplicates x ds target1 x_real
          (ground (arith, apart x, sizes x)) in
      let left2 : IsList h2 list (us ++ xs) =
        Nodes-Kept h1 h2 (duplicates ∷ dt ∷ x ∷ ds) list ((us ++ xs) ++ t ∷ []) kept'
          (λ j. ground (arith, apart j, sizes j, sizes' j, count-++ j (us ++ xs) (t ∷ []))) left in
      let e : (duplicates == 0) ≡ false = ground arith in
      (
        h1,
        h2,
        run,
        rw e run',
        left2,
        inr (made, λ j. ground (arith, apart j, sizes j, sizes' j, count-++ j ds (x ∷ []))),
      )

  step_duplicate :
      (h h1 h2 : Links) (fuel a end duplicates x after : ℕ)
      → list_next a h ≡ some x
      → (x == end) ≡ false
      → equal less a x ≡ true
      → list_remove x h ≡ some (after, h1)
      → push_duplicate duplicates x h1 ≡ some h2
      → unique_loop less (suc fuel) a end duplicates h ≡ unique_loop less fuel a end duplicates h2
  unfolding unique_loop
  step_duplicate h h1 h2 fuel a end duplicates x after next inner same remove push =
      rw (next, inner, same, remove, push) refl

  step_new :
      (h : Links) (fuel a end duplicates x : ℕ)
      → list_next a h ≡ some x
      → (x == end) ≡ false
      → equal less a x ≡ false
      → unique_loop less (suc fuel) a end duplicates h ≡ unique_loop less fuel x end duplicates h
  unfolding unique_loop
  step_new h fuel a end duplicates x next inner differ = rw (next, inner, differ) refl

  step_end :
      (h : Links) (fuel a end duplicates : ℕ)
      → list_next a h ≡ some end
      → unique_loop less (suc fuel) a end duplicates h ≡ some h
  unfolding unique_loop
  step_end h fuel a end duplicates next =
      let here : (end == end) ≡ true = ground arith in rw (next, here) refl

  unique_loop_lem :
      (h : Links) (fuel list duplicates : ℕ) (us : List ℕ) (a : ℕ) (xs ds : List ℕ)
      → IsList h list (us ++ a ∷ xs)
      → IsTarget h duplicates ds (list ∷ tail_of list ∷ (us ++ a ∷ xs))
      → length xs < fuel
      → (h' : Links) × (unique_loop less fuel a (tail_of list) duplicates h ≡ some h')
        × IsList h' list (us ++ a ∷ firsts less a xs)
        × IsTarget h' duplicates
            (ds ++ others less a xs)
            (list ∷ tail_of list ∷ (us ++ a ∷ firsts less a xs))
  unique_loop_lem h zero list duplicates us a xs ds w target l = absurd (omega arith)
  unique_loop_lem h (suc fuel) list duplicates us a [] ds w target l =
      let (next, prev, away, s) = IsList-Steps_end h list us (a ∷ []) w in
      (
        h,
        step_end h fuel a (tail_of list) duplicates next,
        w,
        subst (λ ns. IsTarget h duplicates ns (list ∷ tail_of list ∷ (us ++ a ∷ [])))
            (sym (++-nil ds)) target,
      )
  unique_loop_lem h (suc fuel) list duplicates us a (x ∷ xs) ds w target l =
      let t = tail_of list in
      let (next, prev, away, s) = IsList-Steps_end h list us (a ∷ x ∷ xs) w in
      let assoc = append_assoc us (a ∷ []) in
      let w1 : IsList h list ((us ++ a ∷ []) ++ x ∷ xs) =
        subst (λ ns. IsList h list ns) (sym (assoc (x ∷ xs))) w in
      let target1 : IsTarget h duplicates ds (list ∷ t ∷ ((us ++ a ∷ []) ++ x ∷ xs)) =
        subst (λ ns. IsTarget h duplicates ds (list ∷ t ∷ ns)) (sym (assoc (x ∷ xs))) target in
      elim (Bool-cases (equal less a x)) [
        | inl same ↦
            let (h1, h2, remove, push, left, target2) =
              move_duplicate h list duplicates (us ++ a ∷ []) x xs ds w1 target1 in
            let (h', run, made, joined) =
              unique_loop_lem h2 fuel list duplicates us a xs (ds ++ x ∷ [])
                (subst (λ ns. IsList h2 list ns) (assoc xs) left)
                (subst (λ ns. IsTarget h2 duplicates (ds ++ x ∷ []) (list ∷ t ∷ ns)) (assoc xs)
                  target2)
                (omega arith) in
            (
              h',
              step_duplicate h h1 h2 fuel a t duplicates x _ next s.2 same remove push ∙ run,
              rw same made,
              rw same (
                  subst (λ ns. IsTarget h' duplicates ns (list ∷ t ∷ (us ++ a ∷ firsts less a xs)))
                    (append_assoc ds (x ∷ []) (others less a xs)) joined),
            )
        | inr differ ↦
            let (h', run, made, joined) =
              unique_loop_lem h fuel list duplicates (us ++ a ∷ []) x xs ds w1 target1
                (omega arith) in
            (
              h',
              step_new h fuel a t duplicates x next s.2 differ ∙ run,
              rw differ (subst (λ ns. IsList h' list ns) (assoc (x ∷ firsts less x xs)) made),
              rw differ (
                  subst (λ ns. IsTarget h' duplicates (ds ++ others less x xs) (list ∷ t ∷ ns))
                    (assoc (x ∷ firsts less x xs)) joined),
            )
      ]

  unique_empty :
      (h : Links) (fuel list duplicates : ℕ)
      → (list == 0) ≡ false
      → list_empty list h ≡ some true
      → list_unique less fuel list duplicates h ≡ some h
  unfolding list_unique
  unique_empty h fuel list duplicates real empty = rw (real, empty) refl

  unique_run :
      (h h' : Links) (fuel list duplicates a t : ℕ)
      → (list == 0) ≡ false
      → list_empty list h ≡ some false
      → list_begin list h ≡ some a
      → list_end list ≡ some t
      → unique_loop less fuel a t duplicates h ≡ some h'
      → list_unique less fuel list duplicates h ≡ some h'
  unfolding list_unique
  unique_run h h' fuel list duplicates a t real empty begin end loop =
      rw (real, empty, begin, end, loop) refl

  -- list_unique, on a well-formed list, with as much fuel as elements, and either no list for
  -- the duplicates (NULL) or a well-formed one that shares no element with the list: the list
  -- keeps the first of each group of elements that follow each other and are all equal to that
  -- first one, and is well formed; the other elements, in their order, are at the end of the
  -- list for the duplicates, where there is one, which is well formed and apart from the list.
  pub list_unique_lem :
      (h : Links) (fuel list duplicates : ℕ) (xs ds : List ℕ)
      → IsList h list xs
      → IsTarget h duplicates ds (list ∷ tail_of list ∷ xs)
      → length xs ≤ fuel
      → (h' : Links) × (list_unique less fuel list duplicates h ≡ some h')
        × IsList h' list (all_firsts less xs)
        × IsTarget h' duplicates
            (ds ++ all_others less xs)
            (list ∷ tail_of list ∷ all_firsts less xs)
  list_unique_lem h fuel list duplicates [] ds w target l =
      let real = IsList-real h list [] w in
      (
        h,
        unique_empty h fuel list duplicates (ground arith) (list_empty_lem h list [] w),
        w,
        subst (λ ns. IsTarget h duplicates ns (list ∷ tail_of list ∷ [])) (sym (++-nil ds)) target,
      )
  list_unique_lem h fuel list duplicates (x ∷ xs) ds w target l =
      let real = IsList-real h list (x ∷ xs) w in
      let (h', run, made, joined) =
        unique_loop_lem h fuel list duplicates [] x xs ds w target (omega arith) in
      (
        h',
        unique_run h h' fuel list duplicates x (tail_of list) (ground arith)
            (list_empty_lem h list (x ∷ xs) w) (list_begin_lem h list (x ∷ xs) w)
            (list_end_lem h list (x ∷ xs) w) run,
        made,
        joined,
      )
