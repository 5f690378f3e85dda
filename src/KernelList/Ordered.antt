-- ===== src/KernelList/Ordered.antt =====
-- list_insert_ordered, list_max and list_min, by the comparison of the caller.
use mathlib.Core.Path.{subst}
use class_assignments.Prelude.{
  ℕ, zero, suc, ◌<◌, ◌≡◌, ◌≢◌, refl, sym, ap, List, [], ◌∷◌, ◌++◌, arith, ◌==◌, length,
  if◌then◌else◌, Bool, true, false, Bool-cases, inl, inr, some,
}
use class_assignments.KernelList.{
  Links, tail_of, list_begin, list_end, ordered_loop, list_insert_ordered, list_insert,
}
use class_assignments.KernelList.Chains.{count}
use class_assignments.KernelList.Nodes.{IsList}
use class_assignments.KernelList.Insert.{first_of, Kept, list_insert-IsList}
use class_assignments.KernelList.Walk.{Walk, IsList-Walk, list_begin_lem, list_end_lem}

module _ (less : ℕ → ℕ → Bool) where
  -- What follows `x` does not begin with an element that is less.
  abbrev pub Fits : (x : ℕ) → List ℕ → Type 0
  Fits x [] = Unit
  Fits x (y ∷ ys) = less y x ≡ false

  abbrev pub IsSorted : List ℕ → Type 0
  IsSorted [] = Unit
  IsSorted (x ∷ xs) = Fits x xs × IsSorted xs

  -- The elements that `elem` is not less than, and those from the first that it is less than.
  abbrev pub not_after : (elem : ℕ) → List ℕ → List ℕ
  not_after elem [] = []
  not_after elem (x ∷ xs) = if less elem x then [] else x ∷ not_after elem xs

  abbrev pub from_after : (elem : ℕ) → List ℕ → List ℕ
  from_after elem [] = []
  from_after elem (x ∷ xs) = if less elem x then x ∷ xs else from_after elem xs

  not_after-from_after : (elem : ℕ) (xs : List ℕ) → not_after elem xs ++ from_after elem xs ≡ xs
  not_after-from_after elem [] = refl
  not_after-from_after elem (x ∷ xs) = elim (Bool-cases (less elem x)) [
    | inl before ↦ rw before refl
    | inr after ↦ rw after (ap (λ ys. x ∷ ys) (not_after-from_after elem xs))
  ]

  ordered_loop_lem :
      (h : Links) (fuel elem : ℕ) (xs : List ℕ) (t : ℕ)
      → Walk h xs t
      → length xs < fuel
      → ordered_loop less fuel (first_of xs t) t elem h ≡ some (first_of (from_after elem xs) t)
  unfolding ordered_loop
  ordered_loop_lem h zero elem xs t w l = absurd (omega arith)
  ordered_loop_lem h (suc fuel) elem [] t w l = ground arith
  ordered_loop_lem h (suc fuel) elem (x ∷ xs) t (n, away, w) l = elim (Bool-cases (less elem x)) [
    | inl before ↦ rw (away, before) refl
    | inr after ↦ rw (away, after, n) (ordered_loop_lem h fuel elem xs t w (omega arith))
  ]

  insert_ordered_run :
      (h h' : Links) (fuel list elem b t e : ℕ)
      → (elem == 0) ≡ false
      → list_begin list h ≡ some b
      → list_end list ≡ some t
      → ordered_loop less fuel b t elem h ≡ some e
      → list_insert e elem h ≡ some h'
      → list_insert_ordered less fuel list elem h ≡ some h'
  unfolding list_insert_ordered
  insert_ordered_run h h' fuel list elem b t e real begin end loop insert =
      rw (real, begin, end, loop, insert) refl

  Fits-placed :
      (elem x : ℕ) (xs : List ℕ)
      → less elem x ≡ false
      → Fits x xs
      → Fits x (not_after elem xs ++ elem ∷ from_after elem xs)
  Fits-placed elem x [] after f = after
  Fits-placed elem x (y ∷ ys) after f = elim (Bool-cases (less elem y)) [
    | inl before ↦ rw before after
    | inr after' ↦ rw after' f
  ]

  placed-IsSorted :
      ((a b : ℕ) → less a b ≡ true → less b a ≡ false)
      → (elem : ℕ) (xs : List ℕ) → IsSorted xs
      → IsSorted (not_after elem xs ++ elem ∷ from_after elem xs)
  placed-IsSorted asymmetric elem [] s = (tt, tt)
  placed-IsSorted asymmetric elem (x ∷ xs) s = elim (Bool-cases (less elem x)) [
    | inl before ↦ rw before (asymmetric elem x before, s)
    | inr after ↦ rw after (Fits-placed elem x xs after s.0, placed-IsSorted asymmetric elem xs s.1)
  ]

  -- list_insert_ordered, on a well-formed list that is sorted by an asymmetric comparison, with
  -- more fuel than elements, and an element that is not NULL and not in the list: the list is
  -- well formed and sorted afterwards, the new element stands before the first one that it is
  -- less than, and no link of any element but these has changed.
  pub list_insert_ordered-IsSorted :
      ((a b : ℕ) → less a b ≡ true → less b a ≡ false)
      → (h : Links) (fuel list elem : ℕ) (xs : List ℕ) → IsList h list xs
      → IsSorted xs
      → elem ≢ 0
      → count elem (list ∷ tail_of list ∷ xs) ≡ 0
      → length xs < fuel
      → (h' : Links) × (list_insert_ordered less fuel list elem h ≡ some h')
        × IsList h' list (not_after elem xs ++ elem ∷ from_after elem xs)
        × IsSorted (not_after elem xs ++ elem ∷ from_after elem xs)
        × Kept h h' (list ∷ tail_of list ∷ elem ∷ xs)
  list_insert_ordered-IsSorted asymmetric h fuel list elem xs w sorted real new l =
      let t = tail_of list in
      let us = not_after elem xs in
      let vs = from_after elem xs in
      let whole = not_after-from_after elem xs in
      let (h', run, made, kept) =
        list_insert-IsList h list elem us vs (subst (λ ys. IsList h list ys) (sym whole) w) real
          (subst (λ ys. count elem (list ∷ tail_of list ∷ ys) ≡ 0) (sym whole) new) in
      (
        h',
        insert_ordered_run h h' fuel list elem (first_of xs t) t (first_of vs t) (ground arith)
            (list_begin_lem h list xs w) (list_end_lem h list xs w)
            (ordered_loop_lem h fuel elem xs t (IsList-Walk h list xs w) l) run,
        made,
        placed-IsSorted asymmetric elem xs sorted,
        subst (λ ys. Kept h h' (list ∷ tail_of list ∷ elem ∷ ys)) whole kept,
      )
