-- ===== src/KernelList/Sort/Steps.antt =====
-- The steps of the loops of list_sort along a range of the list.
use mathlib.Core.Path.{subst}
use class_assignments.Prelude.{
  ℕ, zero, suc, ◌≤◌, ◌<◌, ◌≡◌, ◌≢◌, refl, List, [], ◌∷◌, ◌++◌, arith, ◌==◌, length, Bool, true,
  false, Bool-cases, inl, inr, some,
}
use class_assignments.KernelList.{Links, tail_of, list_next, list_prev}
use class_assignments.KernelList.Chains.{Chain, count, count-++}
use class_assignments.KernelList.Nodes.{IsList, guard-next, guard-prev, next-real}
use class_assignments.KernelList.Insert.{first_of}
use class_assignments.KernelList.Walk.{Chain-first}
use class_assignments.KernelList.Sort.{sorted_loop, is_sorted, run_loop, find_end_of_run}
use class_assignments.KernelList.Sort.Runs.{after_run}
use class_assignments.KernelList.Ordered.{IsSorted}

-- list_next leads from each of `vs` to the one after it, list_prev leads back, and none is the end.
abbrev pub Steps : (h : Links) (vs : List ℕ) (t : ℕ) → Type 0
Steps h [] t = Unit
Steps h (v ∷ vs) t =
    (list_next v h ≡ some (first_of vs t))
    × (list_prev (first_of vs t) h ≡ some v)
    × ((v == t) ≡ false)
    × Steps h vs t

Chain-prev_first :
    (h : Links) (a : ℕ) (vs : List ℕ) (t : ℕ)
    → Chain h a (vs ++ t ∷ [])
    → h.prev (first_of vs t) ≡ a
Chain-prev_first h a [] t (n, p, c) = p
Chain-prev_first h a (v ∷ vs) t (n, p, c) = p

first-real : (vs : List ℕ) (t : ℕ) → count 0 (vs ++ t ∷ []) ≡ 0 → first_of vs t ≢ 0
first-real [] t none_null = ground arith
first-real (v ∷ vs) t none_null = ground arith

Chain-Steps :
    (h : Links) (a : ℕ) (vs : List ℕ) (t : ℕ)
    → Chain h a (vs ++ t ∷ [])
    → count 0 (vs ++ t ∷ []) ≡ 0
    → count t vs ≡ 0
    → Steps h vs t
unfolding list_next list_prev
Chain-Steps h a [] t c none_null out = tt
Chain-Steps h a (v ∷ vs) t (n, p, c) none_null out =
    let real : v ≢ 0 = ground arith in
    let next = next-real h v vs t [] c (ground arith) in
    let prev : h.prev (first_of vs t) ≢ 0 = rw (Chain-prev_first h v vs t c) real in
    (
      rw (guard-next h v real next, Chain-first h v vs t c) refl,
      rw
          (
            guard-prev h (first_of vs t) (first-real vs t (ground arith)) prev,
            Chain-prev_first h v vs t c,
          )
          refl,
      ground arith,
      Chain-Steps h v vs t c (ground arith) (ground arith),
    )

-- Dropping what is before a range, and what is behind it.
Steps-drop : (h : Links) (us vs : List ℕ) (t : ℕ) → Steps h (us ++ vs) t → Steps h vs t
Steps-drop h [] vs t s = s
Steps-drop h (u ∷ us) vs t (n, p, away, s) = Steps-drop h us vs t s

pub first_of-++ : (us vs : List ℕ) (t : ℕ) → first_of (us ++ vs) t ≡ first_of us (first_of vs t)
first_of-++ [] vs t = refl
first_of-++ (u ∷ us) vs t = refl

Steps-take :
    (h : Links) (vs ws : List ℕ) (t : ℕ)
    → count (first_of ws t) vs ≡ 0
    → Steps h (vs ++ ws) t
    → Steps h vs (first_of ws t)
Steps-take h [] ws t out s = tt
Steps-take h (v ∷ vs) ws t out (n, p, away, s) =
    let e = first_of-++ vs ws t in
    (
      subst (λ k. list_next v h ≡ some k) e n,
      subst (λ k. list_prev k h ≡ some v) e p,
      ground arith,
      Steps-take h vs ws t (ground arith) s,
    )

pub first_of-count : (ws : List ℕ) (t : ℕ) → 0 < count (first_of ws t) (ws ++ t ∷ [])
first_of-count [] t = ground arith
first_of-count (w ∷ ws) t = ground arith

pub IsList-Steps_end :
    (h : Links) (list : ℕ) (us vs : List ℕ) → IsList h list (us ++ vs) → Steps h vs (tail_of list)
IsList-Steps_end h list us vs w =
    let t = tail_of list in
    let xs = us ++ vs in
    Steps-drop h us vs t (
      Chain-Steps h list xs t w.chain (ground (arith, w.apart 0))
        (ground (arith, w.apart t, count-++ t xs (t ∷ []))))

-- A range of a well-formed list.
pub IsList-Steps :
    (h : Links) (list : ℕ) (us vs ws : List ℕ)
    → IsList h list (us ++ (vs ++ ws))
    → Steps h vs (first_of ws (tail_of list))
IsList-Steps h list us vs ws w =
    let t = tail_of list in
    let xs = us ++ (vs ++ ws) in
    let e = first_of ws t in
    Steps-take h vs ws t
      (ground (
        arith,
        w.apart e,
        count-++ e xs (t ∷ []),
        count-++ e us (vs ++ ws),
        count-++ e vs ws,
        first_of-count ws t,
        count-++ e ws (t ∷ []),
      ))
      (IsList-Steps_end h list us (vs ++ ws) w)

module _ (less : ℕ → ℕ → Bool) where
  sorted_loop_lem :
      (h : Links) (fuel a : ℕ) (vs : List ℕ) (e : ℕ)
      → Steps h (a ∷ vs) e
      → IsSorted less (a ∷ vs)
      → length vs < fuel
      → sorted_loop less fuel a e h ≡ some true
  unfolding sorted_loop
  sorted_loop_lem h zero a vs e s o l = absurd (omega arith)
  sorted_loop_lem h (suc fuel) a [] e (n, p, away, s) o l =
      let here : (e == e) ≡ true = ground arith in rw (n, here) refl
  sorted_loop_lem h (suc fuel) a (v ∷ vs) e (n, p, away, s) (f, o) l =
      rw (n, s.2, p, f) (sorted_loop_lem h fuel v vs e s o (omega arith))

  -- is_sorted answers for a range that is sorted.
  pub is_sorted_lem :
      (h : Links) (fuel : ℕ) (vs : List ℕ) (e : ℕ)
      → Steps h vs e
      → IsSorted less vs
      → length vs ≤ fuel
      → is_sorted less fuel (first_of vs e) e h ≡ some true
  unfolding is_sorted
  is_sorted_lem h fuel [] e s o l = let here : (e == e) ≡ true = ground arith in rw here refl
  is_sorted_lem h fuel (v ∷ vs) e s o l = rw s.2 (sorted_loop_lem h fuel v vs e s o (omega arith))

  run_loop_lem :
      (h : Links) (fuel a : ℕ) (vs : List ℕ) (e : ℕ)
      → Steps h (a ∷ vs) e
      → length vs < fuel
      → run_loop less fuel a e h ≡ some (first_of (after_run less a vs) e)
  unfolding run_loop
  run_loop_lem h zero a vs e s l = absurd (omega arith)
  run_loop_lem h (suc fuel) a [] e (n, p, away, s) l =
      let here : (e == e) ≡ true = ground arith in rw (n, here) refl
  run_loop_lem h (suc fuel) a (v ∷ vs) e (n, p, away, s) l = elim (Bool-cases (less v a)) [
    | inl ends ↦ rw (n, s.2, p, ends) refl
    | inr goes_on ↦ rw (n, s.2, p, goes_on) (run_loop_lem h fuel v vs e s (omega arith))
  ]

  -- find_end_of_run returns the element after the run from `a` on.
  pub find_end_of_run_lem :
      (h : Links) (fuel a : ℕ) (vs : List ℕ) (e : ℕ)
      → Steps h (a ∷ vs) e
      → a ≢ 0
      → e ≢ 0
      → length vs < fuel
      → find_end_of_run less fuel a e h ≡ some (first_of (after_run less a vs) e)
  unfolding find_end_of_run
  find_end_of_run_lem h fuel a vs e s real real' l =
      let e1 : (a == 0) ≡ false = ground arith in
      let e2 : (e == 0) ≡ false = ground arith in rw (e1, e2, s.2) (run_loop_lem h fuel a vs e s l)
