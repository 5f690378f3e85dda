-- ===== src/KernelList/Sort/Runs.antt =====
-- Runs and merges of sequences, apart from the memory.
use class_assignments.Prelude.{
  ℕ, suc, ◌+◌, ◌≤◌, ◌≡◌, refl, ap, List, [], ◌∷◌, ◌++◌, arith, length, if◌then◌else◌, Bool, true,
  false, Bool-cases, inl, inr,
}
use class_assignments.KernelList.Chains.{count}
use class_assignments.KernelList.Ordered.{Fits, IsSorted}

module _ (less : ℕ → ℕ → Bool) where
  -- The elements after `a` up to the first that is less than the one before it, and the others.
  abbrev pub run_of : (a : ℕ) → List ℕ → List ℕ
  run_of a [] = []
  run_of a (x ∷ xs) = let rest = run_of x xs in if less x a then [] else x ∷ rest

  abbrev pub after_run : (a : ℕ) → List ℕ → List ℕ
  after_run a [] = []
  after_run a (x ∷ xs) = let rest = after_run x xs in if less x a then x ∷ xs else rest

  -- The number of runs.
  abbrev pub descents : (a : ℕ) → List ℕ → ℕ
  descents a [] = 0
  descents a (x ∷ xs) = let rest = descents x xs in if less x a then suc rest else rest

  abbrev pub runs : List ℕ → ℕ
  runs [] = 0
  runs (x ∷ xs) = suc (descents x xs)

  abbrev pub merge : (xs ys : List ℕ) → List ℕ
  merge [] ys = ys
  merge (x ∷ xs) [] = x ∷ xs
  merge (x ∷ xs) (y ∷ ys) =
      let second = merge (x ∷ xs) ys in
      let first = merge xs (y ∷ ys) in if less y x then y ∷ second else x ∷ first

  pub run_of-after_run : (a : ℕ) (xs : List ℕ) → run_of a xs ++ after_run a xs ≡ xs
  run_of-after_run a [] = refl
  run_of-after_run a (x ∷ xs) = elim (Bool-cases (less x a)) [
    | inl ends ↦ rw ends refl
    | inr goes_on ↦ rw goes_on (ap (λ ns. x ∷ ns) (run_of-after_run x xs))
  ]

  pub run_of-IsSorted : (a : ℕ) (xs : List ℕ) → IsSorted less (a ∷ run_of a xs)
  run_of-IsSorted a [] = (tt, tt)
  run_of-IsSorted a (x ∷ xs) = elim (Bool-cases (less x a)) [
    | inl ends ↦ rw ends (tt, tt)
    | inr goes_on ↦ rw goes_on (goes_on, run_of-IsSorted x xs)
  ]

  pub runs-after_run : (a : ℕ) (xs : List ℕ) → runs (a ∷ xs) ≡ suc (runs (after_run a xs))
  runs-after_run a [] = refl
  runs-after_run a (x ∷ xs) = elim (Bool-cases (less x a)) [
    | inl ends ↦ rw ends (omega arith)
    | inr goes_on ↦ rw goes_on (runs-after_run x xs)
  ]

  pub runs-length : (xs : List ℕ) → runs xs ≤ length xs
  runs-length [] = omega arith
  runs-length (x ∷ []) = omega arith
  runs-length (x ∷ y ∷ ys) = ground (arith, runs-length (y ∷ ys))

  -- A sorted sequence adds one run at most.
  pub runs-++ : (xs ys : List ℕ) → IsSorted less xs → runs (xs ++ ys) ≤ suc (runs ys)
  runs-++ [] ys s = omega arith
  runs-++ (x ∷ []) [] s = omega arith
  runs-++ (x ∷ []) (y ∷ ys) s = ground arith
  runs-++ (x ∷ x' ∷ xs) ys (f, s) = rw f (runs-++ (x' ∷ xs) ys s)

  pub runs-IsSorted : (xs : List ℕ) → runs xs ≤ 1 → IsSorted less xs
  runs-IsSorted [] l = tt
  runs-IsSorted (x ∷ []) l = (tt, tt)
  runs-IsSorted (x ∷ y ∷ ys) l = elim (Bool-cases (less y x)) [
    | inl ends ↦ absurd (ground arith)
    | inr goes_on ↦ (goes_on, runs-IsSorted (y ∷ ys) (ground arith))
  ]

  pub count-merge : (j : ℕ) (xs ys : List ℕ) → count j (merge xs ys) ≡ count j xs + count j ys
  count-merge j [] ys = omega arith
  count-merge j (x ∷ xs) [] = omega arith
  count-merge j (x ∷ xs) (y ∷ ys) = elim (Bool-cases (less y x)) [
    | inl second ↦ rw (second, count-merge j (x ∷ xs) ys) (omega arith)
    | inr first ↦ rw (first, count-merge j xs (y ∷ ys)) (omega arith)
  ]

  pub length-merge : (xs ys : List ℕ) → length (merge xs ys) ≡ length xs + length ys
  length-merge [] ys = omega arith
  length-merge (x ∷ xs) [] = omega arith
  length-merge (x ∷ xs) (y ∷ ys) = elim (Bool-cases (less y x)) [
    | inl second ↦ rw (second, length-merge (x ∷ xs) ys) (omega arith)
    | inr first ↦ rw (first, length-merge xs (y ∷ ys)) (omega arith)
  ]

  Fits-merge :
      (a : ℕ) (xs ys : List ℕ) → Fits less a xs → Fits less a ys → Fits less a (merge xs ys)
  Fits-merge a [] ys f g = g
  Fits-merge a (x ∷ xs) [] f g = f
  Fits-merge a (x ∷ xs) (y ∷ ys) f g = elim (Bool-cases (less y x)) [
    | inl second ↦ rw second g
    | inr first ↦ rw first f
  ]

  pub merge-IsSorted :
      ((a b : ℕ) → less a b ≡ true → less b a ≡ false)
      → (xs ys : List ℕ) → IsSorted less xs
      → IsSorted less ys
      → IsSorted less (merge xs ys)
  merge-IsSorted asymmetric [] ys s s' = s'
  merge-IsSorted asymmetric (x ∷ xs) [] s s' = s
  merge-IsSorted asymmetric (x ∷ xs) (y ∷ ys) (f, s) (f', s') = elim (Bool-cases (less y x)) [
    | inl second ↦ rw second (
      Fits-merge y (x ∷ xs) ys (asymmetric y x second) f',
      merge-IsSorted asymmetric (x ∷ xs) ys (f, s) s',
    )
    | inr first ↦
        rw first
          (Fits-merge x xs (y ∷ ys) f first, merge-IsSorted asymmetric xs (y ∷ ys) s (f', s'))
  ]
