-- ===== src/CString/Compare.antt =====
-- memcmp and strcmp against the lexicographic order.
use class_assignments.Prelude.{
  ℕ, zero, suc, ◌+◌, ◌<◌, ◌≡◌, ◌≢◌, inl, inr, refl, ap, false, some, List, [], ◌∷◌, arith, ltb,
  ◌==◌, if◌then◌else◌, Bool-cases, length,
}
use class_assignments.Prelude.Int.{ℤ, pos, negsuc}
use class_assignments.Prelude.Slices.{slice}
use class_assignments.CString.{Memory, memcmp_loop, memcmp, strcmp_loop, strcmp}
use class_assignments.CString.Texts.{IsText}

-- The lexicographic order: 1 where the first list is greater, -1 where it is less.
abbrev pub compare_lists : List ℕ → List ℕ → ℤ
compare_lists [] [] = pos 0
compare_lists [] (y ∷ ys) = negsuc 0
compare_lists (x ∷ xs) [] = pos 1
compare_lists (x ∷ xs) (y ∷ ys) =
    if x == y then compare_lists xs ys else if ltb y x then pos 1 else negsuc 0

pub memcmp_loop_lem :
    (size a b : ℕ) (m : Memory)
    → memcmp_loop size a b m ≡ compare_lists (slice m a size) (slice m b size)
unfolding memcmp_loop slice
memcmp_loop_lem zero a b m = refl
memcmp_loop_lem (suc size) a b m = rw (memcmp_loop_lem size (a + 1) (b + 1) m) refl

-- memcmp
pub memcmp_lem :
    (a b size : ℕ) (m : Memory)
    → a ≢ 0
    → b ≢ 0
    → memcmp a b size m ≡ some (compare_lists (slice m a size) (slice m b size))
unfolding memcmp
memcmp_lem a b size m real real' =
    let nonnull : (a == 0) ≡ false = ground arith in
    let nonnull' : (b == 0) ≡ false = ground arith in
    rw (nonnull, nonnull') (ap some (memcmp_loop_lem size a b m))

strcmp_loop_lem :
    (fuel a b : ℕ) (xs ys : List ℕ) (m : Memory)
    → IsText m a xs
    → IsText m b ys
    → length xs < fuel
    → strcmp_loop fuel a b m ≡ some (compare_lists xs ys)
unfolding strcmp_loop
strcmp_loop_lem zero a b xs ys m h k l = absurd (omega arith)
strcmp_loop_lem (suc fuel) a b [] [] m h k l = ground (arith, h, k)
strcmp_loop_lem (suc fuel) a b [] (y ∷ ys) m h k l = ground (arith, h, k.0, k.1)
strcmp_loop_lem (suc fuel) a b (x ∷ xs) [] m h k l = ground (arith, h.0, h.1, k)
strcmp_loop_lem (suc fuel) a b (x ∷ xs) (y ∷ ys) m h k l =
    let nonzero : (x == 0) ≡ false = ground (arith, h.1) in
    elim (Bool-cases (x == y)) [
      | inl same ↦
          rw (h.0, k.0, nonzero, same)
            (strcmp_loop_lem fuel (a + 1) (b + 1) xs ys m h.3 k.3 (omega arith))
      | inr differ ↦ rw (h.0, k.0, nonzero, differ) (ground arith)
    ]

-- strcmp, on two texts at addresses that are not NULL, with more fuel than bytes in the first,
-- is the lexicographic order of their bytes as unsigned numbers.
pub strcmp_lem :
    (fuel a b : ℕ) (xs ys : List ℕ) (m : Memory)
    → IsText m a xs
    → IsText m b ys
    → a ≢ 0
    → b ≢ 0
    → length xs < fuel
    → strcmp fuel a b m ≡ some (compare_lists xs ys)
unfolding strcmp
strcmp_lem fuel a b xs ys m h k real real' l =
    let nonnull : (a == 0) ≡ false = ground arith in
    let nonnull' : (b == 0) ≡ false = ground arith in
    rw (nonnull, nonnull') (strcmp_loop_lem fuel a b xs ys m h k l)
