-- ===== src/KernelList/Sort/Pairs.antt =====
-- Two runs and what follows them, as sequences.
use class_assignments.Prelude.{
  ℕ, suc, ◌+◌, ◌≡◌, sym, ◌∙◌, ap, List, [], ◌∷◌, ◌++◌, arith, length, Bool,
}
use class_assignments.KernelList.Chains.{count, count-++}
use class_assignments.KernelList.Sort.Runs.{
  merge, runs, run_of, after_run, run_of-after_run, runs-after_run, count-merge, length-merge,
}

pub length-++ : (xs ys : List ℕ) → length (xs ++ ys) ≡ length xs + length ys
length-++ [] ys = omega arith
length-++ (x ∷ xs) ys = rw (length-++ xs ys) (omega arith)

module _ (less : ℕ → ℕ → Bool) where
  -- The two runs and what follows them are the whole.
  pub pairs_count :
      (j a : ℕ) (vs : List ℕ) (b : ℕ) (bs : List ℕ)
      → after_run less a vs ≡ b ∷ bs
      → count j (merge less (a ∷ run_of less a vs) (b ∷ run_of less b bs))
          + count j (after_run less b bs)
        ≡ count j (a ∷ vs)
  pairs_count j a vs b bs next =
      let cs = a ∷ run_of less a vs in
      let ds = b ∷ run_of less b bs in
      let ws = after_run less b bs in
      let first : count j (run_of less a vs) + count j (b ∷ bs) ≡ count j vs =
        sym (count-++ j (run_of less a vs) (b ∷ bs))
        ∙ ap (λ ns. count j (run_of less a vs ++ ns)) (sym next)
        ∙ ap (count j) (run_of-after_run less a vs) in
      let second : count j (run_of less b bs) + count j ws ≡ count j bs =
        sym (count-++ j (run_of less b bs) ws) ∙ ap (count j) (run_of-after_run less b bs) in
      let sums : count j cs + count j ds + count j ws ≡ count j (a ∷ vs) =
        ground (arith, first, second) in
      ap (λ k. k + count j ws) (count-merge less j cs ds) ∙ sums

  pub pairs_length :
      (a : ℕ) (vs : List ℕ) (b : ℕ) (bs : List ℕ)
      → after_run less a vs ≡ b ∷ bs
      → length (merge less (a ∷ run_of less a vs) (b ∷ run_of less b bs))
          + length (after_run less b bs)
        ≡ length (a ∷ vs)
  pairs_length a vs b bs next =
      let cs = a ∷ run_of less a vs in
      let ds = b ∷ run_of less b bs in
      let ws = after_run less b bs in
      let first : length (run_of less a vs) + length (b ∷ bs) ≡ length vs =
        sym (length-++ (run_of less a vs) (b ∷ bs))
        ∙ ap (λ ns. length (run_of less a vs ++ ns)) (sym next)
        ∙ ap length (run_of-after_run less a vs) in
      let second : length (run_of less b bs) + length ws ≡ length bs =
        sym (length-++ (run_of less b bs) ws) ∙ ap length (run_of-after_run less b bs) in
      let sums : length cs + length ds + length ws ≡ length (a ∷ vs) = omega arith in
      ap (λ k. k + length ws) (length-merge less cs ds) ∙ sums

  pub pairs_runs :
      (a : ℕ) (vs : List ℕ) (b : ℕ) (bs : List ℕ)
      → after_run less a vs ≡ b ∷ bs
      → runs less (a ∷ vs) ≡ suc (suc (runs less (after_run less b bs)))
  pairs_runs a vs b bs next =
      runs-after_run less a vs
      ∙ ap (λ ns. suc (runs less ns)) next
      ∙ ap suc (runs-after_run less b bs)
