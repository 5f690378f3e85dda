-- ===== src/KernelList/Sort.antt =====
-- list_sort of cs439/proj4/lib/kernel/list.c: passes that merge pairs of runs of the list until one
-- run is left. `fuel` is given to each loop for itself.
pub mod Runs
pub mod Steps
pub mod Forward
pub mod Merge
pub mod Pairs
pub mod Pass
pub mod Sorted
use class_assignments.Prelude.{
  ℕ, zero, suc, ◌+◌, ◌==◌, Bool, true, false, not, ◌&&◌, Option, none, some, if◌then◌else◌, ltb,
  ◌>>=◌, ◌>>◌, assert,
}
use class_assignments.KernelList.{
  Links, assert_real, list_begin, list_end, list_next, list_prev, list_splice,
}

module _ (less : ℕ → ℕ → Bool) where
  unfoldable pub sorted_loop : (fuel a b : ℕ) → Links → Option Bool
  sorted_loop zero a b h = none
  sorted_loop (suc fuel) a b h = list_next a h >>= λ a'.
      if a' == b
      then some true
      else (list_prev a' h >>= λ p. if less a' p then some false else sorted_loop fuel a' b h)

  unfoldable pub is_sorted : (fuel a b : ℕ) → Links → Option Bool
  is_sorted fuel a b h = if a == b then some true else sorted_loop fuel a b h

  unfoldable pub run_loop : (fuel a b : ℕ) → Links → Option ℕ
  run_loop zero a b h = none
  run_loop (suc fuel) a b h = list_next a h >>= λ a'.
      if a' == b
      then some a'
      else (list_prev a' h >>= λ p. if less a' p then some a' else run_loop fuel a' b h)

  unfoldable pub find_end_of_run : (fuel a b : ℕ) → Links → Option ℕ
  find_end_of_run fuel a b h =
      assert_real a >> assert_real b >> assert (not (a == b)) >> run_loop fuel a b h

  unfoldable pub merge_loop : (fuel a0 a1b0 b1 : ℕ) → Links → Option Links
  merge_loop zero a0 a1b0 b1 h = none
  merge_loop (suc fuel) a0 a1b0 b1 h =
      if not (a0 == a1b0) && not (a1b0 == b1)
      then elim (less a1b0 a0) [
        | false ↦ list_next a0 h >>= λ a0'. merge_loop fuel a0' a1b0 b1 h
        | true ↦ list_next a1b0 h >>= λ a1b0'. list_prev a1b0' h >>= λ p.
            list_splice a0 p a1b0' h >>= λ h'. merge_loop fuel a0 a1b0' b1 h'
      ]
      else some h

  unfoldable pub inplace_merge : (fuel a0 a1b0 b1 : ℕ) → Links → Option Links
  inplace_merge fuel a0 a1b0 b1 h =
      assert_real a0 >> assert_real a1b0 >> assert_real b1 >> is_sorted fuel a0 a1b0 h >>= λ first.
      assert first >> is_sorted fuel a1b0 b1 h >>= λ second.
      assert second >> merge_loop fuel a0 a1b0 b1 h

  -- One pass over the list, with the number of runs that it has put out.
  unfoldable pub pass_loop : (inner fuel a0 end output_run_cnt : ℕ) → Links → Option (ℕ × Links)
  pass_loop inner zero a0 end output_run_cnt h = none
  pass_loop inner (suc fuel) a0 end output_run_cnt h =
      if a0 == end
      then some (output_run_cnt, h)
      else (find_end_of_run inner a0 end h >>= λ a1b0.
          if a1b0 == end
          then some (output_run_cnt + 1, h)
          else (find_end_of_run inner a1b0 end h >>= λ b1.
              inplace_merge inner a0 a1b0 b1 h >>= λ h'.
              pass_loop inner fuel b1 end (output_run_cnt + 1) h'))

  unfoldable pub sort_loop : (inner fuel list : ℕ) → Links → Option Links
  sort_loop inner zero list h = none
  sort_loop inner (suc fuel) list h = list_begin list h >>= λ a0. list_end list >>= λ end.
      pass_loop inner inner a0 end 0 h >>= λ (output_run_cnt, h').
      if ltb 1 output_run_cnt then sort_loop inner fuel list h' else some h'

  unfoldable pub list_sort : (fuel list : ℕ) → Links → Option Links
  list_sort fuel list h = assert_real list >> sort_loop fuel fuel list h >>= λ h'.
      list_begin list h' >>= λ b.
      list_end list >>= λ e. is_sorted fuel b e h' >>= λ sorted. assert sorted >> some h'
