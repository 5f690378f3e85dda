-- ===== src/KernelList/Sort/Pass.antt =====
-- One pass of list_sort: it merges the runs of the list in pairs.
use mathlib.Core.Path.{subst}
use class_assignments.Prelude.{
  ℕ, zero, suc, ◌+◌, ◌*◌, ◌≤◌, ◌<◌, ◌≡◌, ◌≢◌, ◌⊎◌, refl, sym, ◌∙◌, ap, List, [], ◌∷◌, ◌++◌, arith,
  ◌==◌, length, Bool, true, false, inl, inr, some,
}
use class_assignments.KernelList.{Links, tail_of}
use class_assignments.KernelList.Chains.{count, count-++, append_assoc}
use class_assignments.KernelList.Nodes.{IsList}
use class_assignments.KernelList.Insert.{first_of, Kept}
use class_assignments.KernelList.Sort.{pass_loop, find_end_of_run, inplace_merge}
use class_assignments.KernelList.Sort.Steps.{Steps, IsList-Steps_end, find_end_of_run_lem}
use class_assignments.KernelList.Sort.Runs.{
  merge, runs, run_of, after_run, run_of-after_run, run_of-IsSorted, runs-after_run, runs-++,
  merge-IsSorted,
}
use class_assignments.KernelList.Sort.Merge.{merge_loop-Merged, inplace_merge_run}
use class_assignments.KernelList.Sort.Forward.{place-real}
use class_assignments.KernelList.Sort.Pairs.{length-++, pairs_count, pairs_length, pairs_runs}

List-cases : (xs : List ℕ) → (xs ≡ []) ⊎ ((b : ℕ) × (bs : List ℕ) × (xs ≡ b ∷ bs))
List-cases [] = inl refl
List-cases (b ∷ bs) = inr (b, bs, refl)

module _ (less : ℕ → ℕ → Bool) where
  pass_stop :
      (h : Links) (inner fuel t cnt : ℕ) → pass_loop less inner (suc fuel) t t cnt h ≡ some (cnt, h)
  unfolding pass_loop
  pass_stop h inner fuel t cnt = let here : (t == t) ≡ true = ground arith in rw here refl

  pass_last :
      (h : Links) (inner fuel a t cnt : ℕ)
      → (a == t) ≡ false
      → find_end_of_run less inner a t h ≡ some t
      → pass_loop less inner (suc fuel) a t cnt h ≡ some (cnt + 1, h)
  unfolding pass_loop
  pass_last h inner fuel a t cnt other run =
      let here : (t == t) ≡ true = ground arith in rw (other, run, here) refl

  pass_pair :
      (h h1 : Links) (inner fuel a b c t cnt : ℕ)
      → (a == t) ≡ false
      → find_end_of_run less inner a t h ≡ some b
      → (b == t) ≡ false
      → find_end_of_run less inner b t h ≡ some c
      → inplace_merge less inner a b c h ≡ some h1
      → pass_loop less inner (suc fuel) a t cnt h ≡ pass_loop less inner fuel c t (cnt + 1) h1
  unfolding pass_loop
  pass_pair h h1 inner fuel a b c t cnt e run e' run' merged = rw (e, run, e', run', merged) refl

  -- What a pass does from the elements `xs` on: `out` runs are put out, half as many as there were,
  -- and no more runs are left.
  pub record Passed (h : Links) (inner fuel list : ℕ) (us xs : List ℕ) (cnt : ℕ) : Type 0 where
    pub h' : Links
    pub out : ℕ
    pub ys : List ℕ
    pub run :
        pass_loop less inner fuel (first_of xs (tail_of list)) (tail_of list) cnt h
        ≡ some (cnt + out, h')
    pub made : IsList h' list (us ++ ys)
    pub kept : Kept h h' (list ∷ tail_of list ∷ (us ++ xs))
    pub same : (j : ℕ) → count j ys ≡ count j xs
    pub size : length ys ≡ length xs
    pub halved : 2 * out ≤ runs less xs + 1
    pub fewer : runs less ys ≤ out

  -- The list is one run from here on.
  one_run :
      (h : Links) (inner fuel list : ℕ) (us : List ℕ) (a : ℕ) (vs : List ℕ) (cnt : ℕ)
      → IsList h list (us ++ a ∷ vs)
      → after_run less a vs ≡ []
      → find_end_of_run less inner a (tail_of list) h
        ≡ some (first_of (after_run less a vs) (tail_of list))
      → Passed h inner (suc fuel) list us (a ∷ vs) cnt
  one_run h inner fuel list us a vs cnt w end run =
      let t = tail_of list in
      let alone : runs less (a ∷ vs) ≡ 1 =
        runs-after_run less a vs ∙ ap (λ ns. suc (runs less ns)) end in
      record {
        h' = h;
        out = 1;
        ys = a ∷ vs;
        run =
            pass_last h inner fuel a t cnt (IsList-Steps_end h list us (a ∷ vs) w).2
              (run ∙ ap (λ ns. some (first_of ns t)) end);
        made = w;
        kept = λ j out. (refl, refl);
        same = λ j. refl;
        size = refl;
        halved = omega arith;
        fewer = omega arith;
      }

  shift : (cnt out : ℕ) → cnt + 1 + out ≡ cnt + suc out
  shift cnt out = omega arith

  half_of_two : (o r k : ℕ) → k ≡ suc (suc r) → 2 * o ≤ r + 1 → 2 * suc o ≤ k + 1
  half_of_two o r k e l = omega arith

  one_more_run : (p q r : ℕ) → p ≤ suc q → q ≤ r → p ≤ suc r
  one_more_run p q r l l' = omega arith

  kept_pair :
      (j : ℕ) (us m ws : List ℕ) (list t total : ℕ)
      → count j m + count j ws ≡ total
      → count j us + total + count j (list ∷ t ∷ []) ≡ 0
      → count j (list ∷ t ∷ ((us ++ m) ++ ws)) ≡ 0
  kept_pair j us m ws list t total e out = ground (arith, count-++ j (us ++ m) ws, count-++ j us m)

  -- Two runs are merged, and the pass goes on behind them.
  two_runs :
      ((a b : ℕ) → less a b ≡ true → less b a ≡ false)
      → (h h1 : Links) (inner fuel list : ℕ) (us : List ℕ) (a : ℕ) (vs : List ℕ) (b : ℕ)
        (bs : List ℕ) (cnt : ℕ)
      → after_run less a vs ≡ b ∷ bs
      → pass_loop less inner (suc fuel) a (tail_of list) cnt h
        ≡ pass_loop less inner fuel
            (first_of (after_run less b bs) (tail_of list))
            (tail_of list)
            (cnt + 1)
            h1
      → Kept h h1 (list ∷ tail_of list ∷ (us ++ a ∷ vs))
      → Passed h1 inner fuel list
          (us ++ merge less (a ∷ run_of less a vs) (b ∷ run_of less b bs))
          (after_run less b bs)
          (cnt + 1)
      → Passed h inner (suc fuel) list us (a ∷ vs) cnt
  two_runs asymmetric h h1 inner fuel list us a vs b bs cnt next step kept rest =
      let t = tail_of list in
      let cs = a ∷ run_of less a vs in
      let ds = b ∷ run_of less b bs in
      let ws = after_run less b bs in
      let m = merge less cs ds in
      let sorted =
        merge-IsSorted less asymmetric cs ds (run_of-IsSorted less a vs)
          (run_of-IsSorted less b bs) in
      record {
        h' = rest.h';
        out = suc rest.out;
        ys = m ++ rest.ys;
        run = step ∙ rest.run ∙ ap (λ k. some (k, rest.h')) (shift cnt rest.out);
        made = subst (λ ns. IsList rest.h' list ns) (append_assoc us m rest.ys) rest.made;
        kept = λ j out.
            let first = kept j out in
            let second = rest.kept j (
              kept_pair j us m ws list t (count j (a ∷ vs)) (pairs_count less j a vs b bs next)
                (ground (arith, count-++ j us (a ∷ vs)))) in
            (second.0 ∙ first.0, second.1 ∙ first.1);
        same = λ j.
            count-++ j m rest.ys
            ∙ ap (λ k. count j m + k) (rest.same j)
            ∙ pairs_count less j a vs b bs next;
        size =
            length-++ m rest.ys
            ∙ ap (λ k. length m + k) rest.size
            ∙ pairs_length less a vs b bs next;
        halved =
            half_of_two rest.out (runs less ws) (runs less (a ∷ vs))
              (pairs_runs less a vs b bs next) rest.halved;
        fewer =
            one_more_run (runs less (m ++ rest.ys)) (runs less rest.ys) rest.out
              (runs-++ less m rest.ys sorted) rest.fewer;
      }

  pub pass_loop-Passed :
      ((a b : ℕ) → less a b ≡ true → less b a ≡ false)
      → (h : Links) (inner fuel list : ℕ) (us xs : List ℕ) (cnt : ℕ) → IsList h list (us ++ xs)
      → length xs < inner
      → length xs < fuel
      → Passed h inner fuel list us xs cnt
  pass_loop-Passed asymmetric h inner zero list us xs cnt w l l' = absurd (omega arith)
  pass_loop-Passed asymmetric h inner (suc fuel) list us [] cnt w l l' = record {
    h' = h;
    out = 0;
    ys = [];
    run = pass_stop h inner fuel (tail_of list) cnt ∙ ap (λ k. some (k, h)) (omega arith);
    made = w;
    kept = λ j out. (refl, refl);
    same = λ j. refl;
    size = refl;
    halved = omega arith;
    fewer = omega arith;
  }
  pass_loop-Passed asymmetric h inner (suc fuel) list us (a ∷ vs) cnt w l l' =
      let t = tail_of list in
      let steps = IsList-Steps_end h list us (a ∷ vs) w in
      let real : a ≢ 0 = let e = place-real h list us (a ∷ vs) w in ground arith in
      let real' : t ≢ 0 = ground (arith) in
      let end = find_end_of_run_lem less h inner a vs t steps real real' (omega arith) in
      elim (List-cases (after_run less a vs)) [
        | inl alone ↦ one_run h inner fuel list us a vs cnt w alone end
        | inr (b, bs, next) ↦
            let cs = run_of less a vs in
            let ds = run_of less b bs in
            let ws = after_run less b bs in
            let split1 : a ∷ vs ≡ (a ∷ cs) ++ b ∷ bs =
              ap (λ ns. a ∷ ns) (sym (run_of-after_run less a vs) ∙ ap (λ ns. cs ++ ns) next) in
            let w2 =
              subst (λ ns. IsList h list ns) (sym (append_assoc us (a ∷ cs) (b ∷ bs)))
                (subst (λ ns. IsList h list (us ++ ns)) split1 w) in
            let split : a ∷ vs ≡ (a ∷ cs) ++ ((b ∷ ds) ++ ws) =
              split1 ∙ ap (λ ns. a ∷ (cs ++ b ∷ ns)) (sym (run_of-after_run less b bs)) in
            let size : length (a ∷ vs) ≡ suc (length cs) + (suc (length ds) + length ws) =
              ap length split ∙ ground (arith, length-++ cs (b ∷ (ds ++ ws)), length-++ ds ws) in
            let w' : IsList h list (us ++ ((a ∷ cs) ++ ((b ∷ ds) ++ ws))) =
              subst (λ ns. IsList h list (us ++ ns)) split w in
            let w1 =
              subst (λ ns. IsList h list ns) (sym (append_assoc us (a ∷ cs) ((b ∷ ds) ++ ws))) w' in
            let m = merge_loop-Merged less h inner list us (a ∷ cs) (b ∷ ds) ws w' (omega arith) in
            let merged =
              inplace_merge_run less h inner list us (a ∷ cs) (b ∷ ds) ws m w'
                (run_of-IsSorted less a vs) (run_of-IsSorted less b bs) (omega arith) in
            let steps' : Steps h (b ∷ bs) t = IsList-Steps_end h list (us ++ a ∷ cs) (b ∷ bs) w2 in
            let real_b : b ≢ 0 =
              let e = place-real h list (us ++ a ∷ cs) (b ∷ bs) w2 in ground arith in
            let short : length (b ∷ bs) < inner =
              ground (arith, size, ap length split1, length-++ cs (b ∷ bs)) in
            let end' = find_end_of_run_lem less h inner b bs t steps' real_b real' (omega arith) in
            let rest =
              pass_loop-Passed asymmetric m.h' inner fuel list (us ++ merge less (a ∷ cs) (b ∷ ds))
                ws (cnt + 1)
                (subst (λ ns. IsList m.h' list ns)
                  (sym (append_assoc us (merge less (a ∷ cs) (b ∷ ds)) ws)) m.made)
                (omega arith) (omega arith) in
            two_runs asymmetric h m.h' inner fuel list us a vs b bs cnt next
              (pass_pair h m.h' inner fuel a b (first_of ws t) t cnt steps.2
                (end ∙ ap (λ ns. some (first_of ns t)) next) steps'.2 end' merged)
              (subst (λ ns. Kept h m.h' (list ∷ t ∷ (us ++ ns))) (sym split) m.kept) rest
      ]
