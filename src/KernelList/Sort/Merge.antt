-- ===== src/KernelList/Sort/Merge.antt =====
-- inplace_merge: two runs that follow each other become one.
use mathlib.Core.Path.{subst}
use class_assignments.Prelude.{
  ℕ, zero, suc, ◌+◌, ◌<◌, ◌≡◌, refl, sym, ◌∙◌, ap, List, [], ◌∷◌, ◌++◌, arith, ◌==◌, length, Bool,
  true, false, Bool-cases, inl, inr, some,
}
use class_assignments.KernelList.{Links, tail_of, list_next, list_prev, list_splice}
use class_assignments.KernelList.Chains.{count, count-++, append_assoc}
use class_assignments.KernelList.Nodes.{IsList}
use class_assignments.KernelList.Insert.{first_of, Kept}
use class_assignments.KernelList.Sort.{merge_loop, inplace_merge}
use class_assignments.KernelList.Sort.Steps.{first_of-++, Steps, IsList-Steps, is_sorted_lem}
use class_assignments.KernelList.Sort.Runs.{merge}
use class_assignments.KernelList.Ordered.{IsSorted}
use class_assignments.KernelList.Sort.Forward.{splice_one, place-real}

module _ (less : ℕ → ℕ → Bool) where
  step_first :
      (h : Links) (fuel a b c a' : ℕ)
      → (a == b) ≡ false
      → (b == c) ≡ false
      → less b a ≡ false
      → list_next a h ≡ some a'
      → merge_loop less (suc fuel) a b c h ≡ merge_loop less fuel a' b c h
  unfolding merge_loop
  step_first h fuel a b c a' e1 e2 first next = rw (e1, e2, first, next) refl

  step_second :
      (h h1 : Links) (fuel a b c n : ℕ)
      → (a == b) ≡ false
      → (b == c) ≡ false
      → less b a ≡ true
      → list_next b h ≡ some n
      → list_prev n h ≡ some b
      → list_splice a b n h ≡ some h1
      → merge_loop less (suc fuel) a b c h ≡ merge_loop less fuel a n c h1
  unfolding merge_loop
  step_second h h1 fuel a b c n e1 e2 second next prev splice =
      rw (e1, e2, second, next, prev, splice) refl

  stop_first : (h : Links) (fuel a c : ℕ) → merge_loop less (suc fuel) a a c h ≡ some h
  unfolding merge_loop
  stop_first h fuel a c = let here : (a == a) ≡ true = ground arith in rw here refl

  stop_second :
      (h : Links) (fuel a c : ℕ) → (a == c) ≡ false → merge_loop less (suc fuel) a c c h ≡ some h
  unfolding merge_loop
  stop_second h fuel a c other = let here : (c == c) ≡ true = ground arith in rw (other, here) refl

  -- What the merge of `cs` and `bs` does to the list.
  pub record Merged (h : Links) (fuel list : ℕ) (us cs bs ws : List ℕ) : Type 0 where
    pub h' : Links
    pub run :
        merge_loop less fuel
          (first_of cs (first_of bs (first_of ws (tail_of list))))
          (first_of bs (first_of ws (tail_of list)))
          (first_of ws (tail_of list))
          h
        ≡ some h'
    pub made : IsList h' list (us ++ (merge less cs bs ++ ws))
    pub kept : Kept h h' (list ∷ tail_of list ∷ (us ++ (cs ++ (bs ++ ws))))

  merge_first :
      (h : Links) (fuel list : ℕ) (us : List ℕ) (a : ℕ) (cs : List ℕ) (b : ℕ) (bs ws : List ℕ)
      → less b a ≡ false
      → IsList h list (us ++ a ∷ (cs ++ b ∷ (bs ++ ws)))
      → (b == first_of ws (tail_of list)) ≡ false
      → Merged h fuel list (us ++ a ∷ []) cs (b ∷ bs) ws
      → Merged h (suc fuel) list us (a ∷ cs) (b ∷ bs) ws
  merge_first h fuel list us a cs b bs ws first w away m =
      let (n, p, away', s) = IsList-Steps h list us (a ∷ cs) (b ∷ (bs ++ ws)) w in
      record {
        h' = m.h';
        run = step_first h fuel a b _ _ away' away first n ∙ m.run;
        made = rw first (
            subst (λ ns. IsList m.h' list ns)
              (append_assoc us (a ∷ []) (merge less cs (b ∷ bs) ++ ws)) m.made);
        kept =
            subst (λ ns. Kept h m.h' (list ∷ tail_of list ∷ ns))
              (append_assoc us (a ∷ []) (cs ++ b ∷ (bs ++ ws))) m.kept;
      }

  merge_second :
      (h h1 : Links) (fuel list : ℕ) (us : List ℕ) (a : ℕ) (cs : List ℕ) (b : ℕ) (bs ws : List ℕ)
      → less b a ≡ true
      → IsList h list (us ++ a ∷ (cs ++ b ∷ (bs ++ ws)))
      → list_splice a b (first_of (bs ++ ws) (tail_of list)) h ≡ some h1
      → Kept h h1 (list ∷ tail_of list ∷ (us ++ a ∷ (cs ++ b ∷ (bs ++ ws))))
      → Merged h1 fuel list (us ++ b ∷ []) (a ∷ cs) bs ws
      → Merged h (suc fuel) list us (a ∷ cs) (b ∷ bs) ws
  merge_second h h1 fuel list us a cs b bs ws second w splice kept m =
      let t = tail_of list in
      let (n, p, away', s) = IsList-Steps h list us (a ∷ cs) (b ∷ (bs ++ ws)) w in
      let w' = subst (λ ns. IsList h list ns) (sym (append_assoc us (a ∷ cs) (b ∷ (bs ++ ws)))) w in
      let (n', p', away, s') = IsList-Steps h list (us ++ a ∷ cs) (b ∷ bs) ws w' in
      let splice' = subst (λ k. list_splice a b k h ≡ some h1) (first_of-++ bs ws t) splice in
      record {
        h' = m.h';
        run = step_second h h1 fuel a b _ _ away' away second n' p' splice' ∙ m.run;
        made = rw second (
            subst (λ ns. IsList m.h' list ns)
              (append_assoc us (b ∷ []) (merge less (a ∷ cs) bs ++ ws)) m.made);
        kept = λ j out.
            let out' : count j us
                  + (count j (a ∷ cs) + (count j (b ∷ bs) + (count j ws + count j (list ∷ t ∷ []))))
                ≡ 0 =
              ground (
                arith,
                count-++ j us (a ∷ (cs ++ b ∷ (bs ++ ws))),
                count-++ j cs (b ∷ (bs ++ ws)),
                count-++ j bs ws,
              ) in
            let first = kept j (ground arith) in
            let second = m.kept j (
              ground (
                arith,
                out',
                count-++ j (us ++ b ∷ []) (a ∷ (cs ++ (bs ++ ws))),
                count-++ j us (b ∷ []),
                count-++ j cs (bs ++ ws),
                count-++ j bs ws,
              )) in
            (second.0 ∙ first.0, second.1 ∙ first.1);
      }

  pub merge_loop-Merged :
      (h : Links) (fuel list : ℕ) (us cs bs ws : List ℕ)
      → IsList h list (us ++ (cs ++ (bs ++ ws)))
      → length cs + length bs < fuel
      → Merged h fuel list us cs bs ws
  merge_loop-Merged h zero list us cs bs ws w l = absurd (omega arith)
  merge_loop-Merged h (suc fuel) list us [] bs ws w l = record {
    h' = h;
    run = stop_first h fuel _ _;
    made = w;
    kept = λ j out. (refl, refl);
  }
  merge_loop-Merged h (suc fuel) list us (a ∷ cs) [] ws w l = record {
    h' = h;
    run = stop_second h fuel _ _ (IsList-Steps h list us (a ∷ cs) ws w).2;
    made = w;
    kept = λ j out. (refl, refl);
  }
  merge_loop-Merged h (suc fuel) list us (a ∷ cs) (b ∷ bs) ws w l = elim (Bool-cases (less b a)) [
    | inl second ↦
        let (h1, splice, made, kept) = splice_one h list us a cs b (bs ++ ws) w in
        merge_second h h1 fuel list us a cs b bs ws second w splice kept (
          merge_loop-Merged h1 fuel list (us ++ b ∷ []) (a ∷ cs) bs ws
            (subst (λ ns. IsList h1 list ns)
              (sym (append_assoc us (b ∷ []) (a ∷ (cs ++ (bs ++ ws))))) made)
            (omega arith))
    | inr first ↦
        let w' =
          subst (λ ns. IsList h list ns) (sym (append_assoc us (a ∷ cs) (b ∷ (bs ++ ws)))) w in
        let (n', p', away, s') = IsList-Steps h list (us ++ a ∷ cs) (b ∷ bs) ws w' in
        merge_first h fuel list us a cs b bs ws first w away (
          merge_loop-Merged h fuel list (us ++ a ∷ []) cs (b ∷ bs) ws
            (subst (λ ns. IsList h list ns) (sym (append_assoc us (a ∷ []) (cs ++ b ∷ (bs ++ ws))))
              w)
            (omega arith))
  ]

  -- Both runs are found to be sorted, and are merged.
  pub inplace_merge_run :
      (h : Links) (fuel list : ℕ) (us cs bs ws : List ℕ) (m : Merged h fuel list us cs bs ws)
      → IsList h list (us ++ (cs ++ (bs ++ ws)))
      → IsSorted less cs
      → IsSorted less bs
      → length cs + length bs < fuel
      → let b1 = first_of ws (tail_of list) in
        inplace_merge less fuel (first_of cs (first_of bs b1)) (first_of bs b1) b1 h ≡ some m.h'
  unfolding inplace_merge
  inplace_merge_run h fuel list us cs bs ws m w s s' l =
      let t = tail_of list in
      let b1 = first_of ws t in
      let w1 = subst (λ ns. IsList h list ns) (sym (append_assoc us cs (bs ++ ws))) w in
      let w2 = subst (λ ns. IsList h list ns) (sym (append_assoc (us ++ cs) bs ws)) w1 in
      let e3 : (b1 == 0) ≡ false = place-real h list ((us ++ cs) ++ bs) ws w2 in
      let e2 : (first_of bs b1 == 0) ≡ false =
        subst (λ k. (k == 0) ≡ false) (first_of-++ bs ws t)
          (place-real h list (us ++ cs) (bs ++ ws) w1) in
      let e1 : (first_of cs (first_of bs b1) == 0) ≡ false =
        subst (λ k. (k == 0) ≡ false)
          (first_of-++ cs (bs ++ ws) t ∙ ap (first_of cs) (first_of-++ bs ws t))
          (place-real h list us (cs ++ (bs ++ ws)) w) in
      let steps : Steps h cs (first_of bs b1) =
        subst (λ k. Steps h cs k) (first_of-++ bs ws t) (IsList-Steps h list us cs (bs ++ ws) w) in
      rw
        (
          e1,
          e2,
          e3,
          is_sorted_lem less h fuel cs (first_of bs b1) steps s (omega arith),
          is_sorted_lem less h fuel bs b1 (IsList-Steps h list (us ++ cs) bs ws w1) s'
              (omega arith),
        )
        m.run
