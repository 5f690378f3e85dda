-- ===== src/KernelList/Extremes.antt =====
-- list_max and list_min, by the comparison of the caller.
use mathlib.Core.Path.{subst}
use class_assignments.Prelude.{
  ℕ, zero, suc, ◌+◌, ◌<◌, ◌≡◌, refl, sym, ◌∙◌, ap, fun_ext, List, [], ◌∷◌, ◌++◌, arith, ◌==◌,
  length, ltb, ◌⊎◌, if◌then◌else◌, Bool, true, false, Bool-cases, inl, inr, Option, some, ◌>>=◌,
}
use class_assignments.KernelList.{
  Links, tail_of, list_next, list_begin, list_end, max_loop, list_max, min_loop, list_min,
}
use class_assignments.KernelList.Chains.{count, count-++, append_assoc, ++-nil}
use class_assignments.KernelList.Nodes.{IsList}
use class_assignments.KernelList.Insert.{first_of}
use class_assignments.KernelList.Walk.{Walk, IsList-Walk, list_begin_lem, list_end_lem}

-- What list_max takes a comparison to be: a strict weak order.
pub record IsOrder (less : ℕ → ℕ → Bool) : Type 0 where
  pub asymmetric : (a b : ℕ) → less a b ≡ true → less b a ≡ false
  pub co_transitive : (a b c : ℕ) → less a b ≡ false → less b c ≡ false → less a c ≡ false

-- `m` is the first of the greatest of `xs`: those before it are less, and it is less than none.
pub record IsMaximum (less : ℕ → ℕ → Bool) (m : ℕ) (xs : List ℕ) : Type 0 where
  pub earlier : List ℕ
  pub later : List ℕ
  pub whole : xs ≡ earlier ++ m ∷ later
  pub above : (j : ℕ) → 0 < count j earlier → less j m ≡ true
  pub not_below : (j : ℕ) → 0 < count j later → less m j ≡ false

abbrev pub turned_round : (ℕ → ℕ → Bool) → ℕ → ℕ → Bool
turned_round less a b = less b a

pub turned_round-IsOrder : (less : ℕ → ℕ → Bool) → IsOrder less → IsOrder (turned_round less)
turned_round-IsOrder less order = record {
  asymmetric = λ a b e. order.asymmetric b a e;
  co_transitive = λ a b c e e'. order.co_transitive c b a e' e;
}

module _ (less : ℕ → ℕ → Bool) (order : IsOrder less) where
  -- What is greater than `m` is greater than what `m` is not less than.
  beyond : (m e w : ℕ) → less m e ≡ true → less m w ≡ false → less w e ≡ true
  beyond m e w greater not_less = elim (Bool-cases (less w e)) [
    | inl above ↦ above
    | inr below ↦ absurd (ground (arith, order.co_transitive m w e not_less below, greater))
  ]

  not_greater :
      (m : ℕ) (xs : List ℕ) (w : IsMaximum less m xs) (j : ℕ)
      → 0 < count j xs
      → (j ≡ m) ⊎ (less m j ≡ false)
  not_greater m xs w j here =
      let sizes : count j xs ≡ count j w.earlier + count j (m ∷ w.later) =
        ap (count j) w.whole ∙ count-++ j w.earlier (m ∷ w.later) in
      elim (Bool-cases (m == j)) [
        | inl this ↦ inl (ground arith)
        | inr other ↦ elim (Bool-cases (ltb 0 (count j w.earlier))) [
          | inl before ↦ inr (order.asymmetric j m (w.above j (ground arith)))
          | inr after ↦ inr (w.not_below j (ground arith))
        ]
      ]

  -- The next element takes the place of the maximum, or joins those behind it.
  step-IsMaximum :
      (m e : ℕ) (xs : List ℕ)
      → IsMaximum less m xs
      → IsMaximum less (if less m e then e else m) (xs ++ e ∷ [])
  step-IsMaximum m e xs w = elim (Bool-cases (less m e)) [
    | inl greater ↦ rw greater (record {
      earlier = xs;
      later = [];
      whole = refl;
      above = λ j here. elim (not_greater m xs w j here) [
        | inl same ↦ rw same greater
        | inr other ↦ beyond m e j greater other
      ];
      not_below = λ j here. absurd (omega arith);
    })
    | inr not_less ↦ rw not_less (record {
      earlier = w.earlier;
      later = w.later ++ e ∷ [];
      whole = ap (λ ns. ns ++ e ∷ []) w.whole ∙ append_assoc w.earlier (m ∷ w.later) (e ∷ []);
      above = w.above;
      not_below = λ j here. elim (Bool-cases (e == j)) [
        | inl this ↦ let same : e ≡ j = ground arith in subst (λ k. less m k ≡ false) same not_less
        | inr other ↦ w.not_below j (ground (arith, count-++ j w.later (e ∷ [])))
      ];
    })
  ]

  max_loop-IsMaximum :
      (h : Links) (fuel m t : ℕ) (seen xs : List ℕ)
      → Walk h xs t
      → length xs < fuel
      → IsMaximum less m seen
      → (m' : ℕ) × (max_loop less fuel m (first_of xs t) t h ≡ some m')
        × IsMaximum less m' (seen ++ xs)
  unfolding max_loop
  max_loop-IsMaximum h zero m t seen xs w l best = absurd (omega arith)
  max_loop-IsMaximum h (suc fuel) m t seen [] w l best =
      (m, ground arith, subst (λ ns. IsMaximum less m ns) (sym (++-nil seen)) best)
  max_loop-IsMaximum h (suc fuel) m t seen (x ∷ xs) (n, away, w) l best =
      let (m', run, best') =
        max_loop-IsMaximum h fuel (if less m x then x else m) t (seen ++ x ∷ []) xs w (omega arith)
          (step-IsMaximum m x seen best) in
      (
        m',
        rw (away, n) run,
        subst (λ ns. IsMaximum less m' ns) (append_assoc seen (x ∷ []) xs) best',
      )

  list_max_run :
      (h : Links) (fuel list b t e m : ℕ)
      → list_begin list h ≡ some b
      → list_end list ≡ some t
      → (b == t) ≡ false
      → list_next b h ≡ some e
      → max_loop less fuel b e t h ≡ some m
      → list_max less fuel list h ≡ some m
  unfolding list_max
  list_max_run h fuel list b t e m begin end away next loop = rw (begin, end, away, next, loop) refl

  pub list_max-IsMaximum :
      (h : Links) (fuel list x : ℕ) (xs : List ℕ)
      → IsList h list (x ∷ xs)
      → length xs < fuel
      → (m : ℕ) × (list_max less fuel list h ≡ some m) × IsMaximum less m (x ∷ xs)
  list_max-IsMaximum h fuel list x xs w l =
      let t = tail_of list in
      let (n, away, walk) = IsList-Walk h list (x ∷ xs) w in
      let alone : IsMaximum less x (x ∷ []) = record {
        earlier = [];
        later = [];
        whole = refl;
        above = λ j here. absurd (omega arith);
        not_below = λ j here. absurd (omega arith);
      } in
      let (m, run, best) = max_loop-IsMaximum h fuel x t (x ∷ []) xs walk l alone in
      (
        m,
        list_max_run h fuel list x t (first_of xs t) m (list_begin_lem h list (x ∷ xs) w)
            (list_end_lem h list (x ∷ xs) w) away n run,
        best,
      )

-- The loop of list_min is that of list_max with the comparison turned round.
min_loop_lem :
    (less : ℕ → ℕ → Bool) (h : Links) (fuel m e t : ℕ)
    → min_loop less fuel m e t h ≡ max_loop (turned_round less) fuel m e t h
unfolding min_loop max_loop
min_loop_lem less h zero m e t = refl
min_loop_lem less h (suc fuel) m e t =
    ap (λ k. if e == t then some m else (list_next e h >>= k))
      (fun_ext (λ e'. min_loop_lem less h fuel (if less e m then e else m) e' t))

list_min_lem :
    (less : ℕ → ℕ → Bool) (h : Links) (fuel list : ℕ)
    → list_min less fuel list h ≡ list_max (turned_round less) fuel list h
unfolding list_min list_max
list_min_lem less h fuel list =
    ap {A = ℕ → ℕ → ℕ → Option ℕ}
      (λ k. list_begin list h >>= λ b.
        list_end list >>= λ t. if b == t then some b else (list_next b h >>= λ e. k b e t))
      (fun_ext (λ b. fun_ext (λ e. fun_ext (λ t. min_loop_lem less h fuel b e t))))

-- list_max and list_min, on a well-formed list that is not empty, by a comparison that is a
-- strict weak order, with as much fuel as elements: list_max returns the first of the greatest
-- elements (those before it are less, and it is less than none after it), and list_min the first
-- of the least.
pub list_extremes :
    (less : ℕ → ℕ → Bool) (h : Links) (fuel list x : ℕ) (xs : List ℕ)
    → IsOrder less
    → IsList h list (x ∷ xs)
    → length xs < fuel
    → (m n : ℕ) × (list_max less fuel list h ≡ some m)
      × IsMaximum less m (x ∷ xs)
      × (list_min less fuel list h ≡ some n)
      × IsMaximum (turned_round less) n (x ∷ xs)
list_extremes less h fuel list x xs order w l =
    let (m, run, best) = list_max-IsMaximum less order h fuel list x xs w l in
    let (n, run', best') =
      list_max-IsMaximum (turned_round less) (turned_round-IsOrder less order) h fuel list x xs w
        l in
    (m, n, run, best, list_min_lem less h fuel list ∙ run', best')
