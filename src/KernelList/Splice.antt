-- ===== src/KernelList/Splice.antt =====
-- Taking a chain out of a list, and putting one in: what list_insert, list_remove and list_splice
-- have in common.
use class_assignments.Prelude.{
  ℕ, ◌+◌, ◌≤◌, ◌<◌, ◌≡◌, refl, ◌∙◌, ap, List, ◌∷◌, ◌++◌, arith, ◌==◌, false,
}
use class_assignments.KernelList.{Links, set_prev, set_next, splice_out, splice_in}
use class_assignments.KernelList.Chains.{
  Chain, last_of, count, count-last_of, Chain-split, Chain-join, Chain-prev, Chain-next, Chain-last,
}

splice_out_run :
    (h : Links) (f l q r : ℕ)
    → h.prev f ≡ q
    → h.next l ≡ r
    → (q == l) ≡ false
    → splice_out f l h ≡ set_prev r q (set_next q r h)
splice_out_run h f l q r p n differ = rw (p, differ, n) refl

splice_in_run :
    (h : Links) (e f l p : ℕ)
    → h.prev e ≡ p
    → (f == e) ≡ false
    → splice_in e f l h ≡ set_prev e l (set_next p f (set_next l e (set_prev f p h)))
splice_in_run h e f l p q differ = rw (q, differ) refl

-- The elements of two chains are all different.
abbrev pub Apart : (xs ys : List ℕ) → Type 0
Apart xs ys = (j : ℕ) → count j xs + count j ys ≤ 1

-- The four stores that put a chain between two others.
module _ (h : Links) (a : ℕ) (us : List ℕ) (e : ℕ) (vs : List ℕ) (f : ℕ) (gs : List ℕ)
    (apart : (j : ℕ) → count j (a ∷ us) + count j (e ∷ vs) + count j (f ∷ gs) ≤ 1) where
  four_stores : Links
  four_stores =
      set_prev e (last_of f gs)
        (set_next (last_of a us) f (set_next (last_of f gs) e (set_prev f (last_of a us) h)))

  Chain-before : Chain h a us → Chain four_stores a us
  unfolding four_stores
  Chain-before c =
      let at_l : 0 < count (last_of f gs) (f ∷ gs) = count-last_of f gs in
      Chain-prev _ e (last_of f gs) a us (ground (arith, apart e)) (
        Chain-last _ f a us (ground (arith, apart (last_of a us))) (
          Chain-next _ (last_of f gs) e a us (ground (arith, apart (last_of f gs)))
            (Chain-prev h f (last_of a us) a us (ground (arith, apart f)) c)))

  Chain-inner : Chain h f gs → Chain four_stores f gs
  unfolding four_stores
  Chain-inner c =
      let at_p : 0 < count (last_of a us) (a ∷ us) = count-last_of a us in
      Chain-prev _ e (last_of f gs) f gs (ground (arith, apart e)) (
        Chain-next _ (last_of a us) f f gs (ground (arith, apart (last_of a us))) (
          Chain-last _ e f gs (ground (arith, apart (last_of f gs)))
            (Chain-prev h f (last_of a us) f gs (ground (arith, apart f)) c)))

  Chain-after : Chain h e vs → Chain four_stores e vs
  unfolding four_stores
  Chain-after c =
      let at_l : 0 < count (last_of f gs) (f ∷ gs) = count-last_of f gs in
      let at_p : 0 < count (last_of a us) (a ∷ us) = count-last_of a us in
      Chain-prev _ e (last_of f gs) e vs (ground (arith, apart e)) (
        Chain-next _ (last_of a us) f e vs (ground (arith, apart (last_of a us))) (
          Chain-next _ (last_of f gs) e e vs (ground (arith, apart (last_of f gs)))
            (Chain-prev h f (last_of a us) e vs (ground (arith, apart f)) c)))

  -- The chain from `f` comes before `e`.
  pub splice_in-Chain :
      Chain h a (us ++ e ∷ vs)
      → Chain h f gs
      → Chain (splice_in e f (last_of f gs) h) a (us ++ f ∷ (gs ++ e ∷ vs))
  unfolding four_stores
  splice_in-Chain c c' =
      let (c1, n, q, c2) = Chain-split h a us e vs c in
      let at_l : 0 < count (last_of f gs) (f ∷ gs) = count-last_of f gs in
      let at_p : 0 < count (last_of a us) (a ∷ us) = count-last_of a us in
      let fe : (f == e) ≡ false = ground (arith, apart f) in
      let ef : (e == f) ≡ false = ground (arith, apart f) in
      let pl : (last_of a us == last_of f gs) ≡ false = ground (arith, apart (last_of a us)) in
      rw (splice_in_run h e f (last_of f gs) (last_of a us) q fe) (
        Chain-join _ a us f (gs ++ e ∷ vs) (Chain-before c1) (ground arith) (ground arith)
          (Chain-join _ f gs e vs (Chain-inner c') (ground arith) (ground arith) (Chain-after c2)))

  -- The stores to `next` are before the place and in the chain, those to `prev` after it and there.
  pub splice_in-next :
      Chain h a (us ++ e ∷ vs)
      → (j : ℕ) → count j (a ∷ us) + count j (f ∷ gs) ≡ 0
      → (splice_in e f (last_of f gs) h).next j ≡ h.next j
  splice_in-next c j out =
      let (c1, n, q, c2) = Chain-split h a us e vs c in
      let at_l : 0 < count (last_of f gs) (f ∷ gs) = count-last_of f gs in
      let at_p : 0 < count (last_of a us) (a ∷ us) = count-last_of a us in
      let fe : (f == e) ≡ false = ground (arith, apart f) in
      let pj : (last_of a us == j) ≡ false = ground arith in
      let lj : (last_of f gs == j) ≡ false = ground arith in
      ap (λ k. k.next j) (splice_in_run h e f (last_of f gs) (last_of a us) q fe) ∙ rw (pj, lj) refl

  pub splice_in-prev :
      Chain h a (us ++ e ∷ vs)
      → (j : ℕ) → count j (e ∷ vs) + count j (f ∷ gs) ≡ 0
      → (splice_in e f (last_of f gs) h).prev j ≡ h.prev j
  splice_in-prev c j out =
      let (c1, n, q, c2) = Chain-split h a us e vs c in
      let fe : (f == e) ≡ false = ground (arith, apart f) in
      let ej : (e == j) ≡ false = ground arith in
      let fj : (f == j) ≡ false = ground arith in
      ap (λ k. k.prev j) (splice_in_run h e f (last_of f gs) (last_of a us) q fe) ∙ rw (ej, fj) refl

module _ (h : Links) (a : ℕ) (us : List ℕ) (f : ℕ) (gs : List ℕ) (r : ℕ) (vs : List ℕ)
    (apart : (j : ℕ) → count j (a ∷ us) + count j (f ∷ gs) + count j (r ∷ vs) ≤ 1)
    (chain : Chain h a (us ++ f ∷ (gs ++ r ∷ vs))) where
  -- What the stores read.
  links : (h.prev f ≡ last_of a us) × (h.next (last_of f gs) ≡ r)
  links =
      let (c1, n, q, c2) = Chain-split h a us f (gs ++ r ∷ vs) chain in
      let (c3, n', q', c4) = Chain-split h f gs r vs c2 in (q, n')

  two_stores :
      splice_out f (last_of f gs) h ≡ set_prev r (last_of a us) (set_next (last_of a us) r h)
  two_stores =
      let at_l : 0 < count (last_of f gs) (f ∷ gs) = count-last_of f gs in
      let at_p : 0 < count (last_of a us) (a ∷ us) = count-last_of a us in
      splice_out_run h f (last_of f gs) (last_of a us) r links.0 links.1
        (ground (arith, apart (last_of a us)))

  -- The chain from `f` is taken out, and holds together.
  pub splice_out-Chain :
      let h' = splice_out f (last_of f gs) h in Chain h' a (us ++ r ∷ vs) × Chain h' f gs
  splice_out-Chain =
      let p = last_of a us in
      let at_p : 0 < count (last_of a us) (a ∷ us) = count-last_of a us in
      let (c1, n, q, c2) = Chain-split h a us f (gs ++ r ∷ vs) chain in
      let (c3, n', q', c4) = Chain-split h f gs r vs c2 in
      rw two_stores (
        Chain-join _ a us r vs
            (Chain-prev _ r p a us (ground (arith, apart r))
              (Chain-last h r a us (ground (arith, apart p)) c1))
            (ground arith) (ground arith)
            (Chain-prev _ r p r vs (ground (arith, apart r))
              (Chain-next h p r r vs (ground (arith, apart p)) c4)),
        Chain-prev _ r p f gs (ground (arith, apart r))
            (Chain-next h p r f gs (ground (arith, apart p)) c3),
      )

  pub splice_out-next :
      (j : ℕ) → count j (a ∷ us) ≡ 0 → (splice_out f (last_of f gs) h).next j ≡ h.next j
  splice_out-next j out =
      let at_p : 0 < count (last_of a us) (a ∷ us) = count-last_of a us in
      let pj : (last_of a us == j) ≡ false = ground arith in
      ap (λ k. k.next j) two_stores ∙ rw pj refl

  pub splice_out-prev :
      (j : ℕ) → count j (r ∷ vs) ≡ 0 → (splice_out f (last_of f gs) h).prev j ≡ h.prev j
  splice_out-prev j out =
      let rj : (r == j) ≡ false = ground arith in ap (λ k. k.prev j) two_stores ∙ rw rj refl
