-- ===== src/KernelList/Move.antt =====
-- list_splice: elements move from one list to another.
use mathlib.Core.Path.{subst}
use class_assignments.Prelude.{
  ℕ, ◌+◌, ◌≤◌, ◌<◌, ◌≡◌, ◌≢◌, refl, sym, ◌∙◌, ap, List, [], ◌∷◌, ◌++◌, arith, ◌==◌, false, some,
}
use class_assignments.KernelList.{Links, tail_of, list_prev, list_splice, splice_in, splice_out}
use class_assignments.KernelList.Chains.{
  Chain, last_of, count, count-++, count-last_of, Chain-split,
}
use class_assignments.KernelList.Splice.{
  splice_in-next, splice_in-prev, splice_out-next, splice_out-prev,
}
use class_assignments.KernelList.Nodes.{
  Nodes, IsList, Nodes-links, guard-prev, guard-interior, last_of-real, prev-real, next-real,
  Nodes-splice_in, Nodes-splice_out,
}
use class_assignments.KernelList.Insert.{first_of, rest_of, at_place, Kept}

Chain-Kept :
    (h h' : Links) (ms : List ℕ) (a : ℕ) (ns : List ℕ)
    → Kept h h' ms
    → ((j : ℕ) → count j (a ∷ ns) + count j ms ≤ 1)
    → Chain h a ns
    → Chain h' a ns
Chain-Kept h h' ms a [] kept apart c = tt
Chain-Kept h h' ms a (n ∷ ns) kept apart (next, prev, c) = (
  (kept a (ground (arith, apart a))).0 ∙ next,
  (kept n (ground (arith, apart n))).1 ∙ prev,
  Chain-Kept h h' ms n ns kept (λ j. ground (arith, apart j)) c,
)

-- A list is not touched by what happens to the elements of another.
pub Nodes-Kept :
    (h h' : Links) (ms : List ℕ) (list : ℕ) (ns : List ℕ)
    → Kept h h' ms
    → ((j : ℕ) → count j (list ∷ ns) + count j ms ≤ 1)
    → Nodes h list ns
    → Nodes h' list ns
Nodes-Kept h h' ms list ns kept apart w =
    let at_t : 0 < count (last_of list ns) (list ∷ ns) = count-last_of list ns in
    let at_t' : 0 < count (tail_of list) (list ∷ ns) =
      subst (λ t. 0 < count t (list ∷ ns)) w.at_tail at_t in
    record {
      chain = Chain-Kept h h' ms list ns kept apart w.chain;
      at_tail = w.at_tail;
      no_prev = (kept list (ground (arith, apart list))).1 ∙ w.no_prev;
      no_next = (kept (tail_of list) (ground (arith, apart (tail_of list)))).0 ∙ w.no_next;
      apart = w.apart;
    }

module _ (h : Links) (from to : ℕ) (us : List ℕ) (f : ℕ) (gs : List ℕ) (r : ℕ) (vs xs : List ℕ)
    (e : ℕ) (ys : List ℕ) (source : Nodes h from (us ++ f ∷ (gs ++ r ∷ vs)))
    (target : Nodes h to (xs ++ e ∷ ys))
    (apart : (j : ℕ)
      → count j (from ∷ us)
          + count j (f ∷ gs)
          + count j (r ∷ vs)
          + count j (to ∷ xs)
          + count j (e ∷ ys)
        ≤ 1) where
  -- The guards of list_splice hold, and it does its stores.
  splice_run :
      list_splice e f r h ≡ some (splice_in e f (last_of f gs) (splice_out f (last_of f gs) h))
  unfolding list_splice list_prev
  splice_run =
      let l = last_of f gs in
      let (n, p, here, before) = Nodes-links h to xs e ys target in
      let (n', p', here', before') = Nodes-links h from us f (gs ++ r ∷ vs) source in
      let (c, n1, p1, c1) = Chain-split h from us f (gs ++ r ∷ vs) source.chain in
      let (c2, n2, p2, c3) = Chain-split h f gs r vs c1 in
      let none_null : count 0 (gs ++ r ∷ vs) ≡ 0 =
        ground (arith, source.apart 0, count-++ 0 us (f ∷ (gs ++ r ∷ vs))) in
      let last_real : l ≢ 0 =
        last_of-real f gs (ground (arith, none_null, count-++ 0 gs (r ∷ vs))) in
      let r_real : r ≢ 0 = ground (arith, none_null, count-++ 0 gs (r ∷ vs)) in
      let e1 : h.prev e ≢ 0 = rw p before in
      let e2 : h.prev f ≢ 0 = rw p' before' in
      let e3 : h.prev r ≢ 0 = rw p2 last_real in
      let e4 : h.prev l ≢ 0 =
        prev-real h f gs c2 (ground (arith, none_null, count-++ 0 gs (r ∷ vs))) e2 in
      let e5 : h.next l ≢ 0 = rw n2 r_real in
      let e6 : h.next f ≢ 0 = next-real h f gs r vs c1 none_null in
      let differ : (f == r) ≡ false = ground (arith, apart f) in
      rw
        (
          guard-prev h e here e1,
          differ,
          guard-prev h r r_real e3,
          p2,
          guard-interior h f here' e2 e6,
          guard-interior h l last_real e4 e5,
        )
        refl

  pub splice-Nodes :
      let h' = splice_in e f (last_of f gs) (splice_out f (last_of f gs) h) in
      Nodes h' from (us ++ r ∷ vs)
      × Nodes h' to (xs ++ f ∷ (gs ++ e ∷ ys))
      × Kept h h' ((from ∷ (us ++ r ∷ vs)) ++ (to ∷ f ∷ (gs ++ (xs ++ e ∷ ys))))
  splice-Nodes =
      let l = last_of f gs in
      let h1 = splice_out f l h in
      let h2 = splice_in e f l h1 in
      let (left, chain) = Nodes-splice_out h from us f gs r vs source in
      let kept : Kept h h1 (from ∷ (us ++ r ∷ vs)) = λ j out. (
        splice_out-next h from us f gs r vs (λ i. ground (arith, apart i)) source.chain j
            (ground (arith, count-++ j us (r ∷ vs))),
        splice_out-prev h from us f gs r vs (λ i. ground (arith, apart i)) source.chain j
            (ground (arith, count-++ j us (r ∷ vs))),
      ) in
      let target' : Nodes h1 to (xs ++ e ∷ ys) =
        Nodes-Kept h h1 (from ∷ (us ++ r ∷ vs)) to (xs ++ e ∷ ys) kept
          (λ j. ground (arith, apart j, count-++ j us (r ∷ vs), count-++ j xs (e ∷ ys))) target in
      let made =
        Nodes-splice_in h1 to xs e ys f gs
          (λ j. ground (
            arith,
            apart j,
            target.apart j,
            source.apart j,
            count-++ j us (f ∷ (gs ++ r ∷ vs)),
            count-++ j gs (r ∷ vs),
            count-++ j xs (e ∷ ys),
          ))
          chain target' in
      let kept' : Kept h1 h2 (to ∷ f ∷ (gs ++ (xs ++ e ∷ ys))) = λ j out. (
        splice_in-next h1 to xs e ys f gs (λ i. ground (arith, apart i)) target'.chain j
            (ground (arith, count-++ j gs (xs ++ e ∷ ys), count-++ j xs (e ∷ ys))),
        splice_in-prev h1 to xs e ys f gs (λ i. ground (arith, apart i)) target'.chain j
            (ground (arith, count-++ j gs (xs ++ e ∷ ys), count-++ j xs (e ∷ ys))),
      ) in
      (
        Nodes-Kept h1 h2 (to ∷ f ∷ (gs ++ (xs ++ e ∷ ys))) from (us ++ r ∷ vs) kept'
            (λ j. ground (
              arith,
              apart j,
              count-++ j us (r ∷ vs),
              count-++ j gs (xs ++ e ∷ ys),
              count-++ j xs (e ∷ ys),
            ))
            left,
        made,
        λ j out.
            let sums = count-++ j (from ∷ (us ++ r ∷ vs)) (to ∷ f ∷ (gs ++ (xs ++ e ∷ ys))) in
            let first = kept j (ground (arith, sums)) in
            let second = kept' j (ground (arith, sums)) in (second.0 ∙ first.0, second.1 ∙ first.1),
      )

-- list_splice, from one well-formed list to another with which it shares no element: the
-- elements from `first` up to, and without, `last` leave the first list and stand, in their
-- order, before `before` in the second, which may be its tail. Both lists are well formed
-- afterwards, and no link of any other element has changed.
pub list_splice-IsList :
    (h : Links) (from to f : ℕ) (us gs vs xs ys : List ℕ)
    → IsList h from (us ++ f ∷ (gs ++ vs))
    → IsList h to (xs ++ ys)
    → ((j : ℕ)
        → count j (from ∷ tail_of from ∷ (us ++ f ∷ (gs ++ vs)))
            + count j (to ∷ tail_of to ∷ (xs ++ ys))
          ≤ 1)
    → (h' : Links) × (list_splice (first_of ys (tail_of to)) f (first_of vs (tail_of from)) h
        ≡ some h')
      × IsList h' from (us ++ vs)
      × IsList h' to (xs ++ f ∷ (gs ++ ys))
      × Kept h h' ((from ∷ tail_of from ∷ (us ++ vs)) ++ (to ∷ tail_of to ∷ f ∷ (gs ++ (xs ++ ys))))
list_splice-IsList h from to f us gs vs xs ys w w' apart =
    let t = tail_of from in
    let t' = tail_of to in
    let source : Nodes h from (us ++ f ∷ (gs ++ first_of vs t ∷ rest_of vs t)) =
      rw (at_place us (f ∷ (gs ++ vs)) t, at_place gs vs t) at w in
    let target : Nodes h to (xs ++ first_of ys t' ∷ rest_of ys t') = rw (at_place xs ys t') at w' in
    let size : (j : ℕ) → count j (first_of vs t ∷ rest_of vs t) ≡ count j vs + count j (t ∷ []) =
      λ j. ap (count j) (sym (at_place [] vs t)) ∙ count-++ j vs (t ∷ []) in
    let size' : (j : ℕ)
        → count j (first_of ys t' ∷ rest_of ys t') ≡ count j ys + count j (t' ∷ []) =
      λ j. ap (count j) (sym (at_place [] ys t')) ∙ count-++ j ys (t' ∷ []) in
    let all : (j : ℕ)
        → count j (from ∷ us)
            + count j (f ∷ gs)
            + count j (first_of vs t ∷ rest_of vs t)
            + count j (to ∷ xs)
            + count j (first_of ys t' ∷ rest_of ys t')
          ≤ 1 =
      λ j. ground (
        arith,
        apart j,
        size j,
        size' j,
        count-++ j us (f ∷ (gs ++ vs)),
        count-++ j gs vs,
        count-++ j xs ys,
      ) in
    let (left, made, kept) =
      splice-Nodes h from to us f gs (first_of vs t) (rest_of vs t) xs (first_of ys t')
        (rest_of ys t') source target all in
    (
      _,
      splice_run h from to us f gs (first_of vs t) (rest_of vs t) xs (first_of ys t')
          (rest_of ys t') source target all,
      rw (at_place us vs t) left,
      rw (at_place xs (f ∷ (gs ++ ys)) t', at_place gs ys t') made,
      λ j out.
          let sums = count-++ j (from ∷ t ∷ (us ++ vs)) (to ∷ t' ∷ f ∷ (gs ++ (xs ++ ys))) in
          let sums' =
            count-++ j (from ∷ (us ++ first_of vs t ∷ rest_of vs t))
              (to ∷ f ∷ (gs ++ (xs ++ first_of ys t' ∷ rest_of ys t'))) in
          let rest = first_of vs t ∷ rest_of vs t in
          let rest' = first_of ys t' ∷ rest_of ys t' in
          kept j (
            ground (
              arith,
              sums,
              sums',
              size j,
              size' j,
              count-++ j us vs,
              count-++ j us rest,
              count-++ j gs (xs ++ ys),
              count-++ j gs (xs ++ rest'),
              count-++ j xs ys,
              count-++ j xs rest',
            )),
    )
