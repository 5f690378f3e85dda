-- ===== src/KernelList/Sort/Forward.antt =====
-- list_splice within one list: an element that moves forward.
use mathlib.Core.Path.{subst}
use class_assignments.Prelude.{
  ℕ, ◌+◌, ◌≡◌, ◌≢◌, refl, sym, ◌∙◌, List, [], ◌∷◌, ◌++◌, arith, ◌==◌, true, false, ◌||◌, some,
}
use class_assignments.KernelList.{
  Links, tail_of, list_prev, is_interior, is_tail, list_splice, splice_in, splice_out,
}
use class_assignments.KernelList.Chains.{count, count-++, append_assoc}
use class_assignments.KernelList.Nodes.{Nodes, IsList, Nodes-links, guard-prev}
use class_assignments.KernelList.Insert.{
  first_of, rest_of, at_place, Kept, interior_lem, insert-IsList, remove-IsList,
}
use class_assignments.KernelList.Sort.Steps.{first_of-count}

splice_one_run :
    (h : Links) (a b r : ℕ)
    → (is_interior a h || is_tail a h) ≡ true
    → (b == r) ≡ false
    → list_prev r h ≡ some b
    → is_interior b h ≡ true
    → list_splice a b r h ≡ some (splice_in a b b (splice_out b b h))
unfolding list_splice
splice_one_run h a b r guard other prev interior = rw (guard, other, prev, interior) refl

list_prev_run : (h : Links) (r b : ℕ) → r ≢ 0 → b ≢ 0 → h.prev r ≡ b → list_prev r h ≡ some b
unfolding list_prev
list_prev_run h r b real real' e =
    let nonnull : h.prev r ≢ 0 = rw e real' in rw (guard-prev h r real nonnull, e) refl

-- An element moves forward in its list.
pub splice_one :
    (h : Links) (list : ℕ) (us : List ℕ) (a : ℕ) (cs : List ℕ) (b : ℕ) (vs : List ℕ)
    → IsList h list (us ++ a ∷ (cs ++ b ∷ vs))
    → (h' : Links) × (list_splice a b (first_of vs (tail_of list)) h ≡ some h')
      × IsList h' list (us ++ b ∷ a ∷ (cs ++ vs))
      × Kept h h' (list ∷ tail_of list ∷ (us ++ a ∷ (cs ++ b ∷ vs)))
splice_one h list us a cs b vs w =
    let t = tail_of list in
    let r = first_of vs t in
    let xs = us ++ a ∷ (cs ++ b ∷ vs) in
    let assoc = append_assoc us (a ∷ cs) (b ∷ vs) in
    let assoc' = append_assoc us (a ∷ cs) vs in
    let w1 : IsList h list ((us ++ a ∷ cs) ++ b ∷ vs) =
      subst (λ ns. IsList h list ns) (sym assoc) w in
    let nodes : Nodes h list ((us ++ a ∷ cs) ++ b ∷ r ∷ rest_of vs t) =
      rw (at_place (us ++ a ∷ cs) (b ∷ vs) t, at_place [] vs t) at w1 in
    let nodes' : Nodes h list (us ++ a ∷ ((cs ++ b ∷ vs) ++ t ∷ [])) =
      rw (at_place us (a ∷ (cs ++ b ∷ vs)) t) at w in
    let (n, p, here, before) = Nodes-links h list us a ((cs ++ b ∷ vs) ++ t ∷ []) nodes' in
    let (interior, next, prev, real) =
      interior_lem h list (us ++ a ∷ cs) b r (rest_of vs t) nodes in
    let sizes : (j : ℕ)
        → count j (xs ++ t ∷ [])
          ≡ count j us + (count j (a ∷ cs) + (count j (b ∷ vs) + count j (t ∷ []))) =
      λ j. ground (
        arith,
        count-++ j xs (t ∷ []),
        count-++ j us (a ∷ (cs ++ b ∷ vs)),
        count-++ j cs (b ∷ vs),
      ) in
    let none_null : b ≢ 0 = ground (arith, w.apart 0, sizes 0) in
    let other : (b == r) ≡ false =
      ground (arith, w.apart b, sizes b, first_of-count vs t, count-++ r vs (t ∷ [])) in
    let (left, kept) = remove-IsList h list b (us ++ a ∷ cs) vs w1 in
    let h1 = splice_out b b h in
    let left' : IsList h1 list (us ++ a ∷ (cs ++ vs)) =
      subst (λ ns. IsList h1 list ns) assoc' left in
    let (made, kept') =
      insert-IsList h1 list b us (a ∷ (cs ++ vs)) left' none_null
        (ground (arith, w.apart b, sizes b, count-++ b us (a ∷ (cs ++ vs)), count-++ b cs vs)) in
    (
      splice_in a b b h1,
      splice_one_run h a b r (guard-prev h a here (rw p before)) other
          (list_prev_run h r b real none_null prev) interior,
      made,
      λ j out.
          let out' : count j us + (count j (a ∷ cs) + (count j (b ∷ vs) + count j (list ∷ t ∷ [])))
              ≡ 0 =
            ground (arith, count-++ j us (a ∷ (cs ++ b ∷ vs)), count-++ j cs (b ∷ vs)) in
          let first =
            kept j (ground (arith, out', count-++ j (us ++ a ∷ cs) vs, count-++ j us (a ∷ cs))) in
          let second =
            kept' j (ground (arith, out', count-++ j us (a ∷ (cs ++ vs)), count-++ j cs vs)) in
          (second.0 ∙ first.0, second.1 ∙ first.1),
    )

pub place-real :
    (h : Links) (list : ℕ) (us vs : List ℕ)
    → IsList h list (us ++ vs)
    → (first_of vs (tail_of list) == 0) ≡ false
place-real h list us vs w =
    let t = tail_of list in
    let nodes : Nodes h list (us ++ first_of vs t ∷ rest_of vs t) = rw (at_place us vs t) at w in
    let (n, p, here, before) = Nodes-links h list us (first_of vs t) (rest_of vs t) nodes in
    ground arith
