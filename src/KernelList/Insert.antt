-- ===== src/KernelList/Insert.antt =====
-- list_insert, list_remove and list_splice on well-formed lists.
use class_assignments.Prelude.{
  ℕ, ◌+◌, ◌≤◌, ◌≡◌, ◌≢◌, refl, sym, ◌∙◌, ap, List, [], ◌∷◌, ◌++◌, arith, ◌==◌, true, false, some,
}
use class_assignments.KernelList.{
  Links, updated, is_interior, tail_of, list_insert, list_remove, splice_in, splice_out,
}
use class_assignments.KernelList.Chains.{count, count-++, Chain-split}
use class_assignments.KernelList.Splice.{
  splice_in-next, splice_in-prev, splice_out-next, splice_out-prev,
}
use class_assignments.KernelList.Nodes.{
  Nodes, IsList, Nodes-links, guard-prev, guard-interior, Nodes-splice_in, Nodes-splice_out,
}

-- The first of `vs`, and what follows it, where `t` is behind them.
abbrev pub first_of : (vs : List ℕ) (t : ℕ) → ℕ
first_of [] t = t
first_of (v ∷ vs) t = v

abbrev pub rest_of : (vs : List ℕ) (t : ℕ) → List ℕ
rest_of [] t = []
rest_of (v ∷ vs) t = vs ++ t ∷ []

pub at_place : (us vs : List ℕ) (t : ℕ) → (us ++ vs) ++ t ∷ [] ≡ us ++ first_of vs t ∷ rest_of vs t
at_place [] [] t = refl
at_place [] (v ∷ vs) t = refl
at_place (u ∷ us) vs t = ap (λ ns. u ∷ ns) (at_place us vs t)

-- The links of all elements but `ns` are as they were.
abbrev pub Kept : (h h' : Links) (ns : List ℕ) → Type 0
Kept h h' ns = (j : ℕ) → count j ns ≡ 0 → (h'.next j ≡ h.next j) × (h'.prev j ≡ h.prev j)

-- Before an element of a list, or before its tail, list_insert does its stores.
pub insert_run :
    (h : Links) (list : ℕ) (us : List ℕ) (e : ℕ) (ws : List ℕ) (elem : ℕ)
    → Nodes h list (us ++ e ∷ ws)
    → elem ≢ 0
    → list_insert e elem h ≡ some (splice_in e elem elem h)
unfolding list_insert
insert_run h list us e ws elem w real =
    let (n, p, here, before) = Nodes-links h list us e ws w in
    let prev : h.prev e ≢ 0 = rw p before in
    let e3 : (elem == 0) ≡ false = ground arith in rw (guard-prev h e here prev, e3) refl

pub insert-Nodes :
    (h : Links) (list : ℕ) (us : List ℕ) (e : ℕ) (ws : List ℕ) (elem : ℕ)
    → Nodes h list (us ++ e ∷ ws)
    → count elem (0 ∷ list ∷ us) + count elem (e ∷ ws) ≡ 0
    → Nodes (splice_in e elem elem h) list (us ++ elem ∷ e ∷ ws)
      × Kept h (splice_in e elem elem h) (list ∷ elem ∷ (us ++ e ∷ ws))
insert-Nodes h list us e ws elem w new =
    let apart : (j : ℕ) → count j (0 ∷ list ∷ us) + count j (e ∷ ws) + count j (elem ∷ []) ≤ 1 =
      λ j. ground (arith, w.apart j, count-++ j us (e ∷ ws)) in
    let apart' : (j : ℕ) → count j (list ∷ us) + count j (e ∷ ws) + count j (elem ∷ []) ≤ 1 =
      λ j. ground (arith, apart j) in
    (
      Nodes-splice_in h list us e ws elem [] apart tt w,
      λ j out. (
        splice_in-next h list us e ws elem [] apart' w.chain j
            (ground (arith, count-++ j us (e ∷ ws))),
        splice_in-prev h list us e ws elem [] apart' w.chain j
            (ground (arith, count-++ j us (e ∷ ws))),
      ),
    )

pub insert-IsList :
    (h : Links) (list elem : ℕ) (us vs : List ℕ)
    → IsList h list (us ++ vs)
    → elem ≢ 0
    → count elem (list ∷ tail_of list ∷ (us ++ vs)) ≡ 0
    → let h' = splice_in (first_of vs (tail_of list)) elem elem h in
      IsList h' list (us ++ elem ∷ vs) × Kept h h' (list ∷ tail_of list ∷ elem ∷ (us ++ vs))
insert-IsList h list elem us vs w real new =
    let t = tail_of list in
    let w' : Nodes h list (us ++ first_of vs t ∷ rest_of vs t) = rw (at_place us vs t) at w in
    let size : (j : ℕ)
        → count j (us ++ first_of vs t ∷ rest_of vs t) ≡ count j (us ++ vs) + count j (t ∷ []) =
      λ j. ap (count j) (sym (at_place us vs t)) ∙ count-++ j (us ++ vs) (t ∷ []) in
    let (made, kept) =
      insert-Nodes h list us (first_of vs t) (rest_of vs t) elem w'
        (ground (arith, size elem, count-++ elem us (first_of vs t ∷ rest_of vs t))) in
    (
      rw (at_place us (elem ∷ vs) t, at_place [] vs t) made,
      λ j out. kept j (ground (arith, size j)),
    )

-- list_insert, before an element of a well-formed list or before its tail, of an element that is
-- not NULL and not in the list: the list is well formed, the new element stands at that place,
-- and no link of any element but these has changed.
pub list_insert-IsList :
    (h : Links) (list elem : ℕ) (us vs : List ℕ)
    → IsList h list (us ++ vs)
    → elem ≢ 0
    → count elem (list ∷ tail_of list ∷ (us ++ vs)) ≡ 0
    → (h' : Links) × (list_insert (first_of vs (tail_of list)) elem h ≡ some h')
      × IsList h' list (us ++ elem ∷ vs)
      × Kept h h' (list ∷ tail_of list ∷ elem ∷ (us ++ vs))
list_insert-IsList h list elem us vs w real new =
    let t = tail_of list in
    let w' : Nodes h list (us ++ first_of vs t ∷ rest_of vs t) = rw (at_place us vs t) at w in
    let (made, kept) = insert-IsList h list elem us vs w real new in
    (
      splice_in (first_of vs t) elem elem h,
      insert_run h list us (first_of vs t) (rest_of vs t) elem w' real,
      made,
      kept,
    )

pub interior_lem :
    (h : Links) (list : ℕ) (us : List ℕ) (x r : ℕ) (ws : List ℕ)
    → Nodes h list (us ++ x ∷ r ∷ ws)
    → (is_interior x h ≡ true) × (h.next x ≡ r) × (h.prev r ≡ x) × (r ≢ 0)
interior_lem h list us x r ws w =
    let (n, p, here, before) = Nodes-links h list us x (r ∷ ws) w in
    let (c, n', p', c') = Chain-split h list us x (r ∷ ws) w.chain in
    let real : r ≢ 0 = ground (arith, w.apart 0, count-++ 0 us (x ∷ r ∷ ws)) in
    let prev : h.prev x ≢ 0 = rw p before in
    let next' : h.next x ≢ 0 = rw c'.0 real in
    (guard-interior h x here prev next', c'.0, c'.1, real)

pub remove_run :
    (h : Links) (list : ℕ) (us : List ℕ) (x r : ℕ) (ws : List ℕ)
    → Nodes h list (us ++ x ∷ r ∷ ws)
    → list_remove x h ≡ some (r, splice_out x x h)
unfolding list_remove
remove_run h list us x r ws w =
    let (interior, next, prev, real) = interior_lem h list us x r ws w in
    let read : updated h.next (h.prev x) (h.next x) x ≡ r = ground (arith, next) in
    rw interior (ap (λ k. some (k, splice_out x x h)) read)

pub remove-IsList :
    (h : Links) (list x : ℕ) (us vs : List ℕ)
    → IsList h list (us ++ x ∷ vs)
    → IsList (splice_out x x h) list (us ++ vs)
      × Kept h (splice_out x x h) (list ∷ tail_of list ∷ (us ++ vs))
remove-IsList h list x us vs w =
    let t = tail_of list in
    let r = first_of vs t in
    let rs = rest_of vs t in
    let w' : Nodes h list (us ++ x ∷ r ∷ rs) = rw (at_place us (x ∷ vs) t, at_place [] vs t) at w in
    let size : (j : ℕ) → count j (us ++ r ∷ rs) ≡ count j (us ++ vs) + count j (t ∷ []) =
      λ j. ap (count j) (sym (at_place us vs t)) ∙ count-++ j (us ++ vs) (t ∷ []) in
    let apart : (j : ℕ) → count j (list ∷ us) + count j (x ∷ []) + count j (r ∷ rs) ≤ 1 =
      λ j. ground (arith, w'.apart j, count-++ j us (x ∷ r ∷ rs)) in
    (
      rw (at_place us vs t) (Nodes-splice_out h list us x [] r rs w').0,
      λ j out. (
        splice_out-next h list us x [] r rs apart w'.chain j
            (ground (arith, size j, count-++ j us (r ∷ rs))),
        splice_out-prev h list us x [] r rs apart w'.chain j
            (ground (arith, size j, count-++ j us (r ∷ rs))),
      ),
    )

-- list_remove, of an element of a well-formed list, returns the element after it, or the tail;
-- the list is well formed without it, and no link has changed but those of the list, not even
-- those of the element removed.
pub list_remove-IsList :
    (h : Links) (list x : ℕ) (us vs : List ℕ)
    → IsList h list (us ++ x ∷ vs)
    → (h' : Links) × (list_remove x h ≡ some (first_of vs (tail_of list), h'))
      × IsList h' list (us ++ vs)
      × Kept h h' (list ∷ tail_of list ∷ (us ++ vs))
list_remove-IsList h list x us vs w =
    let t = tail_of list in
    let w' : Nodes h list (us ++ x ∷ first_of vs t ∷ rest_of vs t) =
      rw (at_place us (x ∷ vs) t, at_place [] vs t) at w in
    let (left, kept) = remove-IsList h list x us vs w in
    (splice_out x x h, remove_run h list us x (first_of vs t) (rest_of vs t) w', left, kept)
