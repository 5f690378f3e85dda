-- ===== src/KernelList/Reverse.antt =====
-- list_reverse.
use class_assignments.Prelude.{
  ℕ, zero, suc, ◌+◌, ◌≤◌, ◌<◌, ◌≡◌, ◌≢◌, refl, ◌∙◌, ap, List, [], ◌∷◌, ◌++◌, arith, ◌==◌, length,
  true, false, Bool-cases, inl, inr, some,
}
use class_assignments.KernelList.{
  Links, set_prev, set_next, tail_of, swap_links, reverse_loop, reverse_ends, list_reverse,
}
use class_assignments.KernelList.Chains.{
  Chain, last_of, count, count-++, count-last_of, Chain-split, Chain-prev, Chain-next, last_of-++,
}
use class_assignments.KernelList.Nodes.{IsList}
use class_assignments.KernelList.Insert.{Kept}
use class_assignments.KernelList.Walk.{list_begin_lem, list_end_lem, list_empty_lem}

-- `xs` backwards, before `acc`.
abbrev pub rev_append : (xs acc : List ℕ) → List ℕ
rev_append [] acc = acc
rev_append (x ∷ xs) acc = rev_append xs (x ∷ acc)

abbrev pub reverse : List ℕ → List ℕ
reverse xs = rev_append xs []

abbrev swapped : List ℕ → Links → Links
swapped [] h = h
swapped (v ∷ vs) h = swapped vs (swap_links v h)

swapped-out :
    (vs : List ℕ) (h : Links) (j : ℕ)
    → count j vs ≡ 0
    → ((swapped vs h).next j ≡ h.next j) × ((swapped vs h).prev j ≡ h.prev j)
swapped-out [] h j out = (refl, refl)
swapped-out (v ∷ vs) h j out =
    let other : (v == j) ≡ false = ground arith in
    let (n, p) = swapped-out vs (swap_links v h) j (ground arith) in
    (n ∙ rw other refl, p ∙ rw other refl)

swapped-in :
    (vs : List ℕ) (h : Links) (j : ℕ)
    → count j vs ≡ 1
    → ((swapped vs h).next j ≡ h.prev j) × ((swapped vs h).prev j ≡ h.next j)
swapped-in [] h j here = absurd (omega arith)
swapped-in (v ∷ vs) h j here = elim (Bool-cases (v == j)) [
  | inl this ↦
      let (n, p) = swapped-out vs (swap_links v h) j (ground arith) in
      let e : v ≡ j = ground arith in (n ∙ rw this (ap h.prev e), p ∙ rw this (ap h.next e))
  | inr other ↦
      let (n, p) = swapped-in vs (swap_links v h) j (ground arith) in
      (n ∙ rw other refl, p ∙ rw other refl)
]

reverse_step :
    (fuel : ℕ) (h : Links) (v t w : ℕ)
    → (v == t) ≡ false
    → h.next v ≡ w
    → reverse_loop (suc fuel) v t h ≡ reverse_loop fuel w t (swap_links v h)
unfolding reverse_loop
reverse_step fuel h v t w other next =
    let here : (v == v) ≡ true = ground arith in
    let read : (swap_links v h).prev v ≡ w = rw here next in
    rw other (ap (λ k. reverse_loop fuel k t (swap_links v h)) read)

reverse_stop : (fuel : ℕ) (h : Links) (t : ℕ) → reverse_loop (suc fuel) t t h ≡ some h
unfolding reverse_loop
reverse_stop fuel h t = let here : (t == t) ≡ true = ground arith in rw here refl

reverse_loop_lem :
    (fuel : ℕ) (h : Links) (v : ℕ) (vs : List ℕ) (t : ℕ)
    → Chain h v (vs ++ t ∷ [])
    → ((j : ℕ) → count j (v ∷ vs ++ t ∷ []) ≤ 1)
    → suc (length vs) < fuel
    → reverse_loop fuel v t h ≡ some (swapped (v ∷ vs) h)
reverse_loop_lem zero h v vs t c apart l = absurd (omega arith)
reverse_loop_lem (suc zero) h v vs t c apart l = absurd (omega arith)
reverse_loop_lem (suc (suc fuel)) h v [] t (n, p, c) apart l =
    reverse_step (suc fuel) h v t t (ground (arith, apart v)) n
    ∙ reverse_stop fuel (swap_links v h) t
reverse_loop_lem (suc (suc fuel)) h v (w ∷ vs) t (n, p, c) apart l =
    let h' = swap_links v h in
    let kept : Chain h' w (vs ++ t ∷ []) =
      Chain-next _ v (h.prev v) w (vs ++ t ∷ []) (ground (arith, apart v))
        (Chain-prev h v (h.next v) w (vs ++ t ∷ []) (ground (arith, apart v)) c) in
    reverse_step (suc fuel) h v t w (ground (arith, apart v, count-++ v (w ∷ vs) (t ∷ []))) n
    ∙ reverse_loop_lem (suc fuel) h' w vs t kept (λ j. ground (arith, apart j)) (omega arith)

-- The stores after the loop, where the list begins with `x` and ends with `l`.
reverse_ends_run :
    (h : Links) (list x l : ℕ)
    → h.next list ≡ x
    → h.prev (tail_of list) ≡ l
    → h.next x ≡ list
    → h.prev l ≡ tail_of list
    → (list == x) ≡ false
    → (tail_of list == l) ≡ false
    → reverse_ends list h
      ≡ set_next x (tail_of list) (set_prev l list (set_prev (tail_of list) x (set_next list l h)))
reverse_ends_run h list x l first last next prev other other' =
    let here : (list == list) ≡ true = ground arith in
    let here' : (list + 8 == list + 8) ≡ true = ground arith in
    rw (first, last, here, here', other, other', next, prev) refl

-- A chain whose links are turned round leads back to its first element.
abbrev rev_onto : (x : ℕ) (ys acc : List ℕ) → List ℕ
rev_onto x [] acc = acc
rev_onto x (y ∷ ys) acc = rev_onto y ys (x ∷ acc)

rev_append-rev_onto :
    (x : ℕ) (ys acc : List ℕ) → rev_append ys (x ∷ acc) ≡ last_of x ys ∷ rev_onto x ys acc
rev_append-rev_onto x [] acc = refl
rev_append-rev_onto x (y ∷ ys) acc = rev_append-rev_onto y ys (x ∷ acc)

rev_append-++ : (xs acc zs : List ℕ) → rev_append xs acc ++ zs ≡ rev_append xs (acc ++ zs)
rev_append-++ [] acc zs = refl
rev_append-++ (x ∷ xs) acc zs = rev_append-++ xs (x ∷ acc) zs

count-rev_append :
    (j : ℕ) (xs acc : List ℕ) → count j (rev_append xs acc) ≡ count j xs + count j acc
count-rev_append j [] acc = omega arith
count-rev_append j (x ∷ xs) acc = rw (count-rev_append j xs (x ∷ acc)) (omega arith)

Chain-back :
    (h h' : Links) (x : ℕ) (ys acc : List ℕ)
    → Chain h x ys
    → ((j : ℕ) → 0 < count j ys → h'.next j ≡ h.prev j)
    → ((j : ℕ) → 0 < count j (x ∷ ys) → j ≢ last_of x ys → h'.prev j ≡ h.next j)
    → ((j : ℕ) → count j (x ∷ ys) ≤ 1)
    → Chain h' x acc
    → Chain h' (last_of x ys) (rev_onto x ys acc)
Chain-back h h' x [] acc c next prev apart c' = c'
Chain-back h h' x (y ∷ ys) acc (n, p, c) next prev apart c' =
    let at_l : 0 < count (last_of y ys) (y ∷ ys) = count-last_of y ys in
    let inner : x ≢ last_of y ys = ground (arith, apart (last_of y ys)) in
    Chain-back h h' y ys (x ∷ acc) c (λ j here. next j (ground arith))
      (λ j here. prev j (ground arith)) (λ j. ground (arith, apart j))
      (next y (ground arith) ∙ p, prev x (ground arith) inner ∙ n, c')

module _ (h : Links) (list x : ℕ) (ys : List ℕ) (w : IsList h list (x ∷ ys)) where
  -- The elements of the list are neither its head nor its tail.
  each : (j : ℕ) → count j (0 ∷ list ∷ tail_of list ∷ x ∷ ys) ≤ 1
  each j = ground (arith, w.apart j, count-++ j (x ∷ ys) (tail_of list ∷ []))

  -- The memory after the call.
  turned : Links
  turned = set_next x (tail_of list) (
      set_prev (last_of x ys) list
        (set_prev (tail_of list) x (set_next list (last_of x ys) (swapped (x ∷ ys) h))))

  turned_run : reverse_ends list (swapped (x ∷ ys) h) ≡ turned
  unfolding turned
  turned_run =
      let t = tail_of list in
      let l = last_of x ys in
      let at_l : 0 < count l (x ∷ ys) = count-last_of x ys in
      let (c, n, p, c') = Chain-split h list (x ∷ ys) t [] w.chain in
      reverse_ends_run (swapped (x ∷ ys) h) list x l
        ((swapped-out (x ∷ ys) h list (ground (arith, each list))).0 ∙ c.0)
        ((swapped-out (x ∷ ys) h t (ground (arith, each t))).1 ∙ p)
        ((swapped-in (x ∷ ys) h x (ground (arith, each x))).0 ∙ c.1)
        ((swapped-in (x ∷ ys) h l (ground (arith, each l))).1 ∙ n) (ground (arith, each x))
        (ground (arith, each l))

  turned-next : (j : ℕ) → 0 < count j ys → turned.next j ≡ h.prev j
  unfolding turned
  turned-next j here =
      let e1 : (x == j) ≡ false = ground (arith, each j) in
      let e2 : (list == j) ≡ false = ground (arith, each j) in
      rw (e1, e2) (swapped-in (x ∷ ys) h j (ground (arith, each j))).0

  turned-prev : (j : ℕ) → 0 < count j (x ∷ ys) → j ≢ last_of x ys → turned.prev j ≡ h.next j
  unfolding turned
  turned-prev j here inner =
      let e1 : (last_of x ys == j) ≡ false = ground arith in
      let e2 : (tail_of list == j) ≡ false = ground (arith, each j) in
      rw (e1, e2) (swapped-in (x ∷ ys) h j (ground (arith, each j))).1

  turned-Chain : Chain turned list (last_of x ys ∷ rev_onto x ys (tail_of list ∷ []))
  unfolding turned
  turned-Chain =
      let t = tail_of list in
      let l = last_of x ys in
      let at_l : 0 < count l (x ∷ ys) = count-last_of x ys in
      let (c, n, p, c') = Chain-split h list (x ∷ ys) t [] w.chain in
      (
        ground (arith, each x),
        ground arith,
        Chain-back h turned x ys (t ∷ []) c.2 turned-next turned-prev (λ j. ground (arith, each j))
            (ground arith, ground (arith, each l), tt),
      )

  turned-ends : (turned.prev list ≡ 0) × (turned.next (tail_of list) ≡ 0)
  unfolding turned
  turned-ends =
      let t = tail_of list in
      let at_l : 0 < count (last_of x ys) (x ∷ ys) = count-last_of x ys in
      let e1 : (last_of x ys == list) ≡ false = ground (arith, each list) in
      let e2 : (list + 8 == list) ≡ false = ground arith in
      let e3 : (x == list + 8) ≡ false = ground (arith, each t) in
      let e4 : (list == list + 8) ≡ false = ground arith in
      (
        rw (e1, e2) ((swapped-out (x ∷ ys) h list (ground (arith, each list))).1 ∙ w.no_prev),
        rw (e3, e4) ((swapped-out (x ∷ ys) h t (ground (arith, each t))).0 ∙ w.no_next),
      )

  turned-IsList : IsList turned list (reverse (x ∷ ys))
  unfolding turned
  turned-IsList =
      let t = tail_of list in
      let l = last_of x ys in
      let at_l : 0 < count l (x ∷ ys) = count-last_of x ys in
      let shape : reverse (x ∷ ys) ++ t ∷ [] ≡ l ∷ rev_onto x ys (t ∷ []) =
        rev_append-++ ys (x ∷ []) (t ∷ []) ∙ rev_append-rev_onto x ys (t ∷ []) in
      record {
        chain = rw shape turned-Chain;
        at_tail = last_of-++ list (reverse (x ∷ ys)) t [];
        no_prev = turned-ends.0;
        no_next = turned-ends.1;
        apart = λ j.
            ground (
              arith,
              each j,
              count-++ j (reverse (x ∷ ys)) (t ∷ []),
              count-rev_append j ys (x ∷ []),
            );
      }

  turned-Kept : Kept h turned (list ∷ tail_of list ∷ x ∷ ys)
  unfolding turned
  turned-Kept j out =
      let at_l : 0 < count (last_of x ys) (x ∷ ys) = count-last_of x ys in
      let e1 : (x == j) ≡ false = ground arith in
      let e2 : (list == j) ≡ false = ground arith in
      let e3 : (last_of x ys == j) ≡ false = ground arith in
      let e4 : (list + 8 == j) ≡ false = ground arith in
      let (n, p) = swapped-out (x ∷ ys) h j (ground arith) in (rw (e1, e2) n, rw (e3, e4) p)

  reverse_some : (fuel : ℕ) → length (x ∷ ys) < fuel → list_reverse fuel list h ≡ some turned
  unfolding list_reverse
  reverse_some fuel l =
      rw
        (
          list_empty_lem h list (x ∷ ys) w,
          list_begin_lem h list (x ∷ ys) w,
          list_end_lem h list (x ∷ ys) w,
          reverse_loop_lem fuel h x ys (tail_of list) w.chain.2 (λ j. ground (arith, w.apart j)) l,
        )
        (ap some turned_run)

reverse_none : (h : Links) (fuel list : ℕ) → IsList h list [] → list_reverse fuel list h ≡ some h
unfolding list_reverse
reverse_none h fuel list w = rw (list_empty_lem h list [] w) refl

-- list_reverse, on a well-formed list, with more fuel than elements, leaves a well-formed list
-- of the elements in the reverse order; no link of any other element has changed.
pub list_reverse-IsList :
    (h : Links) (fuel list : ℕ) (xs : List ℕ)
    → IsList h list xs
    → length xs < fuel
    → (h' : Links) × (list_reverse fuel list h ≡ some h')
      × IsList h' list (reverse xs)
      × Kept h h' (list ∷ tail_of list ∷ xs)
list_reverse-IsList h fuel list [] w l = (h, reverse_none h fuel list w, w, λ j out. (refl, refl))
list_reverse-IsList h fuel list (x ∷ ys) w l = (
  turned h list x ys w,
  reverse_some h list x ys w fuel l,
  turned-IsList h list x ys w,
  turned-Kept h list x ys w,
)
