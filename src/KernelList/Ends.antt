-- ===== src/KernelList/Ends.antt =====
-- An empty list, and the calls at the ends of a list.
use mathlib.Core.Path.{subst}
use class_assignments.Prelude.{
  ℕ, ◌<◌, ◌≡◌, ◌≢◌, refl, ◌∙◌, ap, List, [], ◌∷◌, ◌++◌, arith, ◌==◌, length, false, some,
}
use class_assignments.KernelList.{
  Links, tail_of, init_stores, splice_in, list_init, list_empty, list_push_front, list_push_back,
  list_front, list_back, list_pop_front, list_pop_back, list_remove, list_size,
}
use class_assignments.KernelList.Chains.{++-nil, count, count-++, last_of-++}
use class_assignments.KernelList.Nodes.{IsList, Nodes-links}
use class_assignments.KernelList.Insert.{
  at_place, Kept, insert_run, insert-Nodes, list_insert-IsList, list_remove-IsList,
}
use class_assignments.KernelList.Walk.{
  is_empty, list_begin_lem, list_end_lem, list_empty_lem, list_size_lem,
}

-- list_init
pub list_init-IsList :
    (h : Links) (list : ℕ)
    → list ≢ 0
    → (h' : Links) × (list_init list h ≡ some h')
      × IsList h' list []
      × Kept h h' (list ∷ tail_of list ∷ [])
unfolding list_init
list_init-IsList h list real =
    let e : (list == 0) ≡ false = ground arith in
    (
      init_stores list h,
      rw e refl,
      record {
        chain = (ground arith, ground arith, tt);
        at_tail = refl;
        no_prev = ground arith;
        no_next = ground arith;
        apart = λ j. ground arith;
      },
      λ j out. (ground arith, ground arith),
    )

-- list_push_front
pub list_push_front-IsList :
    (h : Links) (list elem : ℕ) (xs : List ℕ)
    → IsList h list xs
    → elem ≢ 0
    → count elem (list ∷ tail_of list ∷ xs) ≡ 0
    → (h' : Links) × (list_push_front list elem h ≡ some h')
      × IsList h' list (elem ∷ xs)
      × Kept h h' (list ∷ tail_of list ∷ elem ∷ xs)
unfolding list_push_front
list_push_front-IsList h list elem xs w real new =
    rw (list_begin_lem h list xs w) (list_insert-IsList h list elem [] xs w real new)

-- list_push_back
pub list_push_back-IsList :
    (h : Links) (list elem : ℕ) (xs : List ℕ)
    → IsList h list xs
    → elem ≢ 0
    → count elem (list ∷ tail_of list ∷ xs) ≡ 0
    → (h' : Links) × (list_push_back list elem h ≡ some h')
      × IsList h' list (xs ++ elem ∷ [])
      × Kept h h' (list ∷ tail_of list ∷ elem ∷ xs)
unfolding list_push_back
list_push_back-IsList h list elem xs w real new =
    let t = tail_of list in
    let (made, kept) = insert-Nodes h list xs t [] elem w (ground arith) in
    (
      splice_in t elem elem h,
      rw (list_end_lem h list xs w) (insert_run h list xs t [] elem w real),
      rw (at_place xs (elem ∷ []) t) made,
      λ j out. kept j (ground (arith, count-++ j xs (t ∷ []))),
    )

pub list_front_lem :
    (h : Links) (list x : ℕ) (xs : List ℕ) → IsList h list (x ∷ xs) → list_front list h ≡ some x
unfolding list_front
list_front_lem h list x xs w = rw (list_empty_lem h list (x ∷ xs) w) (ap some w.chain.0)

some-last : (xs : List ℕ) (x : ℕ) → is_empty (xs ++ x ∷ []) ≡ false
some-last [] x = refl
some-last (y ∷ xs) x = refl

pub list_back_lem :
    (h : Links) (list x : ℕ) (xs : List ℕ)
    → IsList h list (xs ++ x ∷ [])
    → list_back list h ≡ some x
unfolding list_back
list_back_lem h list x xs w =
    let (n, p, here, before) = Nodes-links h list (xs ++ x ∷ []) (tail_of list) [] w in
    rw (list_empty_lem h list (xs ++ x ∷ []) w, some-last xs x)
      (ap some (p ∙ last_of-++ list xs x []))

pop_front_run :
    (h h' : Links) (list x e : ℕ)
    → list_front list h ≡ some x
    → list_remove x h ≡ some (e, h')
    → list_pop_front list h ≡ some (x, h')
unfolding list_pop_front
pop_front_run h h' list x e front removed = rw (front, removed) refl

pop_back_run :
    (h h' : Links) (list x e : ℕ)
    → list_back list h ≡ some x
    → list_remove x h ≡ some (e, h')
    → list_pop_back list h ≡ some (x, h')
unfolding list_pop_back
pop_back_run h h' list x e back removed = rw (back, removed) refl

-- list_pop_front
pub list_pop_front-IsList :
    (h : Links) (list x : ℕ) (xs : List ℕ)
    → IsList h list (x ∷ xs)
    → (h' : Links) × (list_pop_front list h ≡ some (x, h'))
      × IsList h' list xs
      × Kept h h' (list ∷ tail_of list ∷ xs)
list_pop_front-IsList h list x xs w =
    let (h', run, made, kept) = list_remove-IsList h list x [] xs w in
    (h', pop_front_run h h' list x _ (list_front_lem h list x xs w) run, made, kept)

-- list_pop_back
pub list_pop_back-IsList :
    (h : Links) (list x : ℕ) (xs : List ℕ)
    → IsList h list (xs ++ x ∷ [])
    → (h' : Links) × (list_pop_back list h ≡ some (x, h'))
      × IsList h' list xs
      × Kept h h' (list ∷ tail_of list ∷ xs)
list_pop_back-IsList h list x xs w =
    let (h', run, made, kept) = list_remove-IsList h list x xs [] w in
    (
      h',
      pop_back_run h h' list x _ (list_back_lem h list x xs w) run,
      subst (λ ys. IsList h' list ys) (++-nil xs) made,
      subst (λ ys. Kept h h' (list ∷ tail_of list ∷ ys)) (++-nil xs) kept,
    )

-- The calls at the ends of a well-formed list, with more fuel than elements, and an element that
-- is not NULL and not in the list: list_size is the number of elements and list_empty tells
-- whether it is 0; list_push_front makes the element the first one and list_push_back the last
-- one, and list_pop_front and list_pop_back after them return it and leave the elements that
-- there were.
pub IsList-ends :
    (h : Links) (fuel list elem : ℕ) (xs : List ℕ)
    → IsList h list xs
    → elem ≢ 0
    → count elem (list ∷ tail_of list ∷ xs) ≡ 0
    → length xs < fuel
    → (h1 : Links) × (h2 : Links) × (h3 : Links) × (h4 : Links) × (list_size fuel list h
        ≡ some (length xs))
      × (list_empty list h ≡ some (is_empty xs))
      × (list_push_front list elem h ≡ some h1)
      × IsList h1 list (elem ∷ xs)
      × (list_pop_front list h1 ≡ some (elem, h2))
      × IsList h2 list xs
      × (list_push_back list elem h ≡ some h3)
      × IsList h3 list (xs ++ elem ∷ [])
      × (list_pop_back list h3 ≡ some (elem, h4))
      × IsList h4 list xs
IsList-ends h fuel list elem xs w real new l =
    let (h1, run1, made1, kept1) = list_push_front-IsList h list elem xs w real new in
    let (h2, run2, made2, kept2) = list_pop_front-IsList h1 list elem xs made1 in
    let (h3, run3, made3, kept3) = list_push_back-IsList h list elem xs w real new in
    let (h4, run4, made4, kept4) = list_pop_back-IsList h3 list elem xs made3 in
    (
      h1,
      h2,
      h3,
      h4,
      list_size_lem h fuel list xs w l,
      list_empty_lem h list xs w,
      run1,
      made1,
      run2,
      made2,
      run3,
      made3,
      run4,
      made4,
    )
