-- ===== src/KernelList/Tests.antt =====
-- Two small lists: the theorems at them.
use class_assignments.Prelude.{
  Bool, ◌/◌, inr, ℕ, ◌≡◌, refl, List, [], ◌∷◌, arith, ◌==◌, ltb, if◌then◌else◌, true, false, some,
}
use class_assignments.KernelList.{
  Links, list_insert, list_remove, list_splice, list_size, list_empty, list_push_front,
  list_push_back, list_pop_front, list_pop_back, list_reverse, list_insert_ordered, list_max,
  list_min,
}
use class_assignments.KernelList.Nodes.{IsList}
use class_assignments.KernelList.Insert.{Kept, list_insert-IsList, list_remove-IsList}
use class_assignments.KernelList.Move.{list_splice-IsList}
use class_assignments.KernelList.Ends.{IsList-ends}
use class_assignments.KernelList.Reverse.{list_reverse-IsList}
use class_assignments.KernelList.Ordered.{IsSorted, list_insert_ordered-IsSorted}
use class_assignments.KernelList.Unique.{list_unique, IsTarget}
use class_assignments.KernelList.Unique.Loop.{list_unique_lem}
use class_assignments.KernelList.Sort.{list_sort}
use class_assignments.KernelList.Sort.Sorted.{IsSort, list_sort-IsSort}
use class_assignments.KernelList.Extremes.{IsOrder, IsMaximum, turned_round, list_extremes}

-- The list at 100 holds 10, 30 and 50; that at 200 holds 70.
abbrev memory : Links
memory = record {
  next = λ j.
      if j == 100
      then 10
      else if j == 10
      then 30
      else if j == 30
      then 50
      else if j == 50
      then 108
      else if j == 200
      then 70
      else if j == 70
      then 208
      else 0;
  prev = λ j.
      if j == 108
      then 50
      else if j == 50
      then 30
      else if j == 30
      then 10
      else if j == 10
      then 100
      else if j == 208
      then 70
      else if j == 70
      then 200
      else 0;
}

abbrev three : List ℕ
three = 10 ∷ 30 ∷ 50 ∷ []

three-IsList : IsList memory 100 three
three-IsList = record {
  chain = (refl, refl, (refl, refl, (refl, refl, (refl, refl, tt))));
  at_tail = refl;
  no_prev = refl;
  no_next = refl;
  apart = λ j. ground arith;
}

one-IsList : IsList memory 200 (70 ∷ [])
one-IsList = record {
  chain = (refl, refl, (refl, refl, tt));
  at_tail = refl;
  no_prev = refl;
  no_next = refl;
  apart = λ j. ground arith;
}

ltb-asymmetric : (a b : ℕ) → ltb a b ≡ true → ltb b a ≡ false
ltb-asymmetric a b e = ground arith

ltb-IsOrder : IsOrder ltb
ltb-IsOrder = record { asymmetric = ltb-asymmetric; co_transitive = λ a b c e e'. ground arith }

list_insert-IsList_example :
    (h' : Links) × (list_insert 30 20 memory ≡ some h')
    × IsList h' 100 (10 ∷ 20 ∷ 30 ∷ 50 ∷ [])
    × Kept memory h' (100 ∷ 108 ∷ 20 ∷ 10 ∷ 30 ∷ 50 ∷ [])
list_insert-IsList_example =
    list_insert-IsList memory 100 20 (10 ∷ []) (30 ∷ 50 ∷ []) three-IsList (omega arith)
      (omega arith)

list_remove-IsList_example :
    (h' : Links) × (list_remove 30 memory ≡ some (50, h'))
    × IsList h' 100 (10 ∷ 50 ∷ [])
    × Kept memory h' (100 ∷ 108 ∷ 10 ∷ 50 ∷ [])
list_remove-IsList_example = list_remove-IsList memory 100 30 (10 ∷ []) (50 ∷ []) three-IsList

list_splice-IsList_example :
    (h' : Links) × (list_splice 70 10 50 memory ≡ some h')
    × IsList h' 100 (50 ∷ [])
    × IsList h' 200 (10 ∷ 30 ∷ 70 ∷ [])
    × Kept memory h' (100 ∷ 108 ∷ 50 ∷ 200 ∷ 208 ∷ 10 ∷ 30 ∷ 70 ∷ [])
list_splice-IsList_example =
    list_splice-IsList memory 100 200 10 [] (30 ∷ []) (50 ∷ []) [] (70 ∷ []) three-IsList one-IsList
      (λ j. ground arith)

IsList-ends_example :
    (h1 : Links) × (h2 : Links) × (h3 : Links) × (h4 : Links) × (list_size 9 100 memory ≡ some 3)
    × (list_empty 100 memory ≡ some false)
    × (list_push_front 100 20 memory ≡ some h1)
    × IsList h1 100 (20 ∷ three)
    × (list_pop_front 100 h1 ≡ some (20, h2))
    × IsList h2 100 three
    × (list_push_back 100 20 memory ≡ some h3)
    × IsList h3 100 (10 ∷ 30 ∷ 50 ∷ 20 ∷ [])
    × (list_pop_back 100 h3 ≡ some (20, h4))
    × IsList h4 100 three
IsList-ends_example =
    IsList-ends memory 9 100 20 three three-IsList (omega arith) (omega arith) (omega arith)

list_reverse-IsList_example :
    (h' : Links) × (list_reverse 9 100 memory ≡ some h')
    × IsList h' 100 (50 ∷ 30 ∷ 10 ∷ [])
    × Kept memory h' (100 ∷ 108 ∷ three)
list_reverse-IsList_example = list_reverse-IsList memory 9 100 three three-IsList (omega arith)

list_insert_ordered-IsSorted_example :
    (h' : Links) × (list_insert_ordered ltb 9 100 40 memory ≡ some h')
    × IsList h' 100 (10 ∷ 30 ∷ 40 ∷ 50 ∷ [])
    × IsSorted ltb (10 ∷ 30 ∷ 40 ∷ 50 ∷ [])
    × Kept memory h' (100 ∷ 108 ∷ 40 ∷ three)
list_insert_ordered-IsSorted_example =
    list_insert_ordered-IsSorted ltb ltb-asymmetric memory 9 100 40 three three-IsList
      (refl, (refl, (tt, tt))) (omega arith) (omega arith) (omega arith)

list_extremes_example :
    (m n : ℕ) × (list_max ltb 9 100 memory ≡ some m)
    × IsMaximum ltb m three
    × (list_min ltb 9 100 memory ≡ some n)
    × IsMaximum (turned_round ltb) n three
list_extremes_example =
    list_extremes ltb memory 9 100 10 (30 ∷ 50 ∷ []) ltb-IsOrder three-IsList (omega arith)

-- By the opposite order every element is a run of its own.
down-asymmetric : (a b : ℕ) → turned_round ltb a b ≡ true → turned_round ltb b a ≡ false
down-asymmetric a b e = ground arith

list_sort-IsSort_example :
    (h' : Links) × (ys : List ℕ) × (list_sort (turned_round ltb) 9 100 memory ≡ some h')
    × IsSort (turned_round ltb) down-asymmetric memory h' 100 three ys
list_sort-IsSort_example =
    list_sort-IsSort (turned_round ltb) down-asymmetric memory 9 100 three three-IsList
      (omega arith)

-- By this order 10 and 30 are equal; the duplicate joins the list at 200.
abbrev by_forty : ℕ → ℕ → Bool
by_forty a b = ltb (a / 40) (b / 40)

list_unique_lem_example :
    (h' : Links) × (list_unique by_forty 9 100 200 memory ≡ some h')
    × IsList h' 100 (10 ∷ 50 ∷ [])
    × IsTarget h' 200 (70 ∷ 30 ∷ []) (100 ∷ 108 ∷ 10 ∷ 50 ∷ [])
list_unique_lem_example =
    list_unique_lem by_forty memory 9 100 200 three (70 ∷ []) three-IsList
      (inr (one-IsList, λ j. ground arith)) (omega arith)
