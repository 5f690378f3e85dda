-- ===== src/KernelList.antt =====
-- cs439/proj4/lib/kernel/list.c: doubly linked lists with a head and a tail.
-- An element is the address of its `struct list_elem`, and NULL is 0. The memory is the two fields
-- of all elements. A loop along a list takes the most rounds that it may make as fuel: `none` is a
-- failed ASSERT, or too little fuel. `less` stands for the caller's comparison with its `aux`.
pub mod Chains
pub mod Splice
pub mod Nodes
pub mod Insert
pub mod Move
pub mod Walk
pub mod Ends
pub mod Reverse
pub mod Ordered
pub mod Extremes
pub mod Sort
pub mod Unique
mod Tests
use class_assignments.Prelude.{
  ℕ, zero, suc, ◌+◌, ◌==◌, Bool, true, false, not, ◌&&◌, ◌||◌, Option, none, some, if◌then◌else◌,
  ◌>>=◌, ◌>>◌, assert,
}

-- `prev` and `next` of each `struct list_elem`
pub record Links : Type 0 where
  pub prev : ℕ → ℕ
  pub next : ℕ → ℕ

abbrev pub updated : (field : ℕ → ℕ) → (elem value : ℕ) → ℕ → ℕ
updated field elem value j = if elem == j then value else field j

abbrev pub set_prev : (elem value : ℕ) → Links → Links
set_prev elem value h = record h { prev = updated h.prev elem value }

abbrev pub set_next : (elem value : ℕ) → Links → Links
set_next elem value h = record h { next = updated h.next elem value }

-- `&list->head` and `&list->tail` of a `struct list` at an address: an element has 8 bytes.
abbrev pub head_of : ℕ → ℕ
head_of list = list

abbrev pub tail_of : ℕ → ℕ
tail_of list = list + 8

-- ASSERT (p != NULL)
abbrev pub assert_real : (p : ℕ) → Option (Unit {0})
assert_real p = assert (not (p == 0))

abbrev pub is_head : (elem : ℕ) → Links → Bool
is_head elem h = not (elem == 0) && h.prev elem == 0 && not (h.next elem == 0)

abbrev pub is_interior : (elem : ℕ) → Links → Bool
is_interior elem h = not (elem == 0) && not (h.prev elem == 0) && not (h.next elem == 0)

abbrev pub is_tail : (elem : ℕ) → Links → Bool
is_tail elem h = not (elem == 0) && not (h.prev elem == 0) && h.next elem == 0

abbrev pub init_stores : (list : ℕ) → Links → Links
init_stores list h =
    let h1 = set_prev (head_of list) 0 h in
    let h2 = set_next (head_of list) (tail_of list) h1 in
    let h3 = set_prev (tail_of list) (head_of list) h2 in set_next (tail_of list) 0 h3

unfoldable pub list_init : (list : ℕ) → Links → Option Links
list_init list h = assert_real list >> some (init_stores list h)

unfoldable pub list_begin : (list : ℕ) → Links → Option ℕ
list_begin list h = assert_real list >> some (h.next (head_of list))

unfoldable pub list_next : (elem : ℕ) → Links → Option ℕ
list_next elem h = assert (is_head elem h || is_interior elem h) >> some (h.next elem)

unfoldable pub list_end : (list : ℕ) → Option ℕ
list_end list = assert_real list >> some (tail_of list)

unfoldable pub list_rbegin : (list : ℕ) → Links → Option ℕ
list_rbegin list h = assert_real list >> some (h.prev (tail_of list))

unfoldable pub list_prev : (elem : ℕ) → Links → Option ℕ
list_prev elem h = assert (is_interior elem h || is_tail elem h) >> some (h.prev elem)

unfoldable pub list_rend : (list : ℕ) → Option ℕ
list_rend list = assert_real list >> some (head_of list)

unfoldable pub list_head : (list : ℕ) → Option ℕ
list_head list = assert_real list >> some (head_of list)

unfoldable pub list_tail : (list : ℕ) → Option ℕ
list_tail list = assert_real list >> some (tail_of list)

-- Each store reads the memory that the stores before it have left.
abbrev pub insert_stores : (before elem : ℕ) → Links → Links
insert_stores before elem h =
    let h1 = set_prev elem (h.prev before) h in
    let h2 = set_next elem before h1 in
    let h3 = set_next (h2.prev before) elem h2 in set_prev before elem h3

unfoldable pub list_insert : (before elem : ℕ) → Links → Option Links
list_insert before elem h =
    assert (is_interior before h || is_tail before h)
    >> assert_real elem
    >> some (insert_stores before elem h)

-- The elements from `first` to `last`, both included, leave their list ...
abbrev pub splice_out : (first last : ℕ) → Links → Links
splice_out first last h =
    let h1 = set_next (h.prev first) (h.next last) h in set_prev (h1.next last) (h1.prev first) h1

-- ... and come before `before`.
abbrev pub splice_in : (before first last : ℕ) → Links → Links
splice_in before first last h =
    let h1 = set_prev first (h.prev before) h in
    let h2 = set_next last before h1 in
    let h3 = set_next (h2.prev before) first h2 in set_prev before last h3

unfoldable pub list_splice : (before first last : ℕ) → Links → Option Links
list_splice before first last h =
    assert (is_interior before h || is_tail before h)
    >> (if first == last
        then some h
        else (list_prev last h >>= λ last'.
            assert (is_interior first h)
            >> assert (is_interior last' h)
            >> some (splice_in before first last' (splice_out first last' h))))

unfoldable pub list_push_front : (list elem : ℕ) → Links → Option Links
list_push_front list elem h = list_begin list h >>= λ e. list_insert e elem h

unfoldable pub list_push_back : (list elem : ℕ) → Links → Option Links
list_push_back list elem h = list_end list >>= λ e. list_insert e elem h

abbrev pub remove_stores : (elem : ℕ) → Links → Links
remove_stores elem h =
    let h1 = set_next (h.prev elem) (h.next elem) h in set_prev (h1.next elem) (h1.prev elem) h1

unfoldable pub list_remove : (elem : ℕ) → Links → Option (ℕ × Links)
list_remove elem h =
    assert (is_interior elem h) >> (let h' = remove_stores elem h in some (h'.next elem, h'))

unfoldable pub list_empty : (list : ℕ) → Links → Option Bool
list_empty list h = list_begin list h >>= λ b. list_end list >>= λ e. some (b == e)

unfoldable pub list_front : (list : ℕ) → Links → Option ℕ
list_front list h =
    list_empty list h >>= λ empty. assert (not empty) >> some (h.next (head_of list))

unfoldable pub list_back : (list : ℕ) → Links → Option ℕ
list_back list h = list_empty list h >>= λ empty. assert (not empty) >> some (h.prev (tail_of list))

unfoldable pub list_pop_front : (list : ℕ) → Links → Option (ℕ × Links)
list_pop_front list h =
    list_front list h >>= λ front. list_remove front h >>= λ (e, h'). some (front, h')

unfoldable pub list_pop_back : (list : ℕ) → Links → Option (ℕ × Links)
list_pop_back list h =
    list_back list h >>= λ back. list_remove back h >>= λ (e, h'). some (back, h')

unfoldable pub size_loop : (fuel e end cnt : ℕ) → Links → Option ℕ
size_loop zero e end cnt h = none
size_loop (suc fuel) e end cnt h =
    if e == end then some cnt else (list_next e h >>= λ e'. size_loop fuel e' end (cnt + 1) h)

unfoldable pub list_size : (fuel list : ℕ) → Links → Option ℕ
list_size fuel list h = list_begin list h >>= λ e. list_end list >>= λ end. size_loop fuel e end 0 h

-- `swap (&e->prev, &e->next)`
abbrev pub swap_links : (e : ℕ) → Links → Links
swap_links e h = set_next e (h.prev e) (set_prev e (h.next e) h)

unfoldable pub reverse_loop : (fuel e end : ℕ) → Links → Option Links
reverse_loop zero e end h = none
reverse_loop (suc fuel) e end h =
    let h' = swap_links e h in
    let rest = reverse_loop fuel (h'.prev e) end h' in if e == end then some h else rest

-- The two swaps after the loop.
abbrev pub reverse_ends : (list : ℕ) → Links → Links
reverse_ends list h =
    let h1 =
      set_prev (tail_of list) (h.next (head_of list))
        (set_next (head_of list) (h.prev (tail_of list)) h) in
    let first = h1.next (head_of list) in
    let last = h1.prev (tail_of list) in
    set_next last (h1.prev first) (set_prev first (h1.next last) h1)

unfoldable pub list_reverse : (fuel list : ℕ) → Links → Option Links
list_reverse fuel list h = list_empty list h >>= λ empty.
    if empty
    then some h
    else (list_begin list h >>= λ e.
        list_end list >>= λ end. reverse_loop fuel e end h >>= λ h'. some (reverse_ends list h'))

-- The element before which list_insert_ordered inserts.
unfoldable pub ordered_loop : (less : ℕ → ℕ → Bool) (fuel e end elem : ℕ) → Links → Option ℕ
ordered_loop less zero e end elem h = none
ordered_loop less (suc fuel) e end elem h =
    if e == end
    then some e
    else if less elem e
    then some e
    else (list_next e h >>= λ e'. ordered_loop less fuel e' end elem h)

unfoldable pub list_insert_ordered :
    (less : ℕ → ℕ → Bool) (fuel list elem : ℕ) → Links → Option Links
list_insert_ordered less fuel list elem h = assert_real elem >> list_begin list h >>= λ b.
    list_end list >>= λ end. ordered_loop less fuel b end elem h >>= λ e. list_insert e elem h

-- The loop of list_max.
unfoldable pub max_loop : (less : ℕ → ℕ → Bool) (fuel max e end : ℕ) → Links → Option ℕ
max_loop less zero max e end h = none
max_loop less (suc fuel) max e end h =
    if e == end
    then some max
    else (list_next e h >>= λ e'. max_loop less fuel (if less max e then e else max) e' end h)

unfoldable pub list_max : (less : ℕ → ℕ → Bool) (fuel list : ℕ) → Links → Option ℕ
list_max less fuel list h = list_begin list h >>= λ max. list_end list >>= λ end.
    if max == end then some max else (list_next max h >>= λ e. max_loop less fuel max e end h)

unfoldable pub min_loop : (less : ℕ → ℕ → Bool) (fuel min e end : ℕ) → Links → Option ℕ
min_loop less zero min e end h = none
min_loop less (suc fuel) min e end h =
    if e == end
    then some min
    else (list_next e h >>= λ e'. min_loop less fuel (if less e min then e else min) e' end h)

unfoldable pub list_min : (less : ℕ → ℕ → Bool) (fuel list : ℕ) → Links → Option ℕ
list_min less fuel list h = list_begin list h >>= λ min. list_end list >>= λ end.
    if min == end then some min else (list_next min h >>= λ e. min_loop less fuel min e end h)
