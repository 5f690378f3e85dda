-- ===== src/KernelList/Walk.antt =====
-- Walking along a list: what its loops rely on.
use class_assignments.Prelude.{
  ℕ, zero, suc, ◌+◌, ◌<◌, ◌≡◌, ◌≢◌, refl, ◌∙◌, ap, List, [], ◌∷◌, ◌++◌, arith, ◌==◌, length, Bool,
  true, false, some,
}
use class_assignments.KernelList.{
  Links, tail_of, list_begin, list_end, list_next, list_empty, list_size, size_loop,
}
use class_assignments.KernelList.Chains.{Chain, count, count-++}
use class_assignments.KernelList.Nodes.{IsList, guard-next, next-real}
use class_assignments.KernelList.Insert.{first_of}

-- list_next leads from each of `vs` to the one after it, and none of them is the end `t`.
abbrev pub Walk : (h : Links) (vs : List ℕ) (t : ℕ) → Type 0
Walk h [] t = Unit
Walk h (v ∷ vs) t = (list_next v h ≡ some (first_of vs t)) × ((v == t) ≡ false) × Walk h vs t

pub Chain-first :
    (h : Links) (a : ℕ) (vs : List ℕ) (t : ℕ) → Chain h a (vs ++ t ∷ []) → h.next a ≡ first_of vs t
Chain-first h a [] t (n, p, c) = n
Chain-first h a (v ∷ vs) t (n, p, c) = n

Chain-Walk :
    (h : Links) (a : ℕ) (vs : List ℕ) (t : ℕ)
    → Chain h a (vs ++ t ∷ [])
    → count 0 (vs ++ t ∷ []) ≡ 0
    → count t vs ≡ 0
    → Walk h vs t
unfolding list_next
Chain-Walk h a [] t c none_null out = tt
Chain-Walk h a (v ∷ vs) t (n, p, c) none_null out =
    let real : v ≢ 0 = ground arith in
    let next = next-real h v vs t [] c (ground arith) in
    (
      rw (guard-next h v real next, Chain-first h v vs t c) refl,
      ground arith,
      Chain-Walk h v vs t c (ground arith) (ground arith),
    )

pub IsList-Walk : (h : Links) (list : ℕ) (xs : List ℕ) → IsList h list xs → Walk h xs (tail_of list)
IsList-Walk h list xs w =
    let t = tail_of list in
    Chain-Walk h list xs t w.chain (ground (arith, w.apart 0))
      (ground (arith, w.apart t, count-++ t xs (t ∷ [])))

-- The list is not NULL, its head leads to its first element, and its tail back to its last.
pub IsList-real : (h : Links) (list : ℕ) (xs : List ℕ) → IsList h list xs → list ≢ 0
IsList-real h list xs w = ground (arith, w.apart 0)

pub list_begin_lem :
    (h : Links) (list : ℕ) (xs : List ℕ)
    → IsList h list xs
    → list_begin list h ≡ some (first_of xs (tail_of list))
unfolding list_begin
list_begin_lem h list xs w =
    let real = IsList-real h list xs w in
    let e : (list == 0) ≡ false = ground arith in
    rw (e, Chain-first h list xs (tail_of list) w.chain) refl

pub list_end_lem :
    (h : Links) (list : ℕ) (xs : List ℕ) → IsList h list xs → list_end list ≡ some (tail_of list)
unfolding list_end
list_end_lem h list xs w =
    let real = IsList-real h list xs w in let e : (list == 0) ≡ false = ground arith in rw e refl

-- `[]` alone begins at the tail.
abbrev pub is_empty : List ℕ → Bool
is_empty [] = true
is_empty (x ∷ xs) = false

pub first_is_tail :
    (h : Links) (xs : List ℕ) (t : ℕ) → Walk h xs t → (first_of xs t == t) ≡ is_empty xs
first_is_tail h [] t w = ground arith
first_is_tail h (x ∷ xs) t w = w.1

pub list_empty_lem :
    (h : Links) (list : ℕ) (xs : List ℕ) → IsList h list xs → list_empty list h ≡ some (is_empty xs)
unfolding list_empty
list_empty_lem h list xs w =
    rw (list_begin_lem h list xs w, list_end_lem h list xs w)
      (ap some (first_is_tail h xs (tail_of list) (IsList-Walk h list xs w)))

size_loop_lem :
    (h : Links) (fuel cnt : ℕ) (xs : List ℕ) (t : ℕ)
    → Walk h xs t
    → length xs < fuel
    → size_loop fuel (first_of xs t) t cnt h ≡ some (cnt + length xs)
unfolding size_loop
size_loop_lem h zero cnt xs t w l = absurd (omega arith)
size_loop_lem h (suc fuel) cnt [] t w l = ground arith
size_loop_lem h (suc fuel) cnt (x ∷ xs) t (n, away, w) l =
    rw (away, n) (size_loop_lem h fuel (cnt + 1) xs t w (omega arith) ∙ ground arith)

pub list_size_lem :
    (h : Links) (fuel list : ℕ) (xs : List ℕ)
    → IsList h list xs
    → length xs < fuel
    → list_size fuel list h ≡ some (length xs)
unfolding list_size
list_size_lem h fuel list xs w l =
    rw (list_begin_lem h list xs w, list_end_lem h list xs w)
      (size_loop_lem h fuel 0 xs (tail_of list) (IsList-Walk h list xs w) l ∙ ground arith)
