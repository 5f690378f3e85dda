-- ===== src/KernelList/Unique.antt =====
-- list_unique of cs439/proj4/lib/kernel/list.c.
pub mod Loop
use mathlib.Core.Path.{subst}
use class_assignments.Prelude.{
  ℕ, zero, suc, ◌+◌, ◌≤◌, ◌<◌, ◌≡◌, ◌≢◌, ◌⊎◌, refl, sym, ◌∙◌, ap, List, [], ◌∷◌, ◌++◌, arith, ◌==◌,
  length, if◌then◌else◌, Bool, true, false, Bool-cases, inl, inr, not, ◌&&◌, Option, some, none,
  ◌>>◌, ◌>>=◌,
}
use class_assignments.KernelList.{
  Links, tail_of, assert_real, list_begin, list_end, list_next, list_empty, list_remove,
  list_push_back,
}
use class_assignments.KernelList.Chains.{count, count-++, append_assoc, ++-nil}
use class_assignments.KernelList.Nodes.{Nodes, IsList}
use class_assignments.KernelList.Insert.{first_of, Kept, list_remove-IsList}
use class_assignments.KernelList.Move.{Nodes-Kept}
use class_assignments.KernelList.Walk.{list_begin_lem, list_end_lem, list_empty_lem, IsList-real}
use class_assignments.KernelList.Ends.{list_push_back-IsList}
use class_assignments.KernelList.Sort.Steps.{IsList-Steps_end}

-- `if (duplicates != NULL) list_push_back (duplicates, next);`
unfoldable pub push_duplicate : (duplicates next : ℕ) → Links → Option Links
push_duplicate duplicates next h =
    if not (duplicates == 0) then list_push_back duplicates next h else some h

-- The list for the duplicates: none, or a well-formed one apart from the other.
abbrev pub IsTarget : (h : Links) (duplicates : ℕ) (ds nodes : List ℕ) → Type 0
IsTarget h duplicates ds nodes =
    (duplicates ≡ 0)
    ⊎ (IsList h duplicates ds
        × ((j : ℕ) → count j (duplicates ∷ tail_of duplicates ∷ ds) + count j nodes ≤ 1))

module _ (less : ℕ → ℕ → Bool) where
  abbrev pub equal : (a b : ℕ) → Bool
  equal a b = not (less a b) && not (less b a)

  unfoldable pub unique_loop : (fuel elem end duplicates : ℕ) → Links → Option Links
  unique_loop zero elem end duplicates h = none
  unique_loop (suc fuel) elem end duplicates h = list_next elem h >>= λ next.
      if next == end then some h else elim (equal elem next) [
        | true ↦ list_remove next h >>= λ (after, h1).
            push_duplicate duplicates next h1 >>= λ h2. unique_loop fuel elem end duplicates h2
        | false ↦ unique_loop fuel next end duplicates h
      ]

  unfoldable pub list_unique : (fuel list duplicates : ℕ) → Links → Option Links
  list_unique fuel list duplicates h = assert_real list >> list_empty list h >>= λ empty.
      if empty
      then some h
      else (list_begin list h >>= λ elem.
          list_end list >>= λ end. unique_loop fuel elem end duplicates h)

  -- The first of each group of equal elements that follow each other, and the others, where `a` is
  -- the first of the group before them.
  abbrev pub firsts : (a : ℕ) → List ℕ → List ℕ
  firsts a [] = []
  firsts a (x ∷ xs) =
      let in_group = firsts a xs in
      let new_group = firsts x xs in if equal a x then in_group else x ∷ new_group

  abbrev pub others : (a : ℕ) → List ℕ → List ℕ
  others a [] = []
  others a (x ∷ xs) =
      let in_group = others a xs in
      let new_group = others x xs in if equal a x then x ∷ in_group else new_group

  -- The sequences of the whole call.
  abbrev pub all_firsts : List ℕ → List ℕ
  all_firsts [] = []
  all_firsts (x ∷ xs) = x ∷ firsts x xs

  abbrev pub all_others : List ℕ → List ℕ
  all_others [] = []
  all_others (x ∷ xs) = others x xs
