-- ===== src/KernelList/Chains.antt =====
-- Chains of elements, linked both ways, and what a store leaves of them.
use class_assignments.Prelude.{
  ℕ, ◌+◌, ◌≤◌, ◌<◌, ◌≡◌, refl, ap, List, [], ◌∷◌, ◌++◌, arith, ◌==◌, if◌then◌else◌, false,
}
use class_assignments.KernelList.{Links, set_prev, set_next}

-- From `a` on, the elements `xs` follow.
abbrev pub Chain : Links → ℕ → List ℕ → Type 0
Chain h a [] = Unit
Chain h a (x ∷ xs) = (h.next a ≡ x) × (h.prev x ≡ a) × Chain h x xs

abbrev pub last_of : ℕ → List ℕ → ℕ
last_of a [] = a
last_of a (x ∷ xs) = last_of x xs

abbrev pub count : ℕ → List ℕ → ℕ
count j [] = 0
count j (x ∷ xs) = (if x == j then 1 else 0) + count j xs

pub count-++ : (j : ℕ) (xs ys : List ℕ) → count j (xs ++ ys) ≡ count j xs + count j ys
count-++ j [] ys = omega arith
count-++ j (x ∷ xs) ys = rw (count-++ j xs ys) (omega arith)

pub count-last_of : (a : ℕ) (xs : List ℕ) → 0 < count (last_of a xs) (a ∷ xs)
count-last_of a [] = ground arith
count-last_of a (x ∷ xs) = ground (arith, count-last_of x xs)

pub append_assoc : (xs ys zs : List ℕ) → (xs ++ ys) ++ zs ≡ xs ++ (ys ++ zs)
append_assoc [] ys zs = refl
append_assoc (x ∷ xs) ys zs = ap (λ ns. x ∷ ns) (append_assoc xs ys zs)

pub ++-nil : (xs : List ℕ) → xs ++ [] ≡ xs
++-nil [] = refl
++-nil (x ∷ xs) = ap (λ ys. x ∷ ys) (++-nil xs)

-- A chain falls apart at any element.
pub Chain-split :
    (h : Links) (a : ℕ) (xs : List ℕ) (y : ℕ) (ys : List ℕ)
    → Chain h a (xs ++ y ∷ ys)
    → Chain h a xs × (h.next (last_of a xs) ≡ y) × (h.prev y ≡ last_of a xs) × Chain h y ys
Chain-split h a [] y ys (n, p, c) = (tt, n, p, c)
Chain-split h a (x ∷ xs) y ys (n, p, c) =
    let (c', n', p', c'') = Chain-split h x xs y ys c in ((n, p, c'), n', p', c'')

pub Chain-join :
    (h : Links) (a : ℕ) (xs : List ℕ) (y : ℕ) (ys : List ℕ)
    → Chain h a xs
    → h.next (last_of a xs) ≡ y
    → h.prev y ≡ last_of a xs
    → Chain h y ys
    → Chain h a (xs ++ y ∷ ys)
Chain-join h a [] y ys c n p c' = (n, p, c')
Chain-join h a (x ∷ xs) y ys (n', p', c) n p c' = (n', p', Chain-join h x xs y ys c n p c')

-- A chain is the same where the links that it has are.
pub Chain-prev :
    (h : Links) (q v a : ℕ) (xs : List ℕ)
    → count q xs ≡ 0
    → Chain h a xs
    → Chain (set_prev q v h) a xs
Chain-prev h q v a [] out c = tt
Chain-prev h q v a (x ∷ xs) out (n, p, c) =
    let other : (q == x) ≡ false = ground arith in
    (n, rw other p, Chain-prev h q v x xs (ground arith) c)

pub Chain-next :
    (h : Links) (q v a : ℕ) (xs : List ℕ)
    → count q (a ∷ xs) ≡ 0
    → Chain h a xs
    → Chain (set_next q v h) a xs
Chain-next h q v a [] out c = tt
Chain-next h q v a (x ∷ xs) out (n, p, c) =
    let other : (q == a) ≡ false = ground arith in
    (rw other n, p, Chain-next h q v x xs (ground arith) c)

-- The `next` of the last element is no link of the chain.
pub Chain-last :
    (h : Links) (v a : ℕ) (xs : List ℕ)
    → count (last_of a xs) (a ∷ xs) ≤ 1
    → Chain h a xs
    → Chain (set_next (last_of a xs) v h) a xs
Chain-last h v a [] out c = tt
Chain-last h v a (x ∷ xs) out (n, p, c) =
    let there : 0 < count (last_of x xs) (x ∷ xs) = count-last_of x xs in
    let other : (last_of x xs == a) ≡ false = ground arith in
    (rw other n, p, Chain-last h v x xs (ground arith) c)

pub last_of-++ :
    (a : ℕ) (xs : List ℕ) (y : ℕ) (ys : List ℕ) → last_of a (xs ++ y ∷ ys) ≡ last_of y ys
last_of-++ a [] y ys = refl
last_of-++ a (x ∷ xs) y ys = last_of-++ x xs y ys
