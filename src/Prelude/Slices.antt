-- ===== src/Prelude/Slices.antt =====
-- Parts of lists by position, and lists read off a function.
use class_assignments.Prelude.{
  ℕ, zero, suc, ◌+◌, ◌-◌, ◌<◌, ◌≤◌, ◌≡◌, refl, sym, ◌∙◌, ap, List, [], ◌∷◌, ◌++◌, arith, ltb,
  if◌then◌else◌, length, get_or, take, drop, replicate,
}
use mathlib.Core.Path.{ap₂}

module _ {ℓ} {A : Type ℓ} where
  pub get_or-append :
      (xs ys : List A) (i : ℕ) (d : A)
      → get_or (xs ++ ys) i d
        ≡ (if ltb i (length xs) then get_or xs i d else get_or ys (i - length xs) d)
  get_or-append [] ys i d = ground arith
  get_or-append (x ∷ xs) ys zero d = ground arith
  get_or-append (x ∷ xs) ys (suc i) d = ground (arith, get_or-append xs ys i d)

  pub get_or-take :
      (n : ℕ) (xs : List A) (i : ℕ) (d : A)
      → get_or (take n xs) i d ≡ (if ltb i n then get_or xs i d else d)
  get_or-take zero xs i d = ground arith
  get_or-take (suc n) [] i d = ground arith
  get_or-take (suc n) (x ∷ xs) zero d = ground arith
  get_or-take (suc n) (x ∷ xs) (suc i) d = ground (arith, get_or-take n xs i d)

  pub get_or-drop :
      (n : ℕ) (xs : List A) (i : ℕ) (d : A) → get_or (drop n xs) i d ≡ get_or xs (n + i) d
  get_or-drop zero xs i d = ground arith
  get_or-drop (suc n) [] i d = refl
  get_or-drop (suc n) (x ∷ xs) i d = ground (arith, get_or-drop n xs i d)

  pub get_or-past : (xs : List A) (i : ℕ) (d : A) → length xs ≤ i → get_or xs i d ≡ d
  get_or-past [] i d h = refl
  get_or-past (x ∷ xs) zero d h = absurd (omega arith)
  get_or-past (x ∷ xs) (suc i) d h = get_or-past xs i d (omega arith)

  pub get_or-replicate : (n i : ℕ) (a : A) → get_or (replicate n a) i a ≡ a
  get_or-replicate zero i a = refl
  get_or-replicate (suc n) zero a = refl
  get_or-replicate (suc n) (suc i) a = get_or-replicate n i a

  -- The values of `f` at the `n` numbers from `start` on.
  unfoldable pub slice : (ℕ → A) → (start n : ℕ) → List A
  slice f start zero = []
  slice f start (suc n) = f start ∷ slice f (start + 1) n

  pub slice_congr :
      (f g : ℕ → A) (a b n : ℕ)
      → ((i : ℕ) → i < n → f (a + i) ≡ g (b + i))
      → slice f a n ≡ slice g b n
  unfolding slice
  slice_congr f g a b zero h = refl
  slice_congr f g a b (suc n) h =
      ap₂ ◌∷◌ (ground (arith, h 0))
        (slice_congr f g (a + 1) (b + 1) n (λ i l. ground (arith, h (suc i))))

  pub slice_add : (f : ℕ → A) (a m n : ℕ) → slice f a (m + n) ≡ slice f a m ++ slice f (a + m) n
  unfolding slice
  slice_add f a zero n = ground arith
  slice_add f a (suc m) n =
      let e : suc m + n ≡ suc (m + n) = omega arith in
      let e' : a + 1 + m ≡ a + suc m = omega arith in rw (e, slice_add f (a + 1) m n, e')

  slice_tail :
      (x : A) (xs : List A) (d : A) (a n : ℕ)
      → slice (λ i. get_or (x ∷ xs) i d) (suc a) n ≡ slice (λ i. get_or xs i d) a n
  slice_tail x xs d a n =
      slice_congr _ _ (suc a) a n (λ i l. let e : suc a + i ≡ suc (a + i) = omega arith in rw e)

  pub slice-get_or :
      (xs : List A) (d : A) (a n : ℕ)
      → a + n ≤ length xs
      → take n (drop a xs) ≡ slice (λ i. get_or xs i d) a n
  unfolding slice
  slice-get_or [] d zero zero h = refl
  slice-get_or [] d (suc a) zero h = refl
  slice-get_or [] d a (suc n) h = absurd (omega arith)
  slice-get_or (x ∷ xs) d zero zero h = refl
  slice-get_or (x ∷ xs) d zero (suc n) h =
      ap (λ l. x ∷ l) (slice-get_or xs d 0 n (omega arith) ∙ sym (slice_tail x xs d 0 n))
  slice-get_or (x ∷ xs) d (suc a) n h =
      slice-get_or xs d a n (omega arith) ∙ sym (slice_tail x xs d a n)

  take-length : (xs : List A) → take (length xs) xs ≡ xs
  take-length [] = refl
  take-length (x ∷ xs) = ap (λ l. x ∷ l) (take-length xs)

  -- The elements of a list, read off one after the other.
  pub slice-all : (xs : List A) (d : A) → slice (λ i. get_or xs i d) 0 (length xs) ≡ xs
  slice-all xs d = sym (slice-get_or xs d 0 (length xs) (omega arith)) ∙ take-length xs
