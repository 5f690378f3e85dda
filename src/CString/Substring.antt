-- ===== src/CString/Substring.antt =====
-- strstr.
use class_assignments.Prelude.{
  ℕ, zero, suc, ◌+◌, ◌-◌, ◌≤◌, ◌<◌, ◌≡◌, ◌≢◌, inl, inr, refl, sym, ◌∙◌, ap, Bool, true, false, ◌&&◌,
  Option, none, some, List, [], ◌∷◌, arith, leb, ◌==◌, if◌then◌else◌, Bool-cases, length,
}
use class_assignments.CString.{Memory, is_zero, memcmp_loop, memcmp, strstr_loop, strstr}
use class_assignments.CString.Texts.{IsText, strlen_lem}

abbrev pub is_prefix : List ℕ → List ℕ → Bool
is_prefix [] xs = true
is_prefix (y ∷ ys) [] = false
is_prefix (y ∷ ys) (x ∷ xs) = x == y && is_prefix ys xs

-- The address of the first place of the text at `a` where `ys` begins.
abbrev pub find_text : (a : ℕ) → (ys xs : List ℕ) → Option ℕ
find_text a ys [] = if is_prefix ys [] then some a else none
find_text a ys (x ∷ xs) = if is_prefix ys (x ∷ xs) then some a else find_text (a + 1) ys xs

memcmp_prefix :
    (a b : ℕ) (xs ys : List ℕ) (m : Memory)
    → IsText m a xs
    → IsText m b ys
    → length ys ≤ length xs
    → is_zero (memcmp_loop (length ys) a b m) ≡ is_prefix ys xs
unfolding memcmp_loop
memcmp_prefix a b xs [] m h k l = refl
memcmp_prefix a b [] (y ∷ ys) m h k l = absurd (omega arith)
memcmp_prefix a b (x ∷ xs) (y ∷ ys) m h k l = elim (Bool-cases (x == y)) [
  | inl same ↦ rw (h.0, k.0, same) (memcmp_prefix (a + 1) (b + 1) xs ys m h.3 k.3 (omega arith))
  | inr differ ↦ rw (h.0, k.0, differ) (ground arith)
]

-- A longer text is no prefix.
is_prefix-longer : (ys xs : List ℕ) → length xs < length ys → is_prefix ys xs ≡ false
is_prefix-longer [] xs l = absurd (omega arith)
is_prefix-longer (y ∷ ys) [] l = refl
is_prefix-longer (y ∷ ys) (x ∷ xs) l = elim (Bool-cases (x == y)) [
  | inl same ↦ rw same (is_prefix-longer ys xs (omega arith))
  | inr differ ↦ rw differ refl
]

is_prefix-empty : (ys xs : List ℕ) → length ys ≡ 0 → is_prefix ys xs ≡ true
is_prefix-empty [] xs e = refl
is_prefix-empty (y ∷ ys) xs e = absurd (omega arith)

find_text-longer : (a : ℕ) (ys xs : List ℕ) → length xs < length ys → find_text a ys xs ≡ none
find_text-longer a ys [] l = rw (is_prefix-longer ys [] l)
find_text-longer a ys (x ∷ xs) l =
    rw (is_prefix-longer ys (x ∷ xs) l) (find_text-longer (a + 1) ys xs (omega arith))

module _ (needle : ℕ) (ys : List ℕ) (m : Memory) (text : IsText m needle ys)
    (real : needle ≢ 0) where
  strstr_loop_lem :
      (left i haystack : ℕ) (xs : List ℕ)
      → IsText m (haystack + i) xs
      → haystack ≢ 0
      → left + length ys ≡ length xs + 1
      → strstr_loop left i haystack needle (length ys) m ≡ some (find_text (haystack + i) ys xs)
  unfolding strstr_loop memcmp
  strstr_loop_lem zero i haystack xs h nonnull l =
      ap some (sym (find_text-longer (haystack + i) ys xs (omega arith)))
  strstr_loop_lem (suc left) i haystack [] h nonnull l =
      let there : (haystack + i == 0) ≡ false = ground arith in
      let there' : (needle == 0) ≡ false = ground arith in
      let found : is_prefix ys [] ≡ true = is_prefix-empty ys [] (omega arith) in
      rw (there, there', memcmp_prefix (haystack + i) needle [] ys m h text (omega arith), found)
        refl
  strstr_loop_lem (suc left) i haystack (x ∷ xs) h nonnull l =
      let there : (haystack + i == 0) ≡ false = ground arith in
      let there' : (needle == 0) ≡ false = ground arith in
      let same = memcmp_prefix (haystack + i) needle (x ∷ xs) ys m h text (omega arith) in
      let next : haystack + i + 1 ≡ haystack + (i + 1) = omega arith in
      elim (Bool-cases (is_prefix ys (x ∷ xs))) [
        | inl found ↦ rw (there, there', same, found) refl
        | inr missing ↦
            rw (there, there', same, missing, next)
              (strstr_loop_lem left (i + 1) haystack xs (rw next at h.3) nonnull (omega arith))
      ]

-- strstr, on two texts at addresses that are not NULL, with more fuel than bytes in either,
-- returns the address of the first place of the haystack where the needle begins, and NULL where
-- there is none.
pub strstr_lem :
    (fuel haystack needle : ℕ) (xs ys : List ℕ) (m : Memory)
    → IsText m haystack xs
    → IsText m needle ys
    → haystack ≢ 0
    → needle ≢ 0
    → length xs < fuel
    → length ys < fuel
    → strstr fuel haystack needle m ≡ some (find_text haystack ys xs)
unfolding strstr
strstr_lem fuel haystack needle xs ys m h k real real' l l' =
    let start : haystack + 0 ≡ haystack = omega arith in
    elim (Bool-cases (leb (length ys) (length xs))) [
      | inl fits ↦
          rw (strlen_lem fuel haystack xs m h real l, strlen_lem fuel needle ys m k real' l', fits)
            (strstr_loop_lem needle ys m k real' (length xs - length ys + 1) 0 haystack xs
                (rw start h) real (ground arith)
              ∙ ap (λ a. some (find_text a ys xs)) start)
      | inr longer ↦
          rw
            (strlen_lem fuel haystack xs m h real l, strlen_lem fuel needle ys m k real' l', longer)
            (ap some (sym (find_text-longer haystack ys xs (ground arith))))
    ]
