-- ===== src/CString/Texts.antt =====
-- Null-terminated texts in memory, and the searches for one byte in them.
use class_assignments.Prelude.{
  ℕ, zero, suc, ◌+◌, ◌-◌, ◌%◌, ◌≤◌, ◌<◌, ◌≡◌, ◌≢◌, refl, ◌∙◌, ap, Bool, true, false, ◌||◌, Option,
  none, some, List, [], ◌∷◌, arith, ltb, ◌==◌, if◌then◌else◌, length, Bool-cases, inl, inr,
}
use class_assignments.CString.{
  Memory, strchr_loop, strchr, found_in, strlen_loop, strlen, strnlen_loop, strrchr_loop,
}

-- The text `cs` is at `s`, and a null byte after it.
abbrev pub IsText : Memory → ℕ → List ℕ → Type 0
IsText m s [] = m s ≡ 0
IsText m s (c ∷ cs) = (m s ≡ c) × (0 < c) × (c < 256) × IsText m (s + 1) cs

-- The address of the first `c` of the text at `s`.
abbrev pub find_from : (s c : ℕ) → List ℕ → Option ℕ
find_from s c [] = none
find_from s c (x ∷ xs) = if x == c then some s else find_from (s + 1) c xs

-- The address of the last one; `p` where there is none.
abbrev pub find_last : (s c : ℕ) → (p : Option ℕ) → List ℕ → Option ℕ
find_last s c p [] = p
find_last s c p (x ∷ xs) = find_last (s + 1) c (if x == c then some s else p) xs

abbrev pub among : ℕ → List ℕ → Bool
among c [] = false
among c (x ∷ xs) = x == c || among c xs

-- Copies of a text agree.
pub IsText-same :
    (m m' : Memory) (s : ℕ) (cs : List ℕ)
    → ((i : ℕ) → i ≤ length cs → m' (s + i) ≡ m (s + i))
    → IsText m s cs
    → IsText m' s cs
IsText-same m m' s [] same h = ground (arith, same 0)
IsText-same m m' s (c ∷ cs) same h = (
  ground (arith, same 0),
  h.1,
  h.2,
  IsText-same m m' (s + 1) cs (λ i l. ground (arith, same (suc i))) h.3,
)

strchr_loop_lem :
    (fuel s c : ℕ) (cs : List ℕ) (m : Memory)
    → IsText m s cs
    → length cs < fuel
    → strchr_loop fuel s c m ≡ some (if c == 0 then some (s + length cs) else find_from s c cs)
unfolding strchr_loop
strchr_loop_lem zero s c cs m h l = absurd (omega arith)
strchr_loop_lem (suc fuel) s c [] m h l = ground (arith, h)
strchr_loop_lem (suc fuel) s c (x ∷ cs) m h l =
    ground (arith, h.0, h.1, strchr_loop_lem fuel (s + 1) c cs m h.3 (omega arith))

-- strchr
pub strchr_lem :
    (fuel s c : ℕ) (cs : List ℕ) (m : Memory)
    → IsText m s cs
    → s ≢ 0
    → c < 256
    → length cs < fuel
    → strchr fuel s c m ≡ some (if c == 0 then some (s + length cs) else find_from s c cs)
unfolding strchr
strchr_lem fuel s c cs m h ne byte l =
    let small : c % 256 ≡ c = omega arith in
    let real : (s == 0) ≡ false = ground arith in
    rw (small, real) (strchr_loop_lem fuel s c cs m h l)

found_among :
    (s c : ℕ) (cs : List ℕ)
    → (elim (find_from s c cs) as (λ x. Bool) [ none ↦ false | some q ↦ true ]) ≡ among c cs
found_among s c [] = refl
found_among s c (x ∷ cs) = elim (Bool-cases (x == c)) [
  | inl here ↦ rw here refl
  | inr away ↦ rw away (found_among (s + 1) c cs)
]

pub found_in_lem :
    (fuel s c : ℕ) (cs : List ℕ) (m : Memory)
    → IsText m s cs
    → s ≢ 0
    → c < 256
    → length cs < fuel
    → found_in fuel s c m ≡ some (c == 0 || among c cs)
found_in_lem fuel s c cs m h ne byte l = elim (Bool-cases (c == 0)) [
  | inl end ↦ rw (strchr_lem fuel s c cs m h ne byte l, end) refl
  | inr more ↦ rw (strchr_lem fuel s c cs m h ne byte l, more) (ap some (found_among s c cs))
]

strlen_loop_lem :
    (fuel s : ℕ) (cs : List ℕ) (m : Memory)
    → IsText m s cs
    → length cs < fuel
    → strlen_loop fuel s m ≡ some (s + length cs)
unfolding strlen_loop
strlen_loop_lem zero s cs m h l = absurd (omega arith)
strlen_loop_lem (suc fuel) s [] m h l = ground (arith, h)
strlen_loop_lem (suc fuel) s (x ∷ cs) m h l =
    ground (arith, h.0, h.1, strlen_loop_lem fuel (s + 1) cs m h.3 (omega arith))

pub strlen_lem :
    (fuel s : ℕ) (cs : List ℕ) (m : Memory)
    → IsText m s cs
    → s ≢ 0
    → length cs < fuel
    → strlen fuel s m ≡ some (length cs)
unfolding strlen
strlen_lem fuel s cs m h ne l =
    let real : (s == 0) ≡ false = ground arith in
    let rest : s + length cs - s ≡ length cs = omega arith in
    rw (real, strlen_loop_lem fuel s cs m h l, rest) refl

pub strnlen_loop_lem :
    (fuel s k maxlen : ℕ) (cs : List ℕ) (m : Memory)
    → IsText m (s + k) cs
    → length cs < fuel
    → k ≤ maxlen
    → strnlen_loop fuel s k maxlen m
      ≡ some (if ltb (k + length cs) maxlen then k + length cs else maxlen)
unfolding strnlen_loop
strnlen_loop_lem zero s k maxlen cs m h l b = absurd (omega arith)
strnlen_loop_lem (suc fuel) s k maxlen [] m h l b = ground (arith, h)
strnlen_loop_lem (suc fuel) s k maxlen (x ∷ cs) m h l b =
    let next : s + k + 1 ≡ s + (k + 1) = omega arith in
    let nonzero : (m (s + k) == 0) ≡ false = ground (arith, h.0, h.1) in
    elim (Bool-cases (ltb k maxlen)) [
      | inl more ↦
          rw (nonzero, more)
            (strnlen_loop_lem fuel s (k + 1) maxlen cs m (rw next at h.3) (omega arith)
                (ground arith)
              ∙ ground arith)
      | inr enough ↦ rw (nonzero, enough) (ground arith)
    ]

pub strrchr_loop_lem :
    (fuel s c : ℕ) (p : Option ℕ) (cs : List ℕ) (m : Memory)
    → IsText m s cs
    → length cs < fuel
    → strrchr_loop fuel s c p m ≡ some (find_last s c p cs)
unfolding strrchr_loop
strrchr_loop_lem zero s c p cs m h l = absurd (omega arith)
strrchr_loop_lem (suc fuel) s c p [] m h l = ground (arith, h)
strrchr_loop_lem (suc fuel) s c p (x ∷ cs) m h l =
    let nonzero : (m s == 0) ≡ false = ground (arith, h.0, h.1) in
    rw (nonzero, h.0)
      (strrchr_loop_lem fuel (s + 1) c (if x == c then some s else p) cs m h.3 (omega arith))
