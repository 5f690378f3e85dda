-- ===== src/CString/Scan.antt =====
-- The searches of string.c for the bytes of a set.
use class_assignments.Prelude.{
  ℕ, zero, suc, ◌+◌, ◌%◌, ◌<◌, ◌≡◌, ◌≢◌, inl, inr, refl, ◌∙◌, ap, Bool, true, false, not, Option,
  none, some, List, [], ◌∷◌, arith, ltb, ◌==◌, if◌then◌else◌, Bool-cases, length,
}
use class_assignments.CString.{
  Memory, strchr, found_in, span_loop, strcspn, strspn, strpbrk_loop, strpbrk, strrchr, strlen,
  strnlen,
}
use class_assignments.CString.Texts.{
  IsText, find_from, find_last, among, found_in_lem, strchr_lem, strlen_lem, strnlen_loop_lem,
  strrchr_loop_lem,
}

-- The length of the longest beginning of the text without a byte of the set (`stop_at`), or with
-- bytes of the set alone.
abbrev pub prefix_length : (stop_at : Bool) → (set : List ℕ) → List ℕ → ℕ
prefix_length stop_at set [] = 0
prefix_length stop_at set (x ∷ xs) =
    if (if stop_at then among x set else not (among x set))
    then 0
    else suc (prefix_length stop_at set xs)

-- The address of the first byte of the text at `s` that is in the set.
abbrev pub find_any : (s : ℕ) → (set : List ℕ) → List ℕ → Option ℕ
find_any s set [] = none
find_any s set (x ∷ xs) = if among x set then some s else find_any (s + 1) set xs

module _ (inner set : ℕ) (ds : List ℕ) (m : Memory) (text : IsText m set ds) (real : set ≢ 0)
    (enough : length ds < inner) where
  -- A byte that is not null is found if it is in the set.
  pub member : (x : ℕ) → 0 < x → x < 256 → found_in inner set x m ≡ some (among x ds)
  member x positive byte =
      let nonzero : (x == 0) ≡ false = ground arith in
      found_in_lem inner set x ds m text real byte enough ∙ rw nonzero refl

  span_loop_lem :
      (stop_at : Bool) (fuel s k : ℕ) (cs : List ℕ)
      → IsText m (s + k) cs
      → length cs < fuel
      → span_loop stop_at inner fuel s k set m ≡ some (k + prefix_length stop_at ds cs)
  unfolding span_loop
  span_loop_lem stop_at zero s k cs h l = absurd (omega arith)
  span_loop_lem stop_at (suc fuel) s k [] h l = ground (arith, h)
  span_loop_lem stop_at (suc fuel) s k (x ∷ cs) h l =
      let next : s + k + 1 ≡ s + (k + 1) = omega arith in
      let nonzero : (m (s + k) == 0) ≡ false = ground (arith, h.0, h.1) in
      let seen : found_in inner set (m (s + k)) m ≡ some (among x ds) = rw h.0 (member x h.1 h.2) in
      elim (Bool-cases (if stop_at then among x ds else not (among x ds))) [
        | inl stop ↦ rw (nonzero, seen, stop) (ground arith)
        | inr more ↦
            rw (nonzero, seen, more)
              (span_loop_lem stop_at fuel s (k + 1) cs (rw next at h.3) (omega arith)
                ∙ ap some (omega arith))
      ]

  strpbrk_loop_lem :
      (fuel s : ℕ) (cs : List ℕ)
      → IsText m s cs
      → length cs < fuel
      → strpbrk_loop inner fuel s set m ≡ some (find_any s ds cs)
  unfolding strpbrk_loop
  strpbrk_loop_lem zero s cs h l = absurd (omega arith)
  strpbrk_loop_lem (suc fuel) s [] h l = ground (arith, h)
  strpbrk_loop_lem (suc fuel) s (x ∷ cs) h l =
      let nonzero : (m s == 0) ≡ false = ground (arith, h.0, h.1) in
      let seen : found_in inner set (m s) m ≡ some (among x ds) = rw h.0 (member x h.1 h.2) in
      elim (Bool-cases (among x ds)) [
        | inl here ↦ rw (nonzero, seen, here) refl
        | inr away ↦ rw (nonzero, seen, away) (strpbrk_loop_lem fuel (s + 1) cs h.3 (omega arith))
      ]

-- The searches of a text, for a byte or for the bytes of a second text, both at addresses that
-- are not NULL, with more fuel than bytes in either: strlen is the length, strnlen the length or
-- its limit, strchr the first place of the byte (the end for a null byte), strrchr the last one,
-- strcspn and strspn the lengths of the longest beginnings without and within the set, and
-- strpbrk the first place of a byte of the set.
pub searches :
    (fuel s set c maxlen : ℕ) (cs ds : List ℕ) (m : Memory)
    → IsText m s cs
    → IsText m set ds
    → s ≢ 0
    → set ≢ 0
    → c < 256
    → length cs < fuel
    → length ds < fuel
    → (strlen fuel s m ≡ some (length cs))
      × (strnlen fuel s maxlen m ≡ some (if ltb (length cs) maxlen then length cs else maxlen))
      × (strchr fuel s c m ≡ some (if c == 0 then some (s + length cs) else find_from s c cs))
      × (strrchr fuel s c m ≡ some (find_last s c none cs))
      × (strcspn fuel s set m ≡ some (prefix_length true ds cs))
      × (strspn fuel s set m ≡ some (prefix_length false ds cs))
      × (strpbrk fuel s set m ≡ some (find_any s ds cs))
unfolding strnlen strrchr strcspn strspn strpbrk
searches fuel s set c maxlen cs ds m text stops real real' byte l l' =
    let start : s + 0 ≡ s = omega arith in
    let text0 : IsText m (s + 0) cs = rw start text in
    let small : c % 256 ≡ c = omega arith in
    let k : 0 + length cs ≡ length cs = omega arith in
    (
      strlen_lem fuel s cs m text real l,
      rw k at (strnlen_loop_lem fuel s 0 maxlen cs m text0 l (omega arith)),
      strchr_lem fuel s c cs m text real byte l,
      rw small (strrchr_loop_lem fuel s c none cs m text l),
      span_loop_lem fuel set ds m stops real' l' true fuel s 0 cs text0 l ∙ ap some (omega arith),
      span_loop_lem fuel set ds m stops real' l' false fuel s 0 cs text0 l ∙ ap some (omega arith),
      strpbrk_loop_lem fuel set ds m stops real' l' fuel s cs text l,
    )
