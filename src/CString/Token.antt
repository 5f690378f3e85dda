-- ===== src/CString/Token.antt =====
-- strtok_r: one call takes the next token off the text.
use class_assignments.Prelude.{
  ◌⊎◌, ℕ, zero, suc, ◌+◌, ◌≤◌, ◌<◌, ◌≡◌, ◌≢◌, inl, inr, refl, ◌∙◌, ap, Bool, true, false, Option,
  none, some, List, [], ◌∷◌, arith, ◌==◌, if◌then◌else◌, ◌>>=◌, Bool-cases, length,
}
use class_assignments.CString.{Memory, store, found_in, skip_loop, token_loop, cut_at, strtok_r}
use class_assignments.CString.Texts.{IsText, IsText-same, among, found_in_lem}

-- The text without the delimiters that it begins with.
abbrev pub after_delimiters : (delimiters : List ℕ) → List ℕ → List ℕ
after_delimiters ds [] = []
after_delimiters ds (x ∷ xs) = if among x ds then after_delimiters ds xs else x ∷ xs

-- The bytes before the first delimiter, and those after it.
abbrev pub first_token : (delimiters : List ℕ) → List ℕ → List ℕ
first_token ds [] = []
first_token ds (x ∷ xs) = if among x ds then [] else x ∷ first_token ds xs

abbrev pub after_token : (delimiters : List ℕ) → List ℕ → List ℕ
after_token ds [] = []
after_token ds (x ∷ xs) = if among x ds then xs else after_token ds xs

-- What a call gives for the text `cs`: no token at its end, or a token.
pub record Tokens (m m' : Memory) (ds cs : List ℕ) (token : Option ℕ) (save : ℕ) : Type 0 where
  pub rest : IsText m' save (after_token ds (after_delimiters ds cs))
  pub answer : elim token as (λ x. Type 0) [
    | none ↦ after_delimiters ds cs ≡ []
    | some t ↦
        IsText m' t (first_token ds (after_delimiters ds cs))
        × (0 < length (first_token ds (after_delimiters ds cs)))
  ]

module _ (inner delimiters : ℕ) (ds : List ℕ) (m : Memory) (text : IsText m delimiters ds)
    (real : delimiters ≢ 0) (enough : length ds < inner) where
  seen : (x : ℕ) → 0 < x → x < 256 → found_in inner delimiters x m ≡ some (among x ds)
  seen x positive byte =
      let nonzero : (x == 0) ≡ false = ground arith in
      found_in_lem inner delimiters x ds m text real byte enough ∙ rw nonzero refl

  seen_end : found_in inner delimiters 0 m ≡ some true
  seen_end = found_in_lem inner delimiters 0 ds m text real (omega arith) enough

  -- The delimiters are skipped; what is left begins with a byte of a token, if there is one.
  skip_loop_lem :
      (fuel s : ℕ) (cs : List ℕ)
      → IsText m s cs
      → length cs < fuel
      → (t : ℕ) × (more : Bool) × (skip_loop inner fuel s delimiters m ≡ some (more, t))
        × IsText m t (after_delimiters ds cs)
        × (s ≤ t)
        × (t + length (after_delimiters ds cs) ≡ s + length cs)
        × (more ≡ true → 0 < length (first_token ds (after_delimiters ds cs)))
        × (more ≡ false → after_delimiters ds cs ≡ [])
  unfolding skip_loop
  skip_loop_lem zero s cs h l = absurd (omega arith)
  skip_loop_lem (suc fuel) s [] h l = (
    s,
    false,
    rw (h, seen_end) refl,
    h,
    omega arith,
    refl,
    λ e. absurd (ground (arith, e)),
    λ e. refl,
  )
  skip_loop_lem (suc fuel) s (x ∷ cs) h l =
      let nonzero : (x == 0) ≡ false = ground (arith, h.1) in
      elim (Bool-cases (among x ds)) [
        | inl skip ↦
            let (t, more, run, left, after, size, yes_more, no_more) =
              skip_loop_lem fuel (s + 1) cs h.3 (omega arith) in
            (
              t,
              more,
              rw (h.0, seen x h.1 h.2, skip, nonzero) run,
              rw skip left,
              omega arith,
              rw skip (omega (arith, size)),
              rw skip yes_more,
              rw skip no_more,
            )
        | inr keep ↦
            let whole : after_delimiters ds (x ∷ cs) ≡ x ∷ cs = rw keep refl in
            let first : first_token ds (x ∷ cs) ≡ x ∷ first_token ds cs = rw keep refl in
            (
              s,
              true,
              rw (h.0, seen x h.1 h.2, keep) refl,
              rw keep h,
              omega arith,
              rw keep refl,
              λ e. rw (whole, first) (omega arith),
              λ e. absurd (ground (arith, e)),
            )
      ]

  token_loop_lem :
      (fuel s : ℕ) (cs : List ℕ)
      → IsText m s cs
      → length cs < fuel
      → token_loop inner fuel s delimiters m ≡ some (s + length (first_token ds cs))
  unfolding token_loop
  token_loop_lem zero s cs h l = absurd (omega arith)
  token_loop_lem (suc fuel) s [] h l = rw (h, seen_end) (ap some (omega arith))
  token_loop_lem (suc fuel) s (x ∷ cs) h l = elim (Bool-cases (among x ds)) [
    | inl stop ↦ rw (h.0, seen x h.1 h.2, stop) (ap some (omega arith))
    | inr more ↦
        rw (h.0, seen x h.1 h.2, more)
          (token_loop_lem fuel (s + 1) cs h.3 (omega arith) ∙ ap some (omega arith))
  ]

first_token-le : (ds cs : List ℕ) → length (first_token ds cs) ≤ length cs
first_token-le ds [] = omega arith
first_token-le ds (x ∷ cs) = ground (arith, first_token-le ds cs)

-- The token is a text once a null byte follows it.
first_token-IsText :
    (m m' : Memory) (s : ℕ) (ds cs : List ℕ)
    → IsText m s cs
    → ((j : ℕ) → j < s + length (first_token ds cs) → m' j ≡ m j)
    → m' (s + length (first_token ds cs)) ≡ 0
    → IsText m' s (first_token ds cs)
first_token-IsText m m' s ds [] h same end = let e : s + 0 ≡ s = omega arith in rw e at end
first_token-IsText m m' s ds (x ∷ cs) h same end = elim (Bool-cases (among x ds)) [
  | inl stop ↦ let e : s + 0 ≡ s = omega arith in rw stop (rw e at (rw stop at end))
  | inr more ↦
      let e : s + suc (length (first_token ds cs)) ≡ s + 1 + length (first_token ds cs) =
        omega arith in
      let same' : (j : ℕ) → j < s + 1 + length (first_token ds cs) → m' j ≡ m j =
        rw e at (rw more at same) in
      rw more (
        same' s (omega arith) ∙ h.0,
        h.1,
        h.2,
        first_token-IsText m m' (s + 1) ds cs h.3 same' (rw e at (rw more at end)),
      )
]

-- Behind the token comes the end of the text, or a delimiter and the rest.
after_token-IsText :
    (m : Memory) (s : ℕ) (ds cs : List ℕ)
    → IsText m s cs
    → let e = s + length (first_token ds cs) in
      ((m e == 0) ≡ true × (after_token ds cs ≡ []) × (m e ≡ 0))
      ⊎ ((m e == 0) ≡ false × IsText m (e + 1) (after_token ds cs))
after_token-IsText m s ds [] h =
    let e : s + 0 ≡ s = omega arith in rw e (inl (ground (arith, h), refl, h))
after_token-IsText m s ds (x ∷ cs) h = elim (Bool-cases (among x ds)) [
  | inl stop ↦
      let e : s + 0 ≡ s = omega arith in rw stop (rw e (inr (ground (arith, h.0, h.1), h.3)))
  | inr more ↦
      let e : s + suc (length (first_token ds cs)) ≡ s + 1 + length (first_token ds cs) =
        omega arith in
      rw more (rw e (after_token-IsText m (s + 1) ds cs h.3))
]

module _ (fuel delimiters : ℕ) (ds : List ℕ) (m : Memory) (text : IsText m delimiters ds)
    (real : delimiters ≢ 0) (enough : length ds < fuel) where
  -- The token begins at `t`, and the text from there on is `rs`.
  cut_token :
      (t : ℕ) (rs cs : List ℕ) (e : after_delimiters ds cs ≡ rs)
      → IsText m t rs
      → length rs < fuel
      → 0 < length (first_token ds rs)
      → (save : ℕ) × (m' : Memory) × ((token_loop fuel fuel t delimiters m >>= λ end.
            some (cut_at t end m))
          ≡ some (some t, save, m'))
        × Tokens m m' ds cs (some t) save
        × ((j : ℕ) → j < t → m' j ≡ m j)
        × ((j : ℕ) → t + length rs < j → m' j ≡ m j)
  cut_token t rs cs e h l positive = elim (after_token-IsText m t ds rs h) [
    | inl (stop, nothing, zero_there) ↦
        let end = t + length (first_token ds rs) in
        (
          end,
          m,
          rw (token_loop_lem fuel delimiters ds m text real enough fuel t rs h l, stop) refl,
          record {
            rest = rw (e, nothing) zero_there;
            answer = rw e (first_token-IsText m m t ds rs h (λ j p. refl) zero_there, positive);
          },
          λ j p. refl,
          λ j p. refl,
        )
    | inr (more, rest) ↦
        let end = t + length (first_token ds rs) in
        let m' : Memory = store m end 0 in
        (
          end + 1,
          m',
          rw (token_loop_lem fuel delimiters ds m text real enough fuel t rs h l, more) refl,
          record {
            rest = rw e (IsText-same m m' (end + 1) (after_token ds rs) (λ i p. ground arith) rest);
            answer =
                rw e (
                  first_token-IsText m m' t ds rs h (λ j p. ground arith) (ground arith),
                  positive,
                );
          },
          λ j p. ground arith,
          λ j p. ground (arith, first_token-le ds rs),
        )
  ]

  strtok_r_run :
      (s save start t : ℕ) (more : Bool) (r : Option (Option ℕ × ℕ × Memory))
      → (if s == 0 then save else s) ≡ start
      → start ≢ 0
      → skip_loop fuel fuel start delimiters m ≡ some (more, t)
      → (if more
          then (token_loop fuel fuel t delimiters m >>= λ end. some (cut_at t end m))
          else some (none, t, m))
        ≡ r
      → strtok_r fuel s delimiters save m ≡ r
  unfolding strtok_r
  strtok_r_run s save start t more r from nonnull run e =
      let real_start : (start == 0) ≡ false = ground arith in
      let real_set : (delimiters == 0) ≡ false = ground arith in
      rw (from, real_set, real_start, run) e

  -- strtok_r, whether it starts at `s` or at the saved position, on a text at an address that is
  -- not NULL, with the text of the delimiters at another such address, and more fuel than bytes
  -- in either: where only delimiters are left there is no token; otherwise the token is not
  -- empty and is, as a text of its own, the bytes between the first one that is no delimiter and
  -- the next delimiter. The rest of the text is at the new saved position, and no byte outside
  -- the text has changed.
  pub strtok_r-Tokens :
      (s save start : ℕ) (cs : List ℕ)
      → (if s == 0 then save else s) ≡ start
      → start ≢ 0
      → IsText m start cs
      → length cs < fuel
      → (token : Option ℕ) × (save' : ℕ) × (m' : Memory) × (strtok_r fuel s delimiters save m
          ≡ some (token, save', m'))
        × Tokens m m' ds cs token save'
        × ((j : ℕ) → j < start → m' j ≡ m j)
        × ((j : ℕ) → start + length cs < j → m' j ≡ m j)
  strtok_r-Tokens s save start cs from nonnull h l =
      let rs = after_delimiters ds cs in
      let (t, more, run, left, after, size, yes_more, no_more) =
        skip_loop_lem fuel delimiters ds m text real enough fuel start cs h l in
      elim (Bool-cases more) [
        | inl yes_token ↦
            let (save', m', cut, tokens, low, high) =
              cut_token t rs cs refl left (omega (arith, size)) (yes_more yes_token) in
            (
              some t,
              save',
              m',
              strtok_r_run s save start t true _ from nonnull
                  (run ∙ ap (λ b. some (b, t)) yes_token) cut,
              tokens,
              λ j p. low j (omega arith),
              λ j p. high j (omega (arith, size)),
            )
        | inr no_token ↦
            let none_left = no_more no_token in
            (
              none,
              t,
              m,
              strtok_r_run s save start t false _ from nonnull
                  (run ∙ ap (λ b. some (b, t)) no_token) refl,
              record { rest = rw none_left (rw none_left at left); answer = none_left },
              λ j p. refl,
              λ j p. refl,
            )
      ]
