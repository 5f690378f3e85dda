-- ===== src/CString/Copy.antt =====
-- strlcpy and strlcat: bounded copies of texts.
use class_assignments.Prelude.{
  ℕ, zero, suc, ◌+◌, ◌-◌, ◌≤◌, ◌<◌, ◌≡◌, ◌≢◌, ◌⊎◌, inl, inr, refl, ◌∙◌, true, false, some, List, [],
  ◌∷◌, ◌++◌, arith, ltb, ◌==◌, if◌then◌else◌, Bool-cases, length, take,
}
use class_assignments.CString.{Memory, store, strlcpy, strlcat}
use class_assignments.CString.Texts.{IsText, strlen_lem}
use class_assignments.CString.Move.{moved, inside, memcpy_lem}

-- The smaller of what there is and of what there is room for.
abbrev copied : (there room : ℕ) → ℕ
copied there room = if ltb there room then there else room

take-IsText :
    (m m' : Memory) (s d n : ℕ) (xs : List ℕ)
    → IsText m s xs
    → ((i : ℕ) → i < copied (length xs) n → m' (d + i) ≡ m (s + i))
    → m' (d + copied (length xs) n) ≡ 0
    → IsText m' d (take n xs)
take-IsText m m' s d zero [] h same end = ground (arith, end)
take-IsText m m' s d (suc n) [] h same end = ground (arith, end)
take-IsText m m' s d zero (x ∷ xs) h same end = ground (arith, end)
take-IsText m m' s d (suc n) (x ∷ xs) h same end = (
  ground (arith, same 0, h.0),
  h.1,
  h.2,
  take-IsText m m' (s + 1) (d + 1) n xs h.3 (λ i l. ground (arith, same (suc i)))
      (ground (arith, end)),
)

append-IsText :
    (m m' : Memory) (d : ℕ) (ys zs : List ℕ)
    → IsText m d ys
    → ((i : ℕ) → i < length ys → m' (d + i) ≡ m (d + i))
    → IsText m' (d + length ys) zs
    → IsText m' d (ys ++ zs)
append-IsText m m' d [] zs h same k = let e : d + 0 ≡ d = omega arith in rw e at k
append-IsText m m' d (y ∷ ys) zs h same k =
    let e : d + suc (length ys) ≡ d + 1 + length ys = omega arith in
    (
      ground (arith, same 0, h.0),
      h.1,
      h.2,
      append-IsText m m' (d + 1) ys zs h.3 (λ i l. ground (arith, same (suc i))) (rw e at k),
    )

module _ (m m1 : Memory) (dst src n : ℕ) (copy : (j : ℕ) → m1 j ≡ moved dst src n m j) where
  -- The block has been copied, and a null byte put behind it.
  copied_in : (i : ℕ) → i < n → store m1 (dst + n) 0 (dst + i) ≡ m (src + i)
  copied_in i l =
      let here : inside dst n (dst + i) ≡ true = ground arith in
      let other : (dst + n == dst + i) ≡ false = ground arith in
      let back : dst + i - dst ≡ i = omega arith in rw other (copy (dst + i) ∙ rw (here, back) refl)

  copied_out : (j : ℕ) → (j < dst) ⊎ (dst + n < j) → store m1 (dst + n) 0 j ≡ m j
  copied_out j out =
      let away : inside dst n j ≡ false = ground arith in
      let other : (dst + n == j) ≡ false = ground arith in rw other (copy j ∙ rw away refl)

  copied_end : store m1 (dst + n) 0 (dst + n) ≡ 0
  copied_end = ground arith

-- strlcpy, of a source text that lies apart from the `size` bytes at `dst`, at addresses that
-- are not NULL, with more fuel than bytes in the source: it returns the length of the source;
-- where `size` is not 0, the destination becomes a text of the first `size - 1` bytes of the
-- source, or all of them; no byte outside the `size` bytes at `dst` changes.
pub strlcpy_lem :
    (fuel dst src size : ℕ) (xs : List ℕ) (m : Memory)
    → IsText m src xs
    → dst ≢ 0
    → src ≢ 0
    → (dst + size ≤ src) ⊎ (src + length xs < dst)
    → length xs < fuel
    → (m' : Memory) × (strlcpy fuel dst src size m ≡ some (length xs, m'))
      × (0 < size → IsText m' dst (take (size - 1) xs))
      × ((j : ℕ) → (j < dst) ⊎ (dst + size ≤ j) → m' j ≡ m j)
unfolding strlcpy
strlcpy_lem fuel dst src size xs m h real real' apart l =
    let nonnull : (dst == 0) ≡ false = ground arith in
    let nonnull' : (src == 0) ≡ false = ground arith in
    let n = copied (length xs) (size - 1) in
    let away : (dst + n ≤ src) ⊎ (src + n ≤ dst) = ground arith in
    let (m1, run, copy) = memcpy_lem dst src n m real real' away in
    elim (Bool-cases (ltb 0 size)) [
      | inl room ↦ (
        store m1 (dst + n) 0,
        rw (nonnull, nonnull', strlen_lem fuel src xs m h real' l, room, run) refl,
        λ p.
            take-IsText m (store m1 (dst + n) 0) src dst (size - 1) xs h
              (copied_in m m1 dst src n copy) (copied_end m m1 dst src n copy),
        λ j out. copied_out m m1 dst src n copy j (ground arith),
      )
      | inr nothing ↦ (
        m,
        rw (nonnull, nonnull', strlen_lem fuel src xs m h real' l, nothing) refl,
        λ p. absurd (ground arith),
        λ j out. refl,
      )
    ]

-- strlcat, of a source that lies apart from the `size` bytes at `dst`, both texts at addresses
-- that are not NULL, with more fuel than bytes in either: it returns the sum of the two lengths;
-- where the destination is shorter than `size`, it becomes the destination followed by as much
-- of the source as `size` has room for; no byte changes before the end of the old destination,
-- nor from `dst + size` on.
pub strlcat_lem :
    (fuel dst src size : ℕ) (xs ys : List ℕ) (m : Memory)
    → IsText m src xs
    → IsText m dst ys
    → dst ≢ 0
    → src ≢ 0
    → (dst + size ≤ src) ⊎ (src + length xs < dst)
    → length xs < fuel
    → length ys < fuel
    → (m' : Memory) × (strlcat fuel dst src size m ≡ some (length xs + length ys, m'))
      × (length ys < size → IsText m' dst (ys ++ take (size - length ys - 1) xs))
      × ((j : ℕ) → (j < dst + length ys) ⊎ (dst + size ≤ j) → m' j ≡ m j)
unfolding strlcat
strlcat_lem fuel dst src size xs ys m h k real real' apart l l' =
    let nonnull : (dst == 0) ≡ false = ground arith in
    let nonnull' : (src == 0) ≡ false = ground arith in
    let end = dst + length ys in
    let room = size - length ys - 1 in
    let n = copied (length xs) room in
    elim (Bool-cases (ltb (length ys) size)) [
      | inl fits ↦
          let positive : ltb 0 size ≡ true = ground arith in
          let away : (end + n ≤ src) ⊎ (src + n ≤ end) = ground arith in
          let (m1, run, copy) = memcpy_lem end src n m (ground arith) real' away in
          let m' : Memory = store m1 (end + n) 0 in
          (
            m',
            rw
                (
                  nonnull,
                  nonnull',
                  strlen_lem fuel src xs m h real' l,
                  strlen_lem fuel dst ys m k real l',
                  positive,
                  fits,
                  run,
                )
                refl,
            λ p.
                append-IsText m m' dst ys (take room xs) k
                  (λ i q. copied_out m m1 end src n copy (dst + i) (inl (omega arith)))
                  (take-IsText m m' src end room xs h (copied_in m m1 end src n copy)
                    (copied_end m m1 end src n copy)),
            λ j out. copied_out m m1 end src n copy j (ground arith),
          )
      | inr full ↦ (
        m,
        rw
            (
              nonnull,
              nonnull',
              strlen_lem fuel src xs m h real' l,
              strlen_lem fuel dst ys m k real l',
              full,
            )
            (ground arith),
        λ p. absurd (ground arith),
        λ j out. refl,
      )
    ]
