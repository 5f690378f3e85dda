-- ===== src/CString/Move.antt =====
-- memcpy, memmove and memset: what a block holds afterwards.
use class_assignments.Prelude.{
  ℕ, zero, suc, ◌+◌, ◌-◌, ◌%◌, ◌≤◌, ◌≡◌, ◌≢◌, ◌⊎◌, inl, inr, refl, ◌∙◌, Bool, true, false, ◌&&◌,
  some, arith, ltb, leb, ◌==◌, if◌then◌else◌, Bool-cases,
}
use class_assignments.CString.{Memory, store, copy_up, copy_down, memcpy, memmove, set_loop, memset}

-- `j` is one of the `size` addresses from `start` on.
abbrev pub inside : (start size j : ℕ) → Bool
inside start size j = leb start j && ltb j (start + size)

-- Memory `m`, with the block of `size` bytes at `src` in place of that at `dst`.
abbrev pub moved : (dst src size : ℕ) → Memory → Memory
moved dst src size m j = if inside dst size j then m (src + (j - dst)) else m j

pub copy_up_lem :
    (size dst src : ℕ) (m : Memory)
    → (dst ≤ src) ⊎ (src + size ≤ dst)
    → (j : ℕ) → copy_up size dst src m j ≡ moved dst src size m j
unfolding copy_up
copy_up_lem zero dst src m apart j = ground arith
copy_up_lem (suc size) dst src m apart j =
    let m1 : Memory = store m dst (m src) in
    let step : (dst + 1 ≤ src + 1) ⊎ (src + 1 + size ≤ dst + 1) = ground arith in
    copy_up_lem size (dst + 1) (src + 1) m1 step j ∙ after
  where
    after : moved (dst + 1) (src + 1) size (store m dst (m src)) j ≡ moved dst src (suc size) m j
    after = elim (Bool-cases (inside (dst + 1) size j)) [
      | inl new ↦
          let place : src + 1 + (j - (dst + 1)) ≡ src + (j - dst) = ground arith in
          let other : (dst == src + (j - dst)) ≡ false = ground arith in
          let here : inside dst (suc size) j ≡ true = ground arith in
          rw (new, here, place, other) refl
      | inr old ↦ elim (Bool-cases (dst == j)) [
        | inl first ↦
            let here : inside dst (suc size) j ≡ true = ground arith in
            let place : src + (j - dst) ≡ src = ground arith in rw (old, here, first, place) refl
        | inr out ↦
            let here : inside dst (suc size) j ≡ false = ground arith in rw (old, here, out) refl
      ]
    ]

pub copy_down_lem :
    (size dst src : ℕ) (m : Memory)
    → (src ≤ dst) ⊎ (dst + size ≤ src)
    → (j : ℕ) → copy_down size dst src m j ≡ moved dst src size m j
unfolding copy_down
copy_down_lem zero dst src m apart j = ground arith
copy_down_lem (suc size) dst src m apart j =
    let step : (src ≤ dst) ⊎ (dst + size ≤ src) = ground arith in
    copy_down_lem size dst src (store m (dst + size) (m (src + size))) step j ∙ after
  where
    after :
        moved dst src size (store m (dst + size) (m (src + size))) j ≡ moved dst src (suc size) m j
    after = elim (Bool-cases (inside dst size j)) [
      | inl new ↦
          let other : (dst + size == src + (j - dst)) ≡ false = ground arith in
          let here : inside dst (suc size) j ≡ true = ground arith in rw (new, here, other) refl
      | inr old ↦ elim (Bool-cases (dst + size == j)) [
        | inl last ↦
            let here : inside dst (suc size) j ≡ true = ground arith in
            let place : src + (j - dst) ≡ src + size = ground arith in
            rw (old, here, last, place) refl
        | inr out ↦
            let here : inside dst (suc size) j ≡ false = ground arith in rw (old, here, out) refl
      ]
    ]

-- memcpy
pub memcpy_lem :
    (dst src size : ℕ) (m : Memory)
    → dst ≢ 0
    → src ≢ 0
    → (dst + size ≤ src) ⊎ (src + size ≤ dst)
    → (m' : Memory) × (memcpy dst src size m ≡ some (dst, m'))
      × ((j : ℕ) → m' j ≡ moved dst src size m j)
unfolding memcpy
memcpy_lem dst src size m dst_real src_real apart =
    let real : (dst == 0) ≡ false = ground arith in
    let real' : (src == 0) ≡ false = ground arith in
    (copy_up size dst src m, rw (real, real') refl, copy_up_lem size dst src m (ground arith))

-- memmove, of blocks at addresses that are not NULL, however they overlap: afterwards the block
-- at `dst` holds what the block at `src` held before, and no other byte has changed. The pointer
-- that it returns is `dst` where `dst` is not below `src`, and the end of the block where it is.
pub memmove_lem :
    (dst src size : ℕ) (m : Memory)
    → dst ≢ 0
    → src ≢ 0
    → (m' : Memory) × (memmove dst src size m ≡ some (if ltb dst src then dst + size else dst, m'))
      × ((j : ℕ) → m' j ≡ (if leb dst j && ltb j (dst + size) then m (src + (j - dst)) else m j))
unfolding memmove
memmove_lem dst src size m dst_real src_real =
    let real : (dst == 0) ≡ false = ground arith in
    let real' : (src == 0) ≡ false = ground arith in
    elim (Bool-cases (ltb dst src)) [
      | inl below ↦ (
        copy_up size dst src m,
        rw (real, real', below) refl,
        copy_up_lem size dst src m (inl (ground arith)),
      )
      | inr above ↦ (
        copy_down size dst src m,
        rw (real, real', above) refl,
        copy_down_lem size dst src m (inl (ground arith)),
      )
    ]

set_loop_lem :
    (size dst value : ℕ) (m : Memory) (j : ℕ)
    → set_loop size dst value m j ≡ (if inside dst size j then value % 256 else m j)
unfolding set_loop
set_loop_lem zero dst value m j = ground arith
set_loop_lem (suc size) dst value m j =
    ground (arith, set_loop_lem size (dst + 1) value (store m dst (value % 256)) j)

pub memset_lem :
    (dst value size : ℕ) (m : Memory)
    → dst ≢ 0
    → (m' : Memory) × (memset dst value size m ≡ some (dst, m'))
      × ((j : ℕ) → m' j ≡ (if inside dst size j then value % 256 else m j))
unfolding memset
memset_lem dst value size m real =
    let nonnull : (dst == 0) ≡ false = ground arith in
    (set_loop size dst value m, rw nonnull refl, set_loop_lem size dst value m)
