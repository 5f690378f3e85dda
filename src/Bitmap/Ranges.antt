-- ===== src/Bitmap/Ranges.antt =====
-- The calls on a range of bits, against the sequence of bits.
use native.Mathlib.Decide.{ℕ_discrete}
use native.Mathlib.Nat.{add-zero, zero-add}
use class_assignments.Prelude.{
  ℕ, zero, suc, ◌+◌, ◌^◌, ◌<◌, ◌≤◌, ◌≡◌, refl, ap, ◌↔◌, inl, inr, Bool, true, false, ◌&&◌, not,
  some, List, arith, beq, leb, ltb, le→leb, if◌then◌else◌, length, All, Bool-cases, ◌∙◌,
}
use class_assignments.Bitmap.{
  Bitmap, add_size, elem_cnt, in_range, set_loop, bitmap_set, bitmap_test, bitmap_set_multiple,
  bitmap_set_all, count_loop, bitmap_count, contains_loop, bitmap_contains, bitmap_any, bitmap_none,
  bitmap_all, bitmap_create,
}
use class_assignments.Bitmap.Bits.{IsBitmap, Holds, bit, bitmap_test-bit, bitmap_set-Holds}

-- `j` is one of the `cnt` numbers from `start` on.
abbrev pub within : (start cnt j : ℕ) → Bool
within start cnt j = leb start j && ltb j (start + cnt)

-- The bits from `start` on, `cnt` of them, all are `value`.
abbrev pub AllBits : (ℕ → Bool) → (start cnt : ℕ) → Bool → Type 0
AllBits f start cnt value = (j : ℕ) → start ≤ j → j < start + cnt → f j ≡ value

unfoldable pub all_bits : (ℕ → Bool) → (start cnt : ℕ) → Bool → Bool
all_bits f start zero value = true
all_bits f start (suc cnt) value = beq (f start) value && all_bits f (start + 1) cnt value

-- How many of the `cnt` bits from `start` on are `value`.
unfoldable pub count_bits : (ℕ → Bool) → (start cnt : ℕ) → Bool → ℕ
count_bits f start zero value = 0
count_bits f start (suc cnt) value =
    (if beq (f start) value then 1 else 0) + count_bits f (start + 1) cnt value

all_bits→AllBits :
    (f : ℕ → Bool) (start cnt : ℕ) (value : Bool)
    → all_bits f start cnt value ≡ true
    → AllBits f start cnt value
unfolding all_bits
all_bits→AllBits f start zero value e j p q = absurd (omega arith)
all_bits→AllBits f start (suc cnt) value e j p q = elim (ℕ_discrete start j) [
  | yes same ↦ rw (← same) (ground arith)
  | no other ↦ all_bits→AllBits f (start + 1) cnt value (ground arith) j (omega arith) (omega arith)
]

AllBits→all_bits :
    (f : ℕ → Bool) (start cnt : ℕ) (value : Bool)
    → AllBits f start cnt value
    → all_bits f start cnt value ≡ true
unfolding all_bits
AllBits→all_bits f start zero value h = refl
AllBits→all_bits f start (suc cnt) value h = ground (
  arith,
  h start,
  AllBits→all_bits f (start + 1) cnt value (λ j p q. h j (omega arith) (omega arith)),
)

pub all_bits_iff :
    (f : ℕ → Bool) (start cnt : ℕ) (value : Bool)
    → (all_bits f start cnt value ≡ true) ↔ AllBits f start cnt value
all_bits_iff f start cnt value =
    (all_bits→AllBits f start cnt value, AllBits→all_bits f start cnt value)

pub count_bits-le :
    (f : ℕ → Bool) (start cnt : ℕ) (value : Bool) → count_bits f start cnt value ≤ cnt
unfolding count_bits
count_bits-le f start zero value = omega arith
count_bits-le f start (suc cnt) value = ground (arith, count_bits-le f (start + 1) cnt value)

module _ {b : Bitmap} (v : IsBitmap b) where
  in_range_lem : (start cnt : ℕ) → start + cnt ≤ b.bit_cnt → in_range b start cnt ≡ some tt
  in_range_lem start cnt h =
      let sum : add_size start cnt ≡ start + cnt = omega (arith, v.small) in
      rw (le→leb start b.bit_cnt (omega arith), sum, le→leb (start + cnt) b.bit_cnt h)

  -- One round of a loop tests the next bit of the range.
  module _ (start left i : ℕ) (h : start + i + suc left ≤ b.bit_cnt) where
    test_next : bitmap_test b (add_size start i) ≡ some (bit b (start + i))
    test_next =
        let sum : add_size start i ≡ start + i = omega (arith, v.small) in
        rw sum (bitmap_test-bit v (start + i) (omega arith))

    next_index : start + (i + 1) ≡ start + i + 1
    next_index = omega arith

  count_loop_lem :
      (start left i : ℕ) (value : Bool) (n : ℕ)
      → start + i + left ≤ b.bit_cnt
      → n ≤ i
      → count_loop b start left i value n ≡ some (n + count_bits (bit b) (start + i) left value)
  unfolding count_loop count_bits
  count_loop_lem start zero i value n h l = ap some (omega arith)
  count_loop_lem start (suc left) i value n h l =
      let wide : n + 1 < 2 ^ 32 = omega (arith, v.small) in
      rw (test_next start left i h) (elim (Bool-cases (beq (bit b (start + i)) value)) [
        | inl hit ↦
            rw
              (
                hit,
                count_loop_lem start left (i + 1) value (add_size n 1) (omega arith) (omega arith),
                next_index start left i h,
              )
              (ap some (omega arith))
        | inr miss ↦
            rw
              (
                miss,
                count_loop_lem start left (i + 1) value n (omega arith) (omega arith),
                next_index start left i h,
              )
              (ap some (omega arith))
      ])

  contains_loop_lem :
      (start left i : ℕ) (value : Bool)
      → start + i + left ≤ b.bit_cnt
      → contains_loop b start left i value
        ≡ some (not (all_bits (bit b) (start + i) left (not value)))
  unfolding contains_loop all_bits
  contains_loop_lem start zero i value h = refl
  contains_loop_lem start (suc left) i value h =
      rw
        (
          test_next start left i h,
          contains_loop_lem start left (i + 1) value (omega arith),
          next_index start left i h,
        )
        (ground arith)

  -- bitmap_count, on a range inside the bitmap, returns the number of its bits that have the
  -- value.
  pub bitmap_count_lem :
      (start cnt : ℕ) (value : Bool)
      → start + cnt ≤ b.bit_cnt
      → bitmap_count b start cnt value ≡ some (count_bits (bit b) start cnt value)
  unfolding bitmap_count
  bitmap_count_lem start cnt value h =
      rw (in_range_lem start cnt h, count_loop_lem start cnt 0 value 0 (omega arith) (omega arith))
        (simp (add-zero, zero-add))

  pub bitmap_contains_lem :
      (start cnt : ℕ) (value : Bool)
      → start + cnt ≤ b.bit_cnt
      → bitmap_contains b start cnt value ≡ some (not (all_bits (bit b) start cnt (not value)))
  unfolding bitmap_contains
  bitmap_contains_lem start cnt value h =
      rw (in_range_lem start cnt h, contains_loop_lem start cnt 0 value (omega arith))
        (simp add-zero)

  -- bitmap_any, bitmap_none and bitmap_all answer for the bits of a range inside the bitmap:
  -- whether not all of them are clear, whether all are clear, and whether all are set.
  pub bitmap_queries :
      (start cnt : ℕ)
      → start + cnt ≤ b.bit_cnt
      → (bitmap_any b start cnt ≡ some (not (all_bits (bit b) start cnt false)))
        × (bitmap_none b start cnt ≡ some (all_bits (bit b) start cnt false))
        × (bitmap_all b start cnt ≡ some (all_bits (bit b) start cnt true))
        × ((all_bits (bit b) start cnt false ≡ true) ↔ AllBits (bit b) start cnt false)
        × ((all_bits (bit b) start cnt true ≡ true) ↔ AllBits (bit b) start cnt true)
  unfolding bitmap_any bitmap_none bitmap_all
  bitmap_queries start cnt h = (
    bitmap_contains_lem start cnt true h,
    rw (bitmap_contains_lem start cnt true h) (ground arith),
    rw (bitmap_contains_lem start cnt false h) (ground arith),
    all_bits_iff (bit b) start cnt false,
    all_bits_iff (bit b) start cnt true,
  )

set_loop-Holds :
    (start left i : ℕ) (value : Bool) {b : Bitmap}
    → IsBitmap b
    → start + i + left ≤ b.bit_cnt
    → (r : Bitmap) × (set_loop start left i value b ≡ some r)
      × Holds b (λ j. if within (start + i) left j then value else bit b j) r
unfolding set_loop
set_loop-Holds start zero i value {b} v h =
    (b, refl, record { valid = v; same_size = refl; reads = λ j. ground arith })
set_loop-Holds start (suc left) i value {b} v h =
    let sum : add_size start i ≡ start + i = omega (arith, v.small) in
    let (b', one, s) = bitmap_set-Holds v (start + i) (omega arith) value in
    let (r, rest, t) =
      set_loop-Holds start left (i + 1) value s.valid (omega (arith, s.same_size)) in
    (
      r,
      rw (ap (λ k. bitmap_set b k value) sum ∙ one) rest,
      record {
        valid = t.valid;
        same_size = t.same_size ∙ s.same_size;
        reads = λ j. ground (arith, t.reads j, s.reads j);
      },
    )

-- bitmap_set_multiple, on a range inside the bitmap, gives its bits the value, leaves every
-- other bit and keeps the bitmap well formed.
pub bitmap_set_multiple-Holds :
    {b : Bitmap} (v : IsBitmap b) (start cnt : ℕ) (value : Bool)
    → start + cnt ≤ b.bit_cnt
    → (r : Bitmap) × (bitmap_set_multiple b start cnt value ≡ some r)
      × Holds b (λ j. if within start cnt j then value else bit b j) r
unfolding bitmap_set_multiple
bitmap_set_multiple-Holds {b} v start cnt value h =
    let (r, run, t) = set_loop-Holds start cnt 0 value v (omega arith) in
    (
      r,
      rw (in_range_lem v start cnt h) run,
      record { valid = t.valid; same_size = t.same_size; reads = λ j. ground (arith, t.reads j) },
    )

-- bitmap_create, where `malloc` returns storage of the size that it asked for, whatever words
-- that holds, makes a well-formed bitmap of that many bits, all of them clear.
pub bitmap_create-Holds :
    (words : List ℕ) (bit_cnt : ℕ)
    → bit_cnt + 31 < 2 ^ 32
    → length words ≡ elem_cnt bit_cnt
    → All (λ w. w < 2 ^ 32) words
    → (r : Bitmap) × (bitmap_create true (some words) bit_cnt ≡ some (some r))
      × IsBitmap r
      × (r.bit_cnt ≡ bit_cnt)
      × AllBits (bit r) 0 bit_cnt false
unfolding bitmap_create bitmap_set_all
bitmap_create-Holds words bit_cnt small stored word =
    let b : Bitmap = record { bit_cnt = bit_cnt; bits = words } in
    let v : IsBitmap b = record { stored = stored; small = small; words = word } in
    let (r, run, t) = bitmap_set_multiple-Holds v 0 bit_cnt false (omega arith) in
    (r, rw run, t.valid, t.same_size, λ j p q. ground (arith, t.reads j))
