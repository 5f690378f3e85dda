-- ===== src/Bitmap/Bits.antt =====
-- A bitmap read as a sequence of bits, and the calls on one bit.
use Prim.Native.Nat.{bit_or, bit_xor}
use class_assignments.Prelude.{
  ℕ, ◌+◌, ◌-◌, ◌/◌, ◌%◌, ◌^◌, ◌<◌, ◌≡◌, refl, Bool, true, false, not, some, arith, lt→ltb, ◌==◌,
  if◌then◌else◌, get_elem?, get_or, set, length, All, length-set, All-set, All-get_or, get_or-set,
  get_elem?-eq-get_or,
}
use class_assignments.Prelude.Bits.{
  test_bit, test_bit-bit_and, test_bit-bit_or, test_bit-bit_xor, bit_and-lt, bit_or-lt, bit_xor-lt,
  test_bit-pow, pow-word, bit_and-pow, test_bit-complement,
}
use class_assignments.Bitmap.{
  Bitmap, bit_mask, elem_cnt, update_elem, bitmap_mark, bitmap_reset, bitmap_flip, bitmap_set,
  bitmap_test,
}

-- The array has the elements that the bits need, `DIV_ROUND_UP` does not wrap, and every element
-- is a word.
pub record IsBitmap (b : Bitmap) : Type 0 where
  pub stored : length b.bits ≡ elem_cnt b.bit_cnt
  pub small : b.bit_cnt + 31 < 2 ^ 32
  pub words : All (λ w. w < 2 ^ 32) b.bits

-- The bit numbered `i`.
unfoldable pub bit : Bitmap → ℕ → Bool
bit b i = test_bit (get_or b.bits (i / 32) 0) (i % 32)

-- `r` is `b` with the bits of `f`.
pub record Holds (b : Bitmap) (f : ℕ → Bool) (r : Bitmap) : Type 0 where
  pub valid : IsBitmap r
  pub same_size : r.bit_cnt ≡ b.bit_cnt
  pub reads : (j : ℕ) → bit r j ≡ f j

module _ {b : Bitmap} (v : IsBitmap b) (i : ℕ) (h : i < b.bit_cnt) where
  elem : ℕ
  elem = get_or b.bits (i / 32) 0

  in_array : i / 32 < length b.bits
  in_array = omega (arith, v.stored, v.small)

  elem-word : elem < 2 ^ 32
  unfolding elem
  elem-word = All-get_or (λ w. w < 2 ^ 32) b.bits (i / 32) 0 (omega arith) v.words

  load : get_elem? b.bits (i / 32) ≡ some elem
  unfolding elem
  load = get_elem?-eq-get_or b.bits (i / 32) 0 in_array

  -- bitmap_test, at an index inside the bitmap, does not panic and returns the bit.
  pub bitmap_test-bit : bitmap_test b i ≡ some (bit b i)
  unfolding bitmap_test bit elem
  bitmap_test-bit = rw (lt→ltb i b.bit_cnt h, load, bit_and-pow) (ground arith)

  update_elem-Holds :
      (g : ℕ → ℕ)
      → g elem < 2 ^ 32
      → (r : Bitmap) × (update_elem b (i / 32) g ≡ some r)
        × Holds b (λ j. if i / 32 == j / 32 then test_bit (g elem) (j % 32) else bit b j) r
  unfolding update_elem elem bit
  update_elem-Holds g word = (
    record b { bits = set b.bits (i / 32) (g elem) },
    rw load,
    record {
      valid = record {
        stored = rw length-set v.stored;
        small = v.small;
        words = All-set (λ w. w < 2 ^ 32) b.bits (i / 32) (g elem) word v.words;
      };
      same_size = refl;
      reads = λ j. ground (arith, get_or-set b.bits (i / 32) (j / 32) (g elem) 0 in_array);
    },
  )

-- Two bits are the same one exactly if they have the same element and the same place in it.
same_place : (i j : ℕ) → (if i / 32 == j / 32 then i % 32 == j % 32 else false) ≡ (i == j)
same_place i j = ground arith

module _ {b : Bitmap} (v : IsBitmap b) (i : ℕ) (h : i < b.bit_cnt) where
  mask-word : bit_mask i < 2 ^ 32
  mask-word = pow-word (i % 32) (omega arith)

  -- What each write makes of the digits of a word.
  abbrev Writes : (ℕ → ℕ) → (Bool → Bool) → Type 0
  Writes g f =
      (w j : ℕ)
      → j < 32
      → test_bit (g w) j ≡ (if i % 32 == j then f (test_bit w j) else test_bit w j)

  Holds-of_Writes :
      (g : ℕ → ℕ) (f : Bool → Bool)
      → ((w : ℕ) → w < 2 ^ 32 → g w < 2 ^ 32)
      → Writes g f
      → (r : Bitmap) × (update_elem b (i / 32) g ≡ some r)
        × Holds b (λ j. if i == j then f (bit b j) else bit b j) r
  unfolding bit elem
  Holds-of_Writes g f word writes =
      let (r, run, u) = update_elem-Holds v i h g (word _ (elem-word v i h)) in
      (
        r,
        run,
        record {
          valid = u.valid;
          same_size = u.same_size;
          reads = λ j. ground (arith, u.reads j, writes (elem v i h) (j % 32), same_place i j);
        },
      )

  -- bitmap_mark sets the bit and no other.
  pub bitmap_mark-Holds :
      (r : Bitmap) × (bitmap_mark b i ≡ some r) × Holds b (λ j. if i == j then true else bit b j) r
  unfolding bitmap_mark
  bitmap_mark-Holds =
      Holds-of_Writes (λ w. bit_or w (bit_mask i)) (λ _. true)
        (λ w p. bit_or-lt 32 w (bit_mask i) p mask-word)
        (λ w j l. ground (arith, test_bit-bit_or j w (bit_mask i), test_bit-pow (i % 32) j))

  pub bitmap_reset-Holds :
      (r : Bitmap) × (bitmap_reset b i ≡ some r)
      × Holds b (λ j. if i == j then false else bit b j) r
  unfolding bitmap_reset
  bitmap_reset-Holds =
      Holds-of_Writes _ (λ _. false) (λ w p. bit_and-lt 32 w _ p)
        (λ w j l.
          ground
            (arith, test_bit-bit_and j w (2 ^ 32 - 1 - bit_mask i), test_bit-complement (i % 32) j))

  -- bitmap_flip, at an index inside the bitmap, toggles the bit, leaves every other bit and
  -- keeps the bitmap well formed.
  pub bitmap_flip-Holds :
      (r : Bitmap) × (bitmap_flip b i ≡ some r)
      × Holds b (λ j. if i == j then not (bit b j) else bit b j) r
  unfolding bitmap_flip
  bitmap_flip-Holds =
      Holds-of_Writes (λ w. bit_xor w (bit_mask i)) not
        (λ w p. bit_xor-lt 32 w (bit_mask i) p mask-word)
        (λ w j l. ground (arith, test_bit-bit_xor j w (bit_mask i), test_bit-pow (i % 32) j))

  -- bitmap_set, at an index inside the bitmap, gives the bit the value, leaves every other bit
  -- and keeps the bitmap well formed.
  pub bitmap_set-Holds :
      (value : Bool)
      → (r : Bitmap) × (bitmap_set b i value ≡ some r)
        × Holds b (λ j. if i == j then value else bit b j) r
  unfolding bitmap_set
  bitmap_set-Holds true = rw (lt→ltb i b.bit_cnt h) bitmap_mark-Holds
  bitmap_set-Holds false = rw (lt→ltb i b.bit_cnt h) bitmap_reset-Holds
