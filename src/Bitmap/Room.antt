-- ===== src/Bitmap/Room.antt =====
-- bitmap_has_room: the number of free bits, which need not be consecutive.
use class_assignments.Prelude.{
  ℕ, zero, suc, ◌+◌, ◌<◌, ◌≤◌, ◌≡◌, inl, inr, false, some, arith, leb, ◌==◌, Bool-cases,
}
use class_assignments.Bitmap.{Bitmap, add_size, room_loop, bitmap_has_room}
use class_assignments.Bitmap.Bits.{IsBitmap, bit, bitmap_test-bit}
use class_assignments.Bitmap.Ranges.{count_bits, count_bits-le}

room_loop_lem :
    {b : Bitmap}
    → IsBitmap b
    → (left i cnt free_space : ℕ) → i + left ≤ b.bit_cnt
    → free_space ≤ i
    → free_space < cnt
    → room_loop b left i cnt free_space
      ≡ some (leb cnt (free_space + count_bits (bit b) i left false))
unfolding room_loop count_bits
room_loop_lem v zero i cnt free_space h l m = ground arith
room_loop_lem {b} v (suc left) i cnt free_space h l m =
    let wide : add_size free_space 1 ≡ free_space + 1 = omega (arith, v.small) in
    rw (bitmap_test-bit v i (omega arith), wide)
      (elim (Bool-cases (bit b i)) [
        | inl taken ↦ rw taken (
            rw (room_loop_lem v left (i + 1) cnt free_space (omega arith) (omega arith) m)
              (ground arith))
        | inr free ↦ rw free (elim (Bool-cases (free_space + 1 == cnt)) [
          | inl enough ↦ rw enough (ground arith)
          | inr more ↦ rw more (
              rw
                (room_loop_lem v left (i + 1) cnt (free_space + 1) (omega arith) (omega arith)
                  (ground arith))
                (ground arith))
        ])
      ])

-- bitmap_has_room answers whether at least `cnt` bits of the bitmap are clear.
pub bitmap_has_room_lem :
    {b : Bitmap}
    → IsBitmap b
    → (cnt : ℕ)
    → bitmap_has_room (some b) cnt ≡ some (leb cnt (count_bits (bit b) 0 b.bit_cnt false))
unfolding bitmap_has_room
bitmap_has_room_lem {b} v zero = ground arith
bitmap_has_room_lem {b} v (suc cnt) =
    ground (arith, room_loop_lem v b.bit_cnt 0 (suc cnt) 0, count_bits-le (bit b) 0 b.bit_cnt false)
