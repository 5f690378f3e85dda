-- ===== src/Bitmap/Tests.antt =====
-- A bitmap of 40 bits in two elements: runs, and the theorems at it.
use class_assignments.Prelude.{ℕ, ◌≡◌, refl, true, false, not, some, [], ◌∷◌, arith, leb}
use class_assignments.Bitmap.{
  Bitmap, bitmap_set, bitmap_test, bitmap_set_multiple, bitmap_count, bitmap_any, bitmap_none,
  bitmap_all, bitmap_scan, bitmap_scan_and_flip, bitmap_contains, bitmap_has_room, bitmap_mark,
  set_loop, scan_loop, bitmap_error,
}
use class_assignments.Bitmap.Bits.{IsBitmap, bit}
use class_assignments.Bitmap.Ranges.{
  AllBits, all_bits, count_bits, bitmap_count_lem, bitmap_queries,
}
use class_assignments.Bitmap.Scan.{
  Scanned, Claimed, bitmap_scan-Scanned, bitmap_scan_and_flip-Claimed,
}
use class_assignments.Bitmap.Room.{bitmap_has_room_lem}

-- Bits 0 to 3 and 32 are taken.
abbrev sample : Bitmap
sample = record { bit_cnt = 40; bits = 15 ∷ 1 ∷ [] }

sample-IsBitmap : IsBitmap sample
sample-IsBitmap = record { stored = refl; small = omega arith; words = omega arith }

-- The first 28 free bits begin at 4; 29 in a row there are not.
runs :
    (bitmap_scan sample 0 28 false ≡ some 4)
    × (bitmap_scan sample 0 29 false ≡ some bitmap_error)
    × (bitmap_scan_and_flip sample 0 2 false
        ≡ some (4, record { bit_cnt = 40; bits = 63 ∷ 1 ∷ [] }))
unfolding bitmap_scan bitmap_scan_and_flip scan_loop bitmap_contains bitmap_test bitmap_set_multiple
    set_loop bitmap_set bitmap_mark
runs = (refl, refl, refl)

-- The note over bitmap_scan_and_flip says that a group of no bits is at 0; it is at START.
empty_group : bitmap_scan_and_flip sample 7 0 false ≡ some (7, sample)
unfolding bitmap_scan bitmap_scan_and_flip scan_loop bitmap_contains bitmap_set_multiple set_loop
empty_group = refl

bitmap_count_lem_example : bitmap_count sample 2 35 true ≡ some (count_bits (bit sample) 2 35 true)
bitmap_count_lem_example = bitmap_count_lem sample-IsBitmap 2 35 true (omega arith)

bitmap_queries_example :
    (bitmap_any sample 2 3 ≡ some (not (all_bits (bit sample) 2 3 false)))
    × (bitmap_none sample 2 3 ≡ some (all_bits (bit sample) 2 3 false))
    × (bitmap_all sample 2 3 ≡ some (all_bits (bit sample) 2 3 true))
    × ((all_bits (bit sample) 2 3 false ≡ true → AllBits (bit sample) 2 3 false)
        × (AllBits (bit sample) 2 3 false → all_bits (bit sample) 2 3 false ≡ true))
    × ((all_bits (bit sample) 2 3 true ≡ true → AllBits (bit sample) 2 3 true)
        × (AllBits (bit sample) 2 3 true → all_bits (bit sample) 2 3 true ≡ true))
bitmap_queries_example = bitmap_queries sample-IsBitmap 2 3 (omega arith)

bitmap_scan-Scanned_example :
    (r : ℕ) × (bitmap_scan sample 3 2 false ≡ some r) × Scanned sample 3 2 false r
bitmap_scan-Scanned_example = bitmap_scan-Scanned sample-IsBitmap 3 2 false (omega arith)

bitmap_scan_and_flip-Claimed_example :
    (r : ℕ) × (b' : Bitmap) × (bitmap_scan_and_flip sample 0 2 false ≡ some (r, b'))
    × Claimed sample 0 2 false r b'
bitmap_scan_and_flip-Claimed_example =
    bitmap_scan_and_flip-Claimed sample-IsBitmap 0 2 false (omega arith)

bitmap_has_room_lem_example :
    bitmap_has_room (some sample) 35 ≡ some (leb 35 (count_bits (bit sample) 0 40 false))
bitmap_has_room_lem_example = bitmap_has_room_lem sample-IsBitmap 35
