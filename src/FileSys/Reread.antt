-- ===== src/FileSys/Reread.antt =====
-- The free map read back from its file: bitmap_read after the write of the map by a claim.
use Prim.Native.Nat.{bit_and}
use class_assignments.Prelude.{◌-◌, get_or, set}
use class_assignments.Bitmap.{Bitmap, elem_cnt, last_mask}
use class_assignments.FileSys.{FileSys}

masked : (b : Bitmap) → Bitmap
masked b =
    let last = elem_cnt b.bit_cnt - 1 in
    record b { bits = set b.bits last (bit_and (get_or b.bits last 0) (last_mask b)) }
