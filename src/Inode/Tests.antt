-- ===== src/Inode/Tests.antt =====
-- A small file on a small disk: runs of the read and write loops, and the theorems at that file.
use class_assignments.Prelude.{
  ℕ, zero, suc, ◌+◌, ◌<◌, ◌≡◌, refl, true, false, some, [], ◌∷◌, arith, ◌==◌, if◌then◌else◌,
  replicate,
}
use class_assignments.Prelude.Slices.{slice}
use class_assignments.Disk.{InodeDisk, data_sector, inode_sector, Disk, block_read}
use class_assignments.Inode.{block_sector, byte_to_sector, inode_read_at, write_loop}
use class_assignments.Inode.Layout.{IsFile, IsBlock, byte_at}
use class_assignments.Inode.Read.{inode_read_at_lem}
use class_assignments.Inode.Write.{Written}
use class_assignments.Inode.Write.Loop.{write_loop-Written}

abbrev small_inode : InodeDisk
small_inode = record {
  length = 514;
  new_length = 514;
  inode_disk_number = 3;
  lv1_ind_block = [];
  direct_block = 5 ∷ 6 ∷ [];
  is_dir = false;
  dir_pos = 40;
  magic = 0x494e4f44;
}

abbrev small_disk : Disk
small_disk = record {
  size = 10;
  sectors = λ s.
      if s == 5
      then data_sector (replicate 512 7)
      else if s == 6
      then data_sector (1 ∷ 2 ∷ replicate 510 0)
      else inode_sector small_inode;
}

abbrev small_sectors : ℕ → ℕ
small_sectors k = 5 + k

small-IsFile : IsFile small_disk small_inode small_sectors
unfolding block_sector
small-IsFile = record {
  sizes = omega arith;
  mapped = mapped;
  block = block;
  distinct = λ j k p q e. omega arith;
}
  where
    mapped : (k : ℕ) → k < 2 → block_sector small_disk small_inode k ≡ some (5 + k)
    mapped zero h = refl
    mapped (suc zero) h = refl
    mapped (suc (suc k)) h = absurd (omega arith)

    block : (k : ℕ) → k < 2 → IsBlock small_disk (5 + k)
    block zero h = record { readable = omega arith; in_disk = omega arith; raw = refl; full = refl }
    block (suc zero) h = record {
      readable = omega arith;
      in_disk = omega arith;
      raw = refl;
      full = refl;
    }
    block (suc (suc k)) h = absurd (omega arith)

-- A read over both blocks.
inode_read_at_lem_example :
    inode_read_at true small_disk small_inode 3 511
    ≡ some (3, slice (byte_at small_disk small_sectors) 511 3)
inode_read_at_lem_example = inode_read_at_lem small-IsFile refl 3 511

-- A read past the end: the two bytes that are left are copied, and the call returns 0.
read_past_end : inode_read_at true small_disk small_inode 10 512 ≡ some (0, 1 ∷ 2 ∷ [])
unfolding inode_read_at byte_to_sector block_sector block_read
read_past_end = refl

write_loop-Written_example :
    (r : Disk) × (write_loop true small_inode 4 3 511 0 (21 ∷ 22 ∷ 23 ∷ []) small_disk
      ≡ some (3, r))
    × Written small_disk small_inode small_sectors 3 511 (21 ∷ 22 ∷ 23 ∷ []) r
write_loop-Written_example =
    write_loop-Written 4 3 511 0 (21 ∷ 22 ∷ 23 ∷ []) small_disk small-IsFile (omega arith)
      (omega arith) refl
