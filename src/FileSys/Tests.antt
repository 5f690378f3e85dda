-- ===== src/FileSys/Tests.antt =====
-- A small device with an empty file, and the theorems at it.
use class_assignments.Prelude.{
  ℕ, ◌≡◌, refl, true, false, ◌&&◌, none, some, List, [], ◌∷◌, arith, leb, if◌then◌else◌, replicate,
}
use class_assignments.Prelude.Bits.{test_bit}
use class_assignments.Bitmap.{Bitmap}
use class_assignments.Bitmap.Bits.{bit}
use class_assignments.Bitmap.Ranges.{count_bits}
use class_assignments.Disk.{InodeDisk, index_sector, inode_sector}
use class_assignments.Inode.{bytes_to_sectors, inode_read_at}
use class_assignments.FileSys.{FileSys, Inode}
use class_assignments.FileSys.Blocks.{Blocks, inode_write_at, inode_extend_file, fill_loop, place}
use class_assignments.FileSys.Claims.{free_sectors}
use class_assignments.FileSys.Stored.{IsStored, blocks_of}
use class_assignments.FileSys.Indexes.{IsIndex}
use class_assignments.FileSys.Fill.{IsFilled, Fills, fill_loop-Fills}
use class_assignments.FileSys.Place.{Placed, place-Placed}
use class_assignments.FileSys.Extend.{Extends, inode_extend_file-Extends}
use class_assignments.FileSys.RoundTrip.{inode_read_at-inode_write_at}
use class_assignments.FileSys.Tied.{free_map_allocate}
use class_assignments.FileSys.Unopened.{IsUnopened, no_own, IsUnopened-IsAllocator}
use class_assignments.FileSys.WriteFile.{Writes, inode_write_at-Writes}

-- The inode is in sector 1, its index blocks in the sectors 2 to 8.
abbrev empty_inode : InodeDisk
empty_inode = record {
  length = 0;
  new_length = 0;
  inode_disk_number = 1;
  lv1_ind_block = 2 ∷ 3 ∷ 4 ∷ 5 ∷ 6 ∷ 7 ∷ 8 ∷ [];
  direct_block = replicate 115 0;
  is_dir = false;
  dir_pos = 40;
  magic = 0x494e4f44;
}

abbrev no_entries : List ℕ
no_entries = replicate 128 0

abbrev no_indexes : List (List ℕ)
no_indexes = replicate 7 no_entries

abbrev small_map : Bitmap
small_map = record { bit_cnt = 32; bits = 511 ∷ [] }

abbrev empty_fs : FileSys
empty_fs = record {
  disk = record {
    size = 32;
    sectors = λ s. if leb 2 s && leb s 8 then index_sector no_entries else inode_sector empty_inode;
  };
  free_map = small_map;
  map_file = none;
}

free_sectors-empty_fs : free_sectors empty_fs ≡ 23
unfolding count_bits bit test_bit
free_sectors-empty_fs = refl

empty_fs-IsUnopened : IsUnopened empty_fs
empty_fs-IsUnopened = record {
  valid = record { stored = refl; small = omega arith; words = (omega arith, tt) };
  readable = omega arith;
  in_disk = omega arith;
  unopened = refl;
}

empty_inode-IsStored : IsStored no_own empty_fs empty_inode no_indexes 0 (λ k. 0)
unfolding bit test_bit
empty_inode-IsStored = record {
  laid_out = record {
    fits = omega arith;
    loaded = (
      index 2 refl refl,
      omega arith,
      (
        index 3 refl refl,
        omega arith,
        (
          index 4 refl refl,
          omega arith,
          (
            index 5 refl refl,
            omega arith,
            (
              index 6 refl refl,
              omega arith,
              (index 7 refl refl, omega arith, (index 8 refl refl, tt, tt)),
            ),
          ),
        ),
      ),
    );
    filled = record {
      shaped = record { direct = refl; indirect = refl; index_sizes = omega arith };
      slots = λ k h. absurd (omega arith);
      block = λ k h. absurd (omega arith);
      marked = λ k h. absurd (omega arith);
      apart = λ k h. absurd (omega arith);
      distinct = λ j k h l e. absurd (omega arith);
    };
    header = record { marked = refl; apart = refl; in_disk = omega arith; holds = refl };
  };
  on_disk = refl;
}
  where
    index :
        (s : ℕ)
        → (leb 2 s && leb s 8) ≡ true
        → bit small_map s ≡ true
        → IsIndex no_own empty_fs s no_entries
    index s range marked = record {
      marked = marked;
      in_map = ground arith;
      apart = refl;
      readable = ground arith;
      in_disk = ground arith;
      holds = rw range refl;
    }

abbrev empty_file : Inode
empty_file = record { deny_write_cnt = 0; inode_disk = empty_inode }

inode_write_at-Writes_example :
    (d' : InodeDisk) × (fs' : FileSys) × (xss' : List (List ℕ)) × (sec' : ℕ → ℕ) × (inode_write_at
        (free_map_allocate true)
        true
        empty_file
        (7 ∷ 8 ∷ 9 ∷ [])
        3
        600
        empty_fs
      ≡ some (3, record { deny_write_cnt = 0; inode_disk = d' }, fs'))
    × IsUnopened fs'
    × IsStored no_own fs' d' xss' (bytes_to_sectors d'.length) sec'
    × Writes no_own 3 600 (7 ∷ 8 ∷ 9 ∷ []) empty_inode d' (λ k. 0) sec' empty_fs fs'
inode_write_at-Writes_example =
    inode_write_at-Writes (IsUnopened-IsAllocator true) empty_file empty_fs no_indexes (λ k. 0) 3
      600 (7 ∷ 8 ∷ 9 ∷ []) empty_fs-IsUnopened refl empty_inode-IsStored refl refl (omega arith)
      (omega (arith, free_sectors-empty_fs))

inode_read_at-inode_write_at_example :
    (d' : InodeDisk) × (fs' : FileSys) × (inode_write_at
        (free_map_allocate true)
        true
        empty_file
        (7 ∷ 8 ∷ 9 ∷ [])
        3
        600
        empty_fs
      ≡ some (3, record { deny_write_cnt = 0; inode_disk = d' }, fs'))
    × (inode_read_at true fs'.disk d' 3 600 ≡ some (3, 7 ∷ 8 ∷ 9 ∷ []))
inode_read_at-inode_write_at_example =
    inode_read_at-inode_write_at (IsUnopened-IsAllocator true) empty_file empty_fs no_indexes
      (λ k. 0) 3 600 (7 ∷ 8 ∷ 9 ∷ []) empty_fs-IsUnopened refl empty_inode-IsStored refl refl
      (omega arith) (omega (arith, free_sectors-empty_fs))

inode_extend_file-Extends_example :
    (d' : InodeDisk) × (fs' : FileSys) × (xss' : List (List ℕ)) × (sec' : ℕ → ℕ)
    × (inode_extend_file (free_map_allocate true) empty_inode 3 empty_fs ≡ some (d', fs'))
    × IsUnopened fs'
    × IsStored no_own fs' d' xss' 3 sec'
    × Extends no_own 3 0 empty_inode d' (λ k. 0) sec' empty_fs fs'
inode_extend_file-Extends_example =
    inode_extend_file-Extends (IsUnopened-IsAllocator true) empty_fs empty_inode no_indexes (λ k. 0)
      3 empty_fs-IsUnopened empty_inode-IsStored (omega arith) (omega arith)
      (omega (arith, free_sectors-empty_fs))

fill_loop-Fills_example :
    (r : ℕ) × (b' : Blocks) × (fs' : FileSys) × (sec' : ℕ → ℕ) × (fill_loop
        (free_map_allocate true)
        2
        0
        2
        (blocks_of empty_inode no_indexes)
        empty_fs
      ≡ some (r, b', fs'))
    × IsUnopened fs'
    × IsFilled no_own fs' b' 2 sec'
    × Fills no_own 2 0 (λ k. 0) sec' (blocks_of empty_inode no_indexes) b' empty_fs fs'
fill_loop-Fills_example =
    fill_loop-Fills (IsUnopened-IsAllocator true) 2 0 2 (blocks_of empty_inode no_indexes) empty_fs
      (λ k. 0) empty_fs-IsUnopened empty_inode-IsStored.laid_out.filled
      (omega (arith, free_sectors-empty_fs)) (omega arith)

place-Placed_example :
    (b' : Blocks) × (place 300 9 (blocks_of empty_inode no_indexes) ≡ some b')
    × Placed 300 9 (blocks_of empty_inode no_indexes) b'
place-Placed_example =
    place-Placed (blocks_of empty_inode no_indexes) 300 9
      empty_inode-IsStored.laid_out.filled.shaped (omega arith)
