-- ===== src/FileSys/MapTests.antt =====
-- A small device whose free map is open: the theorems on claims and releases at it.
use class_assignments.Prelude.{
  ℕ, zero, suc, ◌<◌, ◌≡◌, refl, true, false, some, [], ◌∷◌, arith, ◌==◌, if◌then◌else◌, replicate,
  get_or, get_elem?,
}
use class_assignments.Prelude.Bits.{test_bit}
use class_assignments.Bitmap.{Bitmap}
use class_assignments.Bitmap.Bits.{bit}
use class_assignments.Bitmap.Ranges.{AllBits, count_bits}
use class_assignments.Disk.{InodeDisk, data_sector, inode_sector}
use class_assignments.Inode.Layout.{byte_at}
use class_assignments.FileSys.{FileSys, elem_bytes}
use class_assignments.FileSys.Claims.{free_sectors, Claims}
use class_assignments.FileSys.Tied.{free_map_allocate, free_map_release}
use class_assignments.FileSys.Opened.{IsOpened, owned}
use class_assignments.FileSys.Opened.Allocator.{IsOpened-Claims}
use class_assignments.FileSys.Release.{Releases, free_map_release-Releases}

-- The inodes of the map and of the root directory are in the sectors 0 and 1, the map itself in 9.
abbrev map_inode : InodeDisk
map_inode = record {
  length = 4;
  new_length = 4;
  inode_disk_number = 0;
  lv1_ind_block = replicate 7 0;
  direct_block = 9 ∷ replicate 114 0;
  is_dir = false;
  dir_pos = 40;
  magic = 0x494e4f44;
}

abbrev opened_fs : FileSys
opened_fs = record {
  disk = record {
    size = 32;
    sectors = λ s. if s == 9 then data_sector (3 ∷ 2 ∷ replicate 510 0) else inode_sector map_inode;
  };
  free_map = record { bit_cnt = 32; bits = 515 ∷ [] };
  map_file = some map_inode;
}

abbrev map_sectors : ℕ → ℕ
map_sectors k = 9

free_sectors-opened_fs : free_sectors opened_fs ≡ 29
unfolding count_bits bit test_bit
free_sectors-opened_fs = refl

opened_fs-bits : (bit opened_fs.free_map 1 ≡ true) × (bit opened_fs.free_map 9 ≡ true)
unfolding bit test_bit
opened_fs-bits = (refl, refl)

opened_fs-IsOpened : IsOpened map_inode map_sectors opened_fs
unfolding byte_at elem_bytes
opened_fs-IsOpened = record {
  valid = record { stored = refl; small = omega arith; words = (omega arith, tt) };
  readable = omega arith;
  in_disk = omega arith;
  opened = refl;
  file = record {
    sized = refl;
    closed = refl;
    few = omega arith;
    direct = direct;
    distinct = λ j k h l e. omega arith;
  };
  block = λ k h. record { readable = omega arith; in_disk = omega arith; raw = refl; full = refl };
  marked = λ k h. opened_fs-bits.1;
  saved = saved;
}
  where
    direct : (k : ℕ) → k < 1 → get_elem? map_inode.direct_block k ≡ some 9
    direct zero h = refl
    direct (suc k) h = absurd (omega arith)

    saved :
        (p : ℕ)
        → p < 4
        → byte_at opened_fs.disk map_sectors p ≡ get_or (elem_bytes opened_fs.free_map.bits) p 0
    saved zero h = refl
    saved (suc zero) h = refl
    saved (suc (suc zero)) h = refl
    saved (suc (suc (suc zero))) h = refl
    saved (suc (suc (suc (suc p)))) h = absurd (omega arith)

IsOpened-Claims_example :
    (s : ℕ) × (fs' : FileSys) × (free_map_allocate true 1 opened_fs ≡ some (some s, fs'))
    × IsOpened map_inode map_sectors fs'
    × Claims (owned map_sectors 1) opened_fs s fs'
IsOpened-Claims_example =
    IsOpened-Claims opened_fs opened_fs-IsOpened (omega (arith, free_sectors-opened_fs))

-- Sector 1 is given back.
free_map_release-Releases_example :
    (fs' : FileSys) × (free_map_release true 1 1 opened_fs ≡ some fs')
    × IsOpened map_inode map_sectors fs'
    × Releases (owned map_sectors 1) 1 1 opened_fs fs'
free_map_release-Releases_example =
    free_map_release-Releases opened_fs 1 1 opened_fs-IsOpened (omega arith) root_marked
      (λ k h. refl)
  where
    root_marked : AllBits (bit opened_fs.free_map) 1 1 true
    root_marked j h l = let e : 1 ≡ j = omega arith in rw (← e) opened_fs-bits.0
