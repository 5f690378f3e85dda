-- ===== src/FileSys.antt =====
-- cs439/proj4/filesys/free-map.c and the stateful half of inode.c: claiming sectors, creating a
-- file, extending one, and inode_write_at as a whole.
-- The free map is written through to its own file by inode_write_at, which may claim sectors for
-- that file in turn: the calls take the one below as a parameter, and are tied together at the end.
pub mod Blocks
pub mod Tied
pub mod Place
pub mod Claims
pub mod Fill
pub mod Indexes
pub mod Stored
pub mod Extend
pub mod Restored
pub mod WriteAt
pub mod WriteFile
pub mod Unopened
pub mod Opened
pub mod OpenInodes
pub mod Release
pub mod Reread
pub mod RoundTrip
pub mod Create
mod Tests
mod MapTests
use class_assignments.Prelude.{
  ℕ, zero, suc, ◌+◌, ◌-◌, ◌*◌, ◌/◌, ◌%◌, ◌^◌, Bool, true, false, not, Option, none, some, List, [],
  ◌∷◌, ◌++◌, ltb, leb, ◌==◌, if◌then◌else◌, ◌>>=◌, ◌>>◌, assert, get_elem?, get_or, set, replicate,
}
use class_assignments.Bitmap.{
  Bitmap, bitmap_error, byte_cnt, bitmap_test, bitmap_all, bitmap_set_multiple,
  bitmap_scan_and_flip, bitmap_has_room,
}
use class_assignments.Disk.{
  InodeDisk, inode_sector, index_sector, data_sector, Disk, block_read, block_write,
}
use class_assignments.Inode.{
  block_sector_size, master_size, ind_block_size, ind_num_blocks, bytes_to_sectors, inode_open_lv1,
  write_loop,
}

-- The device, the free map, and the inode of the free map's file (`free_map_file`), once it is open.
pub record FileSys : Type 0 where
  pub disk : Disk
  pub free_map : Bitmap
  pub map_file : Option InodeDisk

-- The part of `struct inode` that a write looks at.
pub record Inode : Type 0 where
  pub deny_write_cnt : ℕ
  pub inode_disk : InodeDisk

-- The bytes of the elements, lowest first, as they lie in memory.
pub elem_bytes : List ℕ → List ℕ
elem_bytes [] = []
elem_bytes (w ∷ ws) =
    w % 256 ∷ w / 2 ^ 8 % 256 ∷ w / 2 ^ 16 % 256 ∷ w / 2 ^ 24 % 256 ∷ elem_bytes ws

-- The elements that the bytes are in memory.
pub bytes_elems : List ℕ → List ℕ
bytes_elems (a ∷ b ∷ c ∷ d ∷ bs) = (a + 2 ^ 8 * b + 2 ^ 16 * c + 2 ^ 24 * d) ∷ bytes_elems bs
bytes_elems bs = []

-- A sector of zeros.
unfoldable pub zeros : List ℕ
zeros = replicate block_sector_size 0

-- What a claim returns: the first sector, if there is one, and the file system.
abbrev pub Claim : Type 0
Claim = Option (Option ℕ × FileSys)

-- `bitmap_write (free_map, free_map_file)` as a parameter.
module _ (bitmap_write : FileSys → Option (Bool × FileSys)) where
  -- The map is on the disk before the claim counts.
  unfoldable pub write_claim : (cnt sector : ℕ) → FileSys → Claim
  write_claim cnt sector fs = bitmap_write fs >>= λ (written, fs').
      if written
      then some (some sector, fs')
      else bitmap_set_multiple fs'.free_map sector cnt false >>= λ b.
          some (none, record fs' { free_map = b })

  unfoldable pub allocate_through : (cnt : ℕ) → FileSys → Claim
  allocate_through cnt fs = bitmap_scan_and_flip fs.free_map 0 cnt false >>= λ (sector, b).
      if sector == bitmap_error then some (none, fs) else elim fs.map_file [
        | none ↦ some (some sector, record fs { free_map = b })
        | some _ ↦ write_claim cnt sector (record fs { free_map = b })
      ]

  unfoldable pub release_through : (sector cnt : ℕ) → FileSys → Option FileSys
  release_through sector cnt fs =
      bitmap_all fs.free_map sector cnt
      >>= assert
      >> bitmap_set_multiple fs.free_map sector cnt false
      >>= λ b. bitmap_write (record fs { free_map = b }) >>= λ (written, fs'). some fs'
