-- ===== src/FileSys/Blocks.antt =====
-- The allocating half of cs439/proj4/filesys/inode.c: the sectors of a new file, those that a write
-- adds to a file, and inode_write_at. `allocate` is free_map_allocate.
use class_assignments.Prelude.{
  ℕ, zero, suc, ◌+◌, ◌-◌, ◌*◌, ◌/◌, ◌%◌, Bool, true, false, not, Option, none, some, List, [], ◌∷◌,
  ltb, ◌==◌, if◌then◌else◌, ◌>>=◌, ◌>>◌, assert, get_or, set, replicate,
}
use class_assignments.Bitmap.{bitmap_test, bitmap_has_room}
use class_assignments.Disk.{InodeDisk, inode_sector, index_sector, data_sector, Disk, block_write}
use class_assignments.Inode.{
  master_size, ind_block_size, ind_num_blocks, bytes_to_sectors, inode_open_lv1, write_loop,
}
use class_assignments.FileSys.{FileSys, Inode, Claim, zeros}

abbrev pub inode_magic : ℕ
inode_magic = 0x494e4f44

-- `sizeof (struct dir_entry)`
abbrev pub dir_entry_size : ℕ
dir_entry_size = 20

-- A file whose blocks are being claimed: its inode, and its index blocks in memory.
pub record Blocks : Type 0 where
  pub inode_disk : InodeDisk
  pub lv1_indirect : List (List ℕ)

-- Block `count` of the file is the sector; a block past the last index block is a PANIC.
unfoldable pub place : (count sector : ℕ) → Blocks → Option Blocks
place count sector b =
    let tmp = count - master_size in
    let index = get_or b.lv1_indirect (tmp / ind_block_size) [] in
    if ltb count master_size
    then some (record b {
      inode_disk = record b.inode_disk {
        direct_block = set b.inode_disk.direct_block count sector;
      };
    })
    else if ltb count (master_size + ind_block_size * ind_num_blocks)
    then some (record b {
      lv1_indirect =
          set b.lv1_indirect (tmp / ind_block_size) (set index (tmp % ind_block_size) sector);
    })
    else none

-- `*sectorp` keeps its value where the claim fails.
abbrev pub claimed_or : Option ℕ → ℕ → ℕ
claimed_or none current_sector = current_sector
claimed_or (some sector) current_sector = sector

-- The index blocks of the inode, read into memory; each has to be marked in the free map.
unfoldable pub open_indexes : List ℕ → FileSys → Option (List (List ℕ))
open_indexes [] fs = some []
open_indexes (s ∷ ss) fs =
    bitmap_test fs.free_map s >>= assert >> inode_open_lv1 fs.disk s >>= λ index.
    open_indexes ss fs >>= λ rest. some (index ∷ rest)

unfoldable pub write_indexes : List ℕ → List (List ℕ) → Disk → Option Disk
write_indexes [] indexes disk = some disk
write_indexes (s ∷ ss) [] disk = none
write_indexes (s ∷ ss) (index ∷ rest) disk =
    block_write disk s (index_sector index) >>= write_indexes ss rest

-- The inode that inode_create_dir starts from: `calloc`, and then its fields.
abbrev pub new_inode : (length : ℕ) → (is_dir : Bool) → InodeDisk
new_inode length is_dir = record {
  length = length;
  new_length = length;
  inode_disk_number = 0;
  lv1_ind_block = replicate ind_num_blocks 0;
  direct_block = replicate master_size 0;
  is_dir = is_dir;
  dir_pos = dir_entry_size * 2;
  magic = inode_magic;
}

-- The part of inode_write_at that follows the extension: the lengths, the loop, and the inode on
-- the disk where the file has grown.
unfoldable pub write_blocks :
    (mem : Bool)
    → Inode
    → InodeDisk
    → (buffer : List ℕ) → (size offset : ℕ) → FileSys
    → Option (ℕ × Inode × FileSys)
write_blocks mem inode d1 buffer size offset fs1 =
    let new_length = offset + size in
    let d2 : InodeDisk =
      if ltb d1.new_length new_length then record d1 { new_length = new_length } else d1 in
    write_loop mem d2 (suc size) size offset 0 buffer fs1.disk >>= λ (written, disk).
    let d3 : InodeDisk = record d2 { length = new_length } in
    if ltb d2.length new_length
    then (block_write disk d3.inode_disk_number (inode_sector d3) >>= λ disk'.
        some (written, record inode { inode_disk = d3 }, record fs1 { disk = disk' }))
    else some (written, record inode { inode_disk = d2 }, record fs1 { disk = disk })

module _ (allocate : (cnt : ℕ) → FileSys → Claim) where
  -- `while (count < sectors)`, with `left` rounds to go. What free_map_allocate returns is ignored.
  unfoldable pub fill_loop :
      (left count current_sector : ℕ) → Blocks → FileSys → Option (ℕ × Blocks × FileSys)
  fill_loop zero count current_sector b fs = some (current_sector, b, fs)
  fill_loop (suc left) count current_sector b fs = allocate 1 fs >>= λ (got, fs').
      let sector = claimed_or got current_sector in
      block_write fs'.disk sector (data_sector zeros) >>= λ disk. place count sector b >>= λ b'.
      fill_loop left (count + 1) sector b' (record fs' { disk = disk })

  -- The sectors of the index blocks, which are written there at once.
  unfoldable pub index_loop :
      (left i current_sector : ℕ) → Blocks → FileSys → Option (Blocks × FileSys)
  index_loop zero i current_sector b fs = some (b, fs)
  index_loop (suc left) i current_sector b fs = allocate 1 fs >>= λ (got, fs').
      let sector = claimed_or got current_sector in
      block_write fs'.disk sector (index_sector (get_or b.lv1_indirect i [])) >>= λ disk.
      index_loop left (i + 1) sector
        (record b {
          inode_disk = record b.inode_disk {
            lv1_ind_block = set b.inode_disk.lv1_ind_block i sector;
          };
        })
        (record fs' { disk = disk })

  unfoldable pub inode_allocate :
      (disk_inode_sector sectors : ℕ) → InodeDisk → FileSys → Option (Bool × FileSys)
  inode_allocate disk_inode_sector sectors d fs =
      let start : Blocks = record {
        inode_disk = d;
        lv1_indirect = replicate ind_num_blocks (replicate ind_block_size 0);
      } in
      fill_loop sectors 0 2 start fs >>= λ (current_sector, b, fs').
      index_loop ind_num_blocks 0 current_sector b fs' >>= λ (b', fs'').
      let d' : InodeDisk = record b'.inode_disk { inode_disk_number = disk_inode_sector } in
      block_write fs''.disk disk_inode_sector (inode_sector d') >>= λ disk.
      some (true, record fs'' { disk = disk })

  -- `mem` says whether `calloc` gives the inode its storage.
  unfoldable pub inode_create_dir :
      (mem : Bool)
      → (inode_disk_sector length : ℕ) → (is_dir : Bool) → FileSys
      → Option (Bool × FileSys)
  inode_create_dir mem inode_disk_sector length is_dir fs =
      let sectors = bytes_to_sectors length in
      bitmap_has_room (some fs.free_map) sectors >>= λ room.
      if room
      then (if mem
          then inode_allocate inode_disk_sector sectors (new_inode length is_dir) fs
          else some (false, fs))
      else some (false, fs)

  unfoldable pub inode_create :
      (mem : Bool) → (inode_disk_sector length : ℕ) → FileSys → Option (Bool × FileSys)
  inode_create mem inode_disk_sector length fs =
      inode_create_dir mem inode_disk_sector length false fs

  -- It returns the inode with the new blocks; its lengths are still the old ones.
  unfoldable pub inode_extend_file :
      InodeDisk → (num_sectors : ℕ) → FileSys → Option (InodeDisk × FileSys)
  inode_extend_file d num_sectors fs =
      let length_in_sectors = bytes_to_sectors d.length in
      if num_sectors == length_in_sectors
      then some (d, fs)
      else open_indexes d.lv1_ind_block fs >>= λ indexes.
          fill_loop (num_sectors - length_in_sectors) length_in_sectors 2
            (record { inode_disk = d; lv1_indirect = indexes }) fs
          >>= λ (current_sector, b, fs').
              write_indexes b.inode_disk.lv1_ind_block b.lv1_indirect fs'.disk >>= λ disk.
              block_write disk b.inode_disk.inode_disk_number (inode_sector b.inode_disk)
              >>= λ disk'. some (b.inode_disk, record fs' { disk = disk' })

  -- The bytes are in `buffer`, `size` of them.
  unfoldable pub inode_write_at :
      (mem : Bool)
      → Inode
      → (buffer : List ℕ) → (size offset : ℕ) → FileSys
      → Option (ℕ × Inode × FileSys)
  inode_write_at mem inode buffer size offset fs =
      let d = inode.inode_disk in
      let new_length = offset + size in
      let sectors_needed = bytes_to_sectors new_length in
      if not (inode.deny_write_cnt == 0)
      then some (0, inode, fs)
      else (if bytes_to_sectors d.length == sectors_needed
          then some (d, fs)
          else inode_extend_file d sectors_needed fs)
        >>= λ (d1, fs1). write_blocks mem inode d1 buffer size offset fs1
