-- ===== src/Disk.antt =====
-- cs439/proj4/devices/block.c as the file system sees it: `fs_device`, an array of sectors.
-- A sector is read back at the type at which it was written: to read raw bytes as an inode, which
-- C would allow, is a fault (`none`).

use class_assignments.Prelude.{
  ℕ, Bool, Option, none, some, List, ◌==◌, ltb, leb, if◌then◌else◌, ◌>>◌, assert,
}

-- `struct inode_disk` of filesys/inode.h.
pub record InodeDisk : Type 0 where
  pub length : ℕ
  pub new_length : ℕ
  pub inode_disk_number : ℕ
  pub lv1_ind_block : List ℕ
  pub direct_block : List ℕ
  pub is_dir : Bool
  pub dir_pos : ℕ
  pub magic : ℕ

-- What a sector holds: an inode, a `struct lv1_ind_block`, or bytes.
pub data Sector : Type 0 where
  inode_sector : InodeDisk → Sector
  index_sector : List ℕ → Sector
  data_sector : List ℕ → Sector

pub record Disk : Type 0 where
  pub size : ℕ
  pub sectors : ℕ → Sector

-- check_sector panics past the end of the device. A number over 50000 is not read at all, and the
-- caller's buffer keeps what it held; here that is a fault too.
unfoldable pub block_read : Disk → ℕ → Option Sector
block_read disk sector =
    assert (leb sector 50000) >> assert (ltb sector disk.size) >> some (disk.sectors sector)

abbrev pub update : (ℕ → Sector) → ℕ → Sector → ℕ → Sector
update f k c j = if k == j then c else f j

unfoldable pub block_write : Disk → ℕ → Sector → Option Disk
block_write disk sector c =
    assert (ltb sector disk.size) >> some (record disk { sectors = update disk.sectors sector c })

abbrev pub as_inode : Sector → Option InodeDisk
as_inode (inode_sector d) = some d
as_inode (index_sector xs) = none
as_inode (data_sector bs) = none

abbrev pub as_index : Sector → Option (List ℕ)
as_index (inode_sector d) = none
as_index (index_sector xs) = some xs
as_index (data_sector bs) = none

abbrev pub as_data : Sector → Option (List ℕ)
as_data (inode_sector d) = none
as_data (index_sector xs) = none
as_data (data_sector bs) = some bs
