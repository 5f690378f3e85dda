-- ===== src/FileSys/OpenInodes/Tests.antt =====
-- A table with one open inode, which has two openers: the theorems on opening and closing at it.
use class_assignments.Prelude.{
  ℕ, ◌+◌, ◌≡◌, refl, true, false, none, some, [], ◌∷◌, arith, ◌==◌, if◌then◌else◌, replicate,
}
use class_assignments.Disk.{InodeDisk, inode_sector}
use class_assignments.FileSys.Tied.{free_map_release}
use class_assignments.FileSys.OpenInodes.{
  OpenInode, Table, find_sector, inode_open, inode_get_inumber, inode_close,
}
use class_assignments.FileSys.OpenInodes.{inode_at, inode_deny_write, inode_allow_write}
use class_assignments.FileSys.OpenInodes.Deny.{inode_allow_write-inode_deny_write}
use class_assignments.FileSys.OpenInodes.Counted.{openers, IsCounted}
use class_assignments.FileSys.OpenInodes.Open.{Opens, IsOpened, inode_open-Opens}
use class_assignments.FileSys.OpenInodes.OpenClose.{
  Closes, inode_close-Closes, inode_close-inode_open,
}

abbrev some_inode : InodeDisk
some_inode = record {
  length = 0;
  new_length = 0;
  inode_disk_number = 3;
  lv1_ind_block = replicate 7 0;
  direct_block = replicate 115 0;
  is_dir = false;
  dir_pos = 40;
  magic = 0x494e4f44;
}

abbrev opened_twice : OpenInode
opened_twice = record {
  address = 4096;
  sector = 3;
  open_cnt = 2;
  removed = true;
  deny_write_cnt = 0;
  inode_disk = some_inode;
}

abbrev small_table : Table
small_table = record {
  open_inodes = opened_twice ∷ [];
  fs = record {
    disk = record { size = 8; sectors = λ s. inode_sector some_inode };
    free_map = record { bit_cnt = 8; bits = 255 ∷ [] };
    map_file = none;
  };
}

small_table-IsCounted : IsCounted small_table.open_inodes
unfolding IsCounted
small_table-IsCounted = (omega arith, tt, tt, tt)

inode_open-Opens_example :
    (p : ℕ) × (i : OpenInode) × (st' : Table) × (inode_open (some 8192) 3 small_table
      ≡ some (some p, st'))
    × Opens 3 p i small_table st'
    × IsOpened (find_sector 3 small_table.open_inodes) 8192 3 some_inode i
    × (i.open_cnt ≡ 1 → i.removed ≡ false)
inode_open-Opens_example =
    inode_open-Opens small_table 8192 3 some_inode small_table-IsCounted (omega arith) (omega arith)
      (omega arith) refl

inode_close-Closes_example :
    (st' : Table) × (inode_close (free_map_release true) true (some 4096) small_table ≡ some st')
    × Closes true opened_twice small_table st'
inode_close-Closes_example =
    inode_close-Closes (free_map_release true) true small_table 4096 opened_twice
      small_table-IsCounted refl (λ e. absurd (omega (arith, e))) (omega arith) (omega arith)

inode_close-inode_open_example :
    (p : ℕ) × (st1 st2 : Table) × (inode_open (some 8192) 5 small_table ≡ some (some p, st1))
    × (inode_get_inumber p st1 ≡ some 5)
    × (inode_close (free_map_release true) true (some p) st1 ≡ some st2)
    × IsCounted st2.open_inodes
    × ((t : ℕ)
        → openers t st1.open_inodes ≡ (
            if 5 == t
            then openers t small_table.open_inodes + 1
            else openers t small_table.open_inodes))
    × ((t : ℕ) → openers t st2.open_inodes ≡ openers t small_table.open_inodes)
inode_close-inode_open_example =
    inode_close-inode_open (free_map_release true) true small_table 8192 5 some_inode
      small_table-IsCounted (omega arith) (omega arith) (omega arith) refl

inode_allow_write-inode_deny_write_example :
    (st' : Table) × (inode_deny_write 4096 small_table ≡ some st')
    × (inode_at 4096 st'.open_inodes ≡ some (record opened_twice { deny_write_cnt = 1 }))
    × (inode_allow_write 4096 st' ≡ some small_table)
inode_allow_write-inode_deny_write_example =
    inode_allow_write-inode_deny_write small_table 4096 opened_twice small_table-IsCounted refl
      (omega arith)
