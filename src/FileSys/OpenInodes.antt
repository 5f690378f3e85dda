-- ===== src/FileSys/OpenInodes.antt =====
-- The list of open inodes of cs439/proj4/filesys/inode.c: opening, closing, removing, and the
-- denial of writes. A pointer to an inode is its address; a counter of `int` is a number.
pub mod Counted
pub mod Open
pub mod OpenClose
pub mod Deny
mod Tests
use class_assignments.Prelude.{
  ℕ, zero, suc, ◌+◌, ◌-◌, ◌*◌, ◌/◌, ◌%◌, ◌^◌, Bool, true, false, not, ◌&&◌, Option, none, some,
  List, [], ◌∷◌, ltb, leb, ◌==◌, if◌then◌else◌, ◌>>=◌, ◌>>◌, assert, get_elem?,
}
use class_assignments.Disk.{InodeDisk, inode_sector, as_inode, Disk, block_read, block_write}
use class_assignments.Inode.{bytes_to_sectors, inode_open_lv1, master_size, ind_block_size}
use class_assignments.FileSys.{FileSys}

-- `struct inode`
pub record OpenInode : Type 0 where
  pub address : ℕ
  pub sector : ℕ
  pub open_cnt : ℕ
  pub removed : Bool
  pub deny_write_cnt : ℕ
  pub inode_disk : InodeDisk

pub record Table : Type 0 where
  pub open_inodes : List OpenInode
  pub fs : FileSys

-- The search of inode_open.
abbrev pub find_sector : ℕ → List OpenInode → Option OpenInode
find_sector sector [] = none
find_sector sector (e ∷ es) = if e.sector == sector then some e else find_sector sector es

-- The inode that a pointer points to; a dangling pointer is a fault.
abbrev pub inode_at : ℕ → List OpenInode → Option OpenInode
inode_at a [] = none
inode_at a (e ∷ es) = if e.address == a then some e else inode_at a es

-- A store through a pointer.
abbrev pub put_inode : OpenInode → List OpenInode → List OpenInode
put_inode inode [] = []
put_inode inode (e ∷ es) = if e.address == inode.address then inode ∷ es else e ∷ put_inode inode es

-- `list_remove`
abbrev pub list_remove : ℕ → List OpenInode → List OpenInode
list_remove a [] = []
list_remove a (e ∷ es) = if e.address == a then es else e ∷ list_remove a es

abbrev pub store : OpenInode → Table → Table
store inode st = record st { open_inodes = put_inode inode st.open_inodes }

unfoldable pub inode_reopen : Option ℕ → Table → Option (Option ℕ × Table)
inode_reopen none st = some (none, st)
inode_reopen (some a) st = inode_at a st.open_inodes >>= λ inode.
    some (some a, store (record inode { open_cnt = inode.open_cnt + 1 }) st)

abbrev pub fresh_inode : (address sector : ℕ) → InodeDisk → OpenInode
fresh_inode address sector d = record {
  address = address;
  sector = sector;
  open_cnt = 1;
  removed = false;
  deny_write_cnt = 0;
  inode_disk = d;
}

-- inode_open after its search. `memory` is what `malloc` gives.
unfoldable pub open_found :
    Option OpenInode → (memory : Option ℕ) → (sector : ℕ) → Table → Option (Option ℕ × Table)
open_found (some inode) memory sector st = inode_reopen (some inode.address) st
open_found none none sector st = some (none, st)
open_found none (some a) sector st = block_read st.fs.disk sector >>= as_inode >>= λ d.
    some (some a, record st { open_inodes = fresh_inode a sector d ∷ st.open_inodes })

unfoldable pub inode_open : (memory : Option ℕ) → (sector : ℕ) → Table → Option (Option ℕ × Table)
inode_open memory sector st = open_found (find_sector sector st.open_inodes) memory sector st

unfoldable pub inode_get_inumber : ℕ → Table → Option ℕ
inode_get_inumber a st = inode_at a st.open_inodes >>= λ inode. some inode.sector

unfoldable pub inode_remove : ℕ → Table → Option Table
inode_remove a st =
    inode_at a st.open_inodes >>= λ inode. some (store (record inode { removed = true }) st)

unfoldable pub inode_deny_write : ℕ → Table → Option Table
inode_deny_write a st = inode_at a st.open_inodes >>= λ inode.
    assert (leb (inode.deny_write_cnt + 1) inode.open_cnt)
    >> some (store (record inode { deny_write_cnt = inode.deny_write_cnt + 1 }) st)

unfoldable pub inode_allow_write : ℕ → Table → Option Table
inode_allow_write a st = inode_at a st.open_inodes >>= λ inode.
    assert (ltb 0 inode.deny_write_cnt)
    >> assert (leb inode.deny_write_cnt inode.open_cnt)
    >> some (store (record inode { deny_write_cnt = inode.deny_write_cnt - 1 }) st)

-- `release` is free_map_release.
module _ (release : (sector cnt : ℕ) → FileSys → Option FileSys) where
  -- The loop over the blocks; `sectors` is their number.
  unfoldable pub release_loop :
      (left count sectors : ℕ) → InodeDisk → List (List ℕ) → FileSys → Option FileSys
  release_loop zero count sectors d indexes fs = some fs
  release_loop (suc left) count sectors d indexes fs =
      (if ltb count master_size
        then get_elem? d.direct_block count
        else get_elem? indexes (sectors / ind_block_size) >>= λ index.
            get_elem? index (sectors % ind_block_size))
      >>= λ s. release s 1 fs >>= λ fs'. release_loop left (count + 1) sectors d indexes fs'

  unfoldable pub release_each : List ℕ → FileSys → Option FileSys
  release_each [] fs = some fs
  release_each (s ∷ ss) fs = release s 1 fs >>= λ fs'. release_each ss fs'

  unfoldable pub read_indexes : List ℕ → Disk → Option (List (List ℕ))
  read_indexes [] disk = some []
  read_indexes (s ∷ ss) disk =
      inode_open_lv1 disk s >>= λ index. read_indexes ss disk >>= λ rest. some (index ∷ rest)

  unfoldable pub deallocate : OpenInode → FileSys → Option FileSys
  deallocate inode fs =
      let d = inode.inode_disk in
      let sectors = bytes_to_sectors d.length in
      read_indexes d.lv1_ind_block fs.disk >>= λ indexes.
      release_loop sectors 0 sectors d indexes fs >>= λ fs1.
      release_each d.lv1_ind_block fs1 >>= λ fs2. release inode.sector 1 fs2

  -- What follows the write of the inode. An open inode has an opener.
  unfoldable pub close_opener : OpenInode → Table → Option Table
  close_opener inode st =
      assert (ltb 0 inode.open_cnt)
      >> (if inode.open_cnt == 1
          then ((if inode.removed then deallocate inode st.fs else some st.fs) >>= λ fs.
              some (record { open_inodes = list_remove inode.address st.open_inodes; fs = fs }))
          else some (store (record inode { open_cnt = inode.open_cnt - 1 }) st))

  unfoldable pub inode_close : (intr_on : Bool) → Option ℕ → Table → Option Table
  inode_close intr_on none st = some st
  inode_close intr_on (some a) st = inode_at a st.open_inodes >>= λ inode.
      if intr_on && leb (2 ^ 31) inode.sector
      then some st
      else (if intr_on
          then block_write st.fs.disk inode.sector (inode_sector inode.inode_disk)
          else some st.fs.disk)
        >>= λ disk. close_opener inode (record st { fs = record st.fs { disk = disk } })
