-- ===== src/FileSys/Stored.antt =====
-- A file that is stored whole: its inode, its index blocks, its blocks of data.
use class_assignments.Prelude.{
  ℕ, ◌-◌, ◌/◌, ◌≤◌, ◌<◌, ◌≡◌, ◌≢◌, Bool, true, false, some, List, arith, ltb, Bool-cases, inl, inr,
  length,
}
use class_assignments.Bitmap.Bits.{bit}
use class_assignments.Disk.{InodeDisk, Sector, data_sector, inode_sector, index_sector, Disk}
use class_assignments.Inode.{bytes_to_sectors, block_sector}
use class_assignments.Inode.Layout.{IsBlock, IsBlock-of_same, IsFile}
use class_assignments.FileSys.{FileSys}
use class_assignments.FileSys.Blocks.{Blocks}
use class_assignments.FileSys.Place.{max_blocks, slot}
use class_assignments.FileSys.Fill.{IsFilled}
use class_assignments.FileSys.Indexes.{Loaded, NotIn, Loaded-at, NotIn-Loaded}

abbrev pub is_inode : Sector → Bool
is_inode (inode_sector d) = true
is_inode (index_sector xs) = false
is_inode (data_sector bs) = false

abbrev pub blocks_of : InodeDisk → List (List ℕ) → Blocks
blocks_of d xss = record { inode_disk = d; lv1_indirect = xss }

-- The sector of the inode is marked, and holds an inode.
pub record IsHeader (own : ℕ → Bool) (fs : FileSys) (s : ℕ) : Type 0 where
  pub marked : bit fs.free_map s ≡ true
  pub apart : own s ≡ false
  pub in_disk : s < fs.disk.size
  pub holds : is_inode (fs.disk.sectors s) ≡ true

-- The first `count` blocks of the file are the sectors of `sec`, and `xss` are its index blocks. The
-- inode is `d` in memory; on the disk it may be an earlier one.
pub record IsLaidOut (own : ℕ → Bool) (fs : FileSys) (d : InodeDisk) (xss : List (List ℕ))
    (count : ℕ) (sec : ℕ → ℕ) : Type 0 where
  pub fits : count ≤ max_blocks
  pub loaded : Loaded own fs d.lv1_ind_block xss
  pub filled : IsFilled own fs (blocks_of d xss) count sec
  pub header : IsHeader own fs d.inode_disk_number

-- The file is laid out, and its sector holds this inode.
pub record IsStored (own : ℕ → Bool) (fs : FileSys) (d : InodeDisk) (xss : List (List ℕ))
    (count : ℕ) (sec : ℕ → ℕ) : Type 0 where
  pub laid_out : IsLaidOut own fs d xss count sec
  pub on_disk : fs.disk.sectors d.inode_disk_number ≡ inode_sector d

-- The block map on the disk finds what the index blocks in memory say.
block_sector-slot :
    (own : ℕ → Bool) (fs : FileSys) (d : InodeDisk) (xss : List (List ℕ)) (k s : ℕ)
    → Loaded own fs d.lv1_ind_block xss
    → length xss ≡ 7
    → k < max_blocks
    → slot (blocks_of d xss) k ≡ some s
    → block_sector fs.disk d k ≡ some s
unfolding slot block_sector
block_sector-slot own fs d xss k s v size h e = elim (Bool-cases (ltb k 115)) [
  | inl direct ↦ ground (arith, e)
  | inr past ↦
      rw (past, Loaded-at own fs d.lv1_ind_block xss ((k - 115) / 128) v (ground arith))
        (rw past at e)
]

-- A file that is laid out is a file: its blocks are found through the block map.
pub IsLaidOut-IsFile :
    (own : ℕ → Bool) (fs : FileSys) (d : InodeDisk) (xss : List (List ℕ)) (count : ℕ) (sec : ℕ → ℕ)
    → IsLaidOut own fs d xss count sec
    → d.length ≤ d.new_length
    → bytes_to_sectors d.new_length ≤ count
    → IsFile fs.disk d sec
IsLaidOut-IsFile own fs d xss count sec v sizes enough = record {
  sizes = sizes;
  mapped = λ k h.
      block_sector-slot own fs d xss k (sec k) v.loaded v.filled.shaped.indirect
        (omega (arith, v.fits)) (v.filled.slots k (omega arith));
  block = λ k h. v.filled.block k (omega arith);
  distinct = λ j k h l e. v.filled.distinct j k (omega arith) (omega arith) e;
}

-- Blocks, index blocks and inodes are different sectors.
pub NotIn-IsBlock :
    (own : ℕ → Bool) (fs : FileSys) (t : ℕ) (ss : List ℕ) (xss : List (List ℕ))
    → Loaded own fs ss xss
    → IsBlock fs.disk t
    → NotIn t ss
NotIn-IsBlock own fs t ss xss v b = NotIn-Loaded own fs t ss xss (λ xs e. ground (arith, b.raw)) v

pub NotIn-is_inode :
    (own : ℕ → Bool) (fs : FileSys) (t : ℕ) (ss : List ℕ) (xss : List (List ℕ))
    → Loaded own fs ss xss
    → is_inode (fs.disk.sectors t) ≡ true
    → NotIn t ss
NotIn-is_inode own fs t ss xss v h = NotIn-Loaded own fs t ss xss (λ xs e. ground (arith, h)) v

pub inode-ne-IsBlock :
    (disk : Disk) (s t : ℕ) → is_inode (disk.sectors s) ≡ true → IsBlock disk t → s ≢ t
inode-ne-IsBlock disk s t h b e = ground (arith, b.raw, h)

-- The blocks stay filled while the disk changes elsewhere.
pub IsFilled-same :
    {own : ℕ → Bool} {fs : FileSys} {b : Blocks} {count : ℕ} {sec : ℕ → ℕ} (disk : Disk)
    → IsFilled own fs b count sec
    → disk.size ≡ fs.disk.size
    → ((k : ℕ) → k < count → disk.sectors (sec k) ≡ fs.disk.sectors (sec k))
    → IsFilled own (record fs { disk = disk }) b count sec
IsFilled-same disk v size same = record {
  shaped = v.shaped;
  slots = v.slots;
  block = λ k h. IsBlock-of_same (v.block k h) size (same k h);
  marked = v.marked;
  apart = v.apart;
  distinct = v.distinct;
}
