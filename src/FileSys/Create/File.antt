-- ===== src/FileSys/Create/File.antt =====
-- inode_create and inode_create_dir: a new file of zeros.
use class_assignments.Prelude.{
  ℕ, ◌+◌, ◌≤◌, ◌<◌, ◌≡◌, ◌≢◌, Bool, true, false, Option, some, List, length, get_or, replicate,
}
use class_assignments.Bitmap.Bits.{bit}
use class_assignments.Disk.{InodeDisk, data_sector, inode_sector}
use class_assignments.FileSys.{FileSys, Claim, zeros}
use class_assignments.FileSys.Blocks.{Blocks}
use class_assignments.FileSys.Place.{max_blocks}
use class_assignments.FileSys.Claims.{free_sectors, put_sector, IsAllocator}
use class_assignments.FileSys.Fill.{IsFilled, Fills}
use class_assignments.FileSys.Stored.{IsStored}
use class_assignments.FileSys.Create.{Grows, IsIndexed}

-- The inode `d'` of a new file of `count` blocks is in the sector `s` of `fs'`. The blocks are at
-- `sec`.
pub record Creates (own : ℕ → Bool) (count s : ℕ) (d d' : InodeDisk) (sec : ℕ → ℕ)
    (fs fs' : FileSys) : Type 0 where
  pub rest :
      record d' { direct_block = d.direct_block; lv1_ind_block = d.lv1_ind_block }
      ≡ record d { inode_disk_number = s }
  pub on_disk : fs'.disk.sectors s ≡ inode_sector d'
  pub fresh : (k : ℕ) → k < count → bit fs.free_map (sec k) ≡ false
  pub fresh_indexes : (i : ℕ) → i < 7 → bit fs.free_map (get_or d'.lv1_ind_block i 0) ≡ false
  pub zeroed : (k : ℕ) → k < count → fs'.disk.sectors (sec k) ≡ data_sector zeros
  pub same :
      (t : ℕ)
      → own t ≡ false
      → bit fs.free_map t ≡ true
      → s ≢ t
      → fs'.disk.sectors t ≡ fs.disk.sectors t
  pub still : (t : ℕ) → bit fs.free_map t ≡ true → bit fs'.free_map t ≡ true
  pub used : free_sectors fs' + (count + 7) ≡ free_sectors fs

-- Blocks of zeros, to begin with.
abbrev start_blocks : InodeDisk → Blocks
start_blocks d = record { inode_disk = d; lv1_indirect = replicate 7 (replicate 128 0) }

module _ {allocate : (cnt : ℕ) → FileSys → Claim} {Good : FileSys → Type 0} {own : ℕ → Bool}
    (al : IsAllocator allocate Good own) where
  module _ (s count : ℕ) (d : InodeDisk) (fs : FileSys) (marked : bit fs.free_map s ≡ true)
      (apart : own s ≡ false) (in_disk : s < fs.disk.size) where
    Created : Option (Bool × FileSys) → Type 0
    Created r =
        (d' : InodeDisk) × (fs' : FileSys) × (xss : List (List ℕ)) × (sec : ℕ → ℕ) × (r
          ≡ some (true, fs'))
        × Good fs'
        × IsStored own fs' d' xss count sec
        × Creates own count s d d' sec fs fs'

    -- The blocks and the index blocks are in place; the inode is left to write.
    module _ {b : Blocks} {fs1 fs2 : FileSys} {sec : ℕ → ℕ} {ss : List ℕ}
        (f : Fills own count 0 (λ k. 0) sec (start_blocks d) b fs fs1)
        (v1 : IsFilled own fs1 b count sec) (g : Grows own 7 fs1 fs2) (fits : count ≤ max_blocks)
        (v2 : IsIndexed own fs fs2 s ss b.lv1_indirect 7) (seven : length ss ≡ 7) where
      d_new : InodeDisk
      d_new = record b.inode_disk { lv1_ind_block = ss; inode_disk_number = s }

      fs_new : FileSys
      fs_new = put_sector fs2 s (inode_sector d_new)
