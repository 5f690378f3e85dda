-- ===== src/Inode/Layout.antt =====
-- The blocks of a file on the disk, and the bytes that they make up.
use class_assignments.Prelude.{
  ℕ, ◌+◌, ◌/◌, ◌%◌, ◌≤◌, ◌<◌, ◌≡◌, some, List, [], arith, ltb, if◌then◌else◌, ◌>>=◌, length, get_or,
  ap, take, drop, ◌∙◌, Bool-cases, inl, inr, lt→ltb, le→leb,
}
use class_assignments.Prelude.Slices.{slice, slice_congr, slice-get_or}
use class_assignments.Disk.{
  InodeDisk, Sector, inode_sector, index_sector, data_sector, Disk, block_read, block_write, update,
  as_data,
}
use class_assignments.Inode.{bytes_to_sectors, no_sector, block_sector, byte_to_sector}

abbrev pub data_of : Sector → List ℕ
data_of (inode_sector d) = []
data_of (index_sector xs) = []
data_of (data_sector bs) = bs

-- `s` is a sector of the device that holds a block of bytes.
pub record IsBlock (disk : Disk) (s : ℕ) : Type 0 where
  pub readable : s ≤ 50000
  pub in_disk : s < disk.size
  pub raw : disk.sectors s ≡ data_sector (data_of (disk.sectors s))
  pub full : length (data_of (disk.sectors s)) ≡ 512

pub IsBlock-of_same :
    {disk disk' : Disk} {s : ℕ}
    → IsBlock disk s
    → disk'.size ≡ disk.size
    → disk'.sectors s ≡ disk.sectors s
    → IsBlock disk' s
IsBlock-of_same b size same = record {
  readable = b.readable;
  in_disk = omega (arith, b.in_disk);
  raw = ground (arith, b.raw);
  full = ground (arith, b.full);
}

-- The blocks of the file are the sectors `sec 0`, `sec 1`, and so on, each block another one.
pub record IsFile (disk : Disk) (d : InodeDisk) (sec : ℕ → ℕ) : Type 0 where
  pub sizes : d.length ≤ d.new_length
  pub mapped : (k : ℕ) → k < bytes_to_sectors d.new_length → block_sector disk d k ≡ some (sec k)
  pub block : (k : ℕ) → k < bytes_to_sectors d.new_length → IsBlock disk (sec k)
  pub distinct :
      (j k : ℕ)
      → j < bytes_to_sectors d.new_length
      → k < bytes_to_sectors d.new_length
      → sec j ≡ sec k
      → j ≡ k

-- The byte of the file at `pos`.
unfoldable pub byte_at : Disk → (ℕ → ℕ) → ℕ → ℕ
byte_at disk sec pos = get_or (data_of (disk.sectors (sec (pos / 512)))) (pos % 512) 0

pub byte_at-same :
    (disk disk' : Disk) (sec : ℕ → ℕ) (pos : ℕ)
    → disk'.sectors (sec (pos / 512)) ≡ disk.sectors (sec (pos / 512))
    → byte_at disk' sec pos ≡ byte_at disk sec pos
unfolding byte_at
byte_at-same disk disk' sec pos e = rw e

module _ {disk : Disk} {s : ℕ} (h : IsBlock disk s) where
  pub block_read-data : (block_read disk s >>= as_data) ≡ some (data_of (disk.sectors s))
  unfolding block_read
  block_read-data = rw (le→leb s 50000 h.readable, lt→ltb s disk.size h.in_disk) (ap as_data h.raw)

  pub block_write-data :
      (bs : List ℕ)
      → block_write disk s (data_sector bs)
        ≡ some (record disk { sectors = update disk.sectors s (data_sector bs) })
  unfolding block_write
  block_write-data bs = rw (lt→ltb s disk.size h.in_disk)

module _ {disk : Disk} {d : InodeDisk} {sec : ℕ → ℕ} (v : IsFile disk d sec) (pos : ℕ) where
  -- byte_to_sector, on a file: the sector of the block that holds the byte, or -1 where `pos` is
  -- not below `new_length`.
  pub byte_to_sector_lem :
      byte_to_sector disk d pos ≡ some (if ltb pos d.new_length then sec (pos / 512) else no_sector)
  unfolding byte_to_sector
  byte_to_sector_lem = elim (Bool-cases (ltb pos d.new_length)) [
    | inl inside ↦
        let k : pos / 512 < bytes_to_sectors d.new_length = ground arith in
        rw (le→leb d.length d.new_length v.sizes, inside, v.mapped (pos / 512) k)
          (ground (arith, (v.block (pos / 512) k).readable))
    | inr past ↦ rw (le→leb d.length d.new_length v.sizes, past)
  ]

  pub byte-IsBlock : pos < d.new_length → IsBlock disk (sec (pos / 512))
  byte-IsBlock h = v.block (pos / 512) (omega arith)

  -- A part of one block is a part of the file.
  pub block-slice :
      (c : ℕ)
      → pos < d.new_length
      → pos % 512 + c ≤ 512
      → take c (drop (pos % 512) (data_of (disk.sectors (sec (pos / 512)))))
        ≡ slice (byte_at disk sec) pos c
  unfolding byte_at
  block-slice c h l =
      let b = byte-IsBlock h in
      slice-get_or (data_of (disk.sectors (sec (pos / 512)))) 0 (pos % 512) c
        (omega (arith, b.full))
      ∙ slice_congr _ (byte_at disk sec) (pos % 512) pos c (λ i p.
        let same : (pos + i) / 512 ≡ pos / 512 = omega arith in
        let place : (pos + i) % 512 ≡ pos % 512 + i = omega arith in rw (same, place))
