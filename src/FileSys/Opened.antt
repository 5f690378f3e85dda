-- ===== src/FileSys/Opened.antt =====
-- The free map once its file is open: every claim writes the map to its file.
pub mod Allocator
use class_assignments.Prelude.{
  ℕ, zero, suc, ◌+◌, ◌-◌, ◌*◌, ◌/◌, ◌%◌, ◌^◌, ◌≤◌, ◌<◌, ◌≡◌, ◌≢◌, refl, sym, ◌∙◌, ap, Bool, true,
  false, not, Option, none, some, List, [], ◌∷◌, arith, ltb, leb, ◌==◌, ◌&&◌, if◌then◌else◌, ◌>>=◌,
  length, get_or, get_elem?, lt→ltb, Bool-cases, inl, inr,
}
use native.Mathlib.Nat.{zero-add}
use class_assignments.Bitmap.{Bitmap, byte_cnt, elem_cnt, bitmap_error, bitmap_scan_and_flip}
use class_assignments.Bitmap.Bits.{IsBitmap, Holds, bit}
use class_assignments.Disk.{InodeDisk, Disk}
use class_assignments.Inode.{bytes_to_sectors, block_sector, write_loop}
use class_assignments.Inode.Layout.{IsBlock, IsBlock-of_same, IsFile, byte_at, byte_at-same}
use class_assignments.Inode.Write.{Written}
use class_assignments.Inode.Write.Loop.{write_loop-Written}
use class_assignments.FileSys.{FileSys, Inode, Claim, elem_bytes, allocate_through, write_claim}
use class_assignments.FileSys.Blocks.{inode_write_at, write_blocks}
use class_assignments.FileSys.Claims.{free_sectors, Claims, IsAllocator, claim_one}
use class_assignments.FileSys.Tied.{no_claim, bitmap_write, free_map_allocate}

-- `t` is one of the first `n` sectors.
abbrev pub owned : (ℕ → ℕ) → ℕ → ℕ → Bool
owned sec zero t = false
owned sec (suc n) t = if sec n == t then true else owned sec n t

pub owned-found : (sec : ℕ → ℕ) (n t : ℕ) → owned sec n t ≡ true → (k : ℕ) × (k < n) × (sec k ≡ t)
owned-found sec zero t h = absurd (ground (arith, h))
owned-found sec (suc n) t h = elim (Bool-cases (sec n == t)) [
  | inl e ↦ (n, omega arith, ground arith)
  | inr e ↦ let (k, l, p) = owned-found sec n t (ground (arith, e, h)) in (k, omega arith, p)
]

pub owned-at : (sec : ℕ → ℕ) (n k : ℕ) → k < n → owned sec n (sec k) ≡ true
owned-at sec zero k h = absurd (omega arith)
owned-at sec (suc n) k h = elim (Bool-cases (n == k)) [
  | inl e ↦ ground (arith, e)
  | inr e ↦ ground (arith, owned-at sec n k, e)
]

pub length-elem_bytes : (ws : List ℕ) → length (elem_bytes ws) ≡ 4 * length ws
unfolding elem_bytes
length-elem_bytes [] = omega arith
length-elem_bytes (w ∷ ws) = omega (arith, length-elem_bytes ws)

-- The file of a map of `bit_cnt` bits: it has the size of the map, and direct blocks alone.
pub record IsMapFile (d : InodeDisk) (sec : ℕ → ℕ) (bit_cnt : ℕ) : Type 0 where
  pub sized : d.length ≡ byte_cnt bit_cnt
  pub closed : d.length ≡ d.new_length
  pub few : bytes_to_sectors d.length ≤ 115
  pub direct : (k : ℕ) → k < bytes_to_sectors d.length → get_elem? d.direct_block k ≡ some (sec k)
  pub distinct :
      (j k : ℕ)
      → j < bytes_to_sectors d.length
      → k < bytes_to_sectors d.length
      → sec j ≡ sec k
      → j ≡ k

-- The map's file is open, its sectors are marked, and it holds the map.
pub record IsOpened (d : InodeDisk) (sec : ℕ → ℕ) (fs : FileSys) : Type 0 where
  pub valid : IsBitmap fs.free_map
  pub readable : fs.free_map.bit_cnt ≤ 50001
  pub in_disk : fs.free_map.bit_cnt ≤ fs.disk.size
  pub opened : fs.map_file ≡ some d
  pub file : IsMapFile d sec fs.free_map.bit_cnt
  pub block : (k : ℕ) → k < bytes_to_sectors d.length → IsBlock fs.disk (sec k)
  pub marked : (k : ℕ) → k < bytes_to_sectors d.length → bit fs.free_map (sec k) ≡ true
  pub saved :
      (p : ℕ) → p < d.length → byte_at fs.disk sec p ≡ get_or (elem_bytes fs.free_map.bits) p 0

pub IsMapFile-IsFile :
    {d : InodeDisk} {sec : ℕ → ℕ} {n : ℕ} (disk : Disk)
    → IsMapFile d sec n
    → ((k : ℕ) → k < bytes_to_sectors d.length → IsBlock disk (sec k))
    → IsFile disk d sec
unfolding block_sector
IsMapFile-IsFile {d = d} disk f blocks =
    let same : bytes_to_sectors d.new_length ≡ bytes_to_sectors d.length =
      sym (ap bytes_to_sectors f.closed) in
    record {
      sizes = omega (arith, f.closed);
      mapped =
          λ k h. rw (lt→ltb k 115 (omega (arith, f.few, same))) (f.direct k (omega (arith, same)));
      block = λ k h. blocks k (omega (arith, same));
      distinct = λ j k h l e. f.distinct j k (omega (arith, same)) (omega (arith, same)) e;
    }

-- The write of the map, run where the call in it has run.
bitmap_write_run :
    (fs fs' : FileSys) (n : ℕ) (d d' : InodeDisk)
    → fs.map_file ≡ some d
    → inode_write_at no_claim true
        (record { deny_write_cnt = 0; inode_disk = d })
        (elem_bytes fs.free_map.bits)
        (byte_cnt fs.free_map.bit_cnt)
        0
        fs
      ≡ some (n, record { deny_write_cnt = 0; inode_disk = d' }, fs')
    → bitmap_write true fs
      ≡ some (n == byte_cnt fs.free_map.bit_cnt, record fs' { map_file = some d' })
unfolding bitmap_write
bitmap_write_run fs fs' n d d' opened run =
    let size = byte_cnt fs.free_map.bit_cnt in
    let write : InodeDisk → Option (ℕ × Inode × FileSys) = λ d.
      inode_write_at no_claim true (record { deny_write_cnt = 0; inode_disk = d })
        (elem_bytes fs.free_map.bits) size 0 fs in
    ap
      (λ (m : Option InodeDisk). elim m as (λ x. Option (Bool × FileSys)) [
        | none ↦ none
        | some e ↦ write e >>= λ (written, inode, fs').
            some (written == size, record fs' { map_file = some inode.inode_disk })
      ])
      opened
    ∙ ap
        (λ (r : Option (ℕ × Inode × FileSys)). r >>= λ (written, inode, fs').
          some (written == size, record fs' { map_file = some inode.inode_disk }))
        run

module _ {d : InodeDisk} {sec : ℕ → ℕ} (fs : FileSys) (opened : fs.map_file ≡ some d)
    (valid : IsBitmap fs.free_map) (file : IsMapFile d sec fs.free_map.bit_cnt)
    (blocks : (k : ℕ) → k < bytes_to_sectors d.length → IsBlock fs.disk (sec k)) where
  map_bytes : List ℕ
  map_bytes = elem_bytes fs.free_map.bits

  length-map_bytes : length map_bytes ≡ byte_cnt fs.free_map.bit_cnt
  unfolding map_bytes
  length-map_bytes = omega (arith, length-elem_bytes fs.free_map.bits, valid.stored)

  -- The write of the map needs no further sector.
  write_map :
      (disk : Disk) × (inode_write_at no_claim true
          (record { deny_write_cnt = 0; inode_disk = d })
          map_bytes
          (byte_cnt fs.free_map.bit_cnt)
          0
          fs
        ≡ some (
          byte_cnt fs.free_map.bit_cnt,
          record { deny_write_cnt = 0; inode_disk = d },
          record fs { disk = disk },
        ))
      × Written fs.disk d sec (byte_cnt fs.free_map.bit_cnt) 0 map_bytes disk
  unfolding inode_write_at write_blocks
  write_map =
      let size = byte_cnt fs.free_map.bit_cnt in
      let (disk, run, w) =
        write_loop-Written (suc size) size 0 0 map_bytes fs.disk
          (IsMapFile-IsFile fs.disk file blocks) (omega arith)
          (omega (arith, file.sized, file.closed)) length-map_bytes in
      let no_more : (bytes_to_sectors d.length == bytes_to_sectors (0 + size)) ≡ true =
        ground (arith, file.sized) in
      let within : ltb d.new_length (0 + size) ≡ false = ground (arith, file.sized, file.closed) in
      let same_length : ltb d.length (0 + size) ≡ false = ground (arith, file.sized) in
      (
        disk,
        rw (no_more, within, run, same_length)
            (ap
              (λ n.
                some (n, record { deny_write_cnt = 0; inode_disk = d }, record fs { disk = disk }))
              (zero-add size)),
        w,
      )

  pub bitmap_write-Written :
      (disk : Disk) × (bitmap_write true fs ≡ some (true, record fs { disk = disk }))
      × Written fs.disk d sec (byte_cnt fs.free_map.bit_cnt) 0 (elem_bytes fs.free_map.bits) disk
  unfolding map_bytes
  bitmap_write-Written =
      let size = byte_cnt fs.free_map.bit_cnt in
      let (disk, run, w) = write_map in
      let whole : (size == size) ≡ true = ground arith in
      (
        disk,
        bitmap_write_run fs (record fs { disk = disk }) size d d opened run
            ∙ ap
                (λ (c : Bool).
                  some (c, record { disk = disk; free_map = fs.free_map; map_file = some d }))
                whole
            ∙ ap (λ m. some (true, record { disk = disk; free_map = fs.free_map; map_file = m }))
                (sym opened),
        w,
      )

module _ {d : InodeDisk} {sec : ℕ → ℕ} where
  -- The map in memory has changed, and is written: the file is the new map.
  pub saved-IsOpened :
      (fs : FileSys) (b : Bitmap)
      → IsOpened d sec fs
      → IsBitmap b
      → b.bit_cnt ≡ fs.free_map.bit_cnt
      → ((k : ℕ) → k < bytes_to_sectors d.length → bit b (sec k) ≡ true)
      → (disk : Disk) × (bitmap_write true (record fs { free_map = b })
          ≡ some (true, record fs { disk = disk; free_map = b }))
        × IsOpened d sec (record fs { disk = disk; free_map = b })
        × (disk.size ≡ fs.disk.size)
        × ((t : ℕ)
            → owned sec (bytes_to_sectors d.length) t ≡ false
            → disk.sectors t ≡ fs.disk.sectors t)
  saved-IsOpened fs b v valid same marked =
      let file : IsMapFile d sec b.bit_cnt = rw same v.file in
      let (disk, run, w) =
        bitmap_write-Written (record fs { free_map = b }) v.opened valid file v.block in
      let sizes : d.length ≡ d.new_length = v.file.closed in
      let lengths : bytes_to_sectors d.new_length ≡ bytes_to_sectors d.length =
        sym (ap bytes_to_sectors sizes) in
      (
        disk,
        run,
        record {
          valid = valid;
          readable = omega (arith, v.readable, same);
          in_disk = omega (arith, v.in_disk, same, w.same_size);
          opened = v.opened;
          file = file;
          block = λ k h. w.file.block k (omega (arith, lengths));
          marked = marked;
          saved = λ p h.
              let inside : (leb 0 p && ltb p (0 + byte_cnt b.bit_cnt)) ≡ true =
                ground (arith, file.sized) in
              let at : p - 0 ≡ p = omega arith in
              w.bytes p (omega (arith, sizes)) ∙ rw (inside, at) refl;
        },
        w.same_size,
        λ t o. w.others t (λ k h e.
            ground
              (arith, owned-at sec (bytes_to_sectors d.length) k (omega (arith, lengths)), e, o)),
      )
