-- ===== src/FileSys/Claims.antt =====
-- What the allocating code relies on from free_map_allocate, as an interface, and the free map
-- before its file is open as an implementation.
use class_assignments.Prelude.{
  ℕ, zero, suc, ◌+◌, ◌≤◌, ◌<◌, ◌≡◌, ◌≢◌, refl, Bool, true, false, some, arith, ◌==◌, if◌then◌else◌,
  length, lt→ltb, Bool-cases, inl, inr,
}
use class_assignments.Bitmap.{Bitmap, bitmap_error, bitmap_scan_and_flip}
use class_assignments.Bitmap.Bits.{IsBitmap, Holds, bit}
use class_assignments.Bitmap.Ranges.{count_bits, within}
use class_assignments.Bitmap.Scan.{Claimed, claimed, refused, bitmap_scan_and_flip-Claimed}
use class_assignments.Disk.{Sector, Disk, update, block_write}
use class_assignments.FileSys.{FileSys, Claim, zeros}

-- How many sectors are free.
abbrev pub free_sectors : FileSys → ℕ
free_sectors fs = count_bits (bit fs.free_map) 0 fs.free_map.bit_cnt false

abbrev pub put_sector : FileSys → ℕ → Sector → FileSys
put_sector fs s c = record fs { disk = record fs.disk { sectors = update fs.disk.sectors s c } }

pub block_write_lem :
    (disk : Disk) (s : ℕ) (c : Sector)
    → s < disk.size
    → block_write disk s c ≡ some (record disk { sectors = update disk.sectors s c })
unfolding block_write
block_write_lem disk s c h = rw (lt→ltb s disk.size h)

pub length-zeros : length zeros ≡ 512
unfolding zeros
length-zeros = refl

-- `fs'` is `fs` with the free sector `s` marked. On the disk, no sector has changed but those that
-- belong to the file of the map (`own`).
pub record Claims (own : ℕ → Bool) (fs : FileSys) (s : ℕ) (fs' : FileSys) : Type 0 where
  pub was_free : bit fs.free_map s ≡ false
  pub in_map : s < fs.free_map.bit_cnt
  pub marks : (j : ℕ) → bit fs'.free_map j ≡ (if s == j then true else bit fs.free_map j)
  pub same_map : fs'.free_map.bit_cnt ≡ fs.free_map.bit_cnt
  pub same_size : fs'.disk.size ≡ fs.disk.size
  pub same_disk : (t : ℕ) → own t ≡ false → fs'.disk.sectors t ≡ fs.disk.sectors t

pub record IsAllocator (allocate : (cnt : ℕ) → FileSys → Claim) (Good : FileSys → Type 0)
    (own : ℕ → Bool) : Type 0 where
  pub claims :
      (fs : FileSys)
      → Good fs
      → 0 < free_sectors fs
      → (s : ℕ) × (fs' : FileSys) × (allocate 1 fs ≡ some (some s, fs'))
        × Good fs'
        × Claims own fs s fs'
  pub map_valid : (fs : FileSys) → Good fs → IsBitmap fs.free_map
  pub on_disk :
      (fs : FileSys)
      → Good fs
      → (fs.free_map.bit_cnt ≤ 50001) × (fs.free_map.bit_cnt ≤ fs.disk.size)
  pub own_marked : (fs : FileSys) → Good fs → (t : ℕ) → own t ≡ true → bit fs.free_map t ≡ true
  pub frame :
      (fs : FileSys)
      → Good fs
      → (disk : Disk) → disk.size ≡ fs.disk.size
      → ((t : ℕ) → own t ≡ true → disk.sectors t ≡ fs.disk.sectors t)
      → Good (record fs { disk = disk })

-- A write to a sector that does not belong to the map's file.
pub put-Good :
    {allocate : (cnt : ℕ) → FileSys → Claim} {Good : FileSys → Type 0} {own : ℕ → Bool}
    → IsAllocator allocate Good own
    → (fs : FileSys) → Good fs
    → (s : ℕ) (c : Sector) → own s ≡ false
    → Good (put_sector fs s c)
put-Good al fs good s c apart = al.frame fs good _ refl (λ t o. ground arith)

-- Marking a clear bit of the range takes one from its clear bits.
pub count_bits-mark :
    (f g : ℕ → Bool) (s start cnt : ℕ)
    → f s ≡ false
    → ((j : ℕ) → g j ≡ (if s == j then true else f j))
    → count_bits g start cnt false + (if within start cnt s then 1 else 0)
      ≡ count_bits f start cnt false
unfolding count_bits
count_bits-mark f g s start zero clear marks = ground arith
count_bits-mark f g s start (suc cnt) clear marks =
    ground (arith, marks start, count_bits-mark f g s (start + 1) cnt clear marks)

-- Where the count is not 0, there is a clear bit.
pub clear_bit :
    (f : ℕ → Bool) (start cnt : ℕ)
    → 0 < count_bits f start cnt false
    → (j : ℕ) × (start ≤ j) × (j < start + cnt) × (f j ≡ false)
unfolding count_bits
clear_bit f start zero h = absurd (omega arith)
clear_bit f start (suc cnt) h = elim (Bool-cases (f start)) [
  | inr clear ↦ (start, omega arith, omega arith, clear)
  | inl taken ↦
      let (j, lo, hi, clear) = clear_bit f (start + 1) cnt (ground arith) in
      (j, omega arith, omega arith, clear)
]

-- One free sector is claimed where there is one.
pub claim_one :
    {b : Bitmap}
    → IsBitmap b
    → 0 < count_bits (bit b) 0 b.bit_cnt false
    → (s : ℕ) × (b' : Bitmap) × (bitmap_scan_and_flip b 0 1 false ≡ some (s, b'))
      × (s ≢ bitmap_error)
      × (s < b.bit_cnt)
      × (bit b s ≡ false)
      × Holds b (λ j. if s == j then true else bit b j) b'
claim_one {b} v h =
    let (s, b', run, c) = bitmap_scan_and_flip-Claimed v 0 1 false (omega arith) in
    let (ne, inside, clear, holds) = of_Claimed s b' c in (s, b', run, ne, inside, clear, holds)
  where
    of_Claimed :
        (s : ℕ) (b' : Bitmap)
        → Claimed b 0 1 false s b'
        → (s ≢ bitmap_error)
          × (s < b.bit_cnt)
          × (bit b s ≡ false)
          × Holds b (λ j. if s == j then true else bit b j) b'
    of_Claimed s b' (claimed ne t u) = (
      ne,
      omega (arith, t.inside),
      t.group s (omega arith) (omega arith),
      record { valid = u.valid; same_size = u.same_size; reads = λ j. ground (arith, u.reads j) },
    )
    of_Claimed s b' (refused e missing same) =
        let (j, lo, hi, clear) = clear_bit (bit b) 0 b.bit_cnt h in
        absurd (
          missing j (omega arith) (omega arith)
            (λ i p q. let e : j ≡ i = omega arith in rw (← e) clear))
