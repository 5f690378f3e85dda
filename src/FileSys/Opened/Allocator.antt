-- ===== src/FileSys/Opened/Allocator.antt =====
-- free_map_allocate once the map's file is open, as an implementation of the allocator interface.
use class_assignments.Prelude.{
  ℕ, ◌/◌, ◌<◌, ◌≡◌, refl, ◌∙◌, ap, true, false, Option, none, some, arith, ◌==◌,
}
use class_assignments.Bitmap.{Bitmap, bitmap_error, bitmap_scan_and_flip}
use class_assignments.Disk.{InodeDisk}
use class_assignments.Inode.{bytes_to_sectors}
use class_assignments.Inode.Layout.{IsBlock-of_same, byte_at-same}
use class_assignments.FileSys.{FileSys, Claim, allocate_through, write_claim}
use class_assignments.FileSys.Claims.{free_sectors, Claims, IsAllocator, claim_one}
use class_assignments.FileSys.Tied.{bitmap_write, free_map_allocate}
use class_assignments.FileSys.Opened.{owned, owned-found, owned-at, IsOpened, saved-IsOpened}

-- The call, run where the calls in it have run.
free_map_allocate_run :
    (fs fs' : FileSys) (s : ℕ) (b : Bitmap) (d : InodeDisk)
    → bitmap_scan_and_flip fs.free_map 0 1 false ≡ some (s, b)
    → (s == bitmap_error) ≡ false
    → fs.map_file ≡ some d
    → bitmap_write true (record fs { free_map = b }) ≡ some (true, fs')
    → free_map_allocate true 1 fs ≡ some (some s, fs')
unfolding free_map_allocate allocate_through write_claim
free_map_allocate_run fs fs' s b d run found opened write =
    rw (run, found)
      (ap
          (λ (m : Option InodeDisk). elim m as (λ x. Claim) [
            | none ↦ some (some s, record fs { free_map = b })
            | some e ↦ write_claim (bitmap_write true) 1 s (record fs { free_map = b })
          ])
          opened
        ∙ rw write refl)

module _ {d : InodeDisk} {sec : ℕ → ℕ} where
  -- free_map_allocate of one sector, where `malloc` gives the bounce buffer, with the map's file
  -- open and holding the map, and a sector free: it claims a sector that was free and that is
  -- now marked, every other bit is as it was, the map's file holds the new map, and no sector
  -- outside the map's file has changed on the device.
  pub IsOpened-Claims :
      (fs : FileSys)
      → IsOpened d sec fs
      → 0 < free_sectors fs
      → (s : ℕ) × (fs' : FileSys) × (free_map_allocate true 1 fs ≡ some (some s, fs'))
        × IsOpened d sec fs'
        × Claims (owned sec (bytes_to_sectors d.length)) fs s fs'
  IsOpened-Claims fs v room =
      let (s, b, run, ne, inside, clear, holds) = claim_one v.valid room in
      let found : (s == bitmap_error) ≡ false = ground arith in
      let (disk, write, v', size, others) =
        saved-IsOpened fs b v holds.valid holds.same_size
          (λ k h. ground (arith, holds.reads (sec k), v.marked k h)) in
      (
        s,
        record fs { disk = disk; free_map = b },
        free_map_allocate_run fs (record fs { disk = disk; free_map = b }) s b d run found v.opened
            write,
        v',
        record {
          was_free = clear;
          in_map = inside;
          marks = holds.reads;
          same_map = holds.same_size;
          same_size = size;
          same_disk = others;
        },
      )

  pub IsOpened-IsAllocator :
      IsAllocator (free_map_allocate true) (IsOpened d sec) (owned sec (bytes_to_sectors d.length))
  IsOpened-IsAllocator = record {
    claims = IsOpened-Claims;
    map_valid = λ fs v. v.valid;
    on_disk = λ fs v. (v.readable, v.in_disk);
    own_marked = λ fs v t o.
        let (k, h, e) = owned-found sec (bytes_to_sectors d.length) t o in rw (← e) (v.marked k h);
    frame = λ fs v disk size same.
        let own : (k : ℕ)
            → k < bytes_to_sectors d.length
            → disk.sectors (sec k) ≡ fs.disk.sectors (sec k) =
          λ k h. same (sec k) (owned-at sec (bytes_to_sectors d.length) k h) in
        record {
          valid = v.valid;
          readable = v.readable;
          in_disk = omega (arith, v.in_disk);
          opened = v.opened;
          file = v.file;
          block = λ k h. IsBlock-of_same (v.block k h) size (own k h);
          marked = v.marked;
          saved =
              λ p h. byte_at-same fs.disk disk sec p (own (p / 512) (omega arith)) ∙ v.saved p h;
        };
  }
