-- ===== src/FileSys/Release.antt =====
-- free_map_release, with the map's file open.
use class_assignments.Prelude.{
  ℕ, ◌+◌, ◌≤◌, ◌<◌, ◌≡◌, refl, ◌∙◌, ap, Bool, true, false, some, arith, if◌then◌else◌,
}
use class_assignments.Bitmap.{Bitmap, bitmap_all, bitmap_set_multiple}
use class_assignments.Bitmap.Bits.{bit}
use class_assignments.Bitmap.Ranges.{AllBits, within, bitmap_queries, bitmap_set_multiple-Holds}
use class_assignments.Disk.{InodeDisk}
use class_assignments.Inode.{bytes_to_sectors}
use class_assignments.FileSys.{FileSys, release_through}
use class_assignments.FileSys.Tied.{bitmap_write, free_map_release}
use class_assignments.FileSys.Opened.{IsOpened, owned, saved-IsOpened}

-- The bits of the sectors are clear, the others are as they were, and so is every sector of the
-- device but those of the map's file.
pub record Releases (own : ℕ → Bool) (sector cnt : ℕ) (fs fs' : FileSys) : Type 0 where
  pub bits :
      (j : ℕ) → bit fs'.free_map j ≡ (if within sector cnt j then false else bit fs.free_map j)
  pub same_map : fs'.free_map.bit_cnt ≡ fs.free_map.bit_cnt
  pub same_size : fs'.disk.size ≡ fs.disk.size
  pub same_disk : (t : ℕ) → own t ≡ false → fs'.disk.sectors t ≡ fs.disk.sectors t

free_map_release_run :
    (fs fs' : FileSys) (sector cnt : ℕ) (b : Bitmap)
    → bitmap_all fs.free_map sector cnt ≡ some true
    → bitmap_set_multiple fs.free_map sector cnt false ≡ some b
    → bitmap_write true (record fs { free_map = b }) ≡ some (true, fs')
    → free_map_release true sector cnt fs ≡ some fs'
unfolding free_map_release release_through
free_map_release_run fs fs' sector cnt b all clear write = rw (all, clear, write) refl

-- free_map_release, where `malloc` gives the bounce buffer, with the map's file open and holding
-- the map, on sectors inside the map that are all marked and do not belong to that file: it does
-- not panic, exactly these sectors are free then, the file holds the new map, and no sector
-- outside the map's file has changed.
pub free_map_release-Releases :
    {d : InodeDisk} {sec : ℕ → ℕ} (fs : FileSys) (sector cnt : ℕ)
    → IsOpened d sec fs
    → sector + cnt ≤ fs.free_map.bit_cnt
    → AllBits (bit fs.free_map) sector cnt true
    → ((k : ℕ) → k < bytes_to_sectors d.length → within sector cnt (sec k) ≡ false)
    → (fs' : FileSys) × (free_map_release true sector cnt fs ≡ some fs')
      × IsOpened d sec fs'
      × Releases (owned sec (bytes_to_sectors d.length)) sector cnt fs fs'
free_map_release-Releases {sec = sec} fs sector cnt v inside all apart =
    let (any, none_set, all_set, clear_iff, all_iff) = bitmap_queries v.valid sector cnt inside in
    let (b, run, holds) = bitmap_set_multiple-Holds v.valid sector cnt false inside in
    let (disk, write, v', size, others) =
      saved-IsOpened fs b v holds.valid holds.same_size
        (λ k h. ground (arith, holds.reads (sec k), apart k h, v.marked k h)) in
    (
      record fs { disk = disk; free_map = b },
      free_map_release_run fs (record fs { disk = disk; free_map = b }) sector cnt b
          (all_set ∙ ap some (all_iff.1 all)) run write,
      v',
      record {
        bits = holds.reads;
        same_map = holds.same_size;
        same_size = size;
        same_disk = others;
      },
    )
