-- ===== src/FileSys/Unopened.antt =====
-- free_map_allocate while the free map's file is not open, as during the formatting of the device:
-- the map is in memory alone.
use class_assignments.Prelude.{ℕ, ◌≤◌, ◌<◌, ◌≡◌, refl, ap, Bool, false, none, some, arith, ◌==◌}
use class_assignments.Bitmap.{bitmap_error}
use class_assignments.Bitmap.Bits.{IsBitmap}
use class_assignments.FileSys.{FileSys, allocate_through}
use class_assignments.FileSys.Claims.{free_sectors, Claims, IsAllocator, claim_one}
use class_assignments.FileSys.Tied.{free_map_allocate}

pub record IsUnopened (fs : FileSys) : Type 0 where
  pub valid : IsBitmap fs.free_map
  pub readable : fs.free_map.bit_cnt ≤ 50001
  pub in_disk : fs.free_map.bit_cnt ≤ fs.disk.size
  pub unopened : fs.map_file ≡ none

abbrev pub no_own : ℕ → Bool
no_own t = false

IsUnopened-Claims :
    (mem : Bool) (fs : FileSys)
    → IsUnopened fs
    → 0 < free_sectors fs
    → (s : ℕ) × (fs' : FileSys) × (free_map_allocate mem 1 fs ≡ some (some s, fs'))
      × IsUnopened fs'
      × Claims no_own fs s fs'
unfolding free_map_allocate allocate_through
IsUnopened-Claims mem fs v room =
    let (s, b', run, ne, inside, clear, holds) = claim_one v.valid room in
    let found : (s == bitmap_error) ≡ false = ground arith in
    (
      s,
      record fs { free_map = b' },
      rw (run, found, v.unopened)
          (ap (λ m. some (some s, record { disk = fs.disk; free_map = b'; map_file = m }))
            v.unopened),
      record {
        valid = holds.valid;
        readable = omega (arith, v.readable, holds.same_size);
        in_disk = omega (arith, v.in_disk, holds.same_size);
        unopened = v.unopened;
      },
      record {
        was_free = clear;
        in_map = inside;
        marks = holds.reads;
        same_map = holds.same_size;
        same_size = refl;
        same_disk = λ t o. refl;
      },
    )

pub IsUnopened-IsAllocator : (mem : Bool) → IsAllocator (free_map_allocate mem) IsUnopened no_own
IsUnopened-IsAllocator mem = record {
  claims = IsUnopened-Claims mem;
  map_valid = λ fs v. v.valid;
  on_disk = λ fs v. (v.readable, v.in_disk);
  own_marked = λ fs v t o. absurd (ground (arith, o));
  frame = λ fs v disk size same. record {
    valid = v.valid;
    readable = v.readable;
    in_disk = omega (arith, v.in_disk);
    unopened = v.unopened;
  };
}
