-- ===== src/FileSys/Restored.antt =====
-- A stored file stays stored while its lengths, its inode and its blocks are written.
use native.Mathlib.Decide.{dec_lt}
use class_assignments.Prelude.{ℕ, ◌≤◌, ◌<◌, ◌≡◌, ◌≢◌, refl, sym, Bool, List, arith}
use class_assignments.Disk.{InodeDisk, inode_sector, index_sector, Disk}
use class_assignments.Inode.{bytes_to_sectors}
use class_assignments.Inode.Layout.{IsBlock, IsBlock-of_same}
use class_assignments.Inode.Write.{Written}
use class_assignments.FileSys.{FileSys}
use class_assignments.FileSys.Place.{slot}
use class_assignments.FileSys.Claims.{put_sector}
use class_assignments.FileSys.Indexes.{NotIn, Loaded-same, same_indexes-Loaded, same-NotIn}
use class_assignments.FileSys.Stored.{IsLaidOut, NotIn-is_inode, inode-ne-IsBlock, IsFilled-same}

abbrev pub with_lengths : InodeDisk → (length new_length : ℕ) → InodeDisk
with_lengths d n m = record d { length = n; new_length = m }

-- The lengths do not bear on where the blocks are.
pub IsLaidOut-lengths :
    {own : ℕ → Bool} {fs : FileSys} {d : InodeDisk} {xss : List (List ℕ)} {count : ℕ} {sec : ℕ → ℕ}
    (n m : ℕ)
    → IsLaidOut own fs d xss count sec
    → IsLaidOut own fs (with_lengths d n m) xss count sec
unfolding slot
IsLaidOut-lengths n m v = record {
  fits = v.fits;
  loaded = v.loaded;
  filled = record {
    shaped = record {
      direct = v.filled.shaped.direct;
      indirect = v.filled.shaped.indirect;
      index_sizes = v.filled.shaped.index_sizes;
    };
    slots = v.filled.slots;
    block = v.filled.block;
    marked = v.filled.marked;
    apart = v.filled.apart;
    distinct = v.filled.distinct;
  };
  header = v.header;
}

module _ {own : ℕ → Bool} {fs : FileSys} {d : InodeDisk} {xss : List (List ℕ)} {count : ℕ}
    {sec : ℕ → ℕ} (v : IsLaidOut own fs d xss count sec) where
  -- Other blocks may hold anything, if they hold a block of bytes.
  IsLaidOut-disk :
      (disk : Disk)
      → disk.size ≡ fs.disk.size
      → ((t : ℕ) → ((k : ℕ) → k < count → sec k ≢ t) → disk.sectors t ≡ fs.disk.sectors t)
      → ((k : ℕ) → k < count → IsBlock disk (sec k))
      → IsLaidOut own (record fs { disk = disk }) d xss count sec
  IsLaidOut-disk disk size same blocks =
      let not_sec : (t : ℕ) (xs : List ℕ)
          → fs.disk.sectors t ≡ index_sector xs
          → (k : ℕ) → k < count
          → sec k ≢ t =
        (λ t xs e k h q. ground (arith, (v.filled.block k h).raw)) in
      let header_same = same d.inode_disk_number (λ k h q.
        inode-ne-IsBlock fs.disk d.inode_disk_number (sec k) v.header.holds (v.filled.block k h)
          (sym q)) in
      record {
        fits = v.fits;
        loaded =
            Loaded-same own fs (record fs { disk = disk }) d.lv1_ind_block xss refl size (λ t m. m)
              (same_indexes-Loaded own fs (record fs { disk = disk }) d.lv1_ind_block xss
                (λ t xs e. same t (not_sec t xs e)) v.loaded)
              v.loaded;
        filled = record {
          shaped = v.filled.shaped;
          slots = v.filled.slots;
          block = blocks;
          marked = v.filled.marked;
          apart = v.filled.apart;
          distinct = v.filled.distinct;
        };
        header = record {
          marked = v.header.marked;
          apart = v.header.apart;
          in_disk = omega (arith, v.header.in_disk);
          holds = rw header_same v.header.holds;
        };
      }

  -- The inode is written over the old one.
  pub IsLaidOut-put :
      (e : InodeDisk)
      → IsLaidOut own (put_sector fs d.inode_disk_number (inode_sector e)) d xss count sec
  IsLaidOut-put e =
      let s = d.inode_disk_number in
      let clear : NotIn s d.lv1_ind_block =
        NotIn-is_inode own fs s d.lv1_ind_block xss v.loaded v.header.holds in
      record {
        fits = v.fits;
        loaded =
            Loaded-same own fs (put_sector fs s (inode_sector e)) d.lv1_ind_block xss refl refl
              (λ t m. m) (same-NotIn fs.disk.sectors s (inode_sector e) d.lv1_ind_block clear)
              v.loaded;
        filled = IsFilled-same (put_sector fs s (inode_sector e)).disk v.filled refl (λ k h.
            ground (arith, inode-ne-IsBlock fs.disk s (sec k) v.header.holds (v.filled.block k h)));
        header = record {
          marked = v.header.marked;
          apart = v.header.apart;
          in_disk = v.header.in_disk;
          holds = ground arith;
        };
      }

  -- The loop has written to the file.
  pub IsLaidOut-Written :
      (d2 : InodeDisk) (size offset : ℕ) (buffer : List ℕ) (disk : Disk)
      → bytes_to_sectors d2.new_length ≤ count
      → Written fs.disk d2 sec size offset buffer disk
      → IsLaidOut own (record fs { disk = disk }) d xss count sec
  IsLaidOut-Written d2 size offset buffer disk l w =
      IsLaidOut-disk disk w.same_size (λ t out. w.others t (λ k h. out k (omega arith)))
        (λ k h. elim (dec_lt k (bytes_to_sectors d2.new_length)) [
          | yes p ↦ w.file.block k p
          | no p ↦ IsBlock-of_same (v.filled.block k h) w.same_size (
              w.others (sec k)
                (λ j q e. absurd (omega (arith, v.filled.distinct j k (omega arith) h e))))
        ])
