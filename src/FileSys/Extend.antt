-- ===== src/FileSys/Extend.antt =====
-- inode_extend_file: a stored file gets further blocks, and is stored again.
use mathlib.Core.Path.{subst}
use class_assignments.Prelude.{
  ℕ, ◌+◌, ◌-◌, ◌≤◌, ◌<◌, ◌≡◌, ◌≢◌, refl, sym, ◌∙◌, ap, Bool, true, false, some, List, arith, ◌==◌,
  length,
}
use class_assignments.Bitmap.Bits.{bit}
use class_assignments.Disk.{InodeDisk, data_sector, inode_sector, Disk, block_write}
use class_assignments.Inode.{bytes_to_sectors}
use class_assignments.FileSys.{FileSys, Claim, zeros}
use class_assignments.FileSys.Blocks.{Blocks, inode_extend_file, write_indexes}
use class_assignments.FileSys.Place.{max_blocks}
use class_assignments.FileSys.Claims.{
  free_sectors, put_sector, block_write_lem, IsAllocator, put-Good,
}
use class_assignments.FileSys.Fill.{IsFilled, Fills, fill_loop-Fills}
use class_assignments.FileSys.Indexes.{
  Loaded, NotIn, open_indexes-Loaded, Loaded-same, same-Loaded, same-NotIn, write_indexes-Rewritten,
}
use class_assignments.FileSys.Stored.{
  IsLaidOut, IsStored, IsHeader, blocks_of, NotIn-IsBlock, NotIn-is_inode, inode-ne-IsBlock,
  IsFilled-same,
}

-- `left` blocks of zeros have been added to the file, behind its first `count` blocks, which keep
-- what they hold. No other marked sector has changed but those of the map's own file.
pub record Extends (own : ℕ → Bool) (left count : ℕ) (d d' : InodeDisk) (sec sec' : ℕ → ℕ)
    (fs fs' : FileSys) : Type 0 where
  pub rest : record d' { direct_block = d.direct_block } ≡ d
  pub old : (k : ℕ) → k < count → sec' k ≡ sec k
  pub kept : (k : ℕ) → k < count → fs'.disk.sectors (sec k) ≡ fs.disk.sectors (sec k)
  pub fresh : (k : ℕ) → count ≤ k → k < count + left → bit fs.free_map (sec' k) ≡ false
  pub zeroed :
      (k : ℕ) → count ≤ k → k < count + left → fs'.disk.sectors (sec' k) ≡ data_sector zeros
  pub same :
      (t : ℕ)
      → own t ≡ false
      → bit fs.free_map t ≡ true
      → NotIn t d.lv1_ind_block
      → d.inode_disk_number ≢ t
      → fs'.disk.sectors t ≡ fs.disk.sectors t
  pub still : (t : ℕ) → bit fs.free_map t ≡ true → bit fs'.free_map t ≡ true
  pub used : free_sectors fs' + left ≡ free_sectors fs

-- The index blocks and the inode are written back, over the old ones.
pub record Saves (own : ℕ → Bool) (fs fs' : FileSys) (b : Blocks) (count : ℕ) (sec : ℕ → ℕ)
    : Type 0 where
  pub stored : IsStored own fs' b.inode_disk b.lv1_indirect count sec
  pub same :
      (t : ℕ)
      → NotIn t b.inode_disk.lv1_ind_block
      → b.inode_disk.inode_disk_number ≢ t
      → fs'.disk.sectors t ≡ fs.disk.sectors t
  pub same_map : fs'.free_map ≡ fs.free_map
  pub same_size : fs'.disk.size ≡ fs.disk.size

Fills-IsHeader :
    {own : ℕ → Bool} {left count s : ℕ} {sec sec' : ℕ → ℕ} {b b' : Blocks} {fs fs' : FileSys}
    → Fills own left count sec sec' b b' fs fs'
    → IsHeader own fs s
    → IsHeader own fs' s
Fills-IsHeader {s = s} f h = record {
  marked = f.still s h.marked;
  apart = h.apart;
  in_disk = omega (arith, h.in_disk, f.same_size);
  holds = ground (arith, f.same s, h.marked, h.apart, h.holds);
}

module _ {allocate : (cnt : ℕ) → FileSys → Claim} {Good : FileSys → Type 0} {own : ℕ → Bool}
    (al : IsAllocator allocate Good own) where
  save-Saves :
      (fs : FileSys) (b : Blocks) (xss : List (List ℕ)) (count : ℕ) (sec : ℕ → ℕ)
      → Good fs
      → Loaded own fs b.inode_disk.lv1_ind_block xss
      → length xss ≡ 7
      → IsHeader own fs b.inode_disk.inode_disk_number
      → IsFilled own fs b count sec
      → count ≤ max_blocks
      → let s = b.inode_disk.inode_disk_number in
        (disk : Disk) × (fs' : FileSys) × (write_indexes b.inode_disk.lv1_ind_block b.lv1_indirect
            fs.disk
          ≡ some disk)
        × (block_write disk s (inode_sector b.inode_disk) ≡ some fs'.disk)
        × (fs' ≡ record fs { disk = fs'.disk })
        × Good fs'
        × Saves own fs fs' b count sec
  save-Saves fs b xss count sec good v size h filled fits =
      let s = b.inode_disk.inode_disk_number in
      let ss = b.inode_disk.lv1_ind_block in
      let (disk, run, good1, r) =
        write_indexes-Rewritten al ss xss b.lv1_indirect fs good v
          (omega (arith, filled.shaped.indirect)) in
      let fs1 : FileSys = record fs { disk = disk } in
      let fs2 = put_sector fs1 s (inode_sector b.inode_disk) in
      let clear : NotIn s ss = NotIn-is_inode own fs s ss xss v h.holds in
      let same : (t : ℕ) → NotIn t ss → s ≢ t → fs2.disk.sectors t ≡ fs.disk.sectors t =
        (λ t n ne. ground (arith, r.same t n)) in
      (
        disk,
        fs2,
        run,
        block_write_lem disk s (inode_sector b.inode_disk) (omega (arith, r.same_size, h.in_disk)),
        refl,
        put-Good al fs1 good1 s (inode_sector b.inode_disk) h.apart,
        record {
          stored = record {
            laid_out = record {
              fits = fits;
              loaded =
                  Loaded-same own fs1 fs2 ss b.lv1_indirect refl refl (λ t m. m)
                    (same-NotIn disk.sectors s (inode_sector b.inode_disk) ss clear) r.loaded;
              filled = IsFilled-same fs2.disk filled r.same_size (λ k l.
                  same (sec k) (NotIn-IsBlock own fs (sec k) ss xss v (filled.block k l))
                    (inode-ne-IsBlock fs.disk s (sec k) h.holds (filled.block k l)));
              header = record {
                marked = h.marked;
                apart = h.apart;
                in_disk = omega (arith, r.same_size, h.in_disk);
                holds = ground arith;
              };
            };
            on_disk = ground arith;
          };
          same = same;
          same_map = refl;
          same_size = r.same_size;
        },
      )

  module _ {fs fs1 fs2 : FileSys} {d : InodeDisk} {xss : List (List ℕ)} {count left : ℕ}
      {sec sec1 : ℕ → ℕ} {b : Blocks} (v : IsLaidOut own fs d xss count sec)
      (v1 : IsFilled own fs1 b (count + left) sec1)
      (f : Fills own left count sec sec1 (blocks_of d xss) b fs fs1)
      (loaded : Loaded own fs1 d.lv1_ind_block xss) (header : IsHeader own fs1 d.inode_disk_number)
      (sv : Saves own fs1 fs2 b (count + left) sec1) where
    -- Writing back changes the index blocks and the inode alone.
    saved_same :
        (t : ℕ)
        → NotIn t d.lv1_ind_block
        → d.inode_disk_number ≢ t
        → fs2.disk.sectors t ≡ fs1.disk.sectors t
    saved_same t n other =
        sv.same t (subst (NotIn t) (sym (ap (λ (e : InodeDisk). e.lv1_ind_block) f.rest)) n)
          (subst (λ s. s ≢ t) (sym (ap (λ (e : InodeDisk). e.inode_disk_number) f.rest)) other)

    saved_block : (k : ℕ) → k < count + left → fs2.disk.sectors (sec1 k) ≡ fs1.disk.sectors (sec1 k)
    saved_block k l =
        saved_same (sec1 k)
          (NotIn-IsBlock own fs1 (sec1 k) d.lv1_ind_block xss loaded (v1.block k l))
          (inode-ne-IsBlock fs1.disk d.inode_disk_number (sec1 k) header.holds (v1.block k l))

    Saves-Extends : Extends own left count d b.inode_disk sec sec1 fs fs2
    Saves-Extends = record {
      rest = f.rest;
      old = f.old;
      kept = λ k l.
          subst (λ s. fs2.disk.sectors s ≡ fs1.disk.sectors s) (f.old k l)
            (saved_block k (omega arith))
          ∙ f.same (sec k) (v.filled.apart k l) (v.filled.marked k l);
      fresh = f.fresh;
      zeroed = λ k l h. saved_block k h ∙ f.zeroed k l h;
      same = λ t o m n other. saved_same t n other ∙ f.same t o m;
      still = λ t m. rw sv.same_map (f.still t m);
      used = rw sv.same_map f.used;
    }

  -- inode_extend_file, on a stored file, its inode on the disk as in memory, where `num_sectors`
  -- is not the number of its blocks, enough sectors are free and the file does not grow too
  -- large: it gets blocks of zeros up to `num_sectors`, if it has fewer, and is stored with
  -- them, the new inode on the disk. Its blocks keep what they hold, no new block is one that
  -- was in use, and no other marked sector has changed but those of the map's own file.
  pub inode_extend_file-Extends :
      (fs : FileSys) (d : InodeDisk) (xss : List (List ℕ)) (sec : ℕ → ℕ) (num_sectors : ℕ)
      → Good fs
      → IsStored own fs d xss (bytes_to_sectors d.length) sec
      → num_sectors ≢ bytes_to_sectors d.length
      → num_sectors ≤ max_blocks
      → num_sectors - bytes_to_sectors d.length ≤ free_sectors fs
      → let count = bytes_to_sectors d.length in
        let left = num_sectors - count in
        (d' : InodeDisk) × (fs' : FileSys) × (xss' : List (List ℕ)) × (sec' : ℕ → ℕ)
        × (inode_extend_file allocate d num_sectors fs ≡ some (d', fs'))
        × Good fs'
        × IsStored own fs' d' xss' (count + left) sec'
        × Extends own left count d d' sec sec' fs fs'
  unfolding inode_extend_file
  inode_extend_file-Extends fs d xss sec num_sectors good v ne fits room =
      let count = bytes_to_sectors d.length in
      let left = num_sectors - count in
      let more : (num_sectors == count) ≡ false = ground arith in
      let (r, b, fs1, sec1, filling, good1, v1, f) =
        fill_loop-Fills al left count 2 (blocks_of d xss) fs sec good v.laid_out.filled room
          (omega (arith, v.laid_out.fits)) in
      let lists : d.lv1_ind_block ≡ b.inode_disk.lv1_ind_block =
        sym (ap (λ (e : InodeDisk). e.lv1_ind_block) f.rest) in
      let number : d.inode_disk_number ≡ b.inode_disk.inode_disk_number =
        sym (ap (λ (e : InodeDisk). e.inode_disk_number) f.rest) in
      let loaded =
        Loaded-same own fs fs1 d.lv1_ind_block xss f.same_map f.same_size f.still
          (same-Loaded own fs fs1 d.lv1_ind_block xss f.same v.laid_out.loaded) v.laid_out.loaded in
      let header : IsHeader own fs1 d.inode_disk_number = Fills-IsHeader f v.laid_out.header in
      let (disk, fs2, writing, saving, e, good2, sv) =
        save-Saves fs1 b xss (count + left) sec1 good1
          (subst (λ ss. Loaded own fs1 ss xss) lists loaded) v.laid_out.filled.shaped.indirect
          (subst (λ s. IsHeader own fs1 s) number header) v1 (omega (arith, v.laid_out.fits)) in
      (
        b.inode_disk,
        fs2,
        b.lv1_indirect,
        sec1,
        rw
            (
              more,
              open_indexes-Loaded own fs d.lv1_ind_block xss (al.map_valid fs good)
                  v.laid_out.loaded,
              filling,
              writing,
              saving,
            )
            (ap (λ x. some (b.inode_disk, x)) (sym e)),
        good2,
        sv.stored,
        Saves-Extends v.laid_out v1 f loaded header sv,
      )
