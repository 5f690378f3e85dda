-- ===== src/FileSys/WriteAt.antt =====
-- The part of inode_write_at that follows the extension, on a stored file.
use native.Mathlib.Nat.{zero-add}
use class_assignments.Prelude.{
  ℕ, suc, ◌+◌, ◌-◌, ◌/◌, ◌≤◌, ◌<◌, max, ◌≡◌, ◌≢◌, refl, sym, ◌∙◌, ap, Bool, true, false, ◌&&◌,
  Option, some, List, arith, ltb, leb, if◌then◌else◌, lt→ltb, ltb→lt, Bool-cases, inl, inr, length,
  get_or,
}
use class_assignments.Disk.{InodeDisk, inode_sector, Disk}
use class_assignments.Inode.{bytes_to_sectors}
use class_assignments.Inode.Layout.{byte_at, byte_at-same}
use class_assignments.Inode.Write.{Written}
use class_assignments.Inode.Write.Loop.{write_loop-Written}
use class_assignments.FileSys.{FileSys, Inode, Claim}
use class_assignments.FileSys.Blocks.{write_blocks}
use class_assignments.FileSys.Claims.{put_sector, block_write_lem, IsAllocator, put-Good}
use class_assignments.FileSys.Stored.{IsStored, inode-ne-IsBlock, IsLaidOut-IsFile}
use class_assignments.FileSys.Restored.{
  with_lengths, IsLaidOut-lengths, IsLaidOut-put, IsLaidOut-Written,
}

-- The file after a write of `size` bytes of `buffer` from `offset` on, with its blocks in place.
pub record WritesAt (own : ℕ → Bool) (fs : FileSys) (d : InodeDisk) (xss : List (List ℕ))
    (count : ℕ) (sec : ℕ → ℕ) (size offset : ℕ) (buffer : List ℕ) (d' : InodeDisk) (fs' : FileSys)
    : Type 0 where
  pub stored : IsStored own fs' d' xss count sec
  pub longer : d'.length ≡ max d.length (offset + size)
  pub lengths : d'.length ≡ d'.new_length
  pub rest : record d' { length = d.length; new_length = d.new_length } ≡ d
  pub bytes :
      (p : ℕ)
      → p < d'.length
      → byte_at fs'.disk sec p ≡ (
          if leb offset p && ltb p (offset + size)
          then get_or buffer (p - offset) 0
          else byte_at fs.disk sec p)
  pub others :
      (t : ℕ)
      → ((k : ℕ) → k < count → sec k ≢ t)
      → d.inode_disk_number ≢ t
      → fs'.disk.sectors t ≡ fs.disk.sectors t
  pub same_map : fs'.free_map ≡ fs.free_map

module _ {allocate : (cnt : ℕ) → FileSys → Claim} {Good : FileSys → Type 0} {own : ℕ → Bool}
    (al : IsAllocator allocate Good own) where
  module _ (inode : Inode) (fs : FileSys) (d : InodeDisk) (xss : List (List ℕ)) (count : ℕ)
      (sec : ℕ → ℕ) (size offset : ℕ) (buffer : List ℕ) (good : Good fs)
      (v : IsStored own fs d xss count sec) (closed : d.length ≡ d.new_length)
      (enough : bytes_to_sectors (offset + size) ≤ count) (have : bytes_to_sectors d.length ≤ count)
      (given : length buffer ≡ size) where
    abbrev Wrote : Option (ℕ × Inode × FileSys) → Type 0
    Wrote r =
        (d' : InodeDisk) × (fs' : FileSys) × (r
          ≡ some (size, record inode { inode_disk = d' }, fs'))
        × Good fs'
        × WritesAt own fs d xss count sec size offset buffer d' fs'

    after_loop :
        (disk : Disk) (d2 : InodeDisk)
        → bytes_to_sectors d2.new_length ≤ count
        → Written fs.disk d2 sec size offset buffer disk
        → Good (record fs { disk = disk })
    after_loop disk d2 l w =
        al.frame fs good disk w.same_size
          (λ t o. w.others t (λ k h e. ground (arith, v.laid_out.filled.apart k, e, o)))

    write_grown :
        ltb d.new_length (offset + size) ≡ true
        → Wrote (write_blocks true inode d buffer size offset fs)
    unfolding write_blocks
    write_grown longer =
        let new = offset + size in
        let d2 = with_lengths d d.length new in
        let d3 = with_lengths d new new in
        let past : d.new_length < new = ltb→lt d.new_length new longer in
        let file =
          IsLaidOut-IsFile own fs d2 xss count sec (IsLaidOut-lengths d.length new v.laid_out)
            (omega arith) enough in
        let (disk, run, w) =
          write_loop-Written (suc size) size offset 0 buffer fs.disk file (omega arith)
            (omega arith) given in
        let s = d.inode_disk_number in
        let fs1 : FileSys = record fs { disk = disk } in
        let fs2 = put_sector fs1 s (inode_sector d3) in
        let v1 = IsLaidOut-Written v.laid_out d2 size offset buffer disk enough w in
        let put_block : (p : ℕ)
            → p < new
            → fs2.disk.sectors (sec (p / 512)) ≡ disk.sectors (sec (p / 512)) =
          (λ p h.
            let k : p / 512 < count = omega arith in
            ground (
              arith,
              inode-ne-IsBlock disk s (sec (p / 512)) v1.header.holds (v1.filled.block (p / 512) k),
            )) in
        let grown : ltb d.length new ≡ true = lt→ltb d.length new (omega arith) in
        (
          d3,
          fs2,
          rw (longer, run, grown, block_write_lem disk s (inode_sector d3) v1.header.in_disk)
              (ap (λ n. some (n, record inode { inode_disk = d3 }, fs2)) (zero-add size)),
          put-Good al fs1 (after_loop disk d2 enough w) s (inode_sector d3) v.laid_out.header.apart,
          record {
            stored = record {
              laid_out = IsLaidOut-lengths new new (IsLaidOut-put v1 d3);
              on_disk = ground arith;
            };
            longer = omega arith;
            lengths = refl;
            rest = refl;
            bytes = λ p h. byte_at-same disk fs2.disk sec p (put_block p h) ∙ w.bytes p h;
            others = λ t out ne. ground (arith, w.others t (λ k h. out k (omega arith)));
            same_map = refl;
          },
        )

    write_within :
        ltb d.new_length (offset + size) ≡ false
        → Wrote (write_blocks true inode d buffer size offset fs)
    unfolding write_blocks
    write_within short =
        let new = offset + size in
        let inside : new ≤ d.new_length = ground arith in
        let l : bytes_to_sectors d.new_length ≤ count = omega arith in
        let file = IsLaidOut-IsFile own fs d xss count sec v.laid_out (omega arith) l in
        let (disk, run, w) =
          write_loop-Written (suc size) size offset 0 buffer fs.disk file (omega arith) inside
            given in
        let same_length : ltb d.length new ≡ false = ground arith in
        let kept : disk.sectors d.inode_disk_number ≡ fs.disk.sectors d.inode_disk_number =
          w.others d.inode_disk_number (λ k h e.
            inode-ne-IsBlock fs.disk d.inode_disk_number (sec k) v.laid_out.header.holds
              (v.laid_out.filled.block k (omega arith)) (sym e)) in
        (
          d,
          record fs { disk = disk },
          rw (short, run, same_length)
              (ap (λ n. some (n, record inode { inode_disk = d }, record fs { disk = disk }))
                (zero-add size)),
          after_loop disk d l w,
          record {
            stored = record {
              laid_out = IsLaidOut-Written v.laid_out d size offset buffer disk l w;
              on_disk = kept ∙ v.on_disk;
            };
            longer = omega arith;
            lengths = closed;
            rest = refl;
            bytes = λ p h. w.bytes p (omega arith);
            others = λ t out ne. w.others t (λ k h. out k (omega arith));
            same_map = refl;
          },
        )

    pub write_blocks-WritesAt : Wrote (write_blocks true inode d buffer size offset fs)
    write_blocks-WritesAt = elim (Bool-cases (ltb d.new_length (offset + size))) [
      | inl longer ↦ write_grown longer
      | inr short ↦ write_within short
    ]
