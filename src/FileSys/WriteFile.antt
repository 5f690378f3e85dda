-- ===== src/FileSys/WriteFile.antt =====
-- inode_write_at from end to end: the file is extended where it has to be, and written.
use mathlib.Core.Path.{subst}
use class_assignments.Prelude.{
  ℕ, ◌+◌, ◌-◌, ◌/◌, ◌%◌, ◌≤◌, ◌<◌, max, ◌≡◌, ◌≢◌, refl, sym, ◌∙◌, ap, Bool, true, false, not, ◌&&◌,
  some, List, arith, ltb, leb, ◌==◌, if◌then◌else◌, ◌>>=◌, Bool-cases, inl, inr, length, get_or,
}
use class_assignments.Prelude.Slices.{get_or-replicate}
use class_assignments.Bitmap.Bits.{bit}
use class_assignments.Disk.{InodeDisk}
use class_assignments.Inode.{bytes_to_sectors}
use class_assignments.Inode.Layout.{byte_at}
use class_assignments.FileSys.{FileSys, Inode, Claim, zeros}
use class_assignments.FileSys.Blocks.{inode_extend_file, write_blocks, inode_write_at}
use class_assignments.FileSys.Place.{max_blocks}
use class_assignments.FileSys.Claims.{free_sectors, IsAllocator}
use class_assignments.FileSys.Indexes.{NotIn}
use class_assignments.FileSys.Stored.{IsStored}
use class_assignments.FileSys.Extend.{Extends, inode_extend_file-Extends}
use class_assignments.FileSys.WriteAt.{WritesAt, write_blocks-WritesAt}

-- `d`, with its blocks at `sec` in `fs`, has been written `size` bytes of `buffer` at `offset`. It is
-- `d'` now, with its blocks at `sec'` in `fs'`.
pub record Writes (own : ℕ → Bool) (size offset : ℕ) (buffer : List ℕ) (d d' : InodeDisk)
    (sec sec' : ℕ → ℕ) (fs fs' : FileSys) : Type 0 where
  pub longer : d'.length ≡ max d.length (offset + size)
  pub lengths : d'.length ≡ d'.new_length
  pub rest :
      record d' { direct_block = d.direct_block; length = d.length; new_length = d.new_length } ≡ d
  pub old : (k : ℕ) → k < bytes_to_sectors d.length → sec' k ≡ sec k
  pub fresh :
      (k : ℕ)
      → bytes_to_sectors d.length ≤ k
      → k < bytes_to_sectors d'.length
      → bit fs.free_map (sec' k) ≡ false
  pub bytes :
      (p : ℕ)
      → p < d'.length
      → byte_at fs'.disk sec' p ≡ (
          if leb offset p && ltb p (offset + size)
          then get_or buffer (p - offset) 0
          else if ltb (p / 512) (bytes_to_sectors d.length)
          then byte_at fs.disk sec p
          else 0)
  pub others :
      (t : ℕ)
      → own t ≡ false
      → bit fs.free_map t ≡ true
      → NotIn t d.lv1_ind_block
      → d.inode_disk_number ≢ t
      → ((k : ℕ) → k < bytes_to_sectors d.length → sec k ≢ t)
      → fs'.disk.sectors t ≡ fs.disk.sectors t
  pub still : (t : ℕ) → bit fs.free_map t ≡ true → bit fs'.free_map t ≡ true
  pub used :
      free_sectors fs' + (bytes_to_sectors (offset + size) - bytes_to_sectors d.length)
      ≡ free_sectors fs

Extends-refl :
    (own : ℕ → Bool) (count : ℕ) (d : InodeDisk) (sec : ℕ → ℕ) (fs : FileSys)
    → Extends own 0 count d d sec sec fs fs
Extends-refl own count d sec fs = record {
  rest = refl;
  old = λ k h. refl;
  kept = λ k h. refl;
  fresh = λ k l h. absurd (omega arith);
  zeroed = λ k l h. absurd (omega arith);
  same = λ t o m n ne. refl;
  still = λ t m. m;
  used = omega arith;
}

zero_byte : (i : ℕ) → get_or zeros i 0 ≡ 0
unfolding zeros
zero_byte i = get_or-replicate 512 i 0

module _ {own : ℕ → Bool} {size offset : ℕ} {buffer : List ℕ} {d d1 d' : InodeDisk} {count left : ℕ}
    {sec sec1 : ℕ → ℕ} {fs fs1 fs' : FileSys} {xss1 : List (List ℕ)}
    (v : Extends own left count d d1 sec sec1 fs fs1)
    (w : WritesAt own fs1 d1 xss1 (count + left) sec1 size offset buffer d' fs') where
  -- A block is an old one, or one of zeros.
  byte_at-Extends :
      (p : ℕ)
      → p / 512 < count + left
      → byte_at fs1.disk sec1 p ≡ (if ltb (p / 512) count then byte_at fs.disk sec p else 0)
  unfolding byte_at
  byte_at-Extends p h = elim (Bool-cases (ltb (p / 512) count)) [
    | inl old ↦ rw (old, v.old (p / 512) (ground arith), v.kept (p / 512) (ground arith)) refl
    | inr new ↦ rw (new, v.zeroed (p / 512) (ground arith) h) (zero_byte (p % 512))
  ]

  -- No block of the extended file is a sector that was marked and outside the old file.
  sec1-ne :
      (t : ℕ)
      → bit fs.free_map t ≡ true
      → ((k : ℕ) → k < count → sec k ≢ t)
      → (k : ℕ) → k < count + left
      → sec1 k ≢ t
  sec1-ne t m out k h e = elim (Bool-cases (ltb k count)) [
    | inl old ↦ ground (arith, v.old k, out k, e)
    | inr new ↦ ground (arith, v.fresh k, m, e)
  ]

  WritesAt-Writes :
      count ≡ bytes_to_sectors d.length
      → left ≡ bytes_to_sectors (offset + size) - count
      → Writes own size offset buffer d d' sec sec1 fs fs'
  WritesAt-Writes c l =
      let same_length : d1.length ≡ d.length = ap (λ (e : InodeDisk). e.length) v.rest in
      let number : d1.inode_disk_number ≡ d.inode_disk_number =
        ap (λ (e : InodeDisk). e.inode_disk_number) v.rest in
      record {
        longer = w.longer ∙ ap (λ n. max n (offset + size)) same_length;
        lengths = w.lengths;
        rest =
            ap
              (λ (e : InodeDisk). record e {
                direct_block = d.direct_block;
                length = d.length;
                new_length = d.new_length;
              })
              w.rest
            ∙ ap (λ (e : InodeDisk). record e { length = d.length; new_length = d.new_length })
                v.rest;
        old = λ k h. v.old k (omega arith);
        fresh = λ k h h'. v.fresh k (omega arith) (omega (arith, w.longer, same_length));
        bytes = λ p h.
            w.bytes p h
            ∙ ap
                (λ x.
                  if leb offset p && ltb p (offset + size) then get_or buffer (p - offset) 0 else x)
                (byte_at-Extends p (omega (arith, w.longer))
                  ∙ ap (λ n. if ltb (p / 512) n then byte_at fs.disk sec p else 0) c);
        others = λ t o m n ne out.
            w.others t (sec1-ne t m (λ k h. out k (omega arith))) (λ e. ne (sym number ∙ e))
            ∙ v.same t o m n ne;
        still = λ t m. rw w.same_map (v.still t m);
        used =
            ap (λ n. free_sectors fs' + (bytes_to_sectors (offset + size) - n)) (sym c)
            ∙ ap (λ n. free_sectors fs' + n) (sym l)
            ∙ rw w.same_map v.used;
      }

module _ {allocate : (cnt : ℕ) → FileSys → Claim} {Good : FileSys → Type 0} {own : ℕ → Bool}
    (al : IsAllocator allocate Good own) where
  -- The extension, where there is one.
  extend_where_needed :
      (fs : FileSys) (d : InodeDisk) (xss : List (List ℕ)) (sec : ℕ → ℕ) (need : ℕ)
      → Good fs
      → IsStored own fs d xss (bytes_to_sectors d.length) sec
      → need ≤ max_blocks
      → need - bytes_to_sectors d.length ≤ free_sectors fs
      → let count = bytes_to_sectors d.length in
        let left = need - count in
        (d1 : InodeDisk) × (fs1 : FileSys) × (xss1 : List (List ℕ)) × (sec1 : ℕ → ℕ) × ((if count
              == need
            then some (d, fs)
            else inode_extend_file allocate d need fs)
          ≡ some (d1, fs1))
        × Good fs1
        × IsStored own fs1 d1 xss1 (count + left) sec1
        × Extends own left count d d1 sec sec1 fs fs1
  extend_where_needed fs d xss sec need good v fits room =
      let count = bytes_to_sectors d.length in
      elim (Bool-cases (count == need)) [
        | inl same ↦
            let none_left : need - count ≡ 0 = ground arith in
            (
              d,
              fs,
              xss,
              sec,
              rw same refl,
              good,
              subst (λ n. IsStored own fs d xss n sec) (omega arith) v,
              subst (λ n. Extends own n count d d sec sec fs fs) (sym none_left)
                  (Extends-refl own count d sec fs),
            )
        | inr other ↦
            let (d1, fs1, xss1, sec1, run, good1, v1, e) =
              inode_extend_file-Extends al fs d xss sec need good v (ground arith) fits room in
            (d1, fs1, xss1, sec1, rw other run, good1, v1, e)
      ]

  -- What is left to do once the blocks are there.
  inode_write_at-write_blocks :
      (inode : Inode) (buffer : List ℕ) (size offset : ℕ) (fs : FileSys) (d1 : InodeDisk)
      (fs1 : FileSys)
      → inode.deny_write_cnt ≡ 0
      → (if bytes_to_sectors inode.inode_disk.length == bytes_to_sectors (offset + size)
          then some (inode.inode_disk, fs)
          else inode_extend_file allocate inode.inode_disk (bytes_to_sectors (offset + size)) fs)
        ≡ some (d1, fs1)
      → inode_write_at allocate true inode buffer size offset fs
        ≡ write_blocks true inode d1 buffer size offset fs1
  unfolding inode_write_at
  inode_write_at-write_blocks inode buffer size offset fs d1 fs1 allowed extension =
      let d = inode.inode_disk in
      ap
        (λ n.
          if not (n == 0)
          then some (0, inode, fs)
          else (if bytes_to_sectors d.length == bytes_to_sectors (offset + size)
              then some (d, fs)
              else inode_extend_file allocate d (bytes_to_sectors (offset + size)) fs)
            >>= λ (d1, fs1). write_blocks true inode d1 buffer size offset fs1)
        allowed
      ∙ ap (λ m. m >>= λ (d1, fs1). write_blocks true inode d1 buffer size offset fs1) extension

  -- inode_write_at, where nobody denies writes, `malloc` gives the bounce buffer, the file is
  -- stored, its inode on the disk as in memory, and its `length` is its `new_length`, the write
  -- ends within the largest file size, and as many sectors are free as the file needs more. The
  -- call returns `size`. The file then has the bytes of `buffer` from `offset` on, in every
  -- other place what was in its blocks, and zeros in the new ones; it reaches to the end of the
  -- write, or as far as before, and is stored with exactly the blocks that it needs, its inode
  -- on the disk as in memory. The old blocks are where they were, and the inode changes in its
  -- lengths and direct blocks alone. No other marked sector has changed but those of the map's
  -- own file; the new blocks were free, every sector that was marked still is, and as many
  -- sectors as there are new blocks are no longer free.
  pub inode_write_at-Writes :
      (inode : Inode) (fs : FileSys) (xss : List (List ℕ)) (sec : ℕ → ℕ) (size offset : ℕ)
      (buffer : List ℕ)
      → Good fs
      → inode.deny_write_cnt ≡ 0
      → IsStored own fs inode.inode_disk xss (bytes_to_sectors inode.inode_disk.length) sec
      → inode.inode_disk.length ≡ inode.inode_disk.new_length
      → length buffer ≡ size
      → bytes_to_sectors (offset + size) ≤ max_blocks
      → bytes_to_sectors (offset + size) - bytes_to_sectors inode.inode_disk.length
        ≤ free_sectors fs
      → (d' : InodeDisk) × (fs' : FileSys) × (xss' : List (List ℕ)) × (sec' : ℕ → ℕ)
        × (inode_write_at allocate true inode buffer size offset fs
            ≡ some (size, record inode { inode_disk = d' }, fs'))
        × Good fs'
        × IsStored own fs' d' xss' (bytes_to_sectors d'.length) sec'
        × Writes own size offset buffer inode.inode_disk d' sec sec' fs fs'
  inode_write_at-Writes inode fs xss sec size offset buffer good allowed v closed given fits room =
      let d = inode.inode_disk in
      let count = bytes_to_sectors d.length in
      let need = bytes_to_sectors (offset + size) in
      let (d1, fs1, xss1, sec1, extension, good1, v1, e) =
        extend_where_needed fs d xss sec need good v fits room in
      let same_length : d1.length ≡ d.length = ap (λ (e : InodeDisk). e.length) e.rest in
      let same_new : d1.new_length ≡ d.new_length = ap (λ (e : InodeDisk). e.new_length) e.rest in
      let (d', fs', run, good', w) =
        write_blocks-WritesAt al inode fs1 d1 xss1 (count + (need - count)) sec1 size offset buffer
          good1 v1 (same_length ∙ closed ∙ sym same_new) (omega arith) (omega arith) given in
      let writes = WritesAt-Writes e w refl refl in
      (
        d',
        fs',
        xss1,
        sec1,
        inode_write_at-write_blocks inode buffer size offset fs d1 fs1 allowed extension ∙ run,
        good',
        subst (λ n. IsStored own fs' d' xss1 n sec1) (omega (arith, writes.longer)) w.stored,
        writes,
      )
