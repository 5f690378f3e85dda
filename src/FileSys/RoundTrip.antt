-- ===== src/FileSys/RoundTrip.antt =====
-- inode_read_at after inode_write_at.
use class_assignments.Prelude.{
  ℕ, ◌+◌, ◌-◌, ◌≤◌, min, ◌≡◌, refl, ◌∙◌, ap, Bool, true, some, List, arith, ltb, leb, ◌&&◌,
  if◌then◌else◌, length, get_or,
}
use class_assignments.Prelude.Slices.{slice, slice_congr, slice-all}
use class_assignments.Inode.{bytes_to_sectors, inode_read_at}
use class_assignments.Disk.{InodeDisk}
use class_assignments.Inode.Layout.{byte_at}
use class_assignments.Inode.Read.{inode_read_at_lem}
use class_assignments.FileSys.{FileSys, Inode, Claim}
use class_assignments.FileSys.Blocks.{inode_write_at}
use class_assignments.FileSys.Place.{max_blocks}
use class_assignments.FileSys.Claims.{free_sectors, IsAllocator}
use class_assignments.FileSys.Stored.{IsStored, IsLaidOut-IsFile}
use class_assignments.FileSys.WriteFile.{Writes, inode_write_at-Writes}

-- The written part of the file is the buffer.
Writes-slice :
    {own : ℕ → Bool} {size offset : ℕ} {buffer : List ℕ} {d d' : InodeDisk} {sec sec' : ℕ → ℕ}
    {fs fs' : FileSys}
    → Writes own size offset buffer d d' sec sec' fs fs'
    → length buffer ≡ size
    → slice (byte_at fs'.disk sec') offset size ≡ buffer
Writes-slice {size = size} {offset} {buffer} {sec' = sec'} {fs' = fs'} w given =
    slice_congr (byte_at fs'.disk sec') (λ i. get_or buffer i 0) offset 0 size
      (λ i h.
        let inside : (leb offset (offset + i) && ltb (offset + i) (offset + size)) ≡ true =
          ground arith in
        let back : offset + i - offset ≡ i = omega arith in
        let at_zero : 0 + i ≡ i = omega arith in
        w.bytes (offset + i) (omega (arith, w.longer)) ∙ rw (inside, back, at_zero) refl)
    ∙ rw (← given) (slice-all buffer 0)

module _ {allocate : (cnt : ℕ) → FileSys → Claim} {Good : FileSys → Type 0} {own : ℕ → Bool}
    (al : IsAllocator allocate Good own) where
  -- What inode_write_at has written, inode_read_at reads: under the conditions under which a
  -- write returns `size` (nobody denies writes, memory for the bounce buffers, a stored file,
  -- its inode on the disk as in memory, whose `length` is its `new_length`, an end within the
  -- largest file size, enough free sectors), a read of the same bytes of the file, from the
  -- device as the write leaves it, returns `size` and the buffer that was written.
  pub inode_read_at-inode_write_at :
      (inode : Inode) (fs : FileSys) (xss : List (List ℕ)) (sec : ℕ → ℕ) (size offset : ℕ)
      (buffer : List ℕ)
      → Good fs
      → inode.deny_write_cnt ≡ 0
      → IsStored own fs inode.inode_disk xss (bytes_to_sectors inode.inode_disk.length) sec
      → inode.inode_disk.length ≡ inode.inode_disk.new_length
      → length buffer ≡ size
      → bytes_to_sectors (offset + size) ≤ max_blocks
      → bytes_to_sectors (offset + size) - bytes_to_sectors inode.inode_disk.length
        ≤ free_sectors fs
      → (d' : InodeDisk) × (fs' : FileSys) × (inode_write_at allocate true inode buffer size offset
            fs
          ≡ some (size, record inode { inode_disk = d' }, fs'))
        × (inode_read_at true fs'.disk d' size offset ≡ some (size, buffer))
  inode_read_at-inode_write_at inode fs xss sec size offset buffer good allowed v closed given fits
        room =
      let (d', fs', xss', sec', run, good', v', w) =
        inode_write_at-Writes al inode fs xss sec size offset buffer good allowed v closed given
          fits room in
      let file =
        IsLaidOut-IsFile own fs' d' xss' (bytes_to_sectors d'.length) sec' v'.laid_out
          (omega (arith, w.lengths)) (omega (arith, w.lengths)) in
      let whole : leb (offset + size) d'.length ≡ true = ground (arith, w.longer) in
      let all : min size (d'.length - offset) ≡ size = omega (arith, w.longer) in
      (
        d',
        fs',
        run,
        inode_read_at_lem file w.lengths size offset
            ∙ ap
                (λ (b : Bool). some (
                  if b then size else 0,
                  slice (byte_at fs'.disk sec') offset (min size (d'.length - offset)),
                ))
                whole
            ∙ ap (λ n. some (size, slice (byte_at fs'.disk sec') offset n)) all
            ∙ ap (λ l. some (size, l)) (Writes-slice w given),
      )
