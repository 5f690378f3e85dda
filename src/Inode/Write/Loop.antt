-- ===== src/Inode/Write/Loop.antt =====
-- The rounds of inode_write_at together.
use class_assignments.Prelude.{
  ℕ, zero, suc, ◌+◌, ◌-◌, ◌/◌, ◌%◌, ◌≤◌, ◌<◌, ◌≡◌, true, false, Option, some, List, arith, ltb,
  ◌==◌, length, ap, take, drop, Bool-cases, inl, inr, lt→ltb, ◌||◌, length-drop,
}
use class_assignments.Disk.{InodeDisk, Disk}
use class_assignments.Inode.{chunk_size, is_whole, overlay, round_base, write_loop}
use class_assignments.Inode.Layout.{
  IsFile, IsBlock, data_of, block_read-data, block_write-data, byte_to_sector_lem, byte-IsBlock,
}
use class_assignments.Inode.Write.{
  overlay-IsOverlay, whole-IsOverlay, Written, round-Written, nothing-Written, Written-trans,
}

-- A round that does not overwrite its whole sector starts from what the sector holds.
round_base-data :
    {disk : Disk} {s : ℕ}
    → IsBlock disk s
    → (c offset : ℕ) → c ≤ 512
    → is_whole c offset ≡ false
    → round_base disk s c offset ≡ some (data_of (disk.sectors s))
unfolding round_base
round_base-data {disk} {s} b c offset l part =
    let read : (ltb 0 (offset % 512) || ltb c (512 - offset % 512)) ≡ true = ground arith in
    rw read (block_read-data b)

-- The loop of inode_write_at, with memory for the bounce buffer, on a file whose `new_length`
-- the write does not pass: with more fuel than bytes it returns the number of bytes that it was
-- given, each of them is at its place in the file, and no other byte of the file and no sector
-- outside the file has changed. The file keeps its blocks.
pub write_loop-Written :
    {d : InodeDisk} {sec : ℕ → ℕ} (fuel size offset bytes_written : ℕ) (buffer : List ℕ)
    (disk : Disk)
    → IsFile disk d sec
    → size < fuel
    → offset + size ≤ d.new_length
    → length buffer ≡ size
    → (r : Disk) × (write_loop true d fuel size offset bytes_written buffer disk
        ≡ some (bytes_written + size, r))
      × Written disk d sec size offset buffer r
unfolding write_loop
write_loop-Written zero size offset bytes_written buffer disk v h fits given = absurd (omega arith)
write_loop-Written (suc fuel) zero offset bytes_written buffer disk v h fits given =
    (disk, ap (λ n. some (n, disk)) (omega arith), nothing-Written v offset buffer)
write_loop-Written {d} {sec} (suc fuel) (suc size) offset bytes_written buffer disk v h fits given =
    let inside : ltb offset d.new_length ≡ true = lt→ltb offset d.new_length (omega arith) in
    let here : offset < d.new_length = omega arith in
    let c = chunk_size (suc size) (d.new_length - offset) offset in
    let b = byte-IsBlock v offset here in
    let work : (c == 0) ≡ false = ground arith in
    let more : (suc size == 0) ≡ false = ground arith in
    elim (Bool-cases (is_whole c offset)) [
      | inl whole ↦
          let s =
            round-Written v offset c buffer (take c buffer) (omega arith) (omega arith)
              (omega arith)
              (whole-IsOverlay (offset % 512) c buffer _ (omega arith) (omega arith) b.full
                (ground arith)) in
          let (r, run, t) =
            write_loop-Written fuel (suc size - c) (offset + c) (bytes_written + c) (drop c buffer)
              _ s.file (omega arith) (omega arith) (rw length-drop (omega arith)) in
          (
            r,
            rw
                (
                  byte_to_sector_lem v offset,
                  inside,
                  more,
                  work,
                  whole,
                  block_write-data b (take c buffer),
                  run,
                )
                (total c (omega arith)),
            Written-trans (suc size) offset c buffer (omega arith) s t,
          )
      | inr part ↦
          let old = data_of (disk.sectors (sec (offset / 512))) in
          let bs = overlay (offset % 512) (take c buffer) old in
          let s =
            round-Written v offset c buffer bs (omega arith) (omega arith) (omega arith)
              (overlay-IsOverlay (offset % 512) c buffer old (omega arith) (omega arith) b.full) in
          let (r, run, t) =
            write_loop-Written fuel (suc size - c) (offset + c) (bytes_written + c) (drop c buffer)
              _ s.file (omega arith) (omega arith) (rw length-drop (omega arith)) in
          (
            r,
            rw
                (
                  byte_to_sector_lem v offset,
                  inside,
                  more,
                  work,
                  part,
                  round_base-data b c offset (omega arith) part,
                  block_write-data b bs,
                  run,
                )
                (total c (omega arith)),
            Written-trans (suc size) offset c buffer (omega arith) s t,
          )
    ]
  where
    total :
        (c : ℕ) {r : Disk}
        → c ≤ suc size
        → ◌≡◌ {A = Option (ℕ × Disk)}
            (some (bytes_written + c + (suc size - c), r))
            (some (bytes_written + suc size, r))
    total c {r} l = ap (λ n. some (n, r)) (omega arith)
