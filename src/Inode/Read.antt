-- ===== src/Inode/Read.antt =====
-- inode_read_at: what it returns and what it copies.
use mathlib.Core.Path.{ap₂}
use native.Mathlib.Nat.{zero-add}
use mathlib.Core.List.{append_assoc, append-nil}
use class_assignments.Prelude.{
  ℕ, zero, suc, ◌+◌, ◌-◌, ◌/◌, ◌≤◌, ◌<◌, min, ◌≡◌, refl, Bool, true, false, some, List, [], ◌++◌,
  arith, ltb, leb, ◌==◌, if◌then◌else◌, ltb→lt, ap, ◌∙◌, Bool-cases, inl, inr, ◌||◌,
}
use class_assignments.Prelude.Slices.{slice, slice_add}
use class_assignments.Disk.{InodeDisk, Disk}
use class_assignments.Inode.{is_negative, inode_length, chunk_size, read_loop, inode_read_at}
use class_assignments.Inode.Layout.{
  IsFile, byte_at, block_read-data, byte_to_sector_lem, byte-IsBlock, block-slice,
}

or_true : (b : Bool) → (b || true) ≡ true
or_true true = refl
or_true false = refl

slice_zero {ℓ} : {A : Type ℓ} (f : ℕ → A) (a : ℕ) → slice f a 0 ≡ []
unfolding slice
slice_zero f a = refl

module _ {disk : Disk} {d : InodeDisk} {sec : ℕ → ℕ} (v : IsFile disk d sec)
    (closed : d.length ≡ d.new_length) where
  -- What a read of `size` bytes from `offset` on returns, when it follows `bytes_read` others.
  abbrev answer : (size offset bytes_read : ℕ) → ℕ
  answer size offset bytes_read = if leb (offset + size) d.length then bytes_read + size else 0

  abbrev copied : (size offset : ℕ) → List ℕ
  copied size offset = slice (byte_at disk sec) offset (min size (d.length - offset))

  -- The bytes of a round and of the rounds after it are those of the whole read.
  copied_step :
      (size offset c : ℕ) (buffer : List ℕ)
      → offset + c ≤ d.length
      → c ≤ size
      → (buffer ++ slice (byte_at disk sec) offset c) ++ copied (size - c) (offset + c)
        ≡ buffer ++ copied size offset
  copied_step size offset c buffer h l =
      let parts : c + min (size - c) (d.length - (offset + c)) ≡ min size (d.length - offset) =
        omega arith in
      rw (
        append_assoc,
        ← slice_add (byte_at disk sec) offset c (min (size - c) (d.length - (offset + c))),
        parts,
      )

  answer_step :
      (size offset c bytes_read : ℕ)
      → c ≤ size
      → answer (size - c) (offset + c) (bytes_read + c) ≡ answer size offset bytes_read
  answer_step size offset c bytes_read l =
      let end : offset + c + (size - c) ≡ offset + size = omega arith in
      let total : bytes_read + c + (size - c) ≡ bytes_read + size = omega arith in rw (end, total)

  read_loop_lem :
      (fuel size offset bytes_read : ℕ) (buffer : List ℕ)
      → size < fuel
      → (d.length < offset → bytes_read ≡ 0)
      → read_loop true disk d fuel size offset bytes_read buffer
        ≡ some (answer size offset bytes_read, buffer ++ copied size offset)
  unfolding read_loop inode_length
  read_loop_lem zero size offset bytes_read buffer h z = absurd (omega arith)
  read_loop_lem (suc fuel) zero offset bytes_read buffer h z =
      let none_left : min 0 (d.length - offset) ≡ 0 = omega arith in
      rw (none_left, slice_zero, append-nil) (ap some (ground arith))
  read_loop_lem (suc fuel) (suc size) offset bytes_read buffer h z =
      let more : (suc size == 0) ≡ false = ground arith in
      rw (byte_to_sector_lem v offset, more)
        (elim (Bool-cases (ltb offset d.new_length)) [
          | inl inside ↦
              let here : offset < d.new_length = ltb→lt offset d.new_length inside in
              let c = chunk_size (suc size) (d.length - offset) offset in
              let b = byte-IsBlock v offset here in
              let positive : is_negative (sec (offset / 512)) ≡ false =
                ground (arith, b.readable) in
              let work : (c == 0) ≡ false = ground arith in
              rw
                (
                  inside,
                  positive,
                  work,
                  or_true,
                  block_read-data b,
                  block-slice v offset c here (omega arith),
                )
                (read_loop_lem fuel (suc size - c) (offset + c) (bytes_read + c)
                    (buffer ++ slice (byte_at disk sec) offset c) (omega arith)
                    (λ p. absurd (omega arith))
                  ∙ ap₂ (λ n l. some (n, l))
                      (answer_step (suc size) offset c bytes_read (omega arith))
                      (copied_step (suc size) offset c buffer (omega arith) (omega arith)))
          | inr past ↦
              let none_left : min (suc size) (d.length - offset) ≡ 0 = ground arith in
              rw (past, none_left, slice_zero, append-nil) (ap some (ground arith))
        ])

-- inode_read_at, of a file whose `length` is its `new_length`, with memory for the bounce
-- buffer: a read that ends within the file returns `size`, and any other returns 0; in both
-- cases the caller's buffer gets the bytes of the file from `offset` to the end of the read or
-- of the file.
pub inode_read_at_lem :
    {disk : Disk} {d : InodeDisk} {sec : ℕ → ℕ}
    → IsFile disk d sec
    → d.length ≡ d.new_length
    → (size offset : ℕ)
    → inode_read_at true disk d size offset
      ≡ some (
        (if leb (offset + size) d.length then size else 0),
        slice (byte_at disk sec) offset (min size (d.length - offset)),
      )
unfolding inode_read_at
inode_read_at_lem v closed size offset =
    read_loop_lem v closed (suc size) size offset 0 [] (omega arith) (λ p. refl) ∙ rw zero-add
