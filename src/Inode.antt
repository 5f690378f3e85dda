-- ===== src/Inode.antt =====
-- cs439/proj4/filesys/inode.c and inode.h: the blocks of a file, reading and writing.
-- One call runs by itself: its locks are free when it takes them. `off_t` values are not negative.
-- `mem` says whether `malloc` gives the call its bounce buffer.
pub mod Layout
pub mod Read
pub mod Write
mod Tests
use class_assignments.Prelude.{
  ℕ, zero, suc, ◌+◌, ◌-◌, ◌*◌, ◌/◌, ◌%◌, ◌^◌, min, Bool, true, false, ◌&&◌, ◌||◌, not, Option, none,
  some, List, [], ◌∷◌, ◌++◌, ltb, leb, ◌==◌, if◌then◌else◌, ◌>>=◌, ◌>>◌, assert, get_elem?, set,
  length, take, drop, replicate,
}
use class_assignments.Disk.{
  InodeDisk, Sector, inode_sector, index_sector, data_sector, Disk, block_read, block_write,
  as_index, as_data,
}

abbrev pub block_sector_size : ℕ
block_sector_size = 512

abbrev pub master_size : ℕ
master_size = 115

abbrev pub ind_block_size : ℕ
ind_block_size = 128

abbrev pub ind_num_blocks : ℕ
ind_num_blocks = 7

-- `(block_sector_t) -1`
abbrev pub no_sector : ℕ
no_sector = 2 ^ 32 - 1

-- `(int) sector_idx < 0`
abbrev pub is_negative : ℕ → Bool
is_negative x = leb (2 ^ 31) x

abbrev pub bytes_to_sectors : ℕ → ℕ
bytes_to_sectors size = (size + 511) / 512

unfoldable pub inode_open_lv1 : Disk → ℕ → Option (List ℕ)
inode_open_lv1 disk sector = block_read disk sector >>= as_index

-- The sector of the file's block `sector_index`: direct, or through an index block.
unfoldable pub block_sector : Disk → InodeDisk → ℕ → Option ℕ
block_sector disk d sector_index =
    if ltb sector_index master_size
    then get_elem? d.direct_block sector_index
    else get_elem? d.lv1_ind_block ((sector_index - master_size) / ind_block_size)
      >>= inode_open_lv1 disk
      >>= λ ind. get_elem? ind ((sector_index - master_size) % ind_block_size)

-- A sector number over 50000 counts as no sector.
pub byte_to_sector : Disk → InodeDisk → ℕ → Option ℕ
byte_to_sector disk d pos =
    assert (leb d.length d.new_length)
    >> (if ltb pos d.new_length
        then block_sector disk d (pos / block_sector_size)
          >>= (λ s. some (if ltb 50000 s then no_sector else s))
        else some no_sector)

pub inode_length : InodeDisk → ℕ
inode_length d = d.length

-- The bytes that a round handles: the least of what is asked, what is left in the file, and what
-- is left in the sector. A difference below 0 in C ends the loop, as 0 does.
abbrev pub chunk_size : (size file_left offset : ℕ) → ℕ
chunk_size size file_left offset =
    min size (min file_left (block_sector_size - offset % block_sector_size))

-- A round copies a whole sector, or goes through the bounce buffer.
abbrev pub is_whole : (chunk offset : ℕ) → Bool
is_whole chunk offset = offset % block_sector_size == 0 && chunk == block_sector_size

-- The loop of inode_read_at. `buffer` holds the `bytes_read` bytes copied so far.
pub read_loop :
    (mem : Bool)
    → Disk
    → InodeDisk
    → (fuel size offset bytes_read : ℕ) → List ℕ
    → Option (ℕ × List ℕ)
read_loop mem disk d zero size offset bytes_read buffer = none
read_loop mem disk d (suc fuel) size offset bytes_read buffer =
    let chunk = chunk_size size (inode_length d - offset) offset in
    let next = λ (bytes : List ℕ).
      read_loop mem disk d fuel (size - chunk) (offset + chunk) (bytes_read + chunk)
        (buffer ++ take chunk (drop (offset % block_sector_size) bytes)) in
    if size == 0
    then some (bytes_read, buffer)
    else byte_to_sector disk d offset >>= λ sector_idx.
        if is_negative sector_idx
        then some (0, buffer)
        else if chunk == 0
        then some (bytes_read, buffer)
        else if is_whole chunk offset || mem
        then block_read disk sector_idx >>= as_data >>= next
        else some (bytes_read, buffer)

-- inode_read_at: the number that it returns, and what it leaves in the caller's buffer.
pub inode_read_at : (mem : Bool) → Disk → InodeDisk → (size offset : ℕ) → Option (ℕ × List ℕ)
unfolding read_loop inode_length
inode_read_at mem disk d size offset = read_loop mem disk d (suc size) size offset 0 []

-- `memcpy (bounce + ofs, chunk)`
abbrev pub overlay : (ofs : ℕ) → (chunk bounce : List ℕ) → List ℕ
overlay ofs chunk bounce = take ofs bounce ++ (chunk ++ drop (ofs + length chunk) bounce)

-- The sector that a round starts from: what it holds, or zeros where all of it is overwritten.
round_base : Disk → (sector_idx chunk offset : ℕ) → Option (List ℕ)
round_base disk sector_idx chunk offset =
    if ltb 0 (offset % block_sector_size)
      || ltb chunk (block_sector_size - offset % block_sector_size)
    then block_read disk sector_idx >>= as_data
    else some (replicate block_sector_size 0)

-- The loop of inode_write_at; `buffer` is what is left of the caller's bytes, `size` of them.
pub write_loop :
    (mem : Bool)
    → InodeDisk
    → (fuel size offset bytes_written : ℕ) → List ℕ
    → Disk
    → Option (ℕ × Disk)
write_loop mem d zero size offset bytes_written buffer disk = none
write_loop mem d (suc fuel) size offset bytes_written buffer disk =
    let chunk = chunk_size size (d.new_length - offset) offset in
    let next = λ (disk' : Disk).
      write_loop mem d fuel (size - chunk) (offset + chunk) (bytes_written + chunk)
        (drop chunk buffer) disk' in
    if size == 0
    then some (bytes_written, disk)
    else byte_to_sector disk d offset >>= λ sector_idx.
        if chunk == 0
        then some (bytes_written, disk)
        else if is_whole chunk offset
        then block_write disk sector_idx (data_sector (take chunk buffer)) >>= next
        else if mem
        then round_base disk sector_idx chunk offset
          >>= (λ bounce.
              block_write disk sector_idx
                (data_sector (overlay (offset % block_sector_size) (take chunk buffer) bounce)))
          >>= next
        else some (bytes_written, disk)
