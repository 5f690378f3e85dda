-- ===== src/FileSys/Tied.antt =====
-- The calls of FileSys and Blocks tied together.
use Prim.Native.Nat.{bit_and}
use class_assignments.Prelude.{
  ℕ, ◌-◌, ◌==◌, List, ◌++◌, ltb, if◌then◌else◌, Bool, true, Option, none, some, ◌>>=◌, length, drop,
  set, get_elem?,
}
use class_assignments.Bitmap.{Bitmap, byte_cnt, elem_cnt, last_mask, bitmap_create, bitmap_mark}
use class_assignments.Inode.{inode_read_at}
use class_assignments.FileSys.{
  FileSys, Claim, elem_bytes, bytes_elems, allocate_through, release_through,
}
use class_assignments.FileSys.Blocks

-- A write of the free map finds room in the file of the map, which has the size of the map. That it
-- would need a further sector for itself is a fault.
unfoldable pub no_claim : (cnt : ℕ) → FileSys → Claim
no_claim cnt fs = none

-- bitmap_write (free_map, free_map_file)
unfoldable pub bitmap_write : (mem : Bool) → FileSys → Option (Bool × FileSys)
unfolding no_claim
bitmap_write mem fs = elim fs.map_file [
  | none ↦ none
  | some d ↦
      let size = byte_cnt fs.free_map.bit_cnt in
      Blocks.inode_write_at no_claim mem (record { deny_write_cnt = 0; inode_disk = d })
        (elem_bytes fs.free_map.bits) size 0 fs
      >>= λ (written, inode, fs').
          some (written == size, record fs' { map_file = some inode.inode_disk })
]

-- `header` and `block` are what the calls of `malloc` give to bitmap_create, and `size` is the number
-- of sectors of the device. FREE_MAP_SECTOR is 0, and ROOT_DIR_SECTOR is 1.
unfoldable pub free_map_init :
    (header : Bool) (block : Option (List ℕ)) → (size : ℕ) → Option Bitmap
free_map_init header block size = bitmap_create header block size >>= λ r. elim r [
  | none ↦ none
  | some b ↦ bitmap_mark b 0 >>= λ b'. bitmap_mark b' 1
]

-- bitmap_read (free_map, free_map_file). What the read does not reach stays as it was.
unfoldable pub bitmap_read : (mem : Bool) → FileSys → Option (Bool × FileSys)
bitmap_read mem fs =
    let b = fs.free_map in
    if ltb 0 b.bit_cnt
    then elim fs.map_file [
      | none ↦ none
      | some d ↦
          let size = byte_cnt b.bit_cnt in
          inode_read_at mem fs.disk d size 0 >>= λ (read, bytes).
          let words = bytes_elems (bytes ++ drop (length bytes) (elem_bytes b.bits)) in
          let last = elem_cnt b.bit_cnt - 1 in
          get_elem? words last >>= λ w. some (
            read == size,
            record fs { free_map = record b { bits = set words last (bit_and w (last_mask b)) } },
          )
    ]
    else some (true, fs)

unfoldable pub free_map_allocate : (mem : Bool) → (cnt : ℕ) → FileSys → Claim
free_map_allocate mem = allocate_through (bitmap_write mem)

unfoldable pub free_map_release : (mem : Bool) → (sector cnt : ℕ) → FileSys → Option FileSys
free_map_release mem = release_through (bitmap_write mem)
