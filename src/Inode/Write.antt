-- ===== src/Inode/Write.antt =====
-- The loop of inode_write_at: it overlays the bytes of the file, and nothing else on the disk.
pub mod Loop
use mathlib.Core.Path.{subst}
use class_assignments.Prelude.{
  ℕ, zero, suc, ◌+◌, ◌-◌, ◌*◌, ◌/◌, ◌%◌, ◌^◌, ◌≤◌, ◌<◌, min, ◌≡◌, ◌≢◌, refl, sym, Bool, true, false,
  Option, some, none, List, [], ◌++◌, arith, ltb, leb, ◌==◌, if◌then◌else◌, ◌>>=◌, ◌>>◌, assert,
  length, get_or, ap, take, drop, ◌∙◌, Bool-cases, >>=-eq-some, inl, inr, lt→ltb, le→leb, ltb→lt,
  ◌||◌, ◌&&◌, get_elem?, length-append, length-take, length-drop,
}
use class_assignments.Prelude.Slices.{get_or-append, get_or-take, get_or-drop, get_or-past}
use class_assignments.Disk.{
  InodeDisk, Sector, data_sector, inode_sector, index_sector, Disk, block_read, block_write, update,
  as_data, as_index,
}
use class_assignments.Inode.{
  bytes_to_sectors, inode_open_lv1, block_sector, byte_to_sector, is_negative, chunk_size, is_whole,
  overlay, round_base, write_loop, ind_block_size, ind_num_blocks, master_size,
}
use class_assignments.Inode.Layout.{
  IsFile, IsBlock, byte_at, data_of, block_read-data, block_write-data, byte_to_sector_lem,
  byte-IsBlock,
}

abbrev pub put : Disk → ℕ → List ℕ → Disk
put disk s bs = record disk { sectors = update disk.sectors s (data_sector bs) }

-- A write of bytes over bytes leaves the map of blocks alone.
inode_open_lv1-put :
    (disk : Disk) (t p : ℕ) (bs old xs : List ℕ)
    → disk.sectors t ≡ data_sector old
    → inode_open_lv1 disk p ≡ some xs
    → inode_open_lv1 (put disk t bs) p ≡ some xs
unfolding inode_open_lv1 block_read
inode_open_lv1-put disk t p bs old xs raw h = ground arith

block_sector-put :
    (disk : Disk) (d : InodeDisk) (t k s : ℕ) (bs old : List ℕ)
    → disk.sectors t ≡ data_sector old
    → block_sector disk d k ≡ some s
    → block_sector (put disk t bs) d k ≡ some s
unfolding block_sector
block_sector-put disk d t k s bs old raw h = elim (Bool-cases (ltb k master_size)) [
  | inl direct ↦ ground arith
  | inr indirect ↦
      let (xs, opened, at) =
        >>=-eq-some
          (get_elem? d.lv1_ind_block ((k - master_size) / ind_block_size) >>= inode_open_lv1 disk) _
          (rw indirect at h) in
      let (p, listed, open_p) =
        >>=-eq-some (get_elem? d.lv1_ind_block ((k - master_size) / ind_block_size))
          (inode_open_lv1 disk) opened in
      rw (indirect, listed, inode_open_lv1-put disk t p bs old xs raw open_p) at
]

-- One round: the bytes of block `k` become `bs`.
module _ {disk : Disk} {d : InodeDisk} {sec : ℕ → ℕ} (v : IsFile disk d sec) (k : ℕ)
    (inside : k < bytes_to_sectors d.new_length) (bs : List ℕ) (full : length bs ≡ 512) where
  put-IsBlock : (s : ℕ) → IsBlock disk s → IsBlock (put disk (sec k) bs) s
  put-IsBlock s b = record {
    readable = b.readable;
    in_disk = b.in_disk;
    raw = ground (arith, b.raw);
    full = ground (arith, b.full);
  }

  put-IsFile : IsFile (put disk (sec k) bs) d sec
  put-IsFile = record {
    sizes = v.sizes;
    mapped =
        λ j h. block_sector-put disk d (sec k) j (sec j) bs _ (v.block k inside).raw (v.mapped j h);
    block = λ j h. put-IsBlock (sec j) (v.block j h);
    distinct = v.distinct;
  }

  byte_at-put :
      (pos : ℕ)
      → pos < d.new_length
      → byte_at (put disk (sec k) bs) sec pos
        ≡ (if pos / 512 == k then get_or bs (pos % 512) 0 else byte_at disk sec pos)
  unfolding byte_at
  byte_at-put pos h = ground (arith, v.distinct k (pos / 512))

-- `bs` is the block `old` with the first `c` bytes of `buffer` from `ofs` on.
record IsOverlay (ofs c : ℕ) (buffer old bs : List ℕ) : Type 0 where
  full : length bs ≡ 512
  reads :
      (p : ℕ)
      → get_or bs p 0
        ≡ (if leb ofs p && ltb p (ofs + c) then get_or buffer (p - ofs) 0 else get_or old p 0)

module _ (ofs c : ℕ) (buffer old : List ℕ) (fits : ofs + c ≤ 512) (given : c ≤ length buffer)
    (full : length old ≡ 512) where
  overlay-IsOverlay : IsOverlay ofs c buffer old (overlay ofs (take c buffer) old)
  overlay-IsOverlay =
      let chunk : length (take c buffer) ≡ c = omega (arith, length-take c buffer) in
      let head : length (take ofs old) ≡ ofs = omega (arith, length-take ofs old) in
      record {
        full = rw (length-append, length-append, head, chunk, length-drop) (omega arith);
        reads = λ p.
            rw (get_or-append, get_or-append, head, chunk, get_or-drop, get_or-take, get_or-take)
              (overlay_cases p);
      }
    where
      overlay_cases :
          (p : ℕ)
          → (if ltb p ofs
              then (if ltb p ofs then get_or old p 0 else 0)
              else if ltb (p - ofs) c
              then (if ltb (p - ofs) c then get_or buffer (p - ofs) 0 else 0)
              else get_or old (ofs + c + (p - ofs - c)) 0)
            ≡ (if leb ofs p && ltb p (ofs + c) then get_or buffer (p - ofs) 0 else get_or old p 0)
      overlay_cases p = ground arith

  whole-IsOverlay : c ≡ 512 → IsOverlay ofs c buffer old (take c buffer)
  whole-IsOverlay h =
      let chunk : length (take c buffer) ≡ c = omega (arith, length-take c buffer) in
      record {
        full = ground (arith, chunk);
        reads = λ p. ground (arith, get_or-take c buffer p 0, get_or-past old p 0);
      }

-- `size` bytes of `buffer` have gone to the file from `offset` on.
pub record Written (disk : Disk) (d : InodeDisk) (sec : ℕ → ℕ) (size offset : ℕ) (buffer : List ℕ)
    (r : Disk) : Type 0 where
  pub file : IsFile r d sec
  pub same_size : r.size ≡ disk.size
  pub bytes :
      (p : ℕ)
      → p < d.new_length
      → byte_at r sec p ≡ (
          if leb offset p && ltb p (offset + size)
          then get_or buffer (p - offset) 0
          else byte_at disk sec p)
  pub others :
      (s : ℕ)
      → ((k : ℕ) → k < bytes_to_sectors d.new_length → sec k ≢ s)
      → r.sectors s ≡ disk.sectors s

module _ {disk : Disk} {d : InodeDisk} {sec : ℕ → ℕ} (v : IsFile disk d sec) where
  round-Written :
      (offset c : ℕ) (buffer bs : List ℕ)
      → 0 < c
      → offset + c ≤ d.new_length
      → offset % 512 + c ≤ 512
      → IsOverlay (offset % 512) c buffer (data_of (disk.sectors (sec (offset / 512)))) bs
      → Written disk d sec c offset buffer (put disk (sec (offset / 512)) bs)
  unfolding byte_at
  round-Written offset c buffer bs pos inside fits t =
      let k : offset / 512 < bytes_to_sectors d.new_length = omega arith in
      record {
        file = put-IsFile v (offset / 512) k bs t.full;
        same_size = refl;
        bytes =
            λ p h. ground (arith, byte_at-put v (offset / 512) k bs t.full p h, t.reads (p % 512));
        others = λ s out. ground (arith, out (offset / 512) k);
      }

  nothing-Written : (offset : ℕ) (buffer : List ℕ) → Written disk d sec 0 offset buffer disk
  nothing-Written offset buffer = record {
    file = v;
    same_size = refl;
    bytes = λ p h. ground arith;
    others = λ s out. refl;
  }

-- A round and the rounds after it.
Written-trans :
    {disk r r' : Disk} {d : InodeDisk} {sec : ℕ → ℕ} (size offset c : ℕ) (buffer : List ℕ)
    → c ≤ size
    → Written disk d sec c offset buffer r
    → Written r d sec (size - c) (offset + c) (drop c buffer) r'
    → Written disk d sec size offset buffer r'
Written-trans size offset c buffer l s t = record {
  file = t.file;
  same_size = t.same_size ∙ s.same_size;
  bytes =
      λ p h. ground (arith, t.bytes p h, s.bytes p h, get_or-drop c buffer (p - (offset + c)) 0);
  others = λ k out. t.others k out ∙ s.others k out;
}
