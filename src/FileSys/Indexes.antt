-- ===== src/FileSys/Indexes.antt =====
-- The index blocks of an inode: reading them into memory, and writing them back.
use class_assignments.Prelude.{
  ℕ, zero, suc, ◌≤◌, ◌<◌, ◌≡◌, ◌≢◌, refl, ◌∙◌, Bool, true, false, some, List, [], ◌∷◌, arith, ◌>>=◌,
  lt→ltb, le→leb, length, get_elem?, get_or, All,
}
use class_assignments.Bitmap.Bits.{IsBitmap, bit, bitmap_test-bit}
use class_assignments.Disk.{Sector, index_sector, Disk, update, block_read}
use class_assignments.Inode.{inode_open_lv1}
use class_assignments.FileSys.{FileSys, Claim}
use class_assignments.FileSys.Blocks.{open_indexes, write_indexes}
use class_assignments.FileSys.Claims.{put_sector, block_write_lem, IsAllocator, put-Good}

-- The sector `s` is marked, does not belong to the map's file, and holds the index block `xs`.
pub record IsIndex (own : ℕ → Bool) (fs : FileSys) (s : ℕ) (xs : List ℕ) : Type 0 where
  pub marked : bit fs.free_map s ≡ true
  pub in_map : s < fs.free_map.bit_cnt
  pub apart : own s ≡ false
  pub readable : s ≤ 50000
  pub in_disk : s < fs.disk.size
  pub holds : fs.disk.sectors s ≡ index_sector xs

abbrev pub NotIn : ℕ → List ℕ → Type 0
NotIn t [] = Unit
NotIn t (s ∷ ss) = (s ≢ t) × NotIn t ss

-- The sectors `ss`, each another one, hold the index blocks.
abbrev pub Loaded : (ℕ → Bool) → FileSys → List ℕ → List (List ℕ) → Type 0
Loaded own fs [] [] = Unit
Loaded own fs [] (xs ∷ xss) = ⊥
Loaded own fs (s ∷ ss) [] = ⊥
Loaded own fs (s ∷ ss) (xs ∷ xss) = IsIndex own fs s xs × NotIn s ss × Loaded own fs ss xss

inode_open_lv1-IsIndex :
    {own : ℕ → Bool} {fs : FileSys} {s : ℕ} {xs : List ℕ}
    → IsIndex own fs s xs
    → inode_open_lv1 fs.disk s ≡ some xs
unfolding inode_open_lv1 block_read
inode_open_lv1-IsIndex {fs = fs} {s = s} v =
    rw (le→leb s 50000 v.readable, lt→ltb s fs.disk.size v.in_disk, v.holds)

pub open_indexes-Loaded :
    (own : ℕ → Bool) (fs : FileSys) (ss : List ℕ) (xss : List (List ℕ))
    → IsBitmap fs.free_map
    → Loaded own fs ss xss
    → open_indexes ss fs ≡ some xss
unfolding open_indexes
open_indexes-Loaded own fs [] [] v h = refl
open_indexes-Loaded own fs [] (xs ∷ xss) v h = absurd h
open_indexes-Loaded own fs (s ∷ ss) [] v h = absurd h
open_indexes-Loaded own fs (s ∷ ss) (xs ∷ xss) v h = rw (
  bitmap_test-bit v s h.0.in_map,
  h.0.marked,
  inode_open_lv1-IsIndex h.0,
  open_indexes-Loaded own fs ss xss v h.2,
)

-- The index block numbered `i`.
pub Loaded-at :
    (own : ℕ → Bool) (fs : FileSys) (ss : List ℕ) (xss : List (List ℕ)) (i : ℕ)
    → Loaded own fs ss xss
    → i < length xss
    → (get_elem? ss i >>= inode_open_lv1 fs.disk) ≡ some (get_or xss i [])
Loaded-at own fs [] [] i h l = absurd (omega arith)
Loaded-at own fs [] (xs ∷ xss) i h l = absurd h
Loaded-at own fs (s ∷ ss) [] i h l = absurd h
Loaded-at own fs (s ∷ ss) (xs ∷ xss) zero h l = inode_open_lv1-IsIndex h.0
Loaded-at own fs (s ∷ ss) (xs ∷ xss) (suc i) h l = Loaded-at own fs ss xss i h.2 (omega arith)

-- Index blocks are where they were, if their sectors are.
pub Loaded-same :
    (own : ℕ → Bool) (fs fs' : FileSys) (ss : List ℕ) (xss : List (List ℕ))
    → fs'.free_map.bit_cnt ≡ fs.free_map.bit_cnt
    → fs'.disk.size ≡ fs.disk.size
    → ((t : ℕ) → bit fs.free_map t ≡ true → bit fs'.free_map t ≡ true)
    → All (λ t. fs'.disk.sectors t ≡ fs.disk.sectors t) ss
    → Loaded own fs ss xss
    → Loaded own fs' ss xss
Loaded-same own fs fs' [] [] map size still same h = tt
Loaded-same own fs fs' [] (xs ∷ xss) map size still same h = h
Loaded-same own fs fs' (s ∷ ss) [] map size still same h = h
Loaded-same own fs fs' (s ∷ ss) (xs ∷ xss) map size still same h = (
  record {
    marked = still s h.0.marked;
    in_map = omega (arith, h.0.in_map);
    apart = h.0.apart;
    readable = h.0.readable;
    in_disk = omega (arith, h.0.in_disk);
    holds = same.0 ∙ h.0.holds;
  },
  h.1,
  Loaded-same own fs fs' ss xss map size still same.1 h.2,
)

-- What leaves the marked sectors alone leaves the index blocks alone.
pub same-Loaded :
    (own : ℕ → Bool) (fs fs' : FileSys) (ss : List ℕ) (xss : List (List ℕ))
    → ((t : ℕ) → own t ≡ false → bit fs.free_map t ≡ true → fs'.disk.sectors t ≡ fs.disk.sectors t)
    → Loaded own fs ss xss
    → All (λ t. fs'.disk.sectors t ≡ fs.disk.sectors t) ss
same-Loaded own fs fs' [] [] same h = tt
same-Loaded own fs fs' [] (xs ∷ xss) same h = absurd h
same-Loaded own fs fs' (s ∷ ss) [] same h = absurd h
same-Loaded own fs fs' (s ∷ ss) (xs ∷ xss) same h =
    (same s h.0.apart h.0.marked, same-Loaded own fs fs' ss xss same h.2)

-- What leaves every index block of the disk alone leaves these alone.
pub same_indexes-Loaded :
    (own : ℕ → Bool) (fs fs' : FileSys) (ss : List ℕ) (xss : List (List ℕ))
    → ((t : ℕ) (xs : List ℕ)
        → fs.disk.sectors t ≡ index_sector xs
        → fs'.disk.sectors t ≡ fs.disk.sectors t)
    → Loaded own fs ss xss
    → All (λ t. fs'.disk.sectors t ≡ fs.disk.sectors t) ss
same_indexes-Loaded own fs fs' [] [] same h = tt
same_indexes-Loaded own fs fs' [] (xs ∷ xss) same h = absurd h
same_indexes-Loaded own fs fs' (s ∷ ss) [] same h = absurd h
same_indexes-Loaded own fs fs' (s ∷ ss) (xs ∷ xss) same h =
    (same s xs h.0.holds, same_indexes-Loaded own fs fs' ss xss same h.2)

-- A write elsewhere leaves them alone.
pub same-NotIn :
    (f : ℕ → Sector) (s : ℕ) (c : Sector) (ss : List ℕ)
    → NotIn s ss
    → All (λ t. update f s c t ≡ f t) ss
same-NotIn f s c [] h = tt
same-NotIn f s c (t ∷ ss) h = (ground (arith, h.0), same-NotIn f s c ss h.1)

-- A sector of another type is none of the index blocks.
pub NotIn-Loaded :
    (own : ℕ → Bool) (fs : FileSys) (t : ℕ) (ss : List ℕ) (xss : List (List ℕ))
    → ((xs : List ℕ) → fs.disk.sectors t ≢ index_sector xs)
    → Loaded own fs ss xss
    → NotIn t ss
NotIn-Loaded own fs t [] [] other h = tt
NotIn-Loaded own fs t [] (xs ∷ xss) other h = absurd h
NotIn-Loaded own fs t (s ∷ ss) [] other h = absurd h
NotIn-Loaded own fs t (s ∷ ss) (xs ∷ xss) other h =
    ((λ e. other xs (rw (← e) h.0.holds)), NotIn-Loaded own fs t ss xss other h.2)

-- Writing the index blocks back.
pub record Rewritten (own : ℕ → Bool) (ss : List ℕ) (yss : List (List ℕ)) (fs : FileSys)
    (disk : Disk) : Type 0 where
  pub loaded : Loaded own (record fs { disk = disk }) ss yss
  pub same : (t : ℕ) → NotIn t ss → disk.sectors t ≡ fs.disk.sectors t
  pub same_size : disk.size ≡ fs.disk.size

module _ {allocate : (cnt : ℕ) → FileSys → Claim} {Good : FileSys → Type 0} {own : ℕ → Bool}
    (al : IsAllocator allocate Good own) where
  pub write_indexes-Rewritten :
      (ss : List ℕ) (xss yss : List (List ℕ)) (fs : FileSys)
      → Good fs
      → Loaded own fs ss xss
      → length yss ≡ length xss
      → (disk : Disk) × (write_indexes ss yss fs.disk ≡ some disk)
        × Good (record fs { disk = disk })
        × Rewritten own ss yss fs disk
  unfolding write_indexes
  write_indexes-Rewritten [] [] [] fs good h l =
      (fs.disk, refl, good, record { loaded = tt; same = λ t n. refl; same_size = refl })
  write_indexes-Rewritten [] [] (ys ∷ yss) fs good h l = absurd (omega arith)
  write_indexes-Rewritten [] (xs ∷ xss) yss fs good h l = absurd h
  write_indexes-Rewritten (s ∷ ss) [] yss fs good h l = absurd h
  write_indexes-Rewritten (s ∷ ss) (xs ∷ xss) [] fs good h l = absurd (omega arith)
  write_indexes-Rewritten (s ∷ ss) (xs ∷ xss) (ys ∷ yss) fs good h l =
      let fs1 = put_sector fs s (index_sector ys) in
      let good1 = put-Good al fs good s (index_sector ys) h.0.apart in
      let kept =
        Loaded-same own fs fs1 ss xss refl refl (λ t m. m)
          (same-NotIn fs.disk.sectors s (index_sector ys) ss h.1) h.2 in
      let (disk, run, good2, r) = write_indexes-Rewritten ss xss yss fs1 good1 kept (omega arith) in
      (
        disk,
        rw (block_write_lem fs.disk s (index_sector ys) h.0.in_disk) run,
        good2,
        record {
          loaded = (
            record {
              marked = h.0.marked;
              in_map = h.0.in_map;
              apart = h.0.apart;
              readable = h.0.readable;
              in_disk = omega (arith, h.0.in_disk, r.same_size);
              holds = ground (arith, r.same s h.1);
            },
            h.1,
            r.loaded,
          );
          same = λ t n. ground (arith, r.same t n.1, n.0);
          same_size = r.same_size;
        },
      )
